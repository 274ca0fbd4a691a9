-- ===== src/Channel/Fifo.antt =====
-- The order of the items of a channel.
use klibmsg.Base.{
  ◌≡◌, refl, sym, ◌∙◌, ap, Bool, true, false, ◌||◌, List, [], ◌∷◌, ◌++◌, Bool-cases, inl, inr,
  append_assoc, append-nil,
}
use klibmsg.Channel.{
  Channel, Receipt, waits, fails, gets, send, front, receive, close_send_end, close_receive_end,
}

pub data Call (A : Type 0) : Type 0 where
  sends : A → Call A
  receives : Call A
  closes_send : Call A
  closes_receive : Call A

-- The items that the channel took, and those that it gave, by a sequence of calls.
pub record Traffic (A : Type 0) : Type 0 where
  pub taken : List A
  pub given : List A
  pub last : Channel A

module _ {A : Type 0} where
  abbrev cons_if : Bool → A → List A → List A
  cons_if true a l = a ∷ l
  cons_if false a l = l

  abbrev cons_got : Receipt A → List A → List A
  cons_got (gets a) l = a ∷ l
  cons_got r l = l

  unfoldable pub traffic : Channel A → List (Call A) → Traffic A
  traffic c [] = record { taken = []; given = []; last = c }
  traffic c (sends a ∷ cs) =
      let r = send a c in let t = traffic r.1 cs in record t { taken = cons_if r.0 a t.taken }
  traffic c (receives ∷ cs) =
      let r = receive c in let t = traffic r.1 cs in record t { given = cons_got r.0 t.given }
  traffic c (closes_send ∷ cs) = traffic (close_send_end c) cs
  traffic c (closes_receive ∷ cs) = traffic (close_receive_end c) cs

  send-val :
      (a : A) (c : Channel A) (taken rest : List A)
      → (send a c).1.val ++ taken ≡ rest
      → c.val ++ cons_if (send a c).0 a taken ≡ rest
  unfolding send
  send-val a c taken rest h = elim (Bool-cases c.is_send_closed) [
    | inl shut ↦ rw shut (rw shut at h)
    | inr can ↦ rw can (sym (append_assoc c.val (a ∷ []) taken) ∙ rw can at h)
  ]

  front-val :
      (l : List A) (c : Channel A)
      → c.val ≡ l
      → (ys zs : List A) → (front l c).1.val ++ ys ≡ zs
      → l ++ ys ≡ cons_got (front l c).0 zs
  unfolding front
  front-val [] c e ys zs h = elim (Bool-cases (c.is_receive_closed || c.is_send_closed)) [
    | inl shut ↦ rw shut (rw e at h)
    | inr can ↦ rw can (rw e at h)
  ]
  front-val (x ∷ xs) c e ys zs h = elim (Bool-cases c.is_receive_closed) [
    | inl shut ↦ rw shut (rw (shut, e) at h)
    | inr can ↦ rw can (ap (◌∷◌ x) (rw can at h))
  ]

  got-append : (r : Receipt A) (ys zs : List A) → cons_got r (ys ++ zs) ≡ cons_got r ys ++ zs
  got-append (gets a) ys zs = refl
  got-append waits ys zs = refl
  got-append fails ys zs = refl

  -- Whatever the calls, what was in the channel and what it took come out in that order: they are
  -- the items that it gave, and then those that it still holds.
  pub traffic-fifo :
      (c : Channel A) (cs : List (Call A))
      → c.val ++ (traffic c cs).taken ≡ (traffic c cs).given ++ (traffic c cs).last.val
  unfolding traffic receive close_send_end close_receive_end
  traffic-fifo c [] = append-nil c.val
  traffic-fifo c (sends a ∷ cs) = send-val a c _ _ (traffic-fifo (send a c).1 cs)
  traffic-fifo c (receives ∷ cs) =
      front-val c.val c refl _ _ (traffic-fifo (receive c).1 cs) ∙ got-append (receive c).0 _ _
  traffic-fifo c (closes_send ∷ cs) = traffic-fifo (close_send_end c) cs
  traffic-fifo c (closes_receive ∷ cs) = traffic-fifo (close_receive_end c) cs
