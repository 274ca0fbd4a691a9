-- ===== src/Transfer/Grows.antt =====
-- What SendRaw does to `out_offset` when `write` takes bytes (socket.cpp).
use native.Mathlib.Nat.{lt_of_lt_of_le}
use klibmsg.Base.{
  ℕ, zero, suc, ◌+◌, ◌-◌, ◌^◌, ◌<◌, ◌≤◌, ◌≡◌, refl, Bool, Option, none, some, List, lt_ltb,
  lt_of_ltb, ge_of_ltb, arith, ltb, Bool-cases, inl, inr, max,
}
use klibmsg.Memory.{Memory}
use klibmsg.Os.{Io, moved, failed, add_int, add_int_small, to_word_small}
use klibmsg.Message.{Layout, sizeof_net_msg}
use klibmsg.Transfer.{wrote, nbytes, send_header, finish_send, send_rest, send_raw}
use klibmsg.Transfer.Send.{Within, is_hard, Part, msg, size, data-Part, header_skipped, data_late}

-- The write takes at least a byte.
abbrev pub Takes : Io ℕ → Type 0
Takes (moved (suc n)) = Unit {0}
Takes _ = ⊥

finish_send-forward :
    (s : Memory) (o limit : ℕ) (bad : Bool) (w : List ℕ) (r : Option (ℕ × List ℕ)) (n : ℕ)
    → Part s o limit bad r
    → o ≤ (finish_send o w r n).offset
unfolding finish_send
finish_send-forward s o limit bad w none n p = omega arith
finish_send-forward s o limit bad w (some (o', w')) n p = p.0

-- A write that takes a byte moves the offset.
wrote-Takes :
    (m : Memory) (a offset limit : ℕ) (io : Io ℕ)
    → limit < 2 ^ 31
    → offset ≤ limit
    → Within (limit - offset) io
    → Takes io
    → (o : ℕ) × (w : List ℕ) × (wrote m a offset (nbytes io) ≡ some (o, w))
      × (offset < o)
      × (o ≤ limit)
wrote-Takes m a offset limit (moved zero) l h w t = absurd t
wrote-Takes m a offset limit (moved (suc n)) l h w t =
    let e : add_int offset (suc n) ≡ offset + suc n = add_int_small offset (suc n) (omega arith) in
    (add_int offset (suc n), _, refl, rw e (omega arith), rw e (omega arith))
wrote-Takes m a offset limit (failed e) l h w t = absurd t

module _ (layout : Layout) (mem out_buf : Memory) (small : size layout mem out_buf < 2 ^ 31) where
  header-grows :
      (offset : ℕ) (io io' : Io ℕ)
      → offset < sizeof_net_msg
      → Within (sizeof_net_msg - offset) io
      → Within (size layout mem out_buf - sizeof_net_msg) io'
      → Takes io
      → offset < (send_raw layout mem out_buf offset io io').offset
  unfolding send_raw send_header send_rest
  header-grows offset io io' h w w' t =
      rw (to_word_small offset (omega arith), lt_ltb offset sizeof_net_msg h)
        (let (o, bs, e, more, below) =
            wrote-Takes out_buf offset offset sizeof_net_msg io (omega arith) (omega arith) w t in
          let m : max o sizeof_net_msg ≡ sizeof_net_msg = omega arith in
          rw e (
            lt_of_lt_of_le more (
              finish_send-forward _ o (size layout mem out_buf) (is_hard io') bs _ _
                (data-Part layout mem out_buf small o io' (omega arith) (rw m w')))))

  data-grows :
      (offset : ℕ) (io io' : Io ℕ)
      → sizeof_net_msg ≤ offset
      → offset < size layout mem out_buf
      → Within (size layout mem out_buf - offset) io'
      → Takes io'
      → offset < (send_raw layout mem out_buf offset io io').offset
  unfolding send_raw send_rest finish_send
  data-grows offset io io' h l w t =
      rw
        (
          header_skipped layout mem out_buf small offset io (omega arith) h,
          data_late layout mem out_buf small offset io' (omega arith) h,
          lt_ltb offset (size layout mem out_buf) l,
        )
        (let (o, bs, e, more, below) =
            wrote-Takes mem ((msg layout mem out_buf).src + (offset - sizeof_net_msg)) offset
              (size layout mem out_buf) io' small (omega arith) w t in
          rw e more)

  -- A call in front of the end of the message moves `out_offset`, if the first write that it makes
  -- takes a byte.
  pub send_raw-grows :
      (offset : ℕ) (io io' : Io ℕ)
      → offset < size layout mem out_buf
      → Within (sizeof_net_msg - offset) io
      → Within (size layout mem out_buf - max offset sizeof_net_msg) io'
      → (offset < sizeof_net_msg → Takes io)
      → (sizeof_net_msg ≤ offset → Takes io')
      → offset < (send_raw layout mem out_buf offset io io').offset
  send_raw-grows offset io io' l w w' t t' = elim (Bool-cases (ltb offset sizeof_net_msg)) [
    | inl early ↦
        let h = lt_of_ltb offset sizeof_net_msg early in
        let m : max offset sizeof_net_msg ≡ sizeof_net_msg = omega arith in
        header-grows offset io io' h w (rw m at w') (t h)
    | inr late ↦
        let h = ge_of_ltb offset sizeof_net_msg late in
        let m : max offset sizeof_net_msg ≡ offset = omega arith in
        data-grows offset io io' h l (rw m at w') (t' h)
  ]
