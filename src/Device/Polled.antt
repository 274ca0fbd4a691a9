-- ===== src/Device/Polled.antt =====
-- The callbacks that PollCompletionQueue takes out of the queue (device.cpp).
use klibmsg.Base.{
  ℕ, zero, suc, ◌≡◌, refl, ◌∙◌, Bool, true, false, ◌⊎◌, inl, inr, List, [], ◌∷◌, arith,
}
use klibmsg.Channel.{Channel, front, receive}
use klibmsg.Net.{Act, run_callback, Net}
use klibmsg.Device.Held.{Occurs, Ran, awaits, completed, ran, closed_end, Ran-cons}
use klibmsg.Device.Completion.{
  Poll, returns, blocks, unfinished, called, received, poll_completion_queue, tell, told, poll,
}
use klibmsg.Socket.Safety.{Safe, closed, closed-cons}
use klibmsg.Socket.Safety.Partly.{Partly, Within}

-- Each callback of the queue is called or still there, and the sending end is as it was.
abbrev Taken : Channel ℕ → Poll → Type 0
Taken c (returns fs c') =
    ((x : ℕ) → Occurs x c.val → Occurs x fs ⊎ Occurs x c'.val)
    × (c'.is_send_closed ≡ c.is_send_closed)
Taken c (blocks fs c') =
    ((x : ℕ) → Occurs x c.val → Occurs x fs ⊎ Occurs x c'.val)
    × (c'.is_send_closed ≡ c.is_send_closed)
Taken c unfinished = Unit {0}

called-Taken :
    (f : ℕ) (l : List ℕ) (s r : Bool) (p : Poll)
    → Taken (record { val = l; is_send_closed = s; is_receive_closed = r }) p
    → Taken (record { val = f ∷ l; is_send_closed = s; is_receive_closed = r }) (called f p)
unfolding Occurs
called-Taken f l s r (returns fs c') (h, e) = (more, e)
  where
    more : (x : ℕ) → (f ≡ x) ⊎ Occurs x l → ((f ≡ x) ⊎ Occurs x fs) ⊎ Occurs x c'.val
    more x (inl p) = inl (inl p)
    more x (inr o) = elim (h x o) [ inl a ↦ inl (inr a) | inr b ↦ inr b ]
called-Taken f l s r (blocks fs c') (h, e) = (more, e)
  where
    more : (x : ℕ) → (f ≡ x) ⊎ Occurs x l → ((f ≡ x) ⊎ Occurs x fs) ⊎ Occurs x c'.val
    more x (inl p) = inl (inl p)
    more x (inr o) = elim (h x o) [ inl a ↦ inl (inr a) | inr b ↦ inr b ]
called-Taken f l s r unfinished h = tt

poll-Taken :
    (fuel : ℕ) (l : List ℕ) (s r : Bool)
    → let c : Channel ℕ = record { val = l; is_send_closed = s; is_receive_closed = r } in
      Taken c (poll_completion_queue fuel c)
unfolding poll_completion_queue receive front received Occurs
poll-Taken zero l s r = tt
poll-Taken (suc fuel) [] true true = (λ x h. absurd h, refl)
poll-Taken (suc fuel) [] true false = (λ x h. absurd h, refl)
poll-Taken (suc fuel) [] false true = (λ x h. absurd h, refl)
poll-Taken (suc fuel) [] false false = (λ x h. absurd h, refl)
poll-Taken (suc fuel) (f ∷ l) s true = (λ x h. inr h, refl)
poll-Taken (suc fuel) (f ∷ l) s false = called-Taken f l s false _ (poll-Taken fuel l s false)

tell-old : (x : ℕ) (fs : List ℕ) (l : List Act) → Ran x l → Ran x (tell fs l)
unfolding tell
tell-old x [] l h = h
tell-old x (f ∷ fs) l h = tell-old x fs _ (Ran-cons x (run_callback f) l h)

tell-new : (x : ℕ) (fs : List ℕ) (l : List Act) → Occurs x fs → Ran x (tell fs l)
unfolding tell Occurs Ran
tell-new x [] l h = absurd h
tell-new x (f ∷ fs) l (inl e) = tell-old x fs _ (inl e)
tell-new x (f ∷ fs) l (inr h) = tell-new x fs _ h

tell-closed :
    (fd : ℕ) (fs : List ℕ) (l : List Act) → closed fd l ≡ true → closed fd (tell fs l) ≡ true
unfolding tell
tell-closed fd [] l h = h
tell-closed fd (f ∷ fs) l h = tell-closed fd fs _ (closed-cons fd (run_callback f) l h)

taken_Safe :
    (n : Net) (fs : List ℕ) (c' : Channel ℕ)
    → ((x : ℕ) → Occurs x n.dev.cq.val → Occurs x fs ⊎ Occurs x c'.val)
    → c'.is_send_closed ≡ n.dev.cq.is_send_closed
    → Safe n (record n { dev = record n.dev { cq = c' }; log = tell fs n.log })
taken_Safe n fs c' h e = record {
  socks = λ j k. record {
    done_closed = λ p. p;
    kept_or_closed = λ fd p. inl p;
    grows = λ fd p. tell-closed fd fs n.log p;
  };
  later = omega arith;
  wakes = λ w p. p;
  held = λ x. elim [
    | awaits t p ↦ awaits t p
    | completed o ↦ elim (h x o) [ inl a ↦ ran (tell-new x fs n.log a) | inr b ↦ completed b ]
    | ran p ↦ ran (tell-old x fs n.log p)
    | closed_end p ↦ closed_end (e ∙ p)
  ];
}

told-Within : (n : Net) (p : Poll) → Taken n.dev.cq p → Within n (told n p)
unfolding told
told-Within n (returns fs c') (h, e) = taken_Safe n fs c' h e
told-Within n (blocks fs c') (h, e) = taken_Safe n fs c' h e
told-Within n unfinished h = tt

pub poll-Partly : (fuel : ℕ) → Partly (poll fuel)
unfolding poll
poll-Partly fuel = record {
  holds = λ n.
      let c = n.dev.cq in
      told-Within n _ (poll-Taken fuel c.val c.is_send_closed c.is_receive_closed);
}
