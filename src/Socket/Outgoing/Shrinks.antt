-- ===== src/Socket/Outgoing/Shrinks.antt =====
-- An event whose writes take at least a byte leaves less to be written.
use klibmsg.Base.{
  ℕ, ◌-◌, ◌<◌, ◌≤◌, ◌≡◌, refl, sym, ap, ◌∙◌, Bool, true, false, ◌||◌, Option, none, some, List, [],
  ◌∷◌, ◌++◌, length, length-append, inl, inr, arith,
}
use klibmsg.Memory.{Memory, length-load}
use klibmsg.Message.{NetMsg, Layout, sizeof_net_msg}
use klibmsg.Transfer.{Sent}
use klibmsg.Transfer.Send.{is_hard, Progress, outgoing, size}
use klibmsg.Transfer.Grows.{Takes, send_raw-grows}
use klibmsg.Net.{Sock}
use klibmsg.Socket.Ops.{Env, dequeue}
use klibmsg.Socket.Outgoing.{
  queue_bytes, rest_of, to_send, Writable, AllSendable, sent_by, settled, wrote, filled_from,
  to_write, polled,
}
use klibmsg.Socket.Outgoing.Bytes.{not_busy}
use klibmsg.Socket.Outgoing.Poll.{sent_by-Progress, due}
use klibmsg.Socket.Outgoing.Step.{Sending, Accepts, wire-written, wrote-Poll, t, filled-Sending}

-- The message in the output buffer is not at its end.
abbrev pub Unfinished : Layout → Memory → Sock → Type 0
Unfinished layout mem s = s.is_out_buf_busy ≡ true → s.out_offset < size layout mem s.out_buf

-- Neither write fails for good, and the first one that the call makes takes at least a byte.
abbrev pub Eager : Env → Option Sock → Type 0
Eager env none = Unit {0}
Eager env (some t) =
    (is_hard env.writes.0 ≡ false)
    × (is_hard env.writes.1 ≡ false)
    × (t.out_offset < sizeof_net_msg → Takes env.writes.0)
    × (sizeof_net_msg ≤ t.out_offset → Takes env.writes.1)

neither : (a b : Bool) → a ≡ false → b ≡ false → (a || b) ≡ false
neither a b h k = ground arith

settled-Unfinished :
    (layout : Layout) (mem : Memory) (i : ℕ) (r : Sent) (bad : Bool) (t : Sock)
    → Progress (outgoing layout mem t.out_buf) (size layout mem t.out_buf) t.out_offset bad r
    → bad ≡ false
    → Unfinished layout mem (settled i r.rc (record t { out_offset = r.offset }))
unfolding settled
settled-Unfinished layout mem i r bad t p good b = elim p.outcome [
  | inl (e, at_end) ↦
      absurd (not_busy layout mem i (record t { out_offset = r.offset }) (rw e at b))
  | inr (inl (e, before)) ↦ rw e before
  | inr (inr (e, b')) ↦ absurd (let e' : true ≡ false = sym b' ∙ good in cc)
]

module _ (env : Env) (mem : Memory) (fd i : ℕ) where
  -- There is less to write by a byte at least, if there is any.
  abbrev pub Shorter : Sock → Option Sock → Type 0
  Shorter s o =
      Unfinished env.layout mem (polled env mem i s o)
      × (length (to_send env.layout mem (polled env mem i s o))
          ≤ length (to_send env.layout mem s) - 1)

  wrote-Unfinished :
      (t : Sock)
      → t.is_out_buf_busy ≡ true
      → Sending env.layout mem fd t
      → Writable env.layout mem env t
      → Eager env (some t)
      → Unfinished env.layout mem (wrote env mem i t)
  wrote-Unfinished t busy h w g =
      settled-Unfinished env.layout mem i (sent_by env mem t) _ t
        (sent_by-Progress env mem t (h.inside busy) w) (neither _ _ g.0 g.1)

  wrote-Shorter :
      (t : Sock)
      → t.is_out_buf_busy ≡ true
      → Sending env.layout mem fd t
      → Unfinished env.layout mem t
      → Writable env.layout mem env t
      → Eager env (some t)
      → Shorter t (some t)
  wrote-Shorter t busy h u w g =
      let m = h.inside busy in
      let r = sent_by env mem t in
      let p = sent_by-Progress env mem t m w in
      let more =
        send_raw-grows env.layout mem t.out_buf m.1 t.out_offset env.writes.0 env.writes.1 (u busy)
          w.0 w.1 g.2 g.3 in
      let bytes = (wrote-Poll env mem fd i t busy h w).1 in
      let wire = wire-written env mem fd i t h.is_open r.wire in
      let sum = length-append r.wire (to_send env.layout mem (wrote env mem i t)) in
      let taken = ap length p.written ∙ length-load _ t.out_offset (r.offset - t.out_offset) in
      let all = ap length (rw wire at bytes) in
      (wrote-Unfinished t busy h w g, omega (arith, more, sum, taken, all))

  start :
      (msg : NetMsg) (rest : List NetMsg) (s : Sock)
      → Unfinished env.layout mem (t env mem fd i msg rest s)
  unfolding dequeue
  start msg rest s b = omega arith

  queue-Shorter :
      (q : List NetMsg) (s : Sock)
      → Sending env.layout mem fd s
      → AllSendable q
      → to_send env.layout mem s ≡ queue_bytes env.layout mem q
      → Unfinished env.layout mem s
      → Accepts env mem (filled_from env.layout q s)
      → Eager env (filled_from env.layout q s)
      → Shorter s (filled_from env.layout q s)
  unfolding queue_bytes
  queue-Shorter [] s h k e u w g = (u, rw e (omega arith))
  queue-Shorter (msg ∷ rest) s h k e u w g =
      let (h', e') = filled-Sending env mem fd i msg rest s h k in
      let s' = t env mem fd i msg rest s in
      let p = wrote-Shorter s' refl h' (start msg rest s) w g in (p.0, rw (e' ∙ sym e) at (p.1))

  -- The event, while there is something to write.
  flag-Shorter :
      (b : Bool) (s : Sock)
      → s.is_out_buf_busy ≡ b
      → Sending env.layout mem fd s
      → Unfinished env.layout mem s
      → Accepts env mem (to_write env.layout s b)
      → Eager env (to_write env.layout s b)
      → Shorter s (to_write env.layout s b)
  unfolding to_send rest_of
  flag-Shorter true s e h u w g = wrote-Shorter s e h u w g
  flag-Shorter false s e h u w g =
      queue-Shorter s.msg_buffer_queue s h h.sendable
        (ap (λ b. rest_of env.layout mem b s ++ queue_bytes env.layout mem s.msg_buffer_queue) e) u
        w g

  pub polled-Shorter :
      (s : Sock)
      → Sending env.layout mem fd s
      → Unfinished env.layout mem s
      → Accepts env mem (due env mem i s)
      → Eager env (due env mem i s)
      → Shorter s (due env mem i s)
  polled-Shorter s h u w g = flag-Shorter s.is_out_buf_busy s refl h u w g
