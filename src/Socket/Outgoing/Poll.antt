-- ===== src/Socket/Outgoing/Poll.antt =====
-- The event of a socket's descriptor that it can be written to, in the active state.
use klibmsg.Base.{
  ℕ, suc, ◌≡◌, refl, Bool, true, false, ◌||◌, Option, none, some, List, [], ◌∷◌, ◌⊎◌, inl, inr, ℤ,
  if◌then◌else◌,
}
use klibmsg.Memory.{Memory}
use klibmsg.Codes.{sock_event_type_sent, sock_src_fd, worker_fd_out}
use klibmsg.Os.{Rc, rc_ok, rc_err, eagain, econnreset}
use klibmsg.Message.{NetMsg, Layout}
use klibmsg.Transfer.Send.{is_hard, outgoing, size, Progress, send_raw-Progress}
use klibmsg.Net.{
  SockState, active, Sock, Act, sent, sock_ptr, write, reset_out, M, ◌>>=◌, ◌>>◌, modify, emit,
}
use klibmsg.Fsm.{is_stopping}
use klibmsg.Socket.Ops.{internal_tasks, Env, dequeue, dequeue_net_msg_to_buf, sock_send_raw}
use klibmsg.Socket.Events.{after_send, active_out}
use klibmsg.Socket.Cases.{dispatch, handler, case_active}
use klibmsg.Socket.Feed.{feed}
use klibmsg.Socket.Queued.{Unmarked}
use klibmsg.Socket.Runs.{
  Does, pure-Does, get-Does, modify-Does, emit-Does, raise-Does, step-Does, next-Does,
}
use klibmsg.Socket.Runs.InMemory.{
  DoesIn, Does-DoesIn, get_mem-DoesIn, bind-DoesIn, next-DoesIn, step-DoesIn,
}
use klibmsg.Socket.Outgoing.{
  InMessage, Writable, settled, sent_by, wrote, to_write, filled_from, polled, poll_acts,
}

-- The results that `after_send` lets pass.
abbrev Passes : Rc → Type 0
Passes rc = (rc ≡ rc_ok) ⊎ (rc ≡ rc_err eagain) ⊎ (rc ≡ rc_err econnreset)

after_send-Does :
    (i : ℕ) (s : Sock) (rc : Rc) → Passes rc → Does i s (after_send i rc) tt (settled i rc s) []
unfolding after_send settled
after_send-Does i s rc p = elim p [
  | inl e ↦ rw e (
      step-Does (modify-Does i s _ (refl, λ k h. h))
        (raise-Does i _ sent sock_event_type_sent (sock_ptr i)))
  | inr (inl e) ↦ rw e (pure-Does i s tt)
  | inr (inr e) ↦ rw e (pure-Does i s tt)
]

pub sent_by-Progress :
    (env : Env) (mem : Memory) (s : Sock)
    → InMessage env.layout mem s
    → Writable env.layout mem env s
    → Progress
        (outgoing env.layout mem s.out_buf)
        (size env.layout mem s.out_buf)
        s.out_offset
        (is_hard env.writes.0 || is_hard env.writes.1)
        (sent_by env mem s)
sent_by-Progress env mem s m w =
    send_raw-Progress env.layout mem s.out_buf s.out_offset env.writes.0 env.writes.1 m.1 m.0 w.0
      w.1

sent_by-Passes :
    (env : Env) (mem : Memory) (s : Sock)
    → InMessage env.layout mem s
    → Writable env.layout mem env s
    → Passes (sent_by env mem s).rc
sent_by-Passes env mem s m w = elim (sent_by-Progress env mem s m w).outcome [
  | inl (e, at_end) ↦ inl e
  | inr (inl (e, before)) ↦ inr (inl e)
  | inr (inr (e, bad)) ↦ inr (inr e)
]

-- The branch of a test that fails.
otherwise :
    {mem : Memory} {i : ℕ} {s s' : Sock} {l : List Act} {b : Bool} (k m : M (Unit {0}))
    → b ≡ false
    → DoesIn mem i s m tt s' l
    → DoesIn mem i s (if b then k else m) tt s' l
otherwise k m e p = rw e p

dequeue-Unmarked :
    (layout : Layout) (q : List NetMsg) (s : Sock) → Unmarked s (dequeue layout q s).1
unfolding dequeue
dequeue-Unmarked layout [] s = (refl, λ k h. h)
dequeue-Unmarked layout (msg ∷ rest) s = (refl, λ k h. h)

module _ (env : Env) (mem : Memory) (i : ℕ) where
  -- SendRaw and what follows it.
  send-DoesIn :
      (s : Sock)
      → InMessage env.layout mem s
      → Writable env.layout mem env s
      → DoesIn mem i s
          (do rc ← sock_send_raw env i; after_send i rc)
          tt
          (wrote env mem i s)
          (write s.s (sent_by env mem s).wire ∷ [])
  unfolding sock_send_raw
  send-DoesIn s m w =
      let r = sent_by env mem s in
      let s' : Sock = record s { out_offset = r.offset } in
      bind-DoesIn _
        (next-DoesIn _ (Does-DoesIn (get-Does i s)) (
          next-DoesIn _ get_mem-DoesIn (
            step-DoesIn (Does-DoesIn (modify-Does i s _ (refl, λ k h. h))) (
              bind-DoesIn _ (Does-DoesIn (emit-Does i s' (write s.s r.wire)))
                (Does-DoesIn (pure-Does i s' r.rc))))))
        (Does-DoesIn (after_send-Does i s' r.rc (sent_by-Passes env mem s m w)))

  dequeue-Does :
      (s : Sock)
      → Does i s
          (dequeue_net_msg_to_buf env i)
          (dequeue env.layout s.msg_buffer_queue s).0
          (dequeue env.layout s.msg_buffer_queue s).1
          []
  unfolding dequeue_net_msg_to_buf
  dequeue-Does s = next-Does _ (get-Does i s) (
      step-Does (modify-Does i s _ (dequeue-Unmarked env.layout s.msg_buffer_queue s))
        (pure-Does i _ _))

  -- What the writes answer, where there is something to write.
  abbrev pub Answers : Option Sock → Type 0
  Answers none = Unit {0}
  Answers (some t) = InMessage env.layout mem t × Writable env.layout mem env t

  found-DoesIn :
      (q : List NetMsg) (s t : Sock)
      → t ≡ (dequeue env.layout q s).1
      → Answers (filled_from env.layout q s)
      → DoesIn mem i t
          (if (dequeue env.layout q s).0
            then (do
              modify i λ s. record s { is_out_buf_busy = true }
              rc ← sock_send_raw env i
              after_send i rc)
            else emit (reset_out i))
          tt
          (polled env mem i s (filled_from env.layout q s))
          (poll_acts env mem i (filled_from env.layout q s))
  unfolding dequeue
  found-DoesIn [] s t e a = rw e (Does-DoesIn (emit-Does i s (reset_out i)))
  found-DoesIn (msg ∷ rest) s t e a =
      rw e (step-DoesIn (Does-DoesIn (modify-Does i _ _ (refl, λ k h. h))) (send-DoesIn _ a.0 a.1))

  flag-DoesIn :
      (s : Sock) (busy : Bool)
      → Answers (to_write env.layout s busy)
      → DoesIn mem i s
          (if busy then (do rc ← sock_send_raw env i; after_send i rc) else (do
            found ← dequeue_net_msg_to_buf env i
            if found
                then (do
                  modify i λ s. record s { is_out_buf_busy = true }
                  rc ← sock_send_raw env i
                  after_send i rc)
                else emit (reset_out i)))
          tt
          (polled env mem i s (to_write env.layout s busy))
          (poll_acts env mem i (to_write env.layout s busy))
  flag-DoesIn s true a = send-DoesIn s a.0 a.1
  flag-DoesIn s false a =
      next-DoesIn _ (Does-DoesIn (dequeue-Does s)) (found-DoesIn s.msg_buffer_queue s _ refl a)

  -- What there is to write, if anything.
  abbrev pub due : Sock → Option Sock
  due s = to_write env.layout s s.is_out_buf_busy

  out-DoesIn :
      (s : Sock)
      → Answers (due s)
      → DoesIn mem i s
          (active_out env i)
          tt
          (polled env mem i s (due s))
          (poll_acts env mem i (due s))
  unfolding active_out
  out-DoesIn s a = next-DoesIn _ (Does-DoesIn (get-Does i s)) (flag-DoesIn s s.is_out_buf_busy a)

  dispatched :
      (action : ℕ → ℤ → M (Unit {0})) (s : Sock) (st : SockState)
      → st ≡ active
      → Answers (due s)
      → DoesIn mem i s
          (dispatch env action i st sock_src_fd worker_fd_out)
          tt
          (polled env mem i s (due s))
          (poll_acts env mem i (due s))
  unfolding dispatch case_active
  dispatched action s st e a = rw e (out-DoesIn s a)

  -- The event, in an active socket of a state machine that is not stopping.
  pub feed_out-DoesIn :
      (fuel : ℕ) (s : Sock)
      → is_stopping s.fsm_state ≡ false
      → s.state ≡ active
      → Answers (due s)
      → DoesIn mem i s
          (feed (suc fuel) env i sock_src_fd worker_fd_out)
          tt
          (polled env mem i s (due s))
          (poll_acts env mem i (due s))
  unfolding feed handler internal_tasks
  feed_out-DoesIn fuel s f st a = next-DoesIn _ (Does-DoesIn (get-Does i s)) (
      otherwise _ _ f (
        next-DoesIn _ (Does-DoesIn (pure-Does i s false))
          (next-DoesIn _ (Does-DoesIn (get-Does i s)) (dispatched _ s s.state st a))))
