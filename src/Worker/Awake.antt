-- ===== src/Worker/Awake.antt =====
-- When a socket with messages to write will be looked at again.
use klibmsg.Base.{
  ℕ, ◌≡◌, refl, ap, ◌∙◌, Bool, true, false, Option, none, some, List, [], ◌∷◌, ◌++◌, ◌==◌,
  if◌then◌else◌, Bool-cases, ◌⊎◌, inl, inr,
}
use klibmsg.Memory.{Memory}
use klibmsg.Os.{Rc, rc_ok, rc_err}
use klibmsg.Message.{NetMsg, Layout}
use klibmsg.Codes.{sock_event_type_sent}
use klibmsg.Net.{Sock, sent, sock_ptr, TaskKind, Act, add_fd, rm_fd, set_out, reset_out, send_task}
use klibmsg.Socket.Ops.{Env, dequeue}
use klibmsg.Socket.Runs.{tasked}
use klibmsg.Fsm.Laws.{raised-SameButEvents}
use klibmsg.Socket.Outgoing.{settled, filled_from, to_write, polled, poll_acts}
use klibmsg.Socket.Outgoing.Poll.{due}

-- Whether the poller of a socket's worker was last asked to wait until the descriptor can be written
-- to; in a log the latest entry is the first.
abbrev pub wants_out : ℕ → List Act → Bool
wants_out i [] = false
wants_out i (set_out j ∷ log) = if j == i then true else wants_out i log
wants_out i (reset_out j ∷ log) = if j == i then false else wants_out i log
wants_out i (add_fd j fd ∷ log) = if j == i then false else wants_out i log
wants_out i (rm_fd j ∷ log) = if j == i then false else wants_out i log
wants_out i (a ∷ log) = wants_out i log

-- A socket has nothing to write, or its sending task is in a queue, or its worker's poller was last
-- asked to wait for its descriptor.
abbrev pub Awake : ℕ → Sock → List Act → Type 0
Awake i s log =
    ((s.is_out_buf_busy ≡ false) × (s.msg_buffer_queue ≡ []))
    ⊎ (s.task_queued send_task ≡ true)
    ⊎ (wants_out i log ≡ true)

pub tasked-queued : (i : ℕ) (s : Sock) → (tasked i s send_task).task_queued send_task ≡ true
tasked-queued i s = elim (Bool-cases (s.task_queued send_task)) [
  | inl old ↦ rw old old
  | inr new ↦ rw new refl
]

settled-task_queued : (i : ℕ) (rc : Rc) (s : Sock) → (settled i rc s).task_queued ≡ s.task_queued
unfolding settled
settled-task_queued i rc_ok s =
    (raised-SameButEvents i sent sock_event_type_sent (sock_ptr i)
      (record s { is_out_buf_busy = false })).task_queued
settled-task_queued i (rc_err e) s = refl

some-inj : {s t : Sock} → some s ≡ some t → s ≡ t
some-inj h = cc

none-ne-some : {s : Sock} → none ≡ some s → ⊥
none-ne-some h = cc

some-ne-none : {s : Sock} → some s ≡ none → ⊥
some-ne-none h = cc

module _ (layout : Layout) where
  filled_from-none : (q : List NetMsg) (s : Sock) → none ≡ filled_from layout q s → q ≡ []
  filled_from-none [] s h = refl
  filled_from-none (msg ∷ rest) s h = absurd (none-ne-some h)

  filled_from-some :
      (q : List NetMsg) (s t : Sock)
      → some t ≡ filled_from layout q s
      → t.task_queued ≡ s.task_queued
  unfolding dequeue
  filled_from-some [] s t h = cc
  filled_from-some (msg ∷ rest) s t h = ap (λ (x : Sock). x.task_queued) (some-inj h)

  to_write-none :
      (b : Bool) (s : Sock) → none ≡ to_write layout s b → (b ≡ false) × (s.msg_buffer_queue ≡ [])
  to_write-none true s h = absurd (none-ne-some h)
  to_write-none false s h = (refl, filled_from-none s.msg_buffer_queue s h)

  to_write-some :
      (b : Bool) (s t : Sock) → some t ≡ to_write layout s b → t.task_queued ≡ s.task_queued
  to_write-some true s t h = ap (λ (x : Sock). x.task_queued) (some-inj h)
  to_write-some false s t h = filled_from-some s.msg_buffer_queue s t h

  nothing-due :
      (s : Sock) (t : Sock)
      → s.is_out_buf_busy ≡ false
      → s.msg_buffer_queue ≡ []
      → some t ≡ to_write layout s s.is_out_buf_busy
      → ⊥
  nothing-due s t free empty h =
      some-ne-none (h ∙ ap (to_write layout s) free ∙ ap (λ q. filled_from layout q s) empty)

module _ (env : Env) (mem : Memory) (i : ℕ) where
  -- The event of the descriptor.
  pub due-Awake :
      (s : Sock) (log : List Act) (o : Option Sock)
      → o ≡ due env mem i s
      → Awake i s log
      → Awake i (polled env mem i s o) (poll_acts env mem i o ++ log)
  due-Awake s log none h a = inl (to_write-none env.layout s.is_out_buf_busy s h)
  due-Awake s log (some t) h a = elim a [
    | inl (free, empty) ↦ absurd (nothing-due env.layout s t free empty h)
    | inr (inl queued) ↦ inr (
        inl (
          ap (λ (f : TaskKind → Bool). f send_task)
            (settled-task_queued i _ _ ∙ to_write-some env.layout s.is_out_buf_busy s t h)
          ∙ queued))
    | inr (inr waits) ↦ inr (inr waits)
  ]
