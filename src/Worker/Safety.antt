-- ===== src/Worker/Safety.antt =====
-- Safety of how a worker takes and cancels tasks (worker.cpp).
pub mod Routine
use klibmsg.Base.{
  ℕ, zero, suc, ◌<◌, ◌≡◌, refl, ◌∙◌, ap, Bool, true, false, not, ◌⊎◌, inl, inr, Option, none, some,
  List, [], ◌∷◌, ◌++◌, arith, ltb, ◌==◌, if◌then◌else◌, Bool-cases, ℤ,
}
use klibmsg.Os.{Io}
use klibmsg.Poller
use klibmsg.Poller.{Poller, Slot, Kind}
use klibmsg.Net.{
  TaskKind, Task, sock_task, stop_item, Net, M, pure, ◌>>=◌, ◌>>◌, get, modify, change, emit, check,
  signal, at, and_then, count_act,
}
use klibmsg.Codes.{worker_task_execute, sock_src_fd}
use klibmsg.Device.State.{User}
use klibmsg.Worker.{
  unsignal, take_queue, take_tasks, push_stop, terminate, without_task, has_task, set_task,
  remove_task, get_tasks, cancel, Turn, feed_in_context, discard, unqueue_stop, run_tasks,
  first_turn, handle_event, next_event, or_stop, on_event, event_loop, set_poller, wait_events,
  Round, unless_stopped, routine, fd_code, is_poller_in, task_src, hold, get_taken, take_and_hold,
  pop_task, pop_taken,
}
use klibmsg.Context.Safety.{execute_critical_section-Partly}
use klibmsg.Socket.Feed.{feed}
use klibmsg.Socket.Safety.{
  Safe, SockSafe-refl, Safe-refl, Woken, Keeps, bind-Keeps, then-Keeps, pure-Keeps, get-Keeps,
  check-Keeps, if-Keeps, emit-Keeps, modify-Keeps_same, change-Keeps, closed-cons,
}
use klibmsg.Socket.Safety.Partly.{
  Partly, Within, Keeps-Partly, fuel-Partly, bind-Partly, then-Partly,
}
use klibmsg.Socket.Safety.Feed.{feed-Keeps}

-- A change that leaves the sockets, the log and the device.
pub quiet_Safe :
    (n n' : Net)
    → n'.socks ≡ n.socks
    → n'.log ≡ n.log
    → n'.dev ≡ n.dev
    → ((w : ℕ) → Woken n w → Woken n' w)
    → Safe n n'
quiet_Safe n n' s l d w = record {
  socks = λ j h. rw (s, l) (SockSafe-refl (n.socks j) n.log);
  later = rw d (omega arith);
  wakes = w;
  held = λ x h. rw (d, l) h;
}

-- The tasks are taken: the worker has none, and no other worker is touched.
taken_Woken :
    (w v c : ℕ) (tasks : ℕ → List Task) (count : ℕ → ℕ)
    → (tasks v ≡ []) ⊎ (0 < count v)
    → (at tasks w (λ l. []) v ≡ []) ⊎ (0 < at count w (λ c. 0) v)
taken_Woken w v c tasks count h = elim (Bool-cases (v == w)) [
  | inl here ↦ inl (rw here)
  | inr other ↦ elim h [ inl e ↦ inl (rw (other, e)) | inr p ↦ inr (rw other p) ]
]

pub take_tasks-Keeps : (w : ℕ) → Keeps (take_tasks w)
unfolding take_tasks unsignal take_queue ◌>>=◌
take_tasks-Keeps w = record {
  holds = λ n. elim (Bool-cases (ltb 0 (n.efd_count w))) [
    | inl signalled ↦
        rw signalled (quiet_Safe n _ refl refl refl λ v h. taken_Woken w v 0 n.tasks n.efd_count h)
    | inr not_signalled ↦ rw not_signalled tt
  ];
}

-- The tasks of a worker become others, where it has been signalled or there were none.
without_nil : (i : ℕ) (k : TaskKind) (l : List Task) → l ≡ [] → without_task i k l ≡ []
unfolding without_task
without_nil i k [] e = refl
without_nil i k (t ∷ l) e = cc

removed_Woken :
    (w i v : ℕ) (k : TaskKind) (tasks : ℕ → List Task) (count : ℕ → ℕ)
    → (tasks v ≡ []) ⊎ (0 < count v)
    → (at tasks w (without_task i k) v ≡ []) ⊎ (0 < count v)
removed_Woken w i v k tasks count h = elim h [
  | inr c ↦ inr c
  | inl e ↦ elim (Bool-cases (v == w)) [
    | inl here ↦ inl (rw here (without_nil i k (tasks v) e))
    | inr other ↦ inl (rw other e)
  ]
]

get_tasks-Keeps : (w : ℕ) → Keeps (get_tasks w)
unfolding get_tasks
get_tasks-Keeps w = record { holds = λ n. Safe-refl n }

pub set_task-Keeps : (i : ℕ) (k : TaskKind) (b : Bool) → Keeps (modify i (set_task k b))
set_task-Keeps i k b = modify-Keeps_same i (set_task k b) (λ s. refl) (λ s h. h)

remove_task-Keeps : (w i : ℕ) (k : TaskKind) → Keeps (remove_task w i k)
unfolding remove_task
remove_task-Keeps w i k =
    change-Keeps _
      λ n. quiet_Safe n _ refl refl refl λ v h. removed_Woken w i v k n.tasks n.efd_count h

pub cancel-Keeps : (w i : ℕ) (k : TaskKind) → Keeps (cancel w i k)
unfolding cancel
cancel-Keeps w i k = bind-Keeps (get_tasks-Keeps w) λ queued.
    if-Keeps (has_task i k queued)
      (λ e. then-Keeps (remove_task-Keeps w i k) (set_task-Keeps i k false)) λ e. pure-Keeps tt

pub unqueue_stop-Keeps : (w : ℕ) → Keeps (unqueue_stop w)
unfolding unqueue_stop
unqueue_stop-Keeps w = change-Keeps _ λ n. quiet_Safe n _ refl refl refl λ v h. h

pub discard-Keeps : (w : ℕ) (l : List Task) → Keeps (discard w l)
unfolding discard
discard-Keeps w [] = pure-Keeps tt
discard-Keeps w (sock_task i k ∷ l) = then-Keeps (set_task-Keeps i k false) (discard-Keeps w l)
discard-Keeps w (stop_item ∷ l) = discard-Keeps w l

hold-Keeps : (w : ℕ) (l : List Task) → Keeps (hold w l)
unfolding hold
hold-Keeps w l = change-Keeps _ λ n. quiet_Safe n _ refl refl refl λ v h. h

get_taken-Keeps : (w : ℕ) → Keeps (get_taken w)
unfolding get_taken
get_taken-Keeps w = record { holds = λ n. Safe-refl n }

pub take_and_hold-Keeps : (w : ℕ) → Keeps (take_and_hold w)
unfolding take_and_hold
take_and_hold-Keeps w =
    bind-Keeps (get_taken-Keeps w)
      λ held. bind-Keeps (take_tasks-Keeps w) λ l. hold-Keeps w (held ++ l)

pop_task-Keeps : (w : ℕ) (l : List Task) → Keeps (pop_task w l)
unfolding pop_task
pop_task-Keeps w [] = pure-Keeps tt
pop_task-Keeps w (stop_item ∷ l) =
    then-Keeps (hold-Keeps w []) (then-Keeps (unqueue_stop-Keeps w) (discard-Keeps w l))
pop_task-Keeps w (sock_task i k ∷ l) = then-Keeps (hold-Keeps w l) (set_task-Keeps i k false)

pub pop_taken-Keeps : (w : ℕ) → Keeps (pop_taken w)
unfolding pop_taken
pop_taken-Keeps w = bind-Keeps (get_taken-Keeps w) λ held. pop_task-Keeps w held
