-- ===== src/Worker/Safety/Routine.antt =====
-- Safety of the rounds of NetWorkerRoutine (worker.cpp).
use klibmsg.Base.{
  ℕ, zero, suc, ◌≡◌, ◌<◌, ◌⊎◌, ◌∙◌, refl, Bool, true, false, inl, inr, Option, none, some, List, [],
  ◌∷◌, ◌++◌, arith, ◌==◌, if◌then◌else◌, Bool-cases, ℤ,
}
use klibmsg.Os.{Io}
use klibmsg.Poller
use klibmsg.Poller.{Poller, Slot, Kind}
use klibmsg.Device.Held.{Held-cons}
use klibmsg.Net.{Task, sock_task, stop_item, Net, M, ◌>>=◌, change, emit, signal, at, count_act}
use klibmsg.Device.State.{User}
use klibmsg.Worker.{
  push_stop, terminate, Turn, feed_in_context, run_tasks, first_turn, handle_event, next_event,
  or_stop, on_event, event_loop, set_poller, wait_events, Round, unless_stopped, routine,
}
use klibmsg.Context.Safety.{execute_critical_section-Partly}
use klibmsg.Socket.Safety.{Woken, Keeps, pure-Keeps, check-Keeps, change-Keeps, closed-cons}
use klibmsg.Socket.Safety.Partly.{Partly, Keeps-Partly, fuel-Partly, bind-Partly, then-Partly}
use klibmsg.Socket.Safety.Feed.{feed-Keeps}
use klibmsg.Worker.Safety.{
  quiet_Safe, take_tasks-Keeps, set_task-Keeps, unqueue_stop-Keeps, discard-Keeps,
}

-- `stop_` is in the queue, or it was, and the worker is signalled.
stop_same :
    (w : ℕ) (n : Net)
    → let r = record n {
      tasks = at n.tasks w (λ l. l ++ stop_item ∷ []);
      stop_queued = at n.stop_queued w λ b. true;
    } in
      let n' = if n.stop_queued w then n else r in
      (n'.socks ≡ n.socks) × (n'.dev ≡ n.dev) × (n'.efd_count ≡ n.efd_count) × (n'.log ≡ n.log)
stop_same w n = elim (Bool-cases (n.stop_queued w)) [
  | inl old ↦ rw old (refl, refl, refl, refl)
  | inr new ↦ rw new (refl, refl, refl, refl)
]

stop_tasks :
    (w v : ℕ) (n : Net)
    → (v == w) ≡ false
    → let r = record n {
      tasks = at n.tasks w (λ l. l ++ stop_item ∷ []);
      stop_queued = at n.stop_queued w λ b. true;
    } in
      (if n.stop_queued w then n else r).tasks v ≡ n.tasks v
stop_tasks w v n other = elim (Bool-cases (n.stop_queued w)) [
  | inl old ↦ rw old
  | inr new ↦ rw (new, other)
]

stop_Woken :
    (w v : ℕ) (n : Net)
    → Woken n v
    → let r = record n {
      tasks = at n.tasks w (λ l. l ++ stop_item ∷ []);
      stop_queued = at n.stop_queued w λ b. true;
    } in
      ((if n.stop_queued w then n else r).tasks v ≡ []) ⊎ (0 < count_act (signal w) n.efd_count v)
unfolding count_act
stop_Woken w v n h = elim (Bool-cases (v == w)) [
  | inl here ↦ inr (rw here (omega arith))
  | inr other ↦ elim h [ inl e ↦ inl (stop_tasks w v n other ∙ e) | inr c ↦ inr (rw other c) ]
]

pub terminate-Keeps : (w : ℕ) → Keeps (terminate w)
unfolding terminate push_stop ◌>>=◌ change emit
terminate-Keeps w = record {
  holds = λ n.
      let (socks, dev, count, log) = stop_same w n in
      record {
        socks = λ j k.
            rw (socks, log)
              (record {
                done_closed = λ h. h;
                kept_or_closed = λ fd e. inl e;
                grows = λ fd h. closed-cons fd (signal w) n.log h;
              });
        later = rw dev (omega arith);
        wakes = λ v h. rw count (stop_Woken w v n h);
        held = λ x h. rw (dev, log) (Held-cons n.dev n.log x (signal w) h);
      };
}

set_poller-Partly : (w : ℕ) (o : Option Poller) → Partly (set_poller w o)
unfolding set_poller
set_poller-Partly w none = fuel-Partly
set_poller-Partly w (some p) =
    Keeps-Partly (change-Keeps _ λ n. quiet_Safe n _ refl refl refl λ v h. h)

pub wait_events-Partly : (w : ℕ) (waits : List (Io (List Slot))) → Partly (wait_events w waits)
unfolding wait_events
wait_events-Partly w waits = record {
  holds = λ n. (set_poller-Partly w (Poller.wait waits (n.pollers w))).holds n;
}

pub next_event-Keeps : (w : ℕ) → Keeps (next_event w)
unfolding next_event
next_event-Keeps w = record { holds = λ n. quiet_Safe n _ refl refl refl λ v h. h }

-- A part of the routine whose result says whether the thread ends.
or_stop-Partly : (more : M Bool) → Partly more → (b : Bool) → Partly (or_stop more b)
unfolding or_stop
or_stop-Partly more p true = Keeps-Partly (pure-Keeps true)
or_stop-Partly more p false = p

unless_stopped-Partly :
    (more : M (Unit {0})) → Partly more → (b : Bool) → Partly (unless_stopped more b)
unfolding unless_stopped
unless_stopped-Partly more p true = Keeps-Partly (pure-Keeps tt)
unless_stopped-Partly more p false = p

first_turn-Partly :
    (turns : List Turn) (f : Turn → M Bool)
    → ((t : Turn) → Partly (f t))
    → Partly (first_turn turns f)
unfolding first_turn
first_turn-Partly [] f h = fuel-Partly
first_turn-Partly (t ∷ turns) f h = h t

module _ (k : ℕ) (user : User) where
  pub feed_in_context-Partly :
      (t : Turn) (i : ℕ) (src type : ℤ) → Partly (feed_in_context (suc (suc k)) user t i src type)
  unfolding feed_in_context
  feed_in_context-Partly t i src type =
      execute_critical_section-Partly k user i _ t.answers t.others (feed-Keeps k t.env i src type)

  pub run_tasks-Partly :
      (w : ℕ) (l : List Task) (turns : List Turn) → Partly (run_tasks (suc (suc k)) user w l turns)
  unfolding run_tasks
  run_tasks-Partly w [] turns = Keeps-Partly (pure-Keeps false)
  run_tasks-Partly w (stop_item ∷ l) turns =
      then-Partly (Keeps-Partly (unqueue_stop-Keeps w))
        (then-Partly (Keeps-Partly (discard-Keeps w l)) (Keeps-Partly (pure-Keeps true)))
  run_tasks-Partly w (sock_task i t ∷ l) [] = fuel-Partly
  run_tasks-Partly w (sock_task i t ∷ l) (turn ∷ turns) =
      then-Partly (Keeps-Partly (set_task-Keeps i t false))
        (then-Partly (feed_in_context-Partly turn i _ _) (run_tasks-Partly w l turns))

  pub handle_event-Partly :
      (w h : ℕ) (kind : Kind) (turns : List Turn)
      → Partly (handle_event (suc (suc k)) user w h kind turns)
  unfolding handle_event
  handle_event-Partly w zero kind turns =
      then-Partly (Keeps-Partly (check-Keeps _))
        (bind-Partly (Keeps-Partly (take_tasks-Keeps w)) λ tasks. run_tasks-Partly w tasks turns)
  handle_event-Partly w (suc i) kind turns =
      first_turn-Partly turns _
        λ t. then-Partly (feed_in_context-Partly t i _ _) (Keeps-Partly (pure-Keeps false))

  on_event-Partly :
      (w : ℕ) (turns : List Turn) (more : M Bool)
      → Partly more
      → (e : Option (ℕ × Kind)) → Partly (on_event (suc (suc k)) user w turns more e)
  unfolding on_event
  on_event-Partly w turns more p none = Keeps-Partly (pure-Keeps false)
  on_event-Partly w turns more p (some (h, kind)) =
      bind-Partly (handle_event-Partly w h kind turns) (or_stop-Partly more p)

  pub event_loop-Partly :
      (w : ℕ) (turns : List (List Turn)) → Partly (event_loop (suc (suc k)) user w turns)
  unfolding event_loop
  event_loop-Partly w [] = fuel-Partly
  event_loop-Partly w (turns ∷ later) =
      bind-Partly (Keeps-Partly (next_event-Keeps w))
        λ e. on_event-Partly w turns _ (event_loop-Partly w later) e

  pub routine-Partly : (w : ℕ) (rounds : List Round) → Partly (routine (suc (suc k)) user w rounds)
  unfolding routine
  routine-Partly w [] = fuel-Partly
  routine-Partly w ((waits, turns) ∷ rounds) =
      then-Partly (wait_events-Partly w waits) (
        bind-Partly (event_loop-Partly w turns) (unless_stopped-Partly _ (routine-Partly w rounds)))
