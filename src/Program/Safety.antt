-- ===== src/Program/Safety.antt =====
-- Safety of the interleavings of the program.
use klibmsg.Base.{ℕ, suc, ◌≡◌, subst, List, [], ◌∷◌, inl, refl, none}
use klibmsg.Net.{change, Net, Run, ok, M, pure, ◌>>=◌}
use klibmsg.Device.State.{User}
use klibmsg.Device.Safety.{
  send_msg-Keeps, send_data-Keeps, read_data-Keeps, close_completion_queue-Keeps, stop_all-Keeps,
}
use klibmsg.Device.Tables.{find, emplace, Listed}
use klibmsg.Device.Held.{Held, awaits}
use klibmsg.Device.Ops.{Sys, read_data, add_callback, change_dev}
use klibmsg.Device.Polled.{poll-Partly}
use klibmsg.Socket.Safety.{Safe, pure-Keeps}
use klibmsg.Socket.Safety.Partly.{Within, Partly, Keeps-Partly, bind-Partly, then-Partly}
use klibmsg.Socket.Safety.Session.{call-Keeps}
use klibmsg.Worker.Safety.{cancel-Keeps, take_and_hold-Keeps, pop_taken-Keeps}
use klibmsg.Worker.Safety.Routine.{
  wait_events-Partly, handle_event-Partly, run_tasks-Partly, routine-Partly, terminate-Keeps,
  feed_in_context-Partly, next_event-Keeps,
}
use klibmsg.Program.{
  Step, send_step, read_step, poll_step, close_step, end_step, call_step, wait_step, next_step,
  take_step, pop_step, event_step, tasks_step, section_step, routine_step, terminate_step,
  cancel_step, perform, perform_all,
}

Within-ok : {A : Type 0} {n n' : Net} {a : A} {r : Run A} → r ≡ ok a n' → Within n r → Safe n n'
Within-ok {n} {r} e p = subst (Within n) e p

no_result-Partly : {A : Type 0} {m : M A} → Partly m → Partly (m >>= λ r. pure tt)
no_result-Partly p = bind-Partly p λ r. Keeps-Partly (pure-Keeps tt)

module _ (k : ℕ) (user : User) where
  perform-Partly : (s : Step) → Partly (perform (suc (suc k)) user s)
  unfolding perform
  perform-Partly (send_step sys src dst) =
      no_result-Partly (Keeps-Partly (send_data-Keeps k user sys src dst))
  perform-Partly (read_step sys src dst callback) =
      Keeps-Partly (read_data-Keeps k user sys src dst callback)
  perform-Partly (poll_step turns) = poll-Partly turns
  perform-Partly close_step = Keeps-Partly close_completion_queue-Keeps
  perform-Partly (end_step js) = Keeps-Partly (stop_all-Keeps js)
  perform-Partly (call_step env c) = Keeps-Partly (call-Keeps k env c)
  perform-Partly (wait_step w waits) = wait_events-Partly w waits
  perform-Partly (next_step w) = no_result-Partly (Keeps-Partly (next_event-Keeps w))
  perform-Partly (take_step w) = Keeps-Partly (take_and_hold-Keeps w)
  perform-Partly (pop_step w) = Keeps-Partly (pop_taken-Keeps w)
  perform-Partly (event_step w h kind turns) =
      no_result-Partly (handle_event-Partly k user w h kind turns)
  perform-Partly (tasks_step w l turns) = no_result-Partly (run_tasks-Partly k user w l turns)
  perform-Partly (section_step t i src type) = feed_in_context-Partly k user t i src type
  perform-Partly (routine_step w rounds) = routine-Partly k user w rounds
  perform-Partly (terminate_step w) = Keeps-Partly (terminate-Keeps w)
  perform-Partly (cancel_step w i t) = Keeps-Partly (cancel-Keeps w i t)

  perform_all-Partly : (l : List Step) → Partly (perform_all (suc (suc k)) user l)
  unfolding perform_all
  perform_all-Partly [] = Keeps-Partly (pure-Keeps tt)
  perform_all-Partly (s ∷ l) = then-Partly (perform-Partly s) (perform_all-Partly l)

-- Whatever the user's thread and the workers do, in whatever order their steps interleave and
-- whatever the system answers: if no CHECK fails, the device deletes no socket and the answers
-- suffice, then for every socket that there was before, a descriptor that it had is still its own or it was closed, it has none
-- when it is done if that was so before, and what was closed is still told; and every worker that
-- was signalled if it had tasks is signalled if it has tasks afterwards. Every callback that waited for its
-- data or for PollCompletionQueue waits still or has been called, or CloseCompletionQueue came.
pub perform_all-Safe :
    (k : ℕ) (user : User) (l : List Step) (n n' : Net)
    → perform_all (suc (suc k)) user l n ≡ ok tt n'
    → Safe n n'
perform_all-Safe k user l n n' e = Within-ok e ((perform_all-Partly k user l).holds n)

-- The callback that ReadData is given for a token that has none is not lost: behind the call, after
-- any further steps of any threads that come to their end, it waits for the data or stands in the completion queue or has
-- been called, unless the sending end of the queue is closed.
pub read_step-Held :
    (k : ℕ) (user : User) (sys : Sys) (src dst callback : ℕ) (l : List Step) (n n' : Net)
    → find src n.dev.token2callback ≡ none
    → perform_all (suc (suc k)) user (read_step sys src dst callback ∷ l) n ≡ ok tt n'
    → Held n'.dev n'.log callback
unfolding perform_all perform read_data add_callback change_dev change emplace Listed ◌>>=◌
read_step-Held k user sys src dst callback l n n' e r =
    let n1 = record n {
      dev = record n.dev { token2callback = (src, callback) ∷ n.dev.token2callback };
    } in
    let sent =
      then-Partly (Keeps-Partly (send_msg-Keeps k user sys _)) (perform_all-Partly k user l) in
    (Within-ok (rw e at r) (sent.holds n1)).held callback (awaits src (inl (refl, refl)))
