-- ===== src/Worker/Tasked.antt =====
-- What the sending task of a socket does (socket.cpp), and what is asked of the deeds.
use klibmsg.Base.{ℕ, suc, ◌≡◌, refl, Bool, true, false, List, [], ◌∷◌, if◌then◌else◌}
use klibmsg.Codes.{sock_src_task_send, worker_task_execute}
use klibmsg.Memory.{Memory}
use klibmsg.Message.{Layout}
use klibmsg.Net.{Sock, Act, set_out, Net, Run, ok, abort, out_of_fuel, M}
use klibmsg.Fsm.{is_stopping}
use klibmsg.Socket.Ops.{Env, internal_tasks}
use klibmsg.Socket.Cases.{handler}
use klibmsg.Socket.Feed.{feed}
use klibmsg.Socket.Runs.{
  Does, get-Does, pure-Does, emit-Does, check-Does, bind-Does, then-Does, next-Does, step-Does,
}
use klibmsg.Socket.Outgoing.{Sendable}
use klibmsg.Socket.Outgoing.Poll.{due}
use klibmsg.Socket.Outgoing.Step.{Accepts}
use klibmsg.Worker.Deeds.{Deed, post, take_all, work, ready, deed}

-- The branch of a test that fails.
otherwise :
    {i : ℕ} {s s' : Sock} {l : List Act} {b : Bool} (k m : M (Unit {0}))
    → b ≡ false
    → Does i s m tt s' l
    → Does i s (if b then k else m) tt s' l
otherwise k m e p = rw e p

module _ (env : Env) (i : ℕ) where
  -- The sending task asks for the event.
  pub send_task-Does :
      (fuel : ℕ) (s : Sock)
      → is_stopping s.fsm_state ≡ false
      → Does i s
          (feed (suc fuel) env i sock_src_task_send worker_task_execute)
          tt
          s
          (set_out i ∷ [])
  unfolding feed handler internal_tasks
  send_task-Does fuel s f = next-Does _ (get-Does i s) (
      otherwise _ _ f (
        bind-Does _
          (step-Does (check-Does i s true refl)
            (then-Does (emit-Does i s (set_out i)) (pure-Does i s true)))
          (next-Does _ (get-Does i s) (pure-Does i s tt))))

-- The state behind a run that ends.
abbrev pub behind : Run (Unit {0}) → Net → Net
behind (ok a n') n = n'
behind abort n = n
behind out_of_fuel n = n

module _ (layout : Layout) (mem : Memory) (fuel w i : ℕ) where
  -- A message can be sent; the writes of an event answer at most what is asked of them.
  abbrev pub Fair : Deed → Sock → Type 0
  Fair (post msg) s = Sendable msg
  Fair take_all s = Unit {0}
  Fair (work env) s = env.layout ≡ layout
  Fair (ready env) s = (env.layout ≡ layout) × Accepts env mem (due env mem i s)

  -- Each deed is so where it comes.
  unfoldable pub AllFair : List Deed → Net → Type 0
  AllFair [] n = Unit {0}
  AllFair (d ∷ ds) n = Fair d (n.socks i) × AllFair ds (behind (deed fuel w i d n) n)
