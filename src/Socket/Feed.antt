-- ===== src/Socket/Feed.antt =====
-- NetFsm::Feed, Action, Start and Stop (fsm.cpp) of a socket's state machine. A handler may act on
-- another socket, so the chain of actions runs on fuel.
use klibmsg.Base.{ℕ, zero, suc, Bool, true, false, ◌&&◌, not, if◌then◌else◌, ltb, ℤ, pos, negsuc}
use klibmsg.Codes.{net_fsm_action, net_fsm_start, net_fsm_stop}
use klibmsg.Net.{
  FsmState, fsm_idle, fsm_active, fsm_stopping, stopped, M, out_of_fuel, pure, ◌>>=◌, ◌>>◌, get,
  modify, check, Sock,
}
use klibmsg.Fsm.{is_stopping, is_active}
use klibmsg.Socket.Ops.{Env}
use klibmsg.Socket.Cases.{handler}
use klibmsg.Socket.Shutdown.{shutdown_handler}

abbrev pub is_positive : ℤ → Bool
is_positive (pos n) = ltb 0 n
is_positive (negsuc n) = false

-- NetFsm::Action by the given Feed.
unfoldable pub action_by : (ℕ → ℤ → ℤ → M (Unit {0})) → ℕ → ℤ → M (Unit {0})
action_by feed i type = do check (is_positive type); feed i net_fsm_action type

-- NetFsm::Feed
unfoldable pub feed : ℕ → Env → ℕ → ℤ → ℤ → M (Unit {0})
feed zero env i src type = λ n. out_of_fuel
feed (suc fuel) env i src type = do
  sock ← get i
  if is_stopping sock.fsm_state
      then shutdown_handler env (action_by (feed fuel env)) i src type
      else handler env (action_by (feed fuel env)) i src type

-- NetFsm::Action
unfoldable pub action : ℕ → Env → ℕ → ℤ → M (Unit {0})
action fuel env = action_by (feed fuel env)

abbrev is_fsm_idle : FsmState → Bool
is_fsm_idle fsm_idle = true
is_fsm_idle _ = false

-- NetFsm::IsIdle
unfoldable pub is_idle : Sock → Bool
is_idle s = is_fsm_idle s.fsm_state && not (s.event stopped).queued

-- NetFsm::Start
unfoldable pub fsm_start : ℕ → Env → ℕ → M (Unit {0})
fsm_start fuel env i = do
  sock ← get i
  check (is_idle sock)
  handler env (action fuel env) i net_fsm_action net_fsm_start
  modify i λ s. record s { fsm_state = fsm_active }

-- NetFsm::Stop
unfoldable pub fsm_stop : ℕ → Env → ℕ → M (Unit {0})
fsm_stop fuel env i = do
  sock ← get i
  if is_active sock.fsm_state
      then (do
        modify i λ s. record s { fsm_state = fsm_stopping }
        shutdown_handler env (action fuel env) i net_fsm_action net_fsm_stop)
      else pure tt
