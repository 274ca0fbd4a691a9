-- ===== src/Net.antt =====
-- The state that the sockets share: each NetSocket with its NetFsm, its NetCtx and its events
-- (socket.h, fsm.h, ctx.h), the workers (worker.h), the device, the memory, and a log of what is
-- asked of the pollers and the kernel. A pointer to a socket is a number. The lists stand for queues
-- of Queue.antt; the flag of an event or a task says whether its item is in a queue.
pub mod Laws
use klibmsg.Base.{
  ℕ, suc, ◌≡◌, refl, Bool, true, false, Option, none, some, List, [], ◌∷◌, ◌++◌, arith, ◌==◌,
  if◌then◌else◌, ℤ,
}
use klibmsg.Memory.{Memory}
use klibmsg.Os.{Errno, Ip}
use klibmsg.Message.{NetMsg}
use klibmsg.Device.State.{Device}
use klibmsg.Poller
use klibmsg.Poller.{Poller}

-- kNetSockState…
pub data SockState : Type 0 where
  idle starting being_accepted accepted connecting active removing_fd done : SockState
  listening accepting cancelling stopping stopping_accept accepting_error : SockState

-- kNetFsmState…
pub data FsmState : Type 0 where
  fsm_idle fsm_active fsm_stopping : FsmState

-- The events of a socket: its own four, and `stopped_` of its state machine.
pub data EventKind : Type 0 where
  established sent received error stopped : EventKind

-- The tasks of a socket.
pub data TaskKind : Type 0 where
  connecting_task connected_task accept_task send_task recv_task stop_task : TaskKind

pub data SrcPtr : Type 0 where
  no_ptr : SrcPtr
  sock_ptr : ℕ → SrcPtr
  msg_ptr : NetMsg → SrcPtr

-- NetFsmEvent; `fsm` is the socket whose state machine it points to.
pub record Event : Type 0 where
  pub fsm : Option ℕ
  pub src : ℤ
  pub srcptr : SrcPtr
  pub type : ℤ
  pub queued : Bool

-- NetSocket with its `fsm_` and `ctx_`; `s` is `none` for -1.
pub record Sock : Type 0 where
  pub state : SockState
  pub s : Option ℕ
  pub errnum : Errno
  pub worker : ℕ
  pub ip : Ip
  pub asock : Option ℕ
  pub in_buf : Memory
  pub in_offset : ℕ
  pub out_buf : Memory
  pub out_offset : ℕ
  pub is_out_buf_busy : Bool
  pub msg_buffer_queue : List NetMsg
  pub fsm_state : FsmState
  pub fsm_src : ℤ
  pub fsm_srcptr : SrcPtr
  pub event : EventKind → Event
  pub task_queued : TaskKind → Bool
  pub events : List (ℕ × EventKind)
  pub eventsto : List (ℕ × EventKind)

-- What is asked of a poller through NetWorker, of the kernel, and what the code prints.
pub data Act : Type 0 where
  add_fd : ℕ → Option ℕ → Act
  rm_fd set_in set_out reset_out : ℕ → Act
  signal set_nonblock : ℕ → Act
  close delete run_callback : ℕ → Act
  write : Option ℕ → List ℕ → Act
  bad_action bad_source bad_state : SockState → ℤ → ℤ → Act

-- What stands in the queue of a worker: a task of a socket, or `stop_`.
pub data Task : Type 0 where
  sock_task : ℕ → TaskKind → Task
  stop_item : Task

-- `tasks_`, the tasks that the routine has taken from there into its own queue `tasks`, `stop_`
-- (whether it is queued), the count of `efd_` and `poller_` of each worker.
pub record Net : Type 0 where
  pub socks : ℕ → Sock
  pub tasks : ℕ → List Task
  pub taken : ℕ → List Task
  pub stop_queued : ℕ → Bool
  pub efd_count : ℕ → ℕ
  pub pollers : ℕ → Poller
  pub mem : Memory
  pub dev : Device
  pub log : List Act

-- `abort`: a CHECK that fails. `out_of_fuel`: the chain of actions is longer than allowed.
pub data Run (A : Type 0) : Type 0 where
  ok : A → Net → Run A
  abort : Run A
  out_of_fuel : Run A

abbrev pub M : Type 0 → Type 0
M A = Net → Run A

-- The operations stay shut, so that proofs go by the shape of a `do` block.
unfoldable pub pure : {A : Type 0} → A → M A
pure = ok

abbrev pub and_then : {A B : Type 0} → Run A → (A → M B) → Run B
and_then (ok a n) f = f a n
and_then abort f = abort
and_then out_of_fuel f = out_of_fuel

infixl 5 ◌>>=◌ ◌>>◌
unfoldable pub ◌>>=◌ : {A B : Type 0} → M A → (A → M B) → M B
m >>= f = λ n. and_then (m n) f

abbrev pub ◌>>◌ : {B : Type 0} → M (Unit {0}) → M B → M B
m >> k = m >>= λ _. k

unfoldable pub update : (ℕ → Sock) → ℕ → Sock → ℕ → Sock
update f i s j = if j == i then s else f j

abbrev pub put_sock : Net → ℕ → Sock → Net
put_sock n i s = record n { socks = update n.socks i s }

-- The fields of the socket at a pointer, and a write to them.
unfoldable pub get : ℕ → M Sock
get i n = ok (n.socks i) n

unfoldable pub modify : ℕ → (Sock → Sock) → M (Unit {0})
modify i f n = ok tt (put_sock n i (f (n.socks i)))

unfoldable pub get_mem : M Memory
get_mem n = ok n.mem n

-- A change of the rest of the state.
unfoldable pub change : (Net → Net) → M (Unit {0})
change f n = ok tt (f n)

-- A poller's handle: that of a worker's `efd_`, or of a socket's `wfd_`.
abbrev pub efd_handle : ℕ
efd_handle = 0

abbrev pub wfd_handle : ℕ → ℕ
wfd_handle i = suc i

abbrev pub at {ℓ} : {A : Type ℓ} → (ℕ → A) → ℕ → (A → A) → ℕ → A
at f w g w' = if w' == w then g (f w') else f w'

-- NetWorker::AddFd, RmFd, SetIn, SetOut and ResetOut: what a request does to a poller.
unfoldable pub poll_act : Act → (ℕ → Sock) → (ℕ → Poller) → ℕ → Poller
poll_act (add_fd i fd) socks p = at p (socks i).worker (Poller.add fd (wfd_handle i))
poll_act (rm_fd i) socks p = at p (socks i).worker (Poller.rm (wfd_handle i))
poll_act (set_in i) socks p = at p (socks i).worker (Poller.set_in (wfd_handle i))
poll_act (set_out i) socks p = at p (socks i).worker (Poller.set_out (wfd_handle i))
poll_act (reset_out i) socks p = at p (socks i).worker (Poller.reset_out (wfd_handle i))
poll_act a socks p = p

-- NetEventFd::Signal: `write` adds one to the count of an event descriptor.
unfoldable pub count_act : Act → (ℕ → ℕ) → ℕ → ℕ
count_act (signal w) c = at c w suc
count_act a c = c

unfoldable pub emit : Act → M (Unit {0})
emit a n = ok tt (record n {
  efd_count = count_act a n.efd_count;
  pollers = poll_act a n.socks n.pollers;
  log = a ∷ n.log;
})

-- CHECK, CHECK_EQ, …
unfoldable pub check : Bool → M (Unit {0})
check true n = ok tt n
check false n = abort
