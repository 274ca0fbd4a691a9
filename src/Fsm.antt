-- ===== src/Fsm.antt =====
-- NetFsm::Raise, RaiseTo, Stopped (fsm.cpp), NetCtx::Raise, RaiseTo (ctx.cpp) and
-- NetWorker::Execute (worker.cpp) on the shared state.
pub mod Laws
use klibmsg.Base.{ℕ, Bool, true, false, some, [], ◌∷◌, ◌++◌, ◌==◌, if◌then◌else◌, ℤ}
use klibmsg.Net.{
  Net, Sock, sock_task, Event, EventKind, established, sent, received, error, stopped, TaskKind,
  connecting_task, connected_task, accept_task, send_task, recv_task, stop_task, SrcPtr, no_ptr,
  FsmState, fsm_idle, fsm_active, fsm_stopping, M, change, update, ◌>>=◌, ◌>>◌, get, modify, emit,
  check, signal,
}

abbrev pub same_event : EventKind → EventKind → Bool
same_event established established = true
same_event sent sent = true
same_event received received = true
same_event error error = true
same_event stopped stopped = true
same_event _ _ = false

abbrev pub same_task : TaskKind → TaskKind → Bool
same_task connecting_task connecting_task = true
same_task connected_task connected_task = true
same_task accept_task accept_task = true
same_task send_task send_task = true
same_task recv_task recv_task = true
same_task stop_task stop_task = true
same_task _ _ = false

abbrev pub is_stopping : FsmState → Bool
is_stopping fsm_stopping = true
is_stopping _ = false

abbrev pub is_active : FsmState → Bool
is_active fsm_active = true
is_active _ = false

abbrev pub put_event : EventKind → Event → Sock → Sock
put_event k e s = record s { event = λ k'. if same_event k' k then e else s.event k' }

-- The fields of the event `k` of socket `j` as Raise and RaiseTo set them; its item is queued
-- afterwards, by them or before.
abbrev pub filled : ℕ → ℤ → ℤ → SrcPtr → Event
filled j src type p = record { fsm = some j; src = src; srcptr = p; type = type; queued = true }

-- `(srcptr == nullptr) ? srcptr_ : srcptr`
abbrev pub ptr_or : SrcPtr → SrcPtr → SrcPtr
ptr_or no_ptr own = own
ptr_or p own = p

-- NetCtx::Raise: a queued item is not pushed again.
abbrev ctx_raise : ℕ → EventKind → Sock → Sock
ctx_raise i k s = if (s.event k).queued then s else record s { events = s.events ++ (i, k) ∷ [] }

-- A socket that has raised an event of its own.
abbrev pub raised : ℕ → EventKind → ℤ → SrcPtr → Sock → Sock
raised i k type p s =
    put_event k (filled i s.fsm_src type (ptr_or p s.fsm_srcptr)) (ctx_raise i k s)

-- NetFsm::Raise of an event of the socket's own, and NetCtx::Raise.
unfoldable pub raise : ℕ → EventKind → ℤ → SrcPtr → M (Unit {0})
raise i k type p = modify i (raised i k type p)

-- NetCtx::RaiseTo of an event of socket `j`, which was queued or not.
abbrev ctx_raise_to : ℕ → EventKind → Bool → Sock → Sock
ctx_raise_to j k queued s = if queued then s else record s { eventsto = s.eventsto ++ (j, k) ∷ [] }

-- NetFsm::RaiseTo by socket `i` of an event of socket `j`, and NetCtx::RaiseTo.
unfoldable pub raise_to : ℕ → ℕ → EventKind → ℤ → ℤ → SrcPtr → M (Unit {0})
raise_to i j k src type p = do
  sock ← get j
  modify j (put_event k (filled j src type p))
  modify i (ctx_raise_to j k (sock.event k).queued)

unfoldable pub queue_task : ℕ → TaskKind → Net → Net
queue_task i t n =
    let s = n.socks i in
    if s.task_queued t then n else record n {
      socks =
          update n.socks i
            (record s { task_queued = λ t'. if same_task t' t then true else s.task_queued t' });
      tasks = λ w. if w == s.worker then n.tasks w ++ sock_task i t ∷ [] else n.tasks w;
    }

-- NetWorker::Execute by the worker of socket `i` of a task of that socket.
unfoldable pub execute : ℕ → TaskKind → M (Unit {0})
execute i t = do change (queue_task i t); sock ← get i; emit (signal sock.worker)

-- NetFsm::Stopped
unfoldable pub fsm_stopped : ℕ → ℤ → M (Unit {0})
fsm_stopped i type = do
  sock ← get i
  check (is_stopping sock.fsm_state)
  raise i stopped type no_ptr
  modify i λ s. record s { fsm_state = fsm_idle }

-- NetFsm::StoppedNoEvent, which nothing calls.
unfoldable pub fsm_stopped_no_event : ℕ → M (Unit {0})
fsm_stopped_no_event i = do
  sock ← get i
  check (is_stopping sock.fsm_state)
  modify i λ s. record s { fsm_state = fsm_idle }
