-- ===== src/Lib.antt =====
-- klibmsg: messages between machines over sockets that a pool of worker threads serves.
--
-- A NetSocket is a state machine. The user's thread calls its methods; a worker waits for events of
-- file descriptors on its poller and for tasks in its queue, and feeds them to the socket's machine
-- inside the socket's context. The machine moves between the states of utils.h, asks its worker to
-- poll or to run a task, moves bytes by SendRaw and RecvRaw, and raises events for its owner, the
-- device. Channels carry the user's data between threads.
--
-- Where the parts are modelled:
--   * Queue.antt (utils.h, utils.cpp): NetQueueItem and NetQueue, an intrusive list whose links are
--     a heap shared by all queues. The loop of Remove runs on fuel; one more than the items is
--     enough. Queue/Refine.antt compares the code with a list of distinct items.
--   * Memory.antt, Message.antt, Transfer.antt (utils.h, socket.cpp): memory as a function of the
--     address, NetMsg, SendRaw and RecvRaw, with the arithmetic of `int` and `int64_t` written out.
--   * Codes.antt, Net.antt, Fsm.antt (utils.h, socket.h, fsm.h, fsm.cpp, worker.cpp): the codes, the
--     state of all sockets, and Raise, RaiseTo, Stopped and Execute. A pointer to a socket is a
--     number, so that a listener and the socket it accepts for are shared objects. A request goes to
--     the poller or the event descriptor of the socket's worker, and all requests, `close` and
--     `delete` stand in a log, the latest entry first.
--   * Socket.antt and the modules below it (socket.cpp): Ops.antt the helpers, Events.antt what a
--     case does, Cases.antt NetSocketHandler, Shutdown.antt NetSocketShutdownHandler, Feed.antt the
--     machine (fsm.cpp), Api.antt the methods for the user, Session.antt sequences of calls. A
--     handler that prints a bad action goes on in the next case, as in C++ without a `break`.
--     An action may lead to another one, so Feed runs on fuel, and a fuel of two is enough.
--     Terminate.antt is NetSocket::Terminate. Queued.antt says what a call makes of the workers'
--     queues, Outgoing.antt has the bytes that a socket has still to write, Incoming.antt the
--     messages that it tells of, and Delivery.antt both ends of a connection, with a log of what was
--     written to a descriptor and a memory of what comes.
--   * Device.antt and the modules below it (device.h, device.cpp): State.antt the fields and the
--     user's functions, Tables.antt the maps, Ops.antt the methods, Handler.antt NetDeviceFsmHandler,
--     Completion.antt PollCompletionQueue. Sockets are numbered as `new` makes them.
--   * Context.antt (ctx.cpp, fsm.cpp): ExecuteCriticalSection and Process. How often the two loops go
--     round depends on what events the system's answers lead to, so these answers are the fuel.
--   * Worker.antt (worker.h, worker.cpp, utils.cpp): the routine of a worker, Cancel, and the
--     count of its event descriptor. The fuel is what `epoll_wait` returns and what the system
--     answers in each turn. Worker/Start.antt is the Init of the pool, Worker/Stop.antt its end,
--     Worker/Deeds.antt and Worker/Wakeups.antt the sending task of a socket.
--   * Program.antt: the steps of the user's thread and of the workers; a list of steps is an
--     interleaving, in which a section under a lock is one step. A worker takes its tasks in one step,
--     and takes each of them from its own queue and runs it in later ones.
--   * Poller.antt (poller.h, poller.cpp), in which an error of `epoll_wait` is kept as the -1 of
--     `nevents_` and a loop that runs past the array is recorded; Channel.antt (channel.h), Pool.antt
--     (utils.cpp).
--   * Tests.antt: concrete inputs of the theorems.
--
-- A CHECK that fails ends the program, which is the result `abort`, and so does a null pointer that
-- is followed. When the device deletes a socket, the section that runs goes on with freed memory;
-- the code then has no defined way on, and the result is `abort` too. The results of system calls
-- are arguments: an `Io` for a read, a write or an accept, an error number for a call that returns
-- none. The layout of a message in memory is the compiler's, and Token2Dptr is the user's; both are
-- arguments too.
--
-- A run whose answers are used up before it ends is `out_of_fuel`, and so is a wait for the outside.
--
-- Not modelled: two threads inside sections of different contexts at the same time, and the user's
-- thread in the midst of a section, since both are taken step by step; the number of an epoll
-- descriptor; and what the user's callback does.
pub mod Base
pub mod Queue
pub mod Codes
pub mod Memory
pub mod Os
pub mod Message
pub mod Transfer
pub mod Device
pub mod Net
pub mod Fsm
pub mod Socket
pub mod Context
pub mod Worker
pub mod Program
pub mod Channel
pub mod Poller
pub mod Pool
pub mod Tests
