-- ===== src/Socket/Outgoing/Fifo.antt =====
-- Messages given to AsyncSendMsg and events of the descriptor, in any order.
use klibmsg.Base.{
  ℕ, suc, ◌≡◌, ◌≢◌, sym, ap, ap₂, subst, ◌∙◌, List, [], ◌∷◌, ◌++◌, append-nil, append_assoc,
}
use klibmsg.Codes.{sock_src_fd, worker_fd_out}
use klibmsg.Memory.{Memory}
use klibmsg.Message.{NetMsg, Layout}
use klibmsg.Net.{Sock, Act, signal, Net, ok}
use klibmsg.Socket.Ops.{Env}
use klibmsg.Socket.Session.{Call, call_feed, call_send, call, serve}
use klibmsg.Socket.Runs.{pure-Does}
use klibmsg.Socket.Runs.InMemory.{DoesIn, Does-DoesIn, then-DoesIn}
use klibmsg.Socket.Runs.Post.{sending, async_send_msg-Does}
use klibmsg.Socket.Outgoing.{message_bytes, to_send, Sendable, polled, poll_acts}
use klibmsg.Socket.Outgoing.Poll.{due, feed_out-DoesIn}
use klibmsg.Socket.Outgoing.Step.{
  written, written-append, Sending, sending-Sending, Accepts, polled-Sending,
}

-- A message of the user's thread, or the worker's event that the descriptor can be written to; with
-- what the system answers.
pub data Turn : Type 0 where
  post : Env → NetMsg → Turn
  ready : Env → Turn

abbrev pub turn_call : ℕ → Turn → Env × Call
turn_call i (post env msg) = (env, call_send i msg)
turn_call i (ready env) = (env, call_feed i sock_src_fd worker_fd_out)

abbrev pub turn_calls : ℕ → List Turn → List (Env × Call)
turn_calls i [] = []
turn_calls i (t ∷ ts) = turn_call i t ∷ turn_calls i ts

module _ (mem : Memory) (i : ℕ) where
  -- The socket after a turn.
  unfoldable pub turned : Turn → Sock → Sock
  turned (post env msg) s = sending i msg s
  turned (ready env) s = polled env mem i s (due env mem i s)

  turn_acts : Turn → Sock → List Act
  turn_acts (post env msg) s = signal (sending i msg s).worker ∷ []
  turn_acts (ready env) s = poll_acts env mem i (due env mem i s)

  unfoldable pub all_turned : List Turn → Sock → Sock
  all_turned [] s = s
  all_turned (t ∷ ts) s = all_turned ts (turned t s)

  pub all_acts : List Turn → Sock → List Act
  all_acts [] s = []
  all_acts (t ∷ ts) s = all_acts ts (turned t s) ++ turn_acts t s

  -- A message can be sent; an event's writes answer at most what is asked of them.
  abbrev pub Fair : Layout → Turn → Sock → Type 0
  Fair layout (post env msg) s = Sendable msg
  Fair layout (ready env) s = (env.layout ≡ layout) × Accepts env mem (due env mem i s)

  abbrev pub AllFair : Layout → List Turn → Sock → Type 0
  AllFair layout [] s = Unit {0}
  AllFair layout (t ∷ ts) s = Fair layout t s × AllFair layout ts (turned t s)

-- The bytes of the messages, in the order in which they were given.
module _ (layout : Layout) (mem : Memory) where
  abbrev pub bytes_of : Turn → List ℕ
  bytes_of (post env msg) = message_bytes layout mem msg
  bytes_of (ready env) = []

  unfoldable pub posted : List Turn → List ℕ
  posted [] = []
  posted (t ∷ ts) = bytes_of t ++ posted ts

module _ (layout : Layout) (mem : Memory) (i fd fuel : ℕ) where
  -- What a turn does, and that its bytes are those that leave, less those that come.
  abbrev Turned : Layout → Turn → Sock → Type 0
  Turned layout t s =
      DoesIn mem i s (call (suc fuel) (turn_call i t).0 (turn_call i t).1) tt (turned mem i t s)
        (turn_acts mem i t s)
      × Sending layout mem fd (turned mem i t s)
      × (written fd (turn_acts mem i t s) ++ to_send layout mem (turned mem i t s)
          ≡ to_send layout mem s ++ bytes_of layout mem t)

  ready-Turned :
      (env : Env) (s : Sock)
      → Sending env.layout mem fd s
      → Accepts env mem (due env mem i s)
      → Turned env.layout (ready env) s
  unfolding call turned turn_acts
  ready-Turned env s h w =
      let (answers, (later, bytes)) = polled-Sending env mem fd i s h w in
      (
        feed_out-DoesIn env mem i fuel s h.is_running h.is_active answers,
        later,
        bytes ∙ sym (append-nil (to_send env.layout mem s)),
      )

  turn-Turned :
      (t : Turn) (s : Sock) → Sending layout mem fd s → Fair mem i layout t s → Turned layout t s
  unfolding call turned turn_acts
  turn-Turned (post env msg) s h f =
      let (later, bytes) = sending-Sending layout mem fd i msg s h f in
      (Does-DoesIn (async_send_msg-Does i msg s), later, bytes)
  turn-Turned (ready env) s h f =
      subst (λ l. Sending l mem fd s → Turned l (ready env) s) f.0 (λ h'. ready-Turned env s h' f.1)
        h

  pub serve-DoesIn :
      (turns : List Turn) (s : Sock)
      → Sending layout mem fd s
      → AllFair mem i layout turns s
      → DoesIn mem i s
          (serve (suc fuel) (turn_calls i turns))
          tt
          (all_turned mem i turns s)
          (all_acts mem i turns s)
  unfolding serve all_turned all_acts
  serve-DoesIn [] s h f = Does-DoesIn (pure-Does i s tt)
  serve-DoesIn (t ∷ ts) s h (f, fs) =
      let (does, later, bytes) = turn-Turned t s h f in
      then-DoesIn does (serve-DoesIn ts (turned mem i t s) later fs)

  -- What all the turns write and leave to be written.
  pub all_turned-Sending :
      (turns : List Turn) (s : Sock)
      → Sending layout mem fd s
      → AllFair mem i layout turns s
      → Sending layout mem fd (all_turned mem i turns s)
        × (written fd (all_acts mem i turns s) ++ to_send layout mem (all_turned mem i turns s)
            ≡ to_send layout mem s ++ posted layout mem turns)
  unfolding all_turned all_acts posted
  all_turned-Sending [] s h f = (h, sym (append-nil (to_send layout mem s)))
  all_turned-Sending (t ∷ ts) s h (f, fs) =
      let (does, later, bytes) = turn-Turned t s h f in
      let (last, all) = all_turned-Sending ts (turned mem i t s) later fs in
      let a = written fd (turn_acts mem i t s) in
      (
        last,
        ap (λ l. l ++ to_send layout mem (all_turned mem i ts (turned mem i t s)))
              (written-append fd (all_acts mem i ts (turned mem i t s)) (turn_acts mem i t s))
            ∙ append_assoc a _ _
            ∙ ap (λ l. a ++ l) all
            ∙ sym (append_assoc a _ _)
            ∙ ap (λ l. l ++ posted layout mem ts) bytes
            ∙ append_assoc (to_send layout mem s) _ _,
      )

  -- Let an active socket, whose machine is not stopping, have a descriptor, and let its messages
  -- fit in their layout and have less than 2^31 bytes each, as those that are given to
  -- AsyncSendMsg from then on; if its output buffer is busy, let out_offset lie within the message
  -- in it. Let the writes answer at most what is asked of them. Then every sequence of calls of
  -- AsyncSendMsg and of events that the descriptor can be written to runs to its end, with the
  -- other sockets and the memory as they were, and the socket can go on in the same way; and what
  -- has been written to the descriptor, followed by what the socket has still to write, is what
  -- had been written, followed by what there was to write and by the bytes of the messages given
  -- since, in that order.
  pub serve-fifo :
      (turns : List Turn) (s : Sock)
      → Sending layout mem fd s
      → AllFair mem i layout turns s
      → (n : Net) → n.socks i ≡ s
      → n.mem ≡ mem
      → (n' : Net) × (serve (suc fuel) (turn_calls i turns) n ≡ ok tt n')
        × (written fd n'.log ++ to_send layout mem (n'.socks i)
            ≡ written fd n.log ++ (to_send layout mem s ++ posted layout mem turns))
        × Sending layout mem fd (n'.socks i)
        × (n'.mem ≡ mem)
        × ((j : ℕ) → j ≢ i → n'.socks j ≡ n.socks j)
  serve-fifo turns s h f n e k =
      let (n', r, s', log, m, queued, o) = (serve-DoesIn turns s h f).run n e k in
      let (later, bytes) = all_turned-Sending turns s h f in
      let acts = all_acts mem i turns s in
      (
        n',
        r,
        ap₂ ◌++◌ (ap (written fd) log ∙ written-append fd acts n.log) (ap (to_send layout mem) s')
            ∙ append_assoc (written fd n.log) (written fd acts) _
            ∙ ap (λ l. written fd n.log ++ l) bytes,
        subst (Sending layout mem fd) (sym s') later,
        m ∙ k,
        o,
      )
