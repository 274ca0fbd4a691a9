-- ===== src/Tests/Messages.antt =====
-- The theorems on messages over a connection, at one message of three bytes of data.
use klibmsg.Base.{
  ℕ, zero, suc, ◌<◌, ◌≡◌, ◌≢◌, refl, sym, subst, inr, ◌⊎◌, none, false, some, List, [], ◌∷◌, ◌++◌,
  length, pos, arith,
}
use klibmsg.Memory.{Memory, load, store, load-store_self}
use klibmsg.Os.{eagain, moved, failed, to_word, add_int, signed_lt}
use klibmsg.Message.{NetMsg, data_len, total_msg_sz}
use klibmsg.Transfer.{
  header, send_raw, send_header, send_data, send_rest, finish_send, recv_raw, recv_rest,
  recv_header, recv_data, finish_recv,
}
use klibmsg.Net.{active, fsm_active, Sock, Net, ok}
use klibmsg.Socket.Ops.{Env, dequeue}
use klibmsg.Socket.Session.{serve}
use klibmsg.Socket.Outgoing.{message_bytes, queue_bytes, rest_of, to_send, settled, Sendable}
use klibmsg.Socket.Outgoing.Poll.{due}
use klibmsg.Socket.Outgoing.Step.{written, Sending}
use klibmsg.Socket.Outgoing.Fifo.{
  Turn, post, ready, turn_calls, turned, AllFair, posted, serve-fifo,
}
use klibmsg.Socket.Outgoing.Completes.{all_ready, AllEager, serve-completes}
use klibmsg.Transfer.Many.{Reads}
use klibmsg.Socket.Incoming.{Told}
use klibmsg.Socket.Incoming.Wire.{Holds}
use klibmsg.Socket.Incoming.Events.{Brought}
use klibmsg.Socket.Incoming.Delivers.{feed-Told}
use klibmsg.Socket.Delivery.{serve-Told}
use klibmsg.Tests.Transfers.{zeros, encode, decode, layout}
use klibmsg.Tests.Sessions.{fresh, net, env}

abbrev pub note : NetMsg
note = record { msg_type = pos 1; src = 100; dst = 4; extra = 3 }

-- An active socket with a message to send; the byte at each address is the address.
abbrev pub speaker : Sock
speaker = record fresh {
  state = active;
  s = some 3;
  fsm_state = fsm_active;
  msg_buffer_queue = note ∷ [];
}

abbrev pub speaking : Net
speaking = record net { socks = λ _. speaker; mem = λ x. x }

abbrev pub writing : ℕ → ℕ → Env
writing a b = record env { writes = (moved a, moved b) }

pub note-Sendable : Sendable note
unfolding data_len
note-Sendable = ((omega arith, omega arith, omega arith, inr (inr (inr refl))), omega arith)

speaker-Sending : Sending layout speaking.mem 3 speaker
speaker-Sending = record {
  is_active = refl;
  is_running = refl;
  is_open = refl;
  inside = λ h. cc;
  sendable = (note-Sendable, tt);
}

-- Twenty bytes are taken; another message is posted; the rest of the first one but a byte is taken.
abbrev turns : List Turn
turns = ready (writing 20 0) ∷ post env note ∷ ready (writing 12 2) ∷ []

turns-AllFair : AllFair speaking.mem 0 layout turns speaker
unfolding zeros encode decode data_len header send_raw send_header send_data send_rest finish_send
    store load to_word add_int signed_lt total_msg_sz settled turned dequeue
turns-AllFair =
    ((refl, (omega arith, omega arith)), (note-Sendable, ((refl, (omega arith, omega arith)), tt)))

serve-fifo_example :
    (n' : Net) × (serve 2 (turn_calls 0 turns) speaking ≡ ok tt n')
    × (written 3 n'.log ++ to_send layout speaking.mem (n'.socks 0)
        ≡ [] ++ (to_send layout speaking.mem speaker ++ posted layout speaking.mem turns))
    × Sending layout speaking.mem 3 (n'.socks 0)
    × (n'.mem ≡ speaking.mem)
    × ((j : ℕ) → j ≢ 0 → n'.socks j ≡ speaker)
serve-fifo_example =
    serve-fifo layout speaking.mem 0 3 1 turns speaker speaker-Sending turns-AllFair speaking refl
      refl

-- One event that takes the message, and as many more as make 35.
abbrev copies {ℓ} : {A : Type ℓ} → ℕ → A → List A
copies zero a = []
copies (suc k) a = a ∷ copies k a

abbrev events : List Env
events = writing 32 3 ∷ copies 34 env

-- The socket when the message is written.
abbrev quiet : Sock
quiet = turned speaking.mem 0 (ready (writing 32 3)) speaker

quiet-due : due env speaking.mem 0 quiet ≡ none
unfolding zeros encode decode data_len header send_raw send_header send_data send_rest finish_send
    store load to_word add_int signed_lt total_msg_sz settled turned dequeue
quiet-due = refl

-- Events of a socket that has nothing to write.
copies-AllFair :
    (k : ℕ) (s : Sock)
    → due env speaking.mem 0 s ≡ none
    → AllFair speaking.mem 0 layout (all_ready (copies k env)) s
      × AllEager layout speaking.mem 0 (copies k env) s
unfolding turned
copies-AllFair zero s h = (tt, tt)
copies-AllFair (suc k) s h =
    let rest = copies-AllFair k s h in rw h (((refl, tt), rest.0), (tt, rest.1))

events-AllFair :
    AllFair speaking.mem 0 layout (all_ready events) speaker
    × AllEager layout speaking.mem 0 events speaker
unfolding zeros encode decode data_len header dequeue load store
events-AllFair =
    let rest = copies-AllFair 34 quiet quiet-due in
    (
      ((refl, (omega arith, omega arith)), rest.0),
      ((refl, refl, (λ h. tt), λ h. absurd (omega arith)), rest.1),
    )

speaker_bytes : length (to_send layout speaking.mem speaker) ≡ 35
unfolding zeros encode decode data_len load to_send rest_of queue_bytes message_bytes
speaker_bytes = refl

serve-completes_example :
    (n' : Net) × (serve 2 (turn_calls 0 (all_ready events)) speaking ≡ ok tt n')
    × (written 3 n'.log ≡ [] ++ to_send layout speaking.mem speaker)
    × ((n'.socks 0).msg_buffer_queue ≡ [])
    × ((n'.socks 0).is_out_buf_busy ≡ false)
    × (n'.mem ≡ speaking.mem)
    × ((j : ℕ) → j ≢ 0 → n'.socks j ≡ speaker)
serve-completes_example =
    serve-completes layout speaking.mem 0 3 1 events speaker speaker-Sending (λ h. cc)
      events-AllFair.0 events-AllFair.1 (rw speaker_bytes (omega arith)) speaking refl refl

-- The bytes of the message.
abbrev wire_bytes : List ℕ
wire_bytes = queue_bytes layout speaking.mem (note ∷ [])

abbrev wire : Memory
wire = store (λ _. 0) 0 wire_bytes

wire-Holds : Holds wire 0 wire_bytes
wire-Holds = load-store_self (λ _. 0) 0 wire_bytes

-- A socket that waits for messages, in another program.
abbrev hearer : Sock
hearer = record fresh { state = active; s = some 5; fsm_state = fsm_active }

abbrev hearing : Net
hearing = record net { socks = λ _. hearer }

-- The header and a byte, the other two, and nothing.
abbrev pieces : List Reads
pieces =
    (moved (load wire 0 32), moved (load wire 32 1))
    ∷ (failed eagain, moved (load wire 33 2))
    ∷ copies 33 (failed eagain, failed eagain)

copies-Brought :
    (k p : ℕ) (mem in_buf : Memory) (offset : ℕ)
    → Brought env wire p [] mem in_buf offset (copies k (failed eagain, failed eagain))
copies-Brought zero p mem in_buf offset = tt
copies-Brought (suc k) p mem in_buf offset = (refl, copies-Brought k p mem in_buf offset)

pieces-Brought : Brought env wire 0 (note ∷ []) hearing.mem hearer.in_buf 0 pieces
unfolding zeros encode decode data_len header store load to_word add_int signed_lt total_msg_sz
    recv_raw recv_rest recv_header recv_data finish_recv queue_bytes message_bytes
pieces-Brought = (
  ((omega arith, refl), (omega arith, refl), (refl, refl, (λ h. tt), λ h. absurd (omega arith))),
  (
    (tt, (omega arith, refl), (refl, refl, (λ h. absurd (omega arith)), λ h. tt)),
    copies-Brought 33 0 hearing.mem hearer.in_buf 0,
  ),
)

feed-Told_example :
    (n' : Net) × (got : List NetMsg) × (rest : List NetMsg) × Told env speaking.mem 1 1 n' pieces
      hearing got
    × (note ∷ [] ≡ got ++ rest)
    × ((j : ℕ) → j ≢ 1 → n'.socks j ≡ hearer)
    × ((rest ≡ []) ⊎ (35 < length wire_bytes))
feed-Told_example =
    feed-Told env speaking.mem wire 1 1 pieces 0 (note ∷ []) hearing refl refl refl
      (note-Sendable, tt) wire-Holds pieces-Brought

-- The state when the message is written.
ended :
    (n' : Net) × (serve 2 (turn_calls 0 (all_ready events)) speaking ≡ ok tt n')
    × (written 3 n'.log ≡ wire_bytes)
unfolding to_send rest_of
ended =
    let (n', run, bytes, empty, free, kept, others) =
      serve-completes layout speaking.mem 0 3 1 events speaker speaker-Sending (λ h. cc)
        events-AllFair.0 events-AllFair.1 (rw speaker_bytes (omega arith)) speaking refl refl in
    (n', run, bytes)

serve-Told_example :
    ((ended.0.socks 0).msg_buffer_queue ≡ [])
    × ((m' : Net) × Told env speaking.mem 1 1 m' pieces hearing (note ∷ [])
        × ((k : ℕ) → k ≢ 1 → m'.socks k ≡ hearer))
serve-Told_example =
    serve-Told env 0 1 3 1 events pieces speaking ended.0 hearing wire speaker-Sending refl
      events-AllFair.0 events-AllFair.1 (rw speaker_bytes (omega arith)) ended.1
      (subst (Holds wire 0) (sym ended.2) wire-Holds) refl refl refl pieces-Brought
      (rw speaker_bytes (omega arith))
