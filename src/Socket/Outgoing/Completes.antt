-- ===== src/Socket/Outgoing/Completes.antt =====
-- Events of the descriptor until all messages are written.
use klibmsg.Base.{
  ℕ, suc, ◌-◌, ◌<◌, ◌≤◌, ◌≡◌, ◌≢◌, refl, ap, ◌∙◌, subst, Bool, true, false, List, [], ◌∷◌, ◌++◌,
  append-nil, length, length-append, arith,
}
use klibmsg.Memory.{Memory, load, length-load}
use klibmsg.Message.{NetMsg, Layout, data_len}
use klibmsg.Transfer.Send.{size, outgoing}
use klibmsg.Net.{Sock, Net, ok}
use klibmsg.Socket.Ops.{Env}
use klibmsg.Socket.Session.{serve}
use klibmsg.Socket.Outgoing.{message_bytes, queue_bytes, rest_of, to_send}
use klibmsg.Socket.Outgoing.Poll.{due}
use klibmsg.Socket.Outgoing.Step.{Accepts, written, written-append, Sending, polled-Sending}
use klibmsg.Socket.Outgoing.Fifo.{
  Turn, ready, turn_calls, turned, all_turned, all_acts, AllFair, posted, serve-DoesIn,
  all_turned-Sending,
}
use klibmsg.Socket.Outgoing.Shrinks.{Unfinished, Eager, polled-Shorter}

abbrev pub all_ready : List Env → List Turn
all_ready [] = []
all_ready (env ∷ envs) = ready env ∷ all_ready envs

posted-all_ready :
    (layout : Layout) (mem : Memory) (envs : List Env) → posted layout mem (all_ready envs) ≡ []
unfolding posted
posted-all_ready layout mem [] = refl
posted-all_ready layout mem (env ∷ envs) = posted-all_ready layout mem envs

empty_of_length : {A : Type 0} (l : List A) → length l ≤ 0 → l ≡ []
empty_of_length [] h = refl
empty_of_length (x ∷ l) h = absurd (omega arith)

module _ (layout : Layout) (mem : Memory) (i : ℕ) where
  -- In each event the first write that is made takes a byte at least.
  abbrev pub AllEager : List Env → Sock → Type 0
  AllEager [] s = Unit {0}
  AllEager (env ∷ envs) s = Eager env (due env mem i s) × AllEager envs (turned mem i (ready env) s)

  left :
      (b : Bool) (q : List NetMsg) (s : Sock)
      → (b ≡ true → s.out_offset < size layout mem s.out_buf)
      → rest_of layout mem b s ++ queue_bytes layout mem q ≡ []
      → (b ≡ false) × (q ≡ [])
  unfolding rest_of queue_bytes message_bytes
  left true q s u e =
      let l =
        length-load (outgoing layout mem s.out_buf) s.out_offset
          (size layout mem s.out_buf - s.out_offset) in
      absurd (omega (arith, ap length e, length-append {0}, l, u refl))
  left false [] s u e = (refl, refl)
  left false (msg ∷ q) s u e =
      let bytes = layout.encode msg ++ load mem msg.src (data_len msg) in
      let none : length (bytes ++ queue_bytes layout mem q) ≡ 0 = ap length e in
      absurd (
        omega (
          arith,
          none,
          length-append bytes (queue_bytes layout mem q),
          length-append (layout.encode msg) (load mem msg.src (data_len msg)),
          layout.length-encode msg,
        ))

  -- Nothing to write is left.
  nothing_left :
      (s : Sock)
      → Unfinished layout mem s
      → to_send layout mem s ≡ []
      → (s.is_out_buf_busy ≡ false) × (s.msg_buffer_queue ≡ [])
  unfolding to_send
  nothing_left s u e = left s.is_out_buf_busy s.msg_buffer_queue s u e

  module _ (fd : ℕ) where
    abbrev Step : Layout → Sock → Sock → Type 0
    Step l s s' =
        Sending l mem fd s'
        × Unfinished l mem s'
        × (length (to_send l mem s') ≤ length (to_send l mem s) - 1)

    ready-Step :
        (env : Env) (s : Sock)
        → env.layout ≡ layout
        → Sending layout mem fd s
        → Unfinished layout mem s
        → Accepts env mem (due env mem i s)
        → Eager env (due env mem i s)
        → Step layout s (turned mem i (ready env) s)
    unfolding turned
    ready-Step env s e h u w g =
        subst (λ l. Sending l mem fd s → Unfinished l mem s → Step l s (turned mem i (ready env) s))
          e
          (λ h' u'.
            let (answers, (later, bytes)) = polled-Sending env mem fd i s h' w in
            let (before, less) = polled-Shorter env mem fd i s h' u' w g in (later, before, less))
          h u

    all_ready-shorter :
        (envs : List Env) (s : Sock)
        → Sending layout mem fd s
        → Unfinished layout mem s
        → AllFair mem i layout (all_ready envs) s
        → AllEager envs s
        → Unfinished layout mem (all_turned mem i (all_ready envs) s)
          × (length (to_send layout mem (all_turned mem i (all_ready envs) s))
              ≤ length (to_send layout mem s) - length envs)
    unfolding all_turned
    all_ready-shorter [] s h u f g = (u, omega arith)
    all_ready-shorter (env ∷ envs) s h u ((e, w), fs) (g, gs) =
        let (h', u', less) = ready-Step env s e h u w g in
        let (last, rest) = all_ready-shorter envs (turned mem i (ready env) s) h' u' fs gs in
        (last, omega (arith, less, rest))

    -- Let an active socket, whose machine is not stopping, have a descriptor, and let its messages
    -- fit in their layout and have less than 2^31 bytes each; if its output buffer is busy, let
    -- out_offset lie in front of the end of the message in it. If there are as many events that
    -- the descriptor can be written to as there are bytes to write or more, the first write at
    -- each takes a byte at least while there is anything to write, and no write then fails for
    -- good or answers more than was asked of it, then the events run to their end, exactly the
    -- bytes that there were to write are written to the descriptor, in their order, the queue of
    -- messages is empty, the output buffer is free, and no other socket and no memory has changed.
    pub serve-completes :
        (fuel : ℕ) (envs : List Env) (s : Sock)
        → Sending layout mem fd s
        → Unfinished layout mem s
        → AllFair mem i layout (all_ready envs) s
        → AllEager envs s
        → length (to_send layout mem s) ≤ length envs
        → (n : Net) → n.socks i ≡ s
        → n.mem ≡ mem
        → (n' : Net) × (serve (suc fuel) (turn_calls i (all_ready envs)) n ≡ ok tt n')
          × (written fd n'.log ≡ written fd n.log ++ to_send layout mem s)
          × ((n'.socks i).msg_buffer_queue ≡ [])
          × ((n'.socks i).is_out_buf_busy ≡ false)
          × (n'.mem ≡ mem)
          × ((j : ℕ) → j ≢ i → n'.socks j ≡ n.socks j)
    serve-completes fuel envs s h u f g enough n e k =
        let turns = all_ready envs in
        let (n', r, s', log, m, queued, o) =
          (serve-DoesIn layout mem i fd fuel turns s h f).run n e k in
        let (later, bytes) = all_turned-Sending layout mem i fd fuel turns s h f in
        let (before, less) = all_ready-shorter envs s h u f g in
        let done = empty_of_length _ (omega (arith, less, enough)) in
        let (free, empty) = nothing_left (all_turned mem i turns s) before done in
        let all = rw (done, append-nil, posted-all_ready layout mem envs, append-nil) at bytes in
        (
          n',
          r,
          ap (written fd) log
              ∙ written-append fd (all_acts mem i turns s) n.log
              ∙ ap (λ l. written fd n.log ++ l) all,
          ap (λ (x : Sock). x.msg_buffer_queue) s' ∙ empty,
          ap (λ (x : Sock). x.is_out_buf_busy) s' ∙ free,
          m ∙ k,
          o,
        )
