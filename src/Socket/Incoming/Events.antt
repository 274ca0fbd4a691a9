-- ===== src/Socket/Incoming/Events.antt =====
-- What the events of a descriptor, that it can be read from, make of what has come of messages.
use klibmsg.Base.{
  ℕ, ◌+◌, ◌<◌, ◌≡◌, ◌≢◌, refl, sym, ap, ap₂, subst, ◌∙◌, true, false, List, [], ◌∷◌, ◌++◌, length,
  length-append, ◌⊎◌, inl, inr, arith,
}
use klibmsg.Memory.{Memory, load, store, length-load}
use klibmsg.Os.{Rc, eagain, rc_ok, rc_err, moved, failed, would_block, to_word, add_int}
use klibmsg.Message.{NetMsg, Layout, sizeof_net_msg, data_len}
use klibmsg.Transfer.{Received, header, recv_raw, recv_rest, recv_header}
use klibmsg.Transfer.Gain.{Arrived, whole}
use klibmsg.Transfer.Many.{Reads}
use klibmsg.Net.{active, Net}
use klibmsg.Fsm.{is_stopping}
use klibmsg.Socket.Ops.{Env}
use klibmsg.Socket.Outgoing.{message_bytes, queue_bytes}
use klibmsg.Socket.Incoming.{Tells, DataCame, Told, waits, tells, heard, reading}
use klibmsg.Socket.Incoming.Wire.{from}
use klibmsg.Socket.Incoming.Arrives.{Bring}
use klibmsg.Socket.Incoming.Hear.{read, told, Follows, hear_waits, hear_message}

abbrev pub ByRc : Rc → Type 0 → Type 0 → Type 0
ByRc rc_ok A B = A
ByRc (rc_err e) A B = B

-- There is nothing to read.
abbrev pub Silent : Reads → Type 0
Silent (failed e, io) = would_block e ≡ true
Silent (moved bs, io) = ⊥

module _ (env : Env) (wire : Memory) where
  -- Each event's reads bring bytes of the message that is on its way, at least one; behind the last
  -- message there is nothing to read.
  abbrev pub Brought : ℕ → List NetMsg → Memory → Memory → ℕ → List Reads → Type 0
  Brought p msgs mem in_buf offset [] = Unit {0}
  Brought p [] mem in_buf offset (r ∷ rs) = Silent r × Brought p [] mem in_buf offset rs
  Brought p (msg ∷ msgs) mem in_buf offset (r ∷ rs) =
      let now = recv_raw env.layout env.token2dptr mem in_buf offset r.0 r.1 in
      Bring env.layout env.token2dptr (from wire p) offset r
      × ByRc now.rc
          (Brought (p + (sizeof_net_msg + data_len msg)) msgs now.mem now.in_buf now.offset rs)
          (Brought p (msg ∷ msgs) now.mem now.in_buf now.offset rs)

  -- What has come of the first message.
  abbrev pub Coming : ℕ → List NetMsg → Memory → Memory → ℕ → Type 0
  Coming p [] mem in_buf offset = offset ≡ 0
  Coming p (msg ∷ msgs) mem in_buf offset =
      (offset < whole env.layout env.token2dptr (from wire p))
      × Arrived env.layout env.token2dptr (from wire p) offset in_buf mem

  pub start-Coming : (p : ℕ) (msgs : List NetMsg) (mem in_buf : Memory) → Coming p msgs mem in_buf 0
  start-Coming p [] mem in_buf = refl
  start-Coming p (msg ∷ msgs) mem in_buf = (omega arith, λ x h. absurd (omega arith))

  -- A read of nothing.
  pub silent_lem :
      (mem in_buf : Memory) (r : Reads)
      → Silent r
      → recv_raw env.layout env.token2dptr mem in_buf 0 r.0 r.1
        ≡ record { rc = rc_err eagain; offset = 0; in_buf = in_buf; mem = mem }
  unfolding recv_raw recv_header recv_rest store to_word add_int
  silent_lem mem in_buf (failed e, io) h = rw h refl
  silent_lem mem in_buf (moved bs, io) h = absurd h

module _ (i : ℕ) where
  -- A socket that is about to read, with what it reads into.
  pub record Reading (mem in_buf : Memory) (offset : ℕ) (n : Net) : Type 0 where
    pub is_active : (n.socks i).state ≡ active
    pub is_running : is_stopping (n.socks i).fsm_state ≡ false
    pub mem_is : n.mem ≡ mem
    pub in_buf_is : (n.socks i).in_buf ≡ in_buf
    pub in_offset_is : (n.socks i).in_offset ≡ offset

module _ (env : Env) (i : ℕ) where
  pub heard_is :
      (mem in_buf : Memory) (offset : ℕ) (n : Net) (r : Reads)
      → Reading i mem in_buf offset n
      → heard (reading env r) i n ≡ recv_raw env.layout env.token2dptr mem in_buf offset r.0 r.1
  heard_is mem in_buf offset n r h =
      ap
        (λ m. recv_raw env.layout env.token2dptr m (n.socks i).in_buf (n.socks i).in_offset r.0 r.1)
        h.mem_is
      ∙ ap₂ (λ b o. recv_raw env.layout env.token2dptr mem b o r.0 r.1) h.in_buf_is h.in_offset_is

  pub Follows-Reading :
      (mem in_buf : Memory) (offset : ℕ) (n n1 : Net) (r : Reads) (now : Received)
      → Reading i mem in_buf offset n
      → Follows (reading env r) i n n1
      → heard (reading env r) i n ≡ now
      → Reading i now.mem now.in_buf now.offset n1
  Follows-Reading mem in_buf offset n n1 r now h f e = record {
    is_active = f.state ∙ h.is_active;
    is_running = ap is_stopping f.fsm_state ∙ h.is_running;
    mem_is = f.mem ∙ ap (λ (x : Received). x.mem) e;
    in_buf_is = f.in_buf ∙ ap (λ (x : Received). x.in_buf) e;
    in_offset_is = f.in_offset ∙ ap (λ (x : Received). x.offset) e;
  }

module _ (layout : Layout) (sender : Memory) where
  pub queue_size :
      (msg : NetMsg) (msgs : List NetMsg)
      → length (queue_bytes layout sender (msg ∷ msgs))
        ≡ sizeof_net_msg + data_len msg + length (queue_bytes layout sender msgs)
  unfolding queue_bytes message_bytes
  queue_size msg msgs =
      let l = layout.length-encode msg in
      let l' = length-load sender msg.src (data_len msg) in
      let bytes = load sender msg.src (data_len msg) in
      let head = length-append (layout.encode msg) bytes in
      let all = length-append (layout.encode msg ++ bytes) (queue_bytes layout sender msgs) in
      omega (arith, l, l', head, all)

module _ (env : Env) (sender : Memory) (i fuel : ℕ) where
  -- What the events told of, and whether it was all: it was unless there were fewer events than bytes
  -- missing.
  abbrev pub Outcome : List Reads → List NetMsg → ℕ → Net → Type 0
  Outcome rs msgs offset n =
      (n' : Net) × (got : List NetMsg) × (rest : List NetMsg) × Told env sender i fuel n' rs n got
      × (msgs ≡ got ++ rest)
      × ((j : ℕ) → j ≢ i → n'.socks j ≡ n.socks j)
      × ((rest ≡ []) ⊎ (offset + length rs < length (queue_bytes env.layout sender msgs)))

  pub waits-Follows :
      (mem in_buf : Memory) (offset : ℕ) (n : Net) (r : Reads)
      → Reading i mem in_buf offset n
      → (heard (reading env r) i n).rc ≡ rc_err eagain
      → Follows (reading env r) i n (read (reading env r) i n)
  waits-Follows mem in_buf offset n r h e =
      (hear_waits (reading env r) i n fuel eagain h.is_running h.is_active e (inl refl)).1

  -- An event that brings no message to its end, and the later ones.
  pub waits-Outcome :
      (r : Reads) (rs : List Reads) (msgs : List NetMsg) (mem in_buf : Memory) (offset o : ℕ)
      (n : Net)
      → Reading i mem in_buf offset n
      → (heard (reading env r) i n).rc ≡ rc_err eagain
      → (offset < o ⊎ (msgs ≡ []))
      → Outcome rs msgs o (read (reading env r) i n)
      → Outcome (r ∷ rs) msgs offset n
  unfolding queue_bytes
  waits-Outcome r rs msgs mem in_buf offset o n h e m (n', got, rest, trace, split, others, all) =
      let (run, f, same) =
        hear_waits (reading env r) i n fuel eagain h.is_running h.is_active e (inl refl) in
      (
        n',
        got,
        rest,
        waits run same trace,
        split,
        λ j ne. others j ne ∙ f.others j ne,
        elim all [
          | inl none ↦ inl none
          | inr few ↦ elim m [
            | inl more ↦ inr (omega (arith, more, few))
            | inr empty ↦
                absurd
                  (omega (arith, few, ap (λ q. length (queue_bytes env.layout sender q)) empty))
          ]
        ],
      )

  -- An event that brings a message to its end, and the later ones.
  pub tells-Outcome :
      (r : Reads) (rs : List Reads) (msg : NetMsg) (msgs : List NetMsg) (mem in_buf : Memory)
      (offset o : ℕ) (n : Net) (now : Received)
      → Reading i mem in_buf offset n
      → heard (reading env r) i n ≡ now
      → now.rc ≡ rc_ok
      → header env.layout now.in_buf ≡ msg
      → DataCame env.token2dptr sender msg now.mem
      → offset < sizeof_net_msg + data_len msg
      → o ≡ 0
      → Outcome rs msgs o (told (reading env r) i n)
      → Outcome (r ∷ rs) (msg ∷ msgs) offset n
  tells-Outcome r rs msg msgs mem in_buf offset o n now h e ok hd came before z
        (n', got, rest, trace, split, others, all) =
      let (run, f, tell) =
        hear_message (reading env r) i n fuel h.is_running h.is_active
          (ap (λ (x : Received). x.rc) e ∙ ok) in
      let s = (told (reading env r) i n).socks i in
      let here = ap (λ (x : Received). header env.layout x.in_buf) e ∙ hd in
      (
        n',
        msg ∷ got,
        rest,
        tells run (subst (λ m. Tells m s) here tell)
            (subst (DataCame env.token2dptr sender msg)
              (sym (f.mem ∙ ap (λ (x : Received). x.mem) e)) came)
            trace,
        ap (◌∷◌ msg) split,
        λ j ne. others j ne ∙ f.others j ne,
        elim all [
          | inl none ↦ inl none
          | inr few ↦ inr (omega (arith, queue_size env.layout sender msg msgs, few, before, z))
        ],
      )
