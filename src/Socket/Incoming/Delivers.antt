-- ===== src/Socket/Incoming/Delivers.antt =====
-- Events of a descriptor that it can be read from, while messages come.
use klibmsg.Base.{
  ℕ, ◌+◌, ◌<◌, ◌≡◌, ◌≢◌, refl, sym, ap, subst, ◌∙◌, false, List, [], ◌∷◌, ◌++◌, length, ◌⊎◌, inl,
  inr, arith,
}
use klibmsg.Memory.{Memory}
use klibmsg.Message.{NetMsg, sizeof_net_msg, data_len}
use klibmsg.Transfer.{Received, recv_raw}
use klibmsg.Transfer.Many.{Reads}
use klibmsg.Net.{active, Net}
use klibmsg.Fsm.{is_stopping}
use klibmsg.Socket.Ops.{Env}
use klibmsg.Socket.Outgoing.{queue_bytes, AllSendable}
use klibmsg.Socket.Incoming.{Told, over, reading}
use klibmsg.Socket.Incoming.Wire.{Holds, later-Holds}
use klibmsg.Socket.Incoming.Arrives.{size-from, recv_raw-Arrives}
use klibmsg.Socket.Incoming.Hear.{read, told, hear_message}
use klibmsg.Socket.Incoming.Events.{
  Brought, Coming, start-Coming, silent_lem, Outcome, Reading, heard_is, Follows-Reading,
  queue_size, waits-Follows, waits-Outcome, tells-Outcome,
}

module _ (env : Env) (sender wire : Memory) (i fuel : ℕ) where
  events-Outcome :
      (rs : List Reads) (p : ℕ) (msgs : List NetMsg) (mem in_buf : Memory) (offset : ℕ) (n : Net)
      → Reading i mem in_buf offset n
      → AllSendable msgs
      → Holds wire p (queue_bytes env.layout sender msgs)
      → Coming env wire p msgs mem in_buf offset
      → Brought env wire p msgs mem in_buf offset rs
      → Outcome env sender i fuel rs msgs offset n
  events-Outcome [] p [] mem in_buf offset n h k w c b =
      (n, [], [], over, refl, λ j ne. refl, inl refl)
  events-Outcome [] p (msg ∷ msgs) mem in_buf offset n h k w c b = (
    n,
    [],
    msg ∷ msgs,
    over,
    refl,
    λ j ne. refl,
    inr (
        omega (
          arith,
          queue_size env.layout sender msg msgs,
          size-from env.layout env.token2dptr sender wire p msg msgs k.0 w,
          c,
        )),
  )
  events-Outcome (r ∷ rs) p [] mem in_buf offset n h k w c b =
      let e =
        heard_is env i mem in_buf offset n r h
        ∙ ap (λ o. recv_raw env.layout env.token2dptr mem in_buf o r.0 r.1) c
        ∙ silent_lem env wire mem in_buf r b.0 in
      let f =
        (waits-Follows env sender i fuel mem in_buf offset n r h (ap (λ (x : Received). x.rc) e)) in
      waits-Outcome env sender i fuel r rs [] mem in_buf offset 0 n h
        (ap (λ (x : Received). x.rc) e) (inr refl)
        (events-Outcome rs p [] mem in_buf 0 (read (reading env r) i n)
          (Follows-Reading env i mem in_buf offset n _ r _ h f e) k w refl
          (subst (λ o. Brought env wire p [] mem in_buf o rs) c b.1))
  events-Outcome (r ∷ rs) p (msg ∷ msgs) mem in_buf offset n h k w c b =
      let now = recv_raw env.layout env.token2dptr mem in_buf offset r.0 r.1 in
      let e = heard_is env i mem in_buf offset n r h in
      elim (recv_raw-Arrives env.layout env.token2dptr sender wire p msg msgs k.0 w in_buf mem
        offset r c.0 c.1 b.0) [
          | inl (ok, z, hd, came) ↦
              let p' = p + (sizeof_net_msg + data_len msg) in
              let f =
                (hear_message (reading env r) i n fuel h.is_running h.is_active
                  (ap (λ (x : Received). x.rc) e ∙ ok)).1 in
              tells-Outcome env sender i fuel r rs msg msgs mem in_buf offset now.offset n now h e
                ok hd came
                (omega (arith, size-from env.layout env.token2dptr sender wire p msg msgs k.0 w, c))
                z
                (events-Outcome rs p' msgs now.mem now.in_buf now.offset (told (reading env r) i n)
                  (Follows-Reading env i mem in_buf offset n _ r now h f e) k.1
                  (later-Holds env.layout sender wire p msg msgs k.0 w)
                  (subst (Coming env wire p' msgs now.mem now.in_buf) (sym z)
                    (start-Coming env wire p' msgs now.mem now.in_buf))
                  (rw ok at (b.1)))
          | inr (err, more, below, came) ↦
              let f =
                waits-Follows env sender i fuel mem in_buf offset n r h
                  (ap (λ (x : Received). x.rc) e ∙ err) in
              waits-Outcome env sender i fuel r rs (msg ∷ msgs) mem in_buf offset now.offset n h
                (ap (λ (x : Received). x.rc) e ∙ err) (inl more)
                (events-Outcome rs p (msg ∷ msgs) now.mem now.in_buf now.offset
                  (read (reading env r) i n)
                  (Follows-Reading env i mem in_buf offset n _ r now h f e) k w (below, came)
                  (rw err at (b.1)))
        ]

  -- Let an active socket, whose machine is not stopping, stand in front of the first of some
  -- messages, which fit in their layout and have less than 2^31 bytes each, and let the reads of
  -- every event of its descriptor bring the next bytes of the messages, no more than asked for and
  -- at least one, and not fail for good, and let there be nothing to read behind the last message.
  -- Then every event runs to its end and changes no other socket. The messages that the events
  -- tell of, each at the event that brings its last byte and with its data at their target then,
  -- are the first ones, in order, none left out and none twice; they are all of them, unless there
  -- were fewer events than bytes.
  pub feed-Told :
      (rs : List Reads) (p : ℕ) (msgs : List NetMsg) (n : Net)
      → (n.socks i).state ≡ active
      → is_stopping (n.socks i).fsm_state ≡ false
      → (n.socks i).in_offset ≡ 0
      → AllSendable msgs
      → Holds wire p (queue_bytes env.layout sender msgs)
      → Brought env wire p msgs n.mem (n.socks i).in_buf 0 rs
      → (n' : Net) × (got : List NetMsg) × (rest : List NetMsg) × Told env sender i fuel n' rs n got
        × (msgs ≡ got ++ rest)
        × ((j : ℕ) → j ≢ i → n'.socks j ≡ n.socks j)
        × ((rest ≡ []) ⊎ (length rs < length (queue_bytes env.layout sender msgs)))
  feed-Told rs p msgs n a f z k w b =
      let (n', got, rest, trace, split, others, all) =
        events-Outcome rs p msgs n.mem (n.socks i).in_buf 0 n
          (record {
            is_active = a;
            is_running = f;
            mem_is = refl;
            in_buf_is = refl;
            in_offset_is = z;
          })
          k w (start-Coming env wire p msgs n.mem (n.socks i).in_buf) b in
      (
        n',
        got,
        rest,
        trace,
        split,
        others,
        elim all [ inl e ↦ inl e | inr few ↦ inr (omega arith) ],
      )
