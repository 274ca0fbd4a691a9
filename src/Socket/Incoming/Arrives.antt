-- ===== src/Socket/Incoming/Arrives.antt =====
-- One call of RecvRaw on the bytes of messages.
use klibmsg.Base.{ℕ, ◌+◌, ◌-◌, ◌^◌, ◌<◌, ◌≡◌, sym, ap, ◌∙◌, List, ◌∷◌, ◌⊎◌, inl, inr, max, arith}
use klibmsg.Memory.{Memory}
use klibmsg.Os.{eagain, rc_ok, rc_err}
use klibmsg.Message.{NetMsg, Layout, sizeof_net_msg, data_len}
use klibmsg.Transfer.{header, recv_raw}
use klibmsg.Transfer.Send.{stream_tail}
use klibmsg.Transfer.Gain.{Feeds, Arrived, whole}
use klibmsg.Transfer.Recv.{recv_raw-Gain, header-Arrived}
use klibmsg.Transfer.Live.{Fed, recv_raw-Advanced}
use klibmsg.Transfer.Many.{Reads}
use klibmsg.Socket.Outgoing.{queue_bytes, Sendable}
use klibmsg.Socket.Incoming.{DataCame}
use klibmsg.Socket.Incoming.Wire.{Holds, from, header-from, data-from}

-- The reads of one call bring bytes of the message that is on its way, at most as many as are asked
-- for and at least one.
abbrev pub Bring : Layout → (ℕ → ℕ) → Memory → ℕ → Reads → Type 0
Bring layout token2dptr sent offset (io, io') =
    Feeds sent offset (sizeof_net_msg - offset) io
    × Feeds sent (max offset sizeof_net_msg)
        (whole layout token2dptr sent - max offset sizeof_net_msg) io'
    × Fed offset io io'

module _ (layout : Layout) (token2dptr : ℕ → ℕ) (sender wire : Memory) (p : ℕ) (msg : NetMsg)
    (rest : List NetMsg) (can : Sendable msg)
    (h : Holds wire p (queue_bytes layout sender (msg ∷ rest))) where
  abbrev pub sent : Memory
  sent = from wire p

  pub size-from : whole layout token2dptr sent ≡ sizeof_net_msg + data_len msg
  size-from =
      ap (λ m. sizeof_net_msg + data_len m) (header-from layout sender wire p msg rest can h)

  small : whole layout token2dptr sent < 2 ^ 31
  small = rw size-from (can.1)

  -- A message that has arrived in full.
  Arrived-DataCame :
      (in_buf mem : Memory)
      → Arrived layout token2dptr sent (whole layout token2dptr sent) in_buf mem
      → (header layout in_buf ≡ msg) × DataCame token2dptr sender msg mem
  Arrived-DataCame in_buf mem came = (
    header-Arrived layout token2dptr sent in_buf mem 0 small in_buf (whole layout token2dptr sent)
          (omega arith) came
        ∙ header-from layout sender wire p msg rest can h,
    λ x q.
        let y : ℕ = sizeof_net_msg + x in
        let e : y - sizeof_net_msg ≡ x = omega arith in
        let dst = token2dptr (header layout sent).dst in
        let to =
          ap (λ (m : NetMsg). token2dptr m.dst) (header-from layout sender wire p msg rest can h) in
        ap (λ a. mem (a + x)) (sym to)
        ∙ (rw e at (sym (stream_tail in_buf mem dst y (omega arith))))
        ∙ came y (omega (arith, size-from))
        ∙ data-from layout sender wire p msg rest can h x q,
  )

  -- What the call leaves: the whole message, or more of it than before.
  pub recv_raw-Arrives :
      (in_buf mem : Memory) (offset : ℕ) (reads : Reads)
      → offset < whole layout token2dptr sent
      → Arrived layout token2dptr sent offset in_buf mem
      → Bring layout token2dptr sent offset reads
      → let r = recv_raw layout token2dptr mem in_buf offset reads.0 reads.1 in
        ((r.rc ≡ rc_ok)
          × (r.offset ≡ 0)
          × (header layout r.in_buf ≡ msg)
          × DataCame token2dptr sender msg r.mem)
        ⊎ ((r.rc ≡ rc_err eagain)
            × (offset < r.offset)
            × (r.offset < whole layout token2dptr sent)
            × Arrived layout token2dptr sent r.offset r.in_buf r.mem)
  recv_raw-Arrives in_buf mem offset (io, io') o came (f, f', g) =
      let gain = recv_raw-Gain layout token2dptr sent in_buf mem offset io io' small o came f f' in
      elim gain.outcome [
        | inl (e, z, all) ↦
            let (here, data_here) = Arrived-DataCame _ _ all in inl (e, z, here, data_here)
        | inr (inl (e, b, c, d)) ↦
            elim (recv_raw-Advanced layout token2dptr sent in_buf mem offset io io' small o came f
              f' g) [ inl e' ↦ absurd cc | inr (e', more) ↦ inr (e, more, c, d) ]
        | inr (inr (e, bad)) ↦ absurd cc
      ]
