-- ===== src/Transfer/Completes.antt =====
-- RecvRaw, called again while it returns -EAGAIN (socket.cpp).
use klibmsg.Base.{ℕ, ◌-◌, ◌^◌, ◌<◌, ◌≤◌, ◌≡◌, List, [], ◌∷◌, length, arith, inl, inr}
use klibmsg.Memory.{Memory}
use klibmsg.Os.{rc_ok}
use klibmsg.Message.{Layout}
use klibmsg.Transfer.{recv_raw}
use klibmsg.Transfer.Gain.{Arrived, whole}
use klibmsg.Transfer.Recv.{recv_raw-Gain}
use klibmsg.Transfer.Live.{Fed, recv_raw-Advanced}
use klibmsg.Transfer.Many.{Reads, recv_many, AllFeed}

module _ (layout : Layout) (token2dptr : ℕ → ℕ) (sent : Memory) where
  -- The reads of each call, where the calls before it left `in_offset`.
  abbrev pub AllFed : Memory → Memory → ℕ → List Reads → Type 0
  AllFed mem in_buf offset [] = Unit {0}
  AllFed mem in_buf offset ((io, io') ∷ later) =
      Fed offset io io'
      × AllFed (recv_raw layout token2dptr mem in_buf offset io io').mem
          (recv_raw layout token2dptr mem in_buf offset io io').in_buf
          (recv_raw layout token2dptr mem in_buf offset io io').offset later

  -- RecvRaw, called again while it returns -EAGAIN, returns 0 at last: for a message of less than
  -- 2^31 bytes, with as many calls as bytes are missing or more, if the reads bring the next bytes
  -- that were sent, never fail for good, and the first read of each call brings at least one.
  pub recv_many-completes :
      (mem in_buf : Memory) (offset : ℕ) (reads : List Reads)
      → whole layout token2dptr sent < 2 ^ 31
      → offset < whole layout token2dptr sent
      → whole layout token2dptr sent - offset ≤ length reads
      → Arrived layout token2dptr sent offset in_buf mem
      → AllFeed layout token2dptr sent mem in_buf offset reads
      → AllFed mem in_buf offset reads
      → (recv_many layout token2dptr mem in_buf offset reads).rc ≡ rc_ok
  unfolding recv_many
  recv_many-completes mem in_buf offset [] small k enough came f g = absurd (omega (arith, enough))
  recv_many-completes mem in_buf offset ((io, io') ∷ later) small k enough came (f, f', fs)
        (g, gs) =
      let r = recv_raw layout token2dptr mem in_buf offset io io' in
      let gain = recv_raw-Gain layout token2dptr sent in_buf mem offset io io' small k came f f' in
      elim (recv_raw-Advanced layout token2dptr sent in_buf mem offset io io' small k came f f' g) [
        | inl e ↦ rw e
        | inr (e, more) ↦ elim gain.outcome [
          | inl (e', z, c) ↦ absurd cc
          | inr (inr (e', b)) ↦ absurd cc
          | inr (inl (e', h, below, c)) ↦ rw e (
              recv_many-completes r.mem r.in_buf r.offset later small below
                (omega (arith, enough, more)) c fs gs)
        ]
      ]
