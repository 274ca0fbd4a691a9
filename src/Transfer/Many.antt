-- ===== src/Transfer/Many.antt =====
-- RecvRaw time after time, as the socket is fed its read events.
use klibmsg.Base.{
  ℕ, ◌+◌, ◌-◌, ◌^◌, ◌<◌, ◌≤◌, ◌≡◌, refl, sym, ap, subst, ◌∙◌, Bool, true, false, ◌||◌, inl, inr,
  List, [], ◌∷◌, arith, max,
}
use klibmsg.Memory.{Memory, load-cong}
use klibmsg.Os.{eagain, Rc, rc_ok, rc_err, Io}
use klibmsg.Message.{NetMsg, Layout, sizeof_net_msg, data_len}
use klibmsg.Transfer.{Received, header, recv_raw}
use klibmsg.Transfer.Send.{stream, stream_head, stream_tail, is_hard, outgoing, size}
use klibmsg.Transfer.Gain.{Feeds, Arrived, Gain, whole}
use klibmsg.Transfer.Recv.{recv_raw-Gain}

abbrev pub Reads : Type 0
Reads = Io (List ℕ) × Io (List ℕ)

abbrev pub any_hard : List Reads → Bool
any_hard [] = false
any_hard ((io, io') ∷ later) = (is_hard io || is_hard io') || any_hard later

module _ (layout : Layout) (token2dptr : ℕ → ℕ) where
  -- The next call, unless the message is complete or the connection is reset.
  abbrev pub go_on : Received → Received → Rc → Received
  go_on r next (rc_err eagain) = next
  go_on r next rc = r

  unfoldable pub recv_many : Memory → Memory → ℕ → List Reads → Received
  recv_many mem in_buf offset [] = record {
    rc = rc_err eagain;
    offset = offset;
    in_buf = in_buf;
    mem = mem;
  }
  recv_many mem in_buf offset ((io, io') ∷ later) =
      let r = recv_raw layout token2dptr mem in_buf offset io io' in
      let next = recv_many r.mem r.in_buf r.offset later in go_on r next r.rc

  -- The reads of every call bring the next bytes of what was sent.
  abbrev pub AllFeed : Memory → Memory → Memory → ℕ → List Reads → Type 0
  AllFeed sent mem in_buf offset [] = Unit {0}
  AllFeed sent mem in_buf offset ((io, io') ∷ later) =
      Feeds sent offset (sizeof_net_msg - offset) io
      × Feeds sent (max offset sizeof_net_msg)
          (whole layout token2dptr sent - max offset sizeof_net_msg) io'
      × AllFeed sent (recv_raw layout token2dptr mem in_buf offset io io').mem
          (recv_raw layout token2dptr mem in_buf offset io io').in_buf
          (recv_raw layout token2dptr mem in_buf offset io io').offset later

or_true : (a b : Bool) → a ≡ true → (a || b) ≡ true
or_true a b h = ground arith

true_or : (a b : Bool) → b ≡ true → (a || b) ≡ true
true_or a b h = ground arith

module _ (layout : Layout) (token2dptr : ℕ → ℕ) (sent : Memory) where
  -- One call that leaves the message incomplete, and the later ones.
  join-Gain :
      (in_buf mem : Memory) (offset : ℕ) (bad bad' : Bool) (r next : Received)
      → r.rc ≡ rc_err eagain
      → offset ≤ r.offset
      → Gain layout token2dptr sent offset bad in_buf mem r
      → Gain layout token2dptr sent r.offset bad' r.in_buf r.mem next
      → Gain layout token2dptr sent offset (bad || bad') in_buf mem next
  join-Gain in_buf mem offset bad bad' r next e h p q = record {
    outcome = elim q.outcome [
      | inl whole_in ↦ inl whole_in
      | inr (inl (e', h', below, came)) ↦ inr (inl (e', omega arith, below, came))
      | inr (inr (e', b)) ↦ inr (inr (e', true_or bad bad' b))
    ];
    kept = λ x o. q.kept x o ∙ p.kept x o;
    fits = λ x o. q.fits x o ∙ p.fits x o;
  }

  more-Gain :
      (in_buf mem : Memory) (offset : ℕ) (bad bad' : Bool) (r : Received)
      → Gain layout token2dptr sent offset bad in_buf mem r
      → Gain layout token2dptr sent offset (bad || bad') in_buf mem r
  more-Gain in_buf mem offset bad bad' r p = record {
    outcome = elim p.outcome [
      | inl done ↦ inl done
      | inr (inl later) ↦ inr (inl later)
      | inr (inr (e', b)) ↦ inr (inr (e', or_true bad bad' b))
    ];
    kept = p.kept;
    fits = p.fits;
  }

  incomplete :
      (in_buf mem : Memory) (offset : ℕ) (bad : Bool) (r : Received)
      → Gain layout token2dptr sent offset bad in_buf mem r
      → r.rc ≡ rc_err eagain
      → (offset ≤ r.offset)
        × (r.offset < whole layout token2dptr sent)
        × Arrived layout token2dptr sent r.offset r.in_buf r.mem
  incomplete in_buf mem offset bad r p e = elim p.outcome [
    | inl (e', z, came) ↦ absurd cc
    | inr (inl (e', h, below, came)) ↦ (h, below, came)
    | inr (inr (e', b)) ↦ absurd cc
  ]

  go_on-Gain :
      (in_buf mem : Memory) (offset : ℕ) (bad bad' : Bool) (r next : Received)
      → Gain layout token2dptr sent offset bad in_buf mem r
      → (r.rc ≡ rc_err eagain → Gain layout token2dptr sent r.offset bad' r.in_buf r.mem next)
      → (rc : Rc) → r.rc ≡ rc
      → Gain layout token2dptr sent offset
          (bad || bad')
          in_buf
          mem
          (go_on layout token2dptr r next rc)
  go_on-Gain in_buf mem offset bad bad' r next p q (rc_err eagain) e =
      join-Gain in_buf mem offset bad bad' r next e (incomplete in_buf mem offset bad r p e).0 p
        (q e)
  go_on-Gain in_buf mem offset bad bad' r next p q _ e = more-Gain in_buf mem offset bad bad' r p

  -- Any number of calls of RecvRaw on a message of less than 2^31 bytes, from a point in front of its
  -- end on, with reads that bring the next bytes that were sent, at most as many as are asked for:
  -- if the last call returns 0, the whole message is in the buffer and at the target; if it returns
  -- -EAGAIN, the bytes up to `in_offset` are, and no fewer than before; -ECONNRESET is returned only
  -- on an error of `read`. No memory outside the target changes, and no byte of the buffer behind the
  -- header.
  pub recv_many-Gain :
      (in_buf mem : Memory) (offset : ℕ) (reads : List Reads)
      → whole layout token2dptr sent < 2 ^ 31
      → offset < whole layout token2dptr sent
      → Arrived layout token2dptr sent offset in_buf mem
      → AllFeed layout token2dptr sent mem in_buf offset reads
      → Gain layout token2dptr sent offset
          (any_hard reads)
          in_buf
          mem
          (recv_many layout token2dptr mem in_buf offset reads)
  unfolding recv_many
  recv_many-Gain in_buf mem offset [] small o came f = record {
    outcome = inr (inl (refl, omega arith, o, came));
    kept = λ x h. refl;
    fits = λ x h. refl;
  }
  recv_many-Gain in_buf mem offset ((io, io') ∷ later) small o came (f, f', rest) =
      let r = recv_raw layout token2dptr mem in_buf offset io io' in
      let p = recv_raw-Gain layout token2dptr sent in_buf mem offset io io' small o came f f' in
      go_on-Gain in_buf mem offset (is_hard io || is_hard io') (any_hard later) r _ p
        (λ e.
          let (h, below, here) = incomplete in_buf mem offset _ r p e in
          recv_many-Gain r.in_buf r.mem r.offset later small below here rest)
        r.rc refl

module _ (layout : Layout) (token2dptr : ℕ → ℕ) (sender out_buf : Memory) where
  abbrev msg : NetMsg
  msg = header layout out_buf

  -- The stream begins with the header that is in the sender's buffer.
  header-outgoing : header layout (outgoing layout sender out_buf) ≡ header layout out_buf
  unfolding header
  header-outgoing = ap layout.decode (
      load-cong _ out_buf 0 sizeof_net_msg
        λ x p q. stream_head out_buf sender (header layout out_buf).src x (omega arith))

  abbrev sent : Memory
  sent = outgoing layout sender out_buf

  -- What has arrived, with the header of the sender.
  Arrived-msg :
      (in_buf mem : Memory)
      → Arrived layout token2dptr sent (whole layout token2dptr sent) in_buf mem
      → (x : ℕ) → x < size layout sender out_buf
      → stream in_buf mem (token2dptr msg.dst) x ≡ sent x
  Arrived-msg in_buf mem came =
      subst
        (λ m.
          (x : ℕ)
          → x < sizeof_net_msg + data_len m
          → stream in_buf mem (token2dptr m.dst) x ≡ sent x)
        header-outgoing came

  header-recv :
      (in_buf mem : Memory)
      → ((x : ℕ)
          → x < size layout sender out_buf
          → stream in_buf mem (token2dptr msg.dst) x ≡ sent x)
      → header layout in_buf ≡ msg
  unfolding header
  header-recv in_buf mem came = ap layout.decode (
      load-cong in_buf out_buf 0 sizeof_net_msg λ x p q.
        sym (stream_head in_buf mem (token2dptr msg.dst) x (omega arith))
        ∙ came x (omega arith)
        ∙ stream_head out_buf sender msg.src x (omega arith))

  data-recv :
      (in_buf mem : Memory)
      → ((x : ℕ)
          → x < size layout sender out_buf
          → stream in_buf mem (token2dptr msg.dst) x ≡ sent x)
      → (x : ℕ) → x < data_len msg
      → mem (token2dptr msg.dst + x) ≡ sender (msg.src + x)
  data-recv in_buf mem came x h =
      let y : ℕ = sizeof_net_msg + x in
      let e : y - sizeof_net_msg ≡ x = omega arith in
      let a = sym (stream_tail in_buf mem (token2dptr msg.dst) y (omega arith)) in
      let b = stream_tail out_buf sender msg.src y (omega arith) in
      rw e at (a ∙ came y (omega arith) ∙ b)

  -- Let a message of less than 2^31 bytes be in a sender's buffer, and let the reads of any number of
  -- calls of RecvRaw, the first at the start of a message, bring the bytes that SendRaw writes, in
  -- order and no more than asked for. If the last call returns 0, the receiver's buffer holds the
  -- sender's header, and the target of the message holds the sender's data.
  pub recv_many-delivers :
      (in_buf mem : Memory) (reads : List Reads)
      → size layout sender out_buf < 2 ^ 31
      → AllFeed layout token2dptr sent mem in_buf 0 reads
      → (recv_many layout token2dptr mem in_buf 0 reads).rc ≡ rc_ok
      → (header layout (recv_many layout token2dptr mem in_buf 0 reads).in_buf
          ≡ header layout out_buf)
        × ((x : ℕ)
            → x < data_len (header layout out_buf)
            → (recv_many layout token2dptr mem in_buf 0 reads).mem
                (token2dptr (header layout out_buf).dst + x)
              ≡ sender ((header layout out_buf).src + x))
  recv_many-delivers in_buf mem reads small f ok =
      let r = recv_many layout token2dptr mem in_buf 0 reads in
      let e = header-outgoing in
      let p =
        recv_many-Gain layout token2dptr sent in_buf mem 0 reads (rw e small) (omega arith)
          (λ x h. absurd (omega arith)) f in
      elim p.outcome [
        | inl (e', z, came) ↦
            let here = Arrived-msg r.in_buf r.mem came in
            (header-recv r.in_buf r.mem here, data-recv r.in_buf r.mem here)
        | inr (inl (e', h, below, came)) ↦ absurd cc
        | inr (inr (e', b)) ↦ absurd cc
      ]
