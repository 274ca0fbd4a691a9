-- ===== src/Transfer/Recv.antt =====
-- RecvRaw: partial reads add up to the message.
use klibmsg.Base.{
  ℕ, ◌+◌, ◌-◌, ◌^◌, ◌<◌, ◌≤◌, ◌≡◌, refl, sym, ap, ◌∙◌, Bool, Option, none, some, List, ◌||◌, max,
  lt_ltb, ge_ltb, lt_of_ltb, ge_of_ltb, arith, ltb, Bool-cases, inl, inr,
}
use klibmsg.Memory.{Memory, load-cong}
use klibmsg.Os.{Io, to_word_small, signed_lt-to_word}
use klibmsg.Message.{Layout, sizeof_net_msg, total_msg_sz_small}
use klibmsg.Transfer.{recv_header, recv_data, recv_rest, header, recv_raw}
use klibmsg.Transfer.Send.{stream_head, is_hard}
use klibmsg.Transfer.Gain.{
  Feeds, Got, Got-stay, stored-Got, target, whole, Arrived, Gain, finish_recv-Gain,
}

module _ (layout : Layout) (token2dptr : ℕ → ℕ) (sent in_buf mem : Memory) (offset : ℕ)
    (small : whole layout token2dptr sent < 2 ^ 31) where
  -- The header that has arrived in full is the one that was sent.
  pub header-Arrived :
      (in_buf' : Memory) (o : ℕ)
      → sizeof_net_msg ≤ o
      → Arrived layout token2dptr sent o in_buf' mem
      → header layout in_buf' ≡ header layout sent
  unfolding header
  header-Arrived in_buf' o h came = ap layout.decode (
      load-cong in_buf' sent 0 sizeof_net_msg
        λ x p q. sym (stream_head in_buf' mem _ x (omega arith)) ∙ came x (omega arith))

  data-Got :
      (o : ℕ) (io : Io (List ℕ))
      → sizeof_net_msg ≤ o
      → o ≤ whole layout token2dptr sent
      → Feeds sent o (whole layout token2dptr sent - o) io
      → Got sent mem
          (target layout token2dptr sent + (o - sizeof_net_msg))
          o
          (whole layout token2dptr sent)
          (is_hard io)
          (recv_data mem (target layout token2dptr sent) (header layout sent) o io)
  unfolding recv_data
  data-Got o io h l f =
      rw (total_msg_sz_small (header layout sent) small, signed_lt-to_word o _ (omega arith) small)
        (elim (Bool-cases (ltb o (whole layout token2dptr sent))) [
          | inl more ↦ rw more (stored-Got sent mem _ o _ l small io f)
          | inr end ↦ rw end (Got-stay sent mem _ o _ (is_hard io) l)
        ])

  -- Behind the header's read, which left `in_offset` at `o` and the buffer at `in_buf'`.
  rest-Gain :
      (bad : Bool) (o : ℕ) (in_buf' : Memory) (io' : Io (List ℕ))
      → offset ≤ o
      → o ≤ whole layout token2dptr sent
      → ((x : ℕ) → sizeof_net_msg ≤ x → in_buf' x ≡ in_buf x)
      → Arrived layout token2dptr sent o in_buf' mem
      → (sizeof_net_msg ≤ o → Feeds sent o (whole layout token2dptr sent - o) io')
      → Gain layout token2dptr sent offset
          (bad || is_hard io')
          in_buf
          mem
          (recv_rest layout token2dptr mem in_buf offset (some (o, in_buf')) io')
  unfolding recv_rest
  rest-Gain bad o in_buf' io' h l fits came f =
      rw (to_word_small o (omega arith)) (elim (Bool-cases (ltb o sizeof_net_msg)) [
        | inl early ↦ rw early (record {
          outcome = inr (inl (refl, h, omega (arith, lt_of_ltb _ _ early), came));
          kept = λ x p. refl;
          fits = fits;
        })
        | inr late ↦
            let full = ge_of_ltb o sizeof_net_msg late in
            rw
              (
                late,
                header-Arrived in_buf' o full came,
                total_msg_sz_small (header layout sent) small,
              )
              (finish_recv-Gain layout token2dptr sent in_buf in_buf' mem offset o small h fits l
                came bad (is_hard io') _ full (data-Got o io' full l (f full)))
      ])

  pub recv_header-Got :
      (io : Io (List ℕ))
      → offset < sizeof_net_msg
      → Feeds sent offset (sizeof_net_msg - offset) io
      → Got sent in_buf offset offset sizeof_net_msg (is_hard io) (recv_header in_buf offset io)
  unfolding recv_header
  recv_header-Got io h f =
      rw (to_word_small offset (omega arith), lt_ltb offset sizeof_net_msg h)
        (stored-Got sent in_buf offset offset sizeof_net_msg (omega arith) (omega arith) io f)

  pub recv_header_skipped :
      (io : Io (List ℕ))
      → sizeof_net_msg ≤ offset
      → offset < whole layout token2dptr sent
      → recv_header in_buf offset io ≡ some (offset, in_buf)
  unfolding recv_header
  recv_header_skipped io h l =
      rw (to_word_small offset (omega arith), ge_ltb offset sizeof_net_msg h)

  -- What the header's read leaves, in front of the data.
  pub early-Arrived :
      (bad : Bool) (o : ℕ) (in_buf' : Memory)
      → Arrived layout token2dptr sent offset in_buf mem
      → Got sent in_buf offset offset sizeof_net_msg bad (some (o, in_buf'))
      → Arrived layout token2dptr sent o in_buf' mem
  early-Arrived bad o in_buf' came q x p =
      stream_head in_buf' mem _ x (omega (arith, q.1)) ∙ elim (Bool-cases (ltb x offset)) [
        | inl old ↦
            let b = lt_of_ltb x offset old in
            q.3 x (inl b) ∙ sym (stream_head in_buf mem _ x (omega (arith, q.1))) ∙ came x b
        | inr new ↦ let b = ge_of_ltb x offset new in q.2 x b (omega arith) ∙ ap sent (omega arith)
      ]

  early-Gain :
      (bad : Bool) (r : Option (ℕ × Memory)) (io' : Io (List ℕ))
      → offset < sizeof_net_msg
      → Arrived layout token2dptr sent offset in_buf mem
      → Got sent in_buf offset offset sizeof_net_msg bad r
      → Feeds sent sizeof_net_msg (whole layout token2dptr sent - sizeof_net_msg) io'
      → Gain layout token2dptr sent offset
          (bad || is_hard io')
          in_buf
          mem
          (recv_rest layout token2dptr mem in_buf offset r io')
  unfolding recv_rest
  early-Gain bad none io' h came q f = record {
    outcome = inr (inr (refl, ground arith));
    kept = λ x p. refl;
    fits = λ x p. refl;
  }
  early-Gain bad (some (o, in_buf')) io' h came q f =
      rest-Gain bad o in_buf' io' q.0 (omega arith) (λ x p. q.3 x (inr (omega arith)))
        (early-Arrived bad o in_buf' came q) λ p. let e : o ≡ sizeof_net_msg = omega arith in rw e f

-- RecvRaw of a message of less than 2^31 bytes, in front of its end, with reads that bring the next
-- bytes that were sent, at most as many as are asked for: it returns 0 with the whole message in
-- the buffer and at the target and `in_offset` at 0; -EAGAIN in front of the end, with the bytes up
-- to `in_offset` arrived; -ECONNRESET only on an error of `read`. It changes no memory outside the
-- target and no byte of the buffer behind the header.
pub recv_raw-Gain :
    (layout : Layout) (token2dptr : ℕ → ℕ) (sent in_buf mem : Memory) (offset : ℕ)
    (io io' : Io (List ℕ))
    → whole layout token2dptr sent < 2 ^ 31
    → offset < whole layout token2dptr sent
    → Arrived layout token2dptr sent offset in_buf mem
    → Feeds sent offset (sizeof_net_msg - offset) io
    → Feeds sent
        (max offset sizeof_net_msg)
        (whole layout token2dptr sent - max offset sizeof_net_msg)
        io'
    → Gain layout token2dptr sent offset
        (is_hard io || is_hard io')
        in_buf
        mem
        (recv_raw layout token2dptr mem in_buf offset io io')
unfolding recv_raw
recv_raw-Gain layout token2dptr sent in_buf mem offset io io' small o came f f' =
    elim (Bool-cases (ltb offset sizeof_net_msg)) [
      | inl early ↦
          let h = lt_of_ltb offset sizeof_net_msg early in
          let e : max offset sizeof_net_msg ≡ sizeof_net_msg = omega arith in
          early-Gain layout token2dptr sent in_buf mem offset small (is_hard io) _ io' h came
            (recv_header-Got layout token2dptr sent in_buf mem offset small io h f) (rw e at f')
      | inr late ↦
          let h = ge_of_ltb offset sizeof_net_msg late in
          let e : max offset sizeof_net_msg ≡ offset = omega arith in
          rw (recv_header_skipped layout token2dptr sent in_buf mem offset small io h o) (
            rest-Gain layout token2dptr sent in_buf mem offset small (is_hard io) offset in_buf io'
              (omega arith) (omega arith) (λ x p. refl) came λ p. rw e at f')
    ]
