-- ===== src/Transfer/Live.antt =====
-- What RecvRaw does to `in_offset` when bytes arrive (socket.cpp).
use klibmsg.Base.{
  ℕ, suc, ◌+◌, ◌-◌, ◌^◌, ◌<◌, ◌≤◌, ◌≡◌, refl, subst, true, false, Option, some, List, [], ◌∷◌,
  length, lt_ltb, lt_of_ltb, ge_of_ltb, arith, ltb, Bool-cases, ◌⊎◌, inl, inr, max,
}
use klibmsg.Memory.{Memory}
use klibmsg.Os.{
  eagain, rc_ok, rc_err, Io, moved, failed, would_block, to_word, add_int, signed_lt, to_word_small,
  add_int_small, signed_lt-to_word,
}
use klibmsg.Message.{Layout, sizeof_net_msg, total_msg_sz_small}
use klibmsg.Transfer.{
  bytes, Received, stored, recv_header, recv_data, finish_recv, recv_rest, header, recv_raw,
}
use klibmsg.Transfer.Send.{is_hard}
use klibmsg.Transfer.Gain.{Got, Feeds, Arrived, whole}
use klibmsg.Transfer.Recv.{recv_header-Got, early-Arrived, header-Arrived, recv_header_skipped}

-- The read brings at least a byte.
abbrev pub Brings : Io (List ℕ) → Type 0
Brings (moved (b ∷ bs)) = Unit {0}
Brings _ = ⊥

-- Neither read fails for good, and the first one that the call makes brings at least a byte.
abbrev pub Fed : ℕ → Io (List ℕ) → Io (List ℕ) → Type 0
Fed offset io io' =
    (is_hard io ≡ false)
    × (is_hard io' ≡ false)
    × (offset < sizeof_net_msg → Brings io)
    × (sizeof_net_msg ≤ offset → Brings io')

-- The message is complete, or the offset has grown.
abbrev pub Advanced : ℕ → Received → Type 0
Advanced offset r = (r.rc ≡ rc_ok) ⊎ ((r.rc ≡ rc_err eagain) × (offset < r.offset))

finish_recv-Advanced :
    (in_buf mem mem' : Memory) (offset o o' total : ℕ)
    → offset < o'
    → Advanced offset (finish_recv in_buf mem o (some (o', mem')) total)
unfolding finish_recv
finish_recv-Advanced in_buf mem mem' offset o o' total h =
    elim (Bool-cases (signed_lt (to_word o') total)) [
      | inl e ↦ rw e (inr (refl, h))
      | inr e ↦ rw e (inl refl)
    ]

-- What a read does to the offset.
abbrev Grows : Memory → ℕ → ℕ → Io (List ℕ) → Option (List ℕ) → Type 0
Grows m a offset io got =
    (o : ℕ) × (m' : Memory) × (stored m a offset got ≡ some (o, m'))
    × (offset ≤ o)
    × (Brings io → offset < o)

moved-Grows :
    (m : Memory) (a offset : ℕ) (bs : List ℕ)
    → offset + length bs < 2 ^ 31
    → Grows m a offset (moved bs) (some bs)
moved-Grows m a offset bs h = (
  add_int offset (length bs),
  _,
  refl,
  rw (add_int_small offset (length bs) h) (omega arith),
  more bs h,
)
  where
    more :
        (l : List ℕ)
        → offset + length l < 2 ^ 31
        → Brings (moved l)
        → offset < add_int offset (length l)
    more [] k e = absurd e
    more (b ∷ l) k e = rw (add_int_small offset (suc (length l)) k) (omega arith)

stored-Grows :
    (m : Memory) (a offset limit : ℕ) (io : Io (List ℕ)) (sent : Memory)
    → limit < 2 ^ 31
    → offset ≤ limit
    → is_hard io ≡ false
    → Feeds sent offset (limit - offset) io
    → Grows m a offset io (bytes io)
stored-Grows m a offset limit (moved bs) sent l h soft f =
    moved-Grows m a offset bs (omega (arith, f.0))
stored-Grows m a offset limit (failed e) sent l h soft f =
    let blocks : would_block e ≡ true = ground arith in
    let (o, m', p, q, r) = moved-Grows m a offset [] (omega arith) in
    rw blocks (o, m', p, q, λ b. absurd b)

module _ (layout : Layout) (token2dptr : ℕ → ℕ) (sent in_buf mem : Memory) (offset : ℕ)
    (small : whole layout token2dptr sent < 2 ^ 31) where
  -- The first read, where the header is not complete.
  header-Grows :
      (io : Io (List ℕ))
      → offset < sizeof_net_msg
      → is_hard io ≡ false
      → Feeds sent offset (sizeof_net_msg - offset) io
      → (o : ℕ) × (m' : Memory) × (recv_header in_buf offset io ≡ some (o, m'))
        × (offset ≤ o)
        × (Brings io → offset < o)
  unfolding recv_header
  header-Grows io h soft f =
      rw (to_word_small offset (omega arith), lt_ltb offset sizeof_net_msg h)
        (stored-Grows in_buf offset offset sizeof_net_msg io sent (omega arith) (omega arith) soft
          f)

  -- The second read, from an offset at which the header has arrived.
  data-Grows :
      (in_buf' : Memory) (o : ℕ) (io : Io (List ℕ))
      → sizeof_net_msg ≤ o
      → o ≤ whole layout token2dptr sent
      → Arrived layout token2dptr sent o in_buf' mem
      → is_hard io ≡ false
      → Feeds sent o (whole layout token2dptr sent - o) io
      → (o' : ℕ) × (m' : Memory) × (recv_data mem
            (token2dptr (header layout in_buf').dst)
            (header layout in_buf')
            o
            io
          ≡ some (o', m'))
        × (o ≤ o')
        × (Brings io → o < whole layout token2dptr sent → o < o')
  unfolding recv_data
  data-Grows in_buf' o io h l came soft f =
      rw
        (
          header-Arrived layout token2dptr sent in_buf mem offset small in_buf' o h came,
          total_msg_sz_small (header layout sent) small,
          signed_lt-to_word o _ (omega arith) small,
        )
        (elim (Bool-cases (ltb o (whole layout token2dptr sent))) [
          | inl more ↦
              let (o', m', e, p, q) = stored-Grows mem _ o _ io sent small l soft f in
              rw more (o', m', e, p, λ b k. q b)
          | inr end ↦
              rw end (o, mem, refl, omega arith, λ b k. absurd (omega (arith, ge_of_ltb _ _ end)))
        ])

  rest-Advanced :
      (in_buf' : Memory) (o : ℕ) (io : Io (List ℕ))
      → offset ≤ o
      → o ≤ whole layout token2dptr sent
      → offset < whole layout token2dptr sent
      → Arrived layout token2dptr sent o in_buf' mem
      → is_hard io ≡ false
      → (sizeof_net_msg ≤ o → Feeds sent o (whole layout token2dptr sent - o) io)
      → (offset < o) ⊎ ((offset ≡ o) × (sizeof_net_msg ≤ o) × Brings io)
      → Advanced offset (recv_rest layout token2dptr mem in_buf offset (some (o, in_buf')) io)
  unfolding recv_rest
  rest-Advanced in_buf' o io g l k came soft f b =
      rw (to_word_small o (omega arith)) (elim (Bool-cases (ltb o sizeof_net_msg)) [
        | inl early ↦ rw early (
            inr (
              refl,
              elim b [
                | inl m ↦ m
                | inr (same, full, more) ↦ absurd (omega (arith, full, lt_of_ltb _ _ early))
              ],
            ))
        | inr late ↦
            let h = ge_of_ltb o sizeof_net_msg late in
            let (o', m', e, p, q) = data-Grows in_buf' o io h l came soft (f h) in
            rw (late, e)
              (finish_recv-Advanced in_buf' mem m' offset o o' _ (elim b [
                | inl m ↦ omega (arith, m, p)
                | inr (same, full, more) ↦ omega (arith, same, q more (omega (arith, same)))
              ]))
      ])

-- A call of RecvRaw in front of the end of a message of less than 2^31 bytes, with reads that bring
-- the next bytes that were sent, the first of them at least one, and that do not fail for good:
-- it returns 0, or it returns -EAGAIN with a larger `in_offset`.
pub recv_raw-Advanced :
    (layout : Layout) (token2dptr : ℕ → ℕ) (sent in_buf mem : Memory) (offset : ℕ)
    (io io' : Io (List ℕ))
    → whole layout token2dptr sent < 2 ^ 31
    → offset < whole layout token2dptr sent
    → Arrived layout token2dptr sent offset in_buf mem
    → Feeds sent offset (sizeof_net_msg - offset) io
    → Feeds sent
        (max offset sizeof_net_msg)
        (whole layout token2dptr sent - max offset sizeof_net_msg)
        io'
    → Fed offset io io'
    → Advanced offset (recv_raw layout token2dptr mem in_buf offset io io')
unfolding recv_raw
recv_raw-Advanced layout token2dptr sent in_buf mem offset io io' small k came f f'
      (soft, soft', b, b') =
    elim (Bool-cases (ltb offset sizeof_net_msg)) [
      | inl early ↦
          let h = lt_of_ltb offset sizeof_net_msg early in
          let (o, in_buf', e, p, q) =
            header-Grows layout token2dptr sent in_buf mem offset small io h soft f in
          let got =
            subst (Got sent in_buf offset offset sizeof_net_msg (is_hard io)) e
              (recv_header-Got layout token2dptr sent in_buf mem offset small io h f) in
          let m : max offset sizeof_net_msg ≡ sizeof_net_msg = omega arith in
          rw e (
            rest-Advanced layout token2dptr sent in_buf mem offset small in_buf' o io' p
              (omega (arith, got.1)) k
              (early-Arrived layout token2dptr sent in_buf mem offset small (is_hard io) o in_buf'
                came got)
              soft' (λ full. let s : o ≡ sizeof_net_msg = omega (arith, got.1) in rw s (rw m at f'))
              (inl (q (b h))))
      | inr late ↦
          let h = ge_of_ltb offset sizeof_net_msg late in
          let m : max offset sizeof_net_msg ≡ offset = omega arith in
          rw (recv_header_skipped layout token2dptr sent in_buf mem offset small io h k) (
            rest-Advanced layout token2dptr sent in_buf mem offset small in_buf offset io'
              (omega arith) (omega arith) k came soft' (λ full. rw m at f') (inr (refl, h, b' h)))
    ]
