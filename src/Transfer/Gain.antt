-- ===== src/Transfer/Gain.antt =====
-- What a call of RecvRaw leaves, and its last part.
use klibmsg.Base.{
  ℕ, ◌+◌, ◌-◌, ◌^◌, ◌<◌, ◌≤◌, ◌≡◌, refl, sym, subst, ap, ◌∙◌, Bool, true, false, Option, none, some,
  List, [], ◌||◌, lt_of_ltb, ge_of_ltb, arith, ltb, length, Bool-cases, ◌⊎◌, inl, inr,
}
use klibmsg.Memory.{Memory, load, store, store-load, store_below, store_above}
use klibmsg.Os.{
  eagain, econnreset, rc_ok, rc_err, Io, moved, failed, would_block, to_word, add_int, signed_lt,
  add_int_small, signed_lt-to_word,
}
use klibmsg.Message.{NetMsg, Layout, sizeof_net_msg, data_len}
use klibmsg.Transfer.{bytes, Received, stored, finish_recv, header}
use klibmsg.Transfer.Send.{stream, stream_head, stream_tail, is_hard}

-- A call reads no more bytes than it asks for, and they are the next ones of what was sent.
abbrev pub Feeds : Memory → ℕ → ℕ → Io (List ℕ) → Type 0
Feeds sent offset k (moved bs) = (length bs ≤ k) × (bs ≡ load sent offset (length bs))
Feeds sent offset k (failed e) = Unit {0}

-- The bytes of `sent` from one offset to another lie at `a` and behind, and nothing else changed.
abbrev pub Got : Memory → Memory → ℕ → ℕ → ℕ → Bool → Option (ℕ × Memory) → Type 0
Got sent m a offset limit bad none = bad ≡ true
Got sent m a offset limit bad (some (o, m')) =
    (offset ≤ o)
    × (o ≤ limit)
    × ((x : ℕ) → a ≤ x → x < a + (o - offset) → m' x ≡ sent (offset + (x - a)))
    × ((x : ℕ) → x < a ⊎ a + (o - offset) ≤ x → m' x ≡ m x)

pub Got-stay :
    (sent m : Memory) (a offset limit : ℕ) (bad : Bool)
    → offset ≤ limit
    → Got sent m a offset limit bad (some (offset, m))
Got-stay sent m a offset limit bad h = (omega arith, h, λ x p q. absurd (omega arith), λ x p. refl)

module _ (sent m : Memory) (a offset limit : ℕ) (h : offset ≤ limit) (l : limit < 2 ^ 31) where
  pub moved-Got :
      (bad : Bool) (bs : List ℕ)
      → Feeds sent offset (limit - offset) (moved bs)
      → Got sent m a offset limit bad (stored m a offset (some bs))
  moved-Got bad bs f =
      let e : add_int offset (length bs) ≡ offset + length bs =
        add_int_small offset (length bs) (omega arith) in
      let k : offset + length bs - offset ≡ length bs = omega arith in
      rw e (
        omega arith,
        omega arith,
        rw k (λ x p q.
            ap (λ (l : List ℕ). store m a l x) f.1 ∙ store-load m sent a offset (length bs) x p q),
        rw k (λ x. elim [ inl b ↦ store_below m a x bs b | inr b ↦ store_above m a x bs b ]),
      )

  pub stored-Got :
      (io : Io (List ℕ))
      → Feeds sent offset (limit - offset) io
      → Got sent m a offset limit (is_hard io) (stored m a offset (bytes io))
  stored-Got (moved bs) f = moved-Got false bs f
  stored-Got (failed e) f = elim (Bool-cases (would_block e)) [
    | inl soft ↦ rw soft (moved-Got false [] (omega arith, unfold load in refl))
    | inr hard ↦ rw hard refl
  ]

module _ (layout : Layout) (token2dptr : ℕ → ℕ) (sent : Memory) where
  -- The message that arrives, where its data go, and its size.
  abbrev pub arriving : NetMsg
  arriving = header layout sent

  abbrev pub target : ℕ
  target = token2dptr (header layout sent).dst

  abbrev pub whole : ℕ
  whole = sizeof_net_msg + data_len (header layout sent)

  -- The first `k` bytes are in `in_buf`, and at the target.
  abbrev pub Arrived : ℕ → Memory → Memory → Type 0
  Arrived k in_buf mem =
      (x : ℕ) → x < k → stream in_buf mem (token2dptr (header layout sent).dst) x ≡ sent x

  -- What a call of RecvRaw leaves. It returns 0 exactly when the whole message has arrived, with
  -- `in_offset` back at 0, -EAGAIN in front of that, and -ECONNRESET only on an error of `read`.
  -- It writes to no byte of the buffer behind the header and none outside the message's target.
  pub record Gain (offset : ℕ) (bad : Bool) (in_buf mem : Memory) (r : Received) : Type 0 where
    pub outcome :
        ((r.rc ≡ rc_ok) × (r.offset ≡ 0) × Arrived whole r.in_buf r.mem)
        ⊎ ((r.rc ≡ rc_err eagain)
            × (offset ≤ r.offset)
            × (r.offset < whole)
            × Arrived r.offset r.in_buf r.mem)
        ⊎ ((r.rc ≡ rc_err econnreset) × (bad ≡ true))
    pub kept : (x : ℕ) → x < target ⊎ target + data_len (header layout sent) ≤ x → r.mem x ≡ mem x
    pub fits : (x : ℕ) → sizeof_net_msg ≤ x → r.in_buf x ≡ in_buf x

module _ (layout : Layout) (token2dptr : ℕ → ℕ) (sent in_buf in_buf' mem : Memory) (offset o : ℕ)
    (small : whole layout token2dptr sent < 2 ^ 31) (before : offset ≤ o)
    (fits : (x : ℕ) → sizeof_net_msg ≤ x → in_buf' x ≡ in_buf x)
    (below : o ≤ whole layout token2dptr sent)
    (came : Arrived layout token2dptr sent o in_buf' mem) where
  pub finish_recv-Gain :
      (bad bad' : Bool) (r : Option (ℕ × Memory))
      → sizeof_net_msg ≤ o
      → Got sent mem
          (target layout token2dptr sent + (o - sizeof_net_msg))
          o
          (whole layout token2dptr sent)
          bad'
          r
      → Gain layout token2dptr sent offset
          (bad || bad')
          in_buf
          mem
          (finish_recv in_buf' mem o r (whole layout token2dptr sent))
  unfolding finish_recv
  finish_recv-Gain bad bad' none full q = record {
    outcome = inr (inr (refl, ground arith));
    kept = λ x p. refl;
    fits = fits;
  }
  finish_recv-Gain bad bad' (some (o', mem')) full q =
      elim (Bool-cases (ltb o' (whole layout token2dptr sent))) [
        | inl more ↦ rw (test ∙ more) (record {
          outcome = inr (inl (refl, omega arith, lt_of_ltb _ _ more, all));
          kept = keep;
          fits = fits;
        })
        | inr end ↦
            let e : o' ≡ whole layout token2dptr sent = omega (arith, ge_of_ltb _ _ end) in
            rw (test ∙ end) (record {
              outcome =
                  inl
                    (refl, refl, subst (λ k. Arrived layout token2dptr sent k in_buf' mem') e all);
              kept = keep;
              fits = fits;
            })
      ]
    where
      test :
          signed_lt (to_word o') (whole layout token2dptr sent)
          ≡ ltb o' (whole layout token2dptr sent)
      test = signed_lt-to_word o' _ (omega arith) small

      all : Arrived layout token2dptr sent o' in_buf' mem'
      all x p = elim (Bool-cases (ltb x sizeof_net_msg)) [
        | inl head ↦
            let h = lt_of_ltb x sizeof_net_msg head in
            stream_head in_buf' mem' _ x h
            ∙ sym (stream_head in_buf' mem _ x h)
            ∙ came x (omega arith)
        | inr tail ↦
            let h = ge_of_ltb x sizeof_net_msg tail in
            stream_tail in_buf' mem' _ x h ∙ elim (Bool-cases (ltb x o)) [
              | inl old ↦
                  let b = lt_of_ltb x o old in
                  q.3 _ (inl (omega arith)) ∙ sym (stream_tail in_buf' mem _ x h) ∙ came x b
              | inr new ↦
                  let b = ge_of_ltb x o new in
                  q.2 _ (omega arith) (omega arith) ∙ ap sent (omega arith)
            ]
      ]

      keep :
          (x : ℕ)
          → x < target layout token2dptr sent
            ⊎ target layout token2dptr sent + data_len (header layout sent) ≤ x
          → mem' x ≡ mem x
      keep x (inl p) = q.3 x (inl (omega arith))
      keep x (inr p) = q.3 x (inr (omega arith))
