-- ===== src/Transfer/Send.antt =====
-- SendRaw: partial writes add up to the message.
use native.Mathlib.Nat.{add_assoc}
use klibmsg.Base.{
  ℕ, ◌+◌, ◌-◌, ◌^◌, ◌<◌, ◌≤◌, ◌≡◌, refl, sym, ap, ◌∙◌, Bool, true, false, not, Option, none, some,
  List, [], ◌++◌, ◌||◌, max, lt_ltb, ge_ltb, lt_of_ltb, ge_of_ltb, arith, ltb, if◌then◌else◌,
  Bool-cases, ◌⊎◌, inl, inr,
}
use klibmsg.Memory.{Memory, load, load_ext, load-add}
use klibmsg.Os.{
  eagain, econnreset, rc_ok, rc_err, Io, moved, failed, would_block, to_word, add_int, signed_lt,
  to_word_small, signed_lt-to_word, add_int_small, signed_lt_small,
}
use klibmsg.Message.{NetMsg, Layout, sizeof_net_msg, data_len, total_msg_sz_small}
use klibmsg.Transfer.{
  nbytes, Sent, wrote, send_header, send_data, finish_send, send_rest, header, send_raw,
}

-- The bytes of a message: the header's, then those at the address of its data.
unfoldable pub stream : Memory → Memory → ℕ → Memory
stream buf mem address x =
    if ltb x sizeof_net_msg then buf x else mem (address + (x - sizeof_net_msg))

pub stream_head :
    (buf mem : Memory) (address x : ℕ) → x < sizeof_net_msg → stream buf mem address x ≡ buf x
unfolding stream
stream_head buf mem address x h = rw (lt_ltb x sizeof_net_msg h)

pub stream_tail :
    (buf mem : Memory) (address x : ℕ)
    → sizeof_net_msg ≤ x
    → stream buf mem address x ≡ mem (address + (x - sizeof_net_msg))
unfolding stream
stream_tail buf mem address x h = rw (ge_ltb x sizeof_net_msg h)

-- A call moves no more bytes than it was asked for.
abbrev pub Within : ℕ → Io ℕ → Type 0
Within k (moved n) = n ≤ k
Within k (failed e) = Unit {0}

-- The error is another one than EAGAIN and EWOULDBLOCK.
abbrev pub is_hard : {A : Type 0} → Io A → Bool
is_hard (moved a) = false
is_hard (failed e) = not (would_block e)

-- The bytes of the stream from one offset to another, which lies below a limit; or an error.
abbrev pub Part : Memory → ℕ → ℕ → Bool → Option (ℕ × List ℕ) → Type 0
Part s offset limit bad none = bad ≡ true
Part s offset limit bad (some (o, w)) =
    (offset ≤ o) × (o ≤ limit) × (w ≡ load s offset (o - offset))

module _ (s m : Memory) (a offset limit : ℕ) (h : offset ≤ limit) (l : limit < 2 ^ 31)
    (same : (i : ℕ) → offset + i < limit → m (a + i) ≡ s (offset + i)) where
  moved-Part :
      (bad : Bool) (n : ℕ)
      → n ≤ limit - offset
      → Part s offset limit bad (wrote m a offset (some n))
  moved-Part bad n w =
      let e : add_int offset n ≡ offset + n = add_int_small offset n (omega arith) in
      let k : offset + n - offset ≡ n = omega arith in
      rw e (omega arith, omega arith, rw k (load_ext m s a offset n λ i p. same i (omega arith)))

  wrote-Part :
      (io : Io ℕ)
      → Within (limit - offset) io
      → Part s offset limit (is_hard io) (wrote m a offset (nbytes io))
  wrote-Part (moved n) w = moved-Part false n w
  wrote-Part (failed e) w = elim (Bool-cases (would_block e)) [
    | inl soft ↦ rw soft (moved-Part false 0 (omega arith))
    | inr hard ↦ rw hard refl
  ]

Part-stay :
    (s : Memory) (offset limit : ℕ) (bad : Bool)
    → offset ≤ limit
    → Part s offset limit bad (some (offset, []))
unfolding load
Part-stay s offset limit bad h = let e : offset - offset ≡ 0 = omega arith in (omega arith, h, rw e)

pub load-join :
    (s : Memory) (a b c : ℕ)
    → a ≤ b
    → b ≤ c
    → load s a (b - a) ++ load s b (c - b) ≡ load s a (c - a)
load-join s a b c h k =
    let e : b - a + (c - b) ≡ c - a = omega arith in
    sym (load-add s a b (b - a) (c - b) (omega arith)) ∙ ap (load s a) e

-- What a call of SendRaw leaves: the bytes written are those of the stream from the old offset to
-- the new one; it returns 0 exactly at the end of the message, -EAGAIN in front of it, and
-- -ECONNRESET only on an error of `write`.
pub record Progress (s : Memory) (total offset : ℕ) (bad : Bool) (r : Sent) : Type 0 where
  pub forward : offset ≤ r.offset
  pub bounded : r.offset ≤ total
  pub written : r.wire ≡ load s offset (r.offset - offset)
  pub outcome :
      ((r.rc ≡ rc_ok) × (r.offset ≡ total))
      ⊎ ((r.rc ≡ rc_err eagain) × (r.offset < total))
      ⊎ ((r.rc ≡ rc_err econnreset) × (bad ≡ true))

module _ (s : Memory) (total offset : ℕ) (small : total < 2 ^ 31) where
  finish_send-Progress :
      (o : ℕ) (w : List ℕ) (bad bad' : Bool) (r : Option (ℕ × List ℕ))
      → Part s offset total bad (some (o, w))
      → Part s o total bad' r
      → Progress s total offset (bad || bad') (finish_send o w r total)
  unfolding finish_send
  finish_send-Progress o w bad bad' none p q = record {
    forward = p.0;
    bounded = p.1;
    written = p.2;
    outcome = inr (inr (refl, ground arith));
  }
  finish_send-Progress o w bad bad' (some (o', w')) p q = record {
    forward = omega arith;
    bounded = q.1;
    written = rw (p.2, q.2) (load-join s offset o o' p.0 q.0);
    outcome = elim (Bool-cases (ltb o' total)) [
      | inl before ↦ inr (inl (rw (test ∙ before) refl, lt_of_ltb o' total before))
      | inr after ↦ let end = ge_of_ltb o' total after in inl (rw (test ∙ after) refl, omega arith)
    ];
  }
    where
      test : signed_lt (to_word o') total ≡ ltb o' total
      test = signed_lt-to_word o' total (omega arith) small

module _ (layout : Layout) (mem out_buf : Memory) where
  abbrev pub msg : NetMsg
  msg = header layout out_buf

  -- The size of the message in `out_buf`.
  abbrev pub size : ℕ
  size = sizeof_net_msg + data_len (header layout out_buf)

  -- The bytes of the message in `out_buf`.
  abbrev pub outgoing : Memory
  outgoing = stream out_buf mem (header layout out_buf).src

module _ (layout : Layout) (mem out_buf : Memory) (small : size layout mem out_buf < 2 ^ 31) where
  abbrev pub total : ℕ
  total = size layout mem out_buf

  abbrev pub out : Memory
  out = outgoing layout mem out_buf

  module _ (offset : ℕ) (io : Io ℕ) (o : offset ≤ total) where
    pub header-Part :
        Within (sizeof_net_msg - offset) io
        → offset < sizeof_net_msg
        → Part out offset sizeof_net_msg (is_hard io) (send_header out_buf offset io)
    unfolding send_header stream
    header-Part w h =
        rw (to_word_small offset (omega arith), lt_ltb offset sizeof_net_msg h)
          (wrote-Part out out_buf offset offset sizeof_net_msg (omega arith) (omega arith)
            (λ i p. rw (lt_ltb (offset + i) sizeof_net_msg p)) io w)

    pub header_skipped : sizeof_net_msg ≤ offset → send_header out_buf offset io ≡ some (offset, [])
    unfolding send_header
    header_skipped h = rw (to_word_small offset (omega arith), ge_ltb offset sizeof_net_msg h)

    data_skipped :
        offset < sizeof_net_msg
        → send_data mem (msg layout mem out_buf) offset io ≡ some (offset, [])
    unfolding send_data
    data_skipped h = rw (to_word_small offset (omega arith), lt_ltb offset sizeof_net_msg h)

    pub data_late :
        sizeof_net_msg ≤ offset
        → send_data mem (msg layout mem out_buf) offset io ≡ (
            if ltb offset total
            then wrote mem
                ((msg layout mem out_buf).src + (offset - sizeof_net_msg))
                offset
                (nbytes io)
            else some (offset, []))
    unfolding send_data
    data_late h = rw (
      to_word_small offset (omega arith),
      ge_ltb offset sizeof_net_msg h,
      total_msg_sz_small (msg layout mem out_buf) small,
      signed_lt_small offset total (omega arith) small,
    )

    pub data-Part :
        Within (total - max offset sizeof_net_msg) io
        → Part out offset total (is_hard io) (send_data mem (msg layout mem out_buf) offset io)
    unfolding stream
    data-Part w = elim (Bool-cases (ltb offset sizeof_net_msg)) [
      | inl early ↦
          rw (data_skipped (lt_of_ltb _ _ early)) (Part-stay out offset total (is_hard io) o)
      | inr late ↦
          let h = ge_of_ltb offset sizeof_net_msg late in
          let m : max offset sizeof_net_msg ≡ offset = omega arith in
          rw (data_late h) (elim (Bool-cases (ltb offset total)) [
            | inl before ↦ rw before (
                wrote-Part out mem _ offset total o small
                  (λ i p.
                    let e : offset + i - sizeof_net_msg ≡ offset - sizeof_net_msg + i =
                      omega arith in
                    rw (ge_ltb (offset + i) sizeof_net_msg (omega arith), e)
                      (ap mem (add_assoc _ _ _)))
                  io (rw m at w))
            | inr end ↦ rw end (Part-stay out offset total (is_hard io) o)
          ])
    ]

  rest-Progress :
      (offset limit : ℕ) (bad : Bool) (r : Option (ℕ × List ℕ)) (io' : Io ℕ)
      → offset ≤ total
      → limit ≤ total
      → Part out offset limit bad r
      → ((o : ℕ) → offset ≤ o → o ≤ limit → Within (total - max o sizeof_net_msg) io')
      → Progress out total offset
          (bad || is_hard io')
          (send_rest mem (msg layout mem out_buf) offset r io')
  unfolding send_rest load
  rest-Progress offset limit bad none io' h l p w =
      let e : offset - offset ≡ 0 = omega arith in
      record {
        forward = omega arith;
        bounded = h;
        written = rw e;
        outcome = inr (inr (refl, rw p));
      }
  rest-Progress offset limit bad (some (o, bs)) io' h l p w =
      rw (total_msg_sz_small (msg layout mem out_buf) small) (
        finish_send-Progress out total offset small o bs bad (is_hard io') _ (p.0, omega arith, p.2)
          (data-Part o io' (omega arith) (w o p.0 p.1)))

-- SendRaw of a message of less than 2^31 bytes, with writes that write at most what they are given:
-- the bytes written are those of the header and then of the data from the old `out_offset` to the
-- new one, which lies within the message; it returns 0 with `out_offset` at the end, -EAGAIN in
-- front of the end, and -ECONNRESET only on an error of `write`.
pub send_raw-Progress :
    (layout : Layout) (mem out_buf : Memory) (offset : ℕ) (io io' : Io ℕ)
    → size layout mem out_buf < 2 ^ 31
    → offset ≤ size layout mem out_buf
    → Within (sizeof_net_msg - offset) io
    → Within (size layout mem out_buf - max offset sizeof_net_msg) io'
    → Progress
        (outgoing layout mem out_buf)
        (size layout mem out_buf)
        offset
        (is_hard io || is_hard io')
        (send_raw layout mem out_buf offset io io')
unfolding send_raw
send_raw-Progress layout mem out_buf offset io io' small o w w' =
    elim (Bool-cases (ltb offset sizeof_net_msg)) [
      | inl early ↦
          let h = lt_of_ltb offset sizeof_net_msg early in
          rest-Progress layout mem out_buf small offset sizeof_net_msg (is_hard io) _ io' o
            (omega arith) (header-Part layout mem out_buf small offset io o w h)
            λ o' p q.
              let e : max o' sizeof_net_msg ≡ max offset sizeof_net_msg = omega arith in rw e w'
      | inr late ↦
          rw
            (header_skipped layout mem out_buf small offset io o
              (ge_of_ltb offset sizeof_net_msg late))
            (rest-Progress layout mem out_buf small offset offset (is_hard io) (some (offset, []))
              io' o o (Part-stay _ offset offset (is_hard io) (omega arith))
              λ o' p q. let e : o' ≡ offset = omega arith in rw e w')
    ]
