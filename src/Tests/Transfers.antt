-- ===== src/Tests/Transfers.antt =====
-- The theorems on SendRaw and RecvRaw at a message of 32 bytes and three bytes of data.
use klibmsg.Base.{
  ◌<◌, ◌-◌, ◌∙◌, Bool-cases, ltb, lt_of_ltb, ge_of_ltb, inl, inr, ℕ, zero, suc, ◌+◌, ◌≡◌, refl, ap,
  ◌||◌, List, [], ◌∷◌, arith, ℤ, pos, negsuc,
}
use klibmsg.Memory.{Memory, load, store}
use klibmsg.Os.{eagain, rc_ok, moved, failed, to_word, add_int, signed_lt}
use klibmsg.Message.{total_msg_sz, NetMsg, Layout, data_len}
use klibmsg.Transfer.{recv_rest, recv_header, recv_data, finish_recv, header, send_raw, recv_raw}
use klibmsg.Transfer.Completes.{AllFed, recv_many-completes}
use klibmsg.Transfer.Send.{
  stream_head, stream_tail, stream, is_hard, Progress, size, outgoing, send_raw-Progress,
}
use klibmsg.Transfer.Gain.{Gain, Arrived}
use klibmsg.Transfer.Recv.{recv_raw-Gain}
use klibmsg.Transfer.Many.{Reads, any_hard, recv_many, AllFeed, recv_many-Gain, recv_many-delivers}

unfoldable pub zeros : ℕ → List ℕ
zeros zero = []
zeros (suc n) = 0 ∷ zeros n

abbrev sign_of : ℤ → ℕ
sign_of (pos n) = 0
sign_of (negsuc n) = 1

abbrev magnitude : ℤ → ℕ
magnitude (pos n) = n
magnitude (negsuc n) = n

abbrev sign : ℕ → ℕ → ℤ
sign zero n = pos n
sign (suc s) n = negsuc n

pub sign-sign_of : (t : ℤ) → sign (sign_of t) (magnitude t) ≡ t
sign-sign_of (pos n) = refl
sign-sign_of (negsuc n) = refl

-- A layout, one field per cell.
unfoldable pub encode : NetMsg → List ℕ
unfolding zeros
encode m = sign_of m.msg_type ∷ magnitude m.msg_type ∷ m.src ∷ m.dst ∷ m.extra ∷ zeros 27

unfoldable pub decode : List ℕ → NetMsg
decode (s ∷ n ∷ src ∷ dst ∷ extra ∷ rest) = record {
  msg_type = sign s n;
  src = src;
  dst = dst;
  extra = extra;
}
decode _ = record { msg_type = pos 0; src = 0; dst = 0; extra = 0 }

abbrev pub layout : Layout
unfolding encode decode
layout = record {
  encode = encode;
  decode = decode;
  length-encode = λ m. refl;
  decode-encode = λ m f. ap (λ t. record m { msg_type = t }) (sign-sign_of m.msg_type);
}

abbrev message : NetMsg
message = record { msg_type = pos 1; src = 100; dst = 4; extra = 3 }

-- The process of the sender holds 11, 12, 13 at address 100, and the header in the buffer.
abbrev out_buf : Memory
out_buf = store (λ _. 0) 0 (layout.encode message)

abbrev sender : Memory
sender = store (λ _. 0) 100 (11 ∷ 12 ∷ 13 ∷ [])

send_raw-Progress_example :
    Progress
      (outgoing layout sender out_buf)
      (size layout sender out_buf)
      20
      (is_hard {A = ℕ} (moved 12) || is_hard {A = ℕ} (moved 2))
      (send_raw layout sender out_buf 20 (moved 12) (moved 2))
unfolding layout encode decode zeros header load store data_len
send_raw-Progress_example =
    send_raw-Progress layout sender out_buf 20 (moved 12) (moved 2) (omega arith) (omega arith)
      (omega arith) (omega arith)

-- The bytes that were sent.
abbrev sent : Memory
sent = stream out_buf sender 100

abbrev pub token2dptr : ℕ → ℕ
token2dptr t = 200 + t

recv_raw-Gain_example :
    Gain layout token2dptr sent 0
      (is_hard (moved (load sent 0 32)) || is_hard {A = List ℕ} (moved (11 ∷ 12 ∷ [])))
      (λ _. 0)
      (λ _. 0)
      (recv_raw layout token2dptr
        (λ _. 0)
        (λ _. 0)
        0
        (moved (load sent 0 32))
        (moved (11 ∷ 12 ∷ [])))
unfolding layout encode decode zeros header load store data_len stream
recv_raw-Gain_example =
    recv_raw-Gain layout token2dptr sent (λ _. 0) (λ _. 0) 0 (moved (load sent 0 32))
      (moved (11 ∷ 12 ∷ [])) (omega arith) (omega arith) (λ x p. absurd (omega arith))
      (omega arith, refl) (omega arith, refl)

abbrev empty_mem : Memory
empty_mem = λ _. 0

-- Twenty bytes of the header; the rest of it and two bytes of data; and the last byte.
abbrev reads : List Reads
reads =
    (moved (load sent 0 20), failed eagain)
    ∷ (moved (load sent 20 12), moved (11 ∷ 12 ∷ []))
    ∷ (failed eagain, moved (13 ∷ []))
    ∷ []

reads-AllFeed : AllFeed layout token2dptr sent empty_mem empty_mem 0 reads
unfolding layout encode decode zeros header load store data_len stream recv_raw recv_rest
    recv_header recv_data finish_recv to_word add_int signed_lt total_msg_sz
reads-AllFeed = (
  (omega arith, refl),
  tt,
  ((omega arith, refl), (omega arith, refl), (tt, (omega arith, refl), tt)),
)

reads_complete : (recv_many layout token2dptr empty_mem empty_mem 0 reads).rc ≡ rc_ok
unfolding layout encode decode zeros header load store data_len stream recv_many recv_raw recv_rest
    recv_header recv_data finish_recv to_word add_int signed_lt total_msg_sz
reads_complete = refl

recv_many-Gain_example :
    Gain layout token2dptr sent 0
      (any_hard reads)
      empty_mem
      empty_mem
      (recv_many layout token2dptr empty_mem empty_mem 0 reads)
unfolding layout encode decode zeros header load store data_len stream
recv_many-Gain_example =
    recv_many-Gain layout token2dptr sent empty_mem empty_mem 0 reads (omega arith) (omega arith)
      (λ x p. absurd (omega arith)) reads-AllFeed

recv_many-delivers_example :
    (header layout (recv_many layout token2dptr empty_mem empty_mem 0 reads).in_buf
      ≡ header layout out_buf)
    × ((x : ℕ)
        → x < data_len (header layout out_buf)
        → (recv_many layout token2dptr empty_mem empty_mem 0 reads).mem
            (token2dptr (header layout out_buf).dst + x)
          ≡ sender ((header layout out_buf).src + x))
unfolding layout encode decode zeros header load store data_len stream
recv_many-delivers_example =
    recv_many-delivers layout token2dptr sender out_buf empty_mem empty_mem reads (omega arith)
      reads-AllFeed reads_complete

-- All but the last two bytes of the data have arrived.
abbrev arrived_mem : Memory
arrived_mem = λ y. sent (y - 204 + 32)

abbrev last_reads : List Reads
last_reads = (failed eagain, moved (12 ∷ [])) ∷ (failed eagain, moved (13 ∷ [])) ∷ []

at_204 : (x : ℕ) → x < 33 → stream sent arrived_mem 204 x ≡ sent x
at_204 x p = elim (Bool-cases (ltb x 32)) [
  | inl head ↦ stream_head sent arrived_mem 204 x (lt_of_ltb x 32 head)
  | inr tail ↦
      let h = ge_of_ltb x 32 tail in
      let same : 204 + (x - 32) - 204 + 32 ≡ x = omega (arith, h) in
      stream_tail sent arrived_mem 204 x h ∙ ap sent same
]

target_204 : token2dptr (header layout sent).dst ≡ 204
unfolding layout encode decode zeros header load store stream
target_204 = refl

at_33-Arrived : Arrived layout token2dptr sent 33 sent arrived_mem
at_33-Arrived x p = rw target_204 (at_204 x p)

last_reads-AllFeed : AllFeed layout token2dptr sent arrived_mem sent 33 last_reads
unfolding layout encode decode zeros header load store data_len stream recv_raw recv_rest
    recv_header recv_data finish_recv to_word add_int signed_lt total_msg_sz
last_reads-AllFeed = (tt, (omega arith, refl), (tt, (omega arith, refl), tt))

last_reads-AllFed : AllFed layout token2dptr sent arrived_mem sent 33 last_reads
unfolding layout encode decode zeros header load store data_len stream recv_raw recv_rest
    recv_header recv_data finish_recv to_word add_int signed_lt total_msg_sz
last_reads-AllFed = (
  (refl, refl, (λ h. absurd (omega arith)), λ h. tt),
  ((refl, refl, (λ h. absurd (omega arith)), λ h. tt), tt),
)

recv_many-completes_example :
    (recv_many layout token2dptr arrived_mem sent 33 last_reads).rc ≡ rc_ok
unfolding layout encode decode zeros header load store data_len stream
recv_many-completes_example =
    recv_many-completes layout token2dptr sent arrived_mem sent 33 last_reads (omega arith)
      (omega arith) (omega arith) at_33-Arrived last_reads-AllFeed last_reads-AllFed
