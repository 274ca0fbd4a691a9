-- ===== src/Message.antt =====
-- NetMsg (utils.h). A union of a token and an address, or of a length and a command, is one word
-- of 64 bits. `msg_type : 2` is a signed field of two bits.
use klibmsg.Base.{
  ℕ, ◌+◌, ◌%◌, ◌^◌, ◌<◌, ◌≡◌, List, arith, if◌then◌else◌, length, ℤ, pos, negsuc, ◌⊎◌, ◌==ℤ◌,
}

pub record NetMsg : Type 0 where
  pub msg_type : ℤ
  pub src : ℕ
  pub dst : ℕ
  pub extra : ℕ

-- sizeof(NetMsg): the bit fields, padded to eight bytes, and three words.
abbrev pub sizeof_net_msg : ℕ
sizeof_net_msg = 32

-- A message whose words fit in 64 bits, and whose type is one of the four that two bits hold.
abbrev pub Fits : NetMsg → Type 0
Fits m =
    (m.src < 2 ^ 64)
    × (m.dst < 2 ^ 64)
    × (m.extra < 2 ^ 64)
    × ((m.msg_type ≡ negsuc 1)
        ⊎ (m.msg_type ≡ negsuc 0)
        ⊎ (m.msg_type ≡ pos 0)
        ⊎ (m.msg_type ≡ pos 1))

-- How the compiler lays a message out in memory, which the code relies on where it copies one to
-- a buffer and reads it from one.
pub record Layout : Type 0 where
  pub encode : NetMsg → List ℕ
  pub decode : List ℕ → NetMsg
  pub length-encode : (m : NetMsg) → length (encode m) ≡ sizeof_net_msg
  pub decode-encode : (m : NetMsg) → Fits m → decode (encode m) ≡ m

-- The bytes behind the header: `(msg.msg_type == 1) ? msg.extra.data_len : 0`
unfoldable pub data_len : NetMsg → ℕ
data_len m = if m.msg_type ==ℤ pos 1 then m.extra else 0

-- `const int64_t total_msg_sz`
unfoldable pub total_msg_sz : NetMsg → ℕ
total_msg_sz m = (sizeof_net_msg + data_len m) % 2 ^ 64

pub total_msg_sz_small :
    (m : NetMsg)
    → sizeof_net_msg + data_len m < 2 ^ 31
    → total_msg_sz m ≡ sizeof_net_msg + data_len m
unfolding total_msg_sz
total_msg_sz_small m h = omega arith
