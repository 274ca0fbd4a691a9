-- ===== src/Os.antt =====
-- What the program takes from outside the repository: error numbers, the results of system calls,
-- and the layout of a message in memory.
use klibmsg.Base.{ℕ, ◌+◌, ◌-◌, ◌<◌, ◌%◌, ◌^◌, ◌≡◌, Bool, true, false, arith, ltb, if◌then◌else◌}

-- The error numbers that the code names; `success` is the 0 of `errnum_` and of SO_ERROR.
pub data Errno : Type 0 where
  success eagain ewouldblock einprogress econnaborted econnreset : Errno
  enfile emfile enobufs enomem eintr etimedout : Errno
  other : ℕ → Errno

-- The `int` that a method returns: 0, or an error number with its sign changed.
pub data Rc : Type 0 where
  rc_ok : Rc
  rc_err : Errno → Rc

-- What `read` or `write` returns: the bytes, or how many, or -1 with `errno`.
pub data Io (A : Type 0) : Type 0 where
  moved : A → Io A
  failed : Errno → Io A

-- The fields of a `sockaddr_in` that the code compares.
pub record Ip : Type 0 where
  pub family : ℕ
  pub port : ℕ
  pub addr : ℕ

-- `errno == EAGAIN || errno == EWOULDBLOCK`
abbrev pub would_block : Errno → Bool
would_block eagain = true
would_block ewouldblock = true
would_block _ = false

-- An `int` is a word of 32 bits. Its conversion to 64 bits, `int += ssize_t`, and `<` on int64_t.
unfoldable pub to_word : ℕ → ℕ
to_word w = if ltb w (2 ^ 31) then w else w + (2 ^ 64 - 2 ^ 32)

unfoldable pub add_int : ℕ → ℕ → ℕ
add_int w n = (w + n) % 2 ^ 32

unfoldable pub signed_lt : ℕ → ℕ → Bool
signed_lt a b = ltb ((a + 2 ^ 63) % 2 ^ 64) ((b + 2 ^ 63) % 2 ^ 64)

-- Below 2^31 these are the plain operations.
pub to_word_small : (w : ℕ) → w < 2 ^ 31 → to_word w ≡ w
unfolding to_word
to_word_small w h = ground arith

pub add_int_small : (w n : ℕ) → w + n < 2 ^ 31 → add_int w n ≡ w + n
unfolding add_int
add_int_small w n h = omega arith

pub signed_lt_small : (a b : ℕ) → a < 2 ^ 31 → b < 2 ^ 31 → signed_lt a b ≡ ltb a b
unfolding signed_lt
signed_lt_small a b h k = ground arith

-- `offset < total_msg_sz` where both are small.
pub signed_lt-to_word :
    (w total : ℕ) → w < 2 ^ 31 → total < 2 ^ 31 → signed_lt (to_word w) total ≡ ltb w total
signed_lt-to_word w total h k = rw (to_word_small w h) (signed_lt_small w total h k)
