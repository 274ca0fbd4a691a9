-- ===== src/Device/State.antt =====
-- The fields of NetDevice (device.h), less its state machine, which has no state of its own. A
-- pointer to a socket is a number and 0 is `listen_sock_`; `next` is the pointer that the next `new`
-- returns. A callback is a number. A token is a word of 64 bits.
use klibmsg.Base.{ℕ, List}
use klibmsg.Os.{Ip}
use klibmsg.Channel.{Channel}

pub record Device : Type 0 where
  pub token2sock : List (ℕ × ℕ)
  pub token2callback : List (ℕ × ℕ)
  pub sock_sets : List ℕ
  pub cq : Channel ℕ
  pub next : ℕ
  pub cur_worker_idx : ℕ
  pub ip_addr : Ip

-- The functions that the user gives to NetDevice::Init: pointers, where 0 is nullptr, sizes as
-- words of 64 bits, and addresses.
pub record User : Type 0 where
  pub token2dptr : ℕ → ℕ
  pub token2dptr_size : ℕ → ℕ
  pub token2ip : ℕ → Ip
