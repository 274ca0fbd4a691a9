-- ===== src/Channel.antt =====
-- Channel (channel.h): a queue that is closed at either end. Each method holds `mutex_`, so it is one
-- step; `Receive` waits on `cond_`, so it may not be able to make its step yet.
pub mod Fifo
use klibmsg.Base.{
  ℕ, Bool, true, false, ◌||◌, Option, none, some, List, [], ◌∷◌, ◌++◌, if◌then◌else◌,
}

pub record Channel (A : Type 0) : Type 0 where
  pub val : List A
  pub is_send_closed : Bool
  pub is_receive_closed : Bool

-- What `Receive` does: it waits, it returns -1, or it returns 0 with an item.
pub data Receipt (A : Type 0) : Type 0 where
  waits : Receipt A
  fails : Receipt A
  gets : A → Receipt A

module _ {A : Type 0} where
  -- Channel(): both ends open.
  abbrev pub opened : Channel A
  opened = record { val = []; is_send_closed = false; is_receive_closed = false }

  -- Channel::Send; `false` is -1.
  unfoldable pub send : A → Channel A → Bool × Channel A
  send item c =
      if c.is_send_closed then (false, c) else (true, record c { val = c.val ++ item ∷ [] })

  unfoldable pub front : List A → Channel A → Receipt A × Channel A
  front [] c = (if c.is_receive_closed || c.is_send_closed then fails else waits, c)
  front (item ∷ rest) c =
      if c.is_receive_closed then (fails, c) else (gets item, record c { val = rest })

  -- Channel::Receive
  unfoldable pub receive : Channel A → Receipt A × Channel A
  unfolding front
  receive c = front c.val c

  -- Channel::CloseSendEnd
  unfoldable pub close_send_end : Channel A → Channel A
  close_send_end c = record c { is_send_closed = true }

  -- Channel::CloseReceiveEnd
  unfoldable pub close_receive_end : Channel A → Channel A
  close_receive_end c = record c { is_receive_closed = true }
