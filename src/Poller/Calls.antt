-- ===== src/Poller/Calls.antt =====
-- Sequences of the methods of NetPoller (poller.cpp), and the bounds of `index_` and `nevents_`.
use klibmsg.Base.{
  ℕ, ◌≡◌, ◌≤◌, Bool, true, false, Option, none, some, List, [], ◌∷◌, length, if◌then◌else◌,
}
use klibmsg.Os.{Io, moved, failed}
use klibmsg.Poller.{
  Slot, Poller, add, rm, set_in, set_out, reset_in, reset_out, is_eintr, event, wait,
}

-- kNetPollerMaxEvents
abbrev pub max_events : ℕ
max_events = 32

-- `index_` is among the slots of `events_`, no slot is left where a Wait has failed, and no loop of
-- ResetIn or ResetOut has run past them.
pub record Bounded (p : Poller) : Type 0 where
  pub index : p.index ≤ length p.events
  pub events : length p.events ≤ max_events
  pub none_failed : p.wait_failed ≡ true → p.events ≡ []
  pub in_bounds : p.overrun ≡ false

-- The methods of NetPoller, with what `epoll_wait` returns.
pub data Op : Type 0 where
  op_add : Option ℕ → ℕ → Op
  op_rm op_set_in op_set_out op_reset_in op_reset_out : ℕ → Op
  op_wait : List (Io (List Slot)) → Op
  op_event : Op

unfoldable pub operate : Op → Poller → Option Poller
operate (op_add fd h) p = some (add fd h p)
operate (op_rm h) p = some (rm h p)
operate (op_set_in h) p = some (set_in h p)
operate (op_set_out h) p = some (set_out h p)
operate (op_reset_in h) p = some (reset_in h p)
operate (op_reset_out h) p = some (reset_out h p)
operate (op_wait waits) p = wait waits p
operate op_event p = some (event p).1

abbrev pub next : Option Poller → (Poller → Option Poller) → Option Poller
next none f = none
next (some p) f = f p

unfoldable pub operate_all : List Op → Poller → Option Poller
operate_all [] p = some p
operate_all (o ∷ os) p = next (operate o p) (operate_all os)

-- `epoll_wait` brings no more events than it is asked for.
unfoldable pub Small : List (Io (List Slot)) → Type 0
Small [] = Unit {0}
Small (moved slots ∷ l) = (length slots ≤ max_events) × Small l
Small (failed e ∷ l) = Small l

-- An error other than EINTR comes first among what ends the loop of Wait.
unfoldable pub fails : List (Io (List Slot)) → Bool
fails [] = false
fails (moved slots ∷ l) = false
fails (failed e ∷ l) = let again = fails l in if is_eintr e then again else true

-- Each `epoll_wait` brings few events, and where one failed, as it says at the start for the last
-- one before, neither ResetIn nor ResetOut is called before the next Wait.
unfoldable pub Proper : Bool → List Op → Type 0
Proper b [] = Unit {0}
Proper b (op_wait waits ∷ os) = Small waits × Proper (fails waits) os
Proper b (op_reset_in h ∷ os) = (b ≡ false) × Proper b os
Proper b (op_reset_out h ∷ os) = (b ≡ false) × Proper b os
Proper b (op_add fd h ∷ os) = Proper b os
Proper b (op_rm h ∷ os) = Proper b os
Proper b (op_set_in h ∷ os) = Proper b os
Proper b (op_set_out h ∷ os) = Proper b os
Proper b (op_event ∷ os) = Proper b os
