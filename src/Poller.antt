-- ===== src/Poller.antt =====
-- NetPoller (poller.h, poller.cpp). A handle is an address; its `events` are the bits EPOLLIN and
-- EPOLLOUT. What `epoll_wait` brings are slots of a handle and its bits, where the other bits of an
-- event (EPOLLERR, EPOLLHUP, …) are one number. `events_` is the list of its first `nevents_` slots;
-- `wait_failed` says that `nevents_` is -1, and the list is then empty. The loops of ResetIn and
-- ResetOut, which go on until they meet `nevents_`, then run past the array, which `overrun` records.
pub mod Pending
pub mod Calls
pub mod Bounds
use klibmsg.Base.{
  ℕ, zero, suc, Bool, true, false, ◌&&◌, ◌||◌, not, Option, none, some, List, [], ◌∷◌, map, ◌==◌,
  if◌then◌else◌,
}
use klibmsg.Os.{Errno, eintr, Io, moved, failed}

pub record Slot : Type 0 where
  pub handle : ℕ
  pub is_in : Bool
  pub is_out : Bool
  pub rest : ℕ

-- NetPollerHandle; `fd` is `none` for -1.
pub record Handle : Type 0 where
  pub fd : Option ℕ
  pub is_in : Bool
  pub is_out : Bool

-- What is asked of `epoll_ctl`.
pub data Ctl : Type 0 where
  ctl_add ctl_mod : Option ℕ → ℕ → Bool → Bool → Ctl
  ctl_del : Option ℕ → Ctl

-- kNetPollerIn, kNetPollerOut and kNetPollerErr.
pub data Kind : Type 0 where
  poller_in poller_out poller_err : Kind

pub record Poller : Type 0 where
  pub handles : ℕ → Handle
  pub index : ℕ
  pub events : List Slot
  pub wait_failed : Bool
  pub overrun : Bool
  pub log : List Ctl

unfoldable pub set_handle : ℕ → Handle → Poller → Poller
set_handle h v p = record p { handles = λ h'. if h' == h then v else p.handles h' }

-- NetPoller::Init, behind its CHECK; no event is left.
unfoldable pub init : Poller → Poller
init p = record p { index = 0; events = []; wait_failed = false }

-- NetPoller::Add
unfoldable pub add : Option ℕ → ℕ → Poller → Poller
add fd h p =
    let v : Handle = record { fd = fd; is_in = false; is_out = false } in
    record (set_handle h v p) { log = ctl_add fd h false false ∷ p.log }

-- `for (int i = index_; i < nevents_; ++i) …`, and the same with `i != nevents_`.
unfoldable pub from_index : ℕ → (Slot → Slot) → List Slot → List Slot
from_index i f [] = []
from_index zero f (s ∷ ss) = f s ∷ from_index zero f ss
from_index (suc i) f (s ∷ ss) = s ∷ from_index i f ss

abbrev pub blank : ℕ → Slot → Slot
blank h s = if s.handle == h then record s { is_in = false; is_out = false; rest = 0 } else s

abbrev pub blank_in : ℕ → Slot → Slot
blank_in h s = if s.handle == h then record s { is_in = false } else s

abbrev pub blank_out : ℕ → Slot → Slot
blank_out h s = if s.handle == h then record s { is_out = false } else s

-- NetPoller::Rm
unfoldable pub rm : ℕ → Poller → Poller
rm h p = record p {
  events = from_index p.index (blank h) p.events;
  log = ctl_del (p.handles h).fd ∷ p.log;
}

-- The new bits of a handle, which `epoll_ctl` is told.
unfoldable pub modify_handle : ℕ → Bool → Bool → Poller → Poller
modify_handle h is_in is_out p =
    let v = p.handles h in
    record (set_handle h (record v { is_in = is_in; is_out = is_out }) p) {
      log = ctl_mod v.fd h is_in is_out ∷ p.log;
    }

-- NetPoller::SetIn
unfoldable pub set_in : ℕ → Poller → Poller
set_in h p = if (p.handles h).is_in then p else modify_handle h true (p.handles h).is_out p

-- NetPoller::SetOut
unfoldable pub set_out : ℕ → Poller → Poller
set_out h p = if (p.handles h).is_out then p else modify_handle h (p.handles h).is_in true p

-- NetPoller::ResetIn
unfoldable pub reset_in : ℕ → Poller → Poller
reset_in h p =
    if not (p.handles h).is_in then p else record (modify_handle h false (p.handles h).is_out p) {
      events = from_index p.index (blank_in h) p.events;
      overrun = p.overrun || p.wait_failed;
    }

-- NetPoller::ResetOut
unfoldable pub reset_out : ℕ → Poller → Poller
reset_out h p =
    if not (p.handles h).is_out then p else record (modify_handle h (p.handles h).is_in false p) {
      events = from_index p.index (blank_out h) p.events;
      overrun = p.overrun || p.wait_failed;
    }

abbrev pub is_eintr : Errno → Bool
is_eintr eintr = true
is_eintr _ = false

-- NetPoller::Wait, with what `epoll_wait` returns, time after time. An error other than EINTR is
-- stored as `nevents_` -1, since the CHECK looks at the old `nevents_`, which is 0. `none`: the
-- outside has no further answer.
unfoldable pub wait : List (Io (List Slot)) → Poller → Option Poller
wait [] p = none
wait (moved slots ∷ later) p = some (record p { index = 0; events = slots; wait_failed = false })
wait (failed e ∷ later) p =
    let again = wait later p in
    if is_eintr e then again else some (record p { index = 0; events = []; wait_failed = true })

abbrev pub is_zero : ℕ → Bool
is_zero zero = true
is_zero (suc n) = false

abbrev pub is_blank : Slot → Bool
is_blank s = not s.is_in && not s.is_out && is_zero s.rest

-- What Event returns, with the steps that `index_` has made, and the slots.
abbrev pub Found : Type 0
Found = Option (ℕ × Kind) × ℕ × List Slot

-- The slot at `index_`, one of whose bits is set.
unfoldable pub take_slot : Slot → List Slot → Found
take_slot s ss =
    if s.is_in
    then (some (s.handle, poller_in), 0, record s { is_in = false } ∷ ss)
    else if s.is_out
    then (some (s.handle, poller_out), 0, record s { is_out = false } ∷ ss)
    else (some (s.handle, poller_err), 1, s ∷ ss)

-- The slot behind which the search goes on.
abbrev pub behind : Slot → Found → Found
behind s r = (r.0, suc r.1, s ∷ r.2)

unfoldable pub event_from : ℕ → List Slot → Found
event_from i [] = (none, i, [])
event_from (suc i) (s ∷ ss) = behind s (event_from i ss)
event_from zero (s ∷ ss) =
    let later = event_from zero ss in if is_blank s then behind s later else take_slot s ss

-- NetPoller::Event; `none` is -EAGAIN.
unfoldable pub event : Poller → Option (ℕ × Kind) × Poller
event p = let r = event_from p.index p.events in (r.0, record p { index = r.1; events = r.2 })
