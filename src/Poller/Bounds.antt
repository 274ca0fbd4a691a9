-- ===== src/Poller/Bounds.antt =====
-- The bounds of `index_` and `nevents_` (poller.cpp), on which the accesses to `events_` rest, and
-- the loops that go on until they meet `nevents_`.
use klibmsg.Base.{
  ℕ, zero, suc, ◌≡◌, ◌≤◌, ◌∙◌, refl, sym, ap, subst, false, ◌||◌, Option, none, some, List, [], ◌∷◌,
  length, arith, Bool-cases, inl, inr,
}
use klibmsg.Os.{Io, moved, failed}
use klibmsg.Poller.{
  Slot, Poller, from_index, blank, blank_in, blank_out, add, rm, set_in, set_out, reset_in,
  reset_out, modify_handle, set_handle, is_blank, is_eintr, Found, take_slot, behind, event_from,
  event, wait,
}
use klibmsg.Poller.Calls.{
  Bounded, Op, op_add, op_rm, op_set_in, op_set_out, op_reset_in, op_reset_out, op_wait, op_event,
  operate, next, operate_all, Small, fails, Proper,
}

length-from_index : (i : ℕ) (f : Slot → Slot) (l : List Slot) → length (from_index i f l) ≡ length l
unfolding from_index
length-from_index i f [] = refl
length-from_index zero f (s ∷ l) = ap suc (length-from_index zero f l)
length-from_index (suc i) f (s ∷ l) = ap suc (length-from_index i f l)

-- The slots of an event that was found.
Fits : ℕ → List Slot → Found → Type 0
Fits i l r = (r.1 ≤ length l) × (length r.2 ≡ length l)

take_slot-Fits : (s : Slot) (l : List Slot) → Fits 0 (s ∷ l) (take_slot s l)
unfolding take_slot Fits
take_slot-Fits s l = elim (Bool-cases s.is_in) [
  | inl reads ↦ rw reads (omega arith, refl)
  | inr no_in ↦ elim (Bool-cases s.is_out) [
    | inl writes ↦ rw (no_in, writes) (omega arith, refl)
    | inr no_out ↦ rw (no_in, no_out) (omega arith, refl)
  ]
]

behind-Fits :
    (i : ℕ) (s : Slot) (l : List Slot) (r : Found) → Fits i l r → Fits (suc i) (s ∷ l) (behind s r)
unfolding Fits
behind-Fits i s l r (h, e) = (omega (arith, h), ap suc e)

event_from-Fits : (i : ℕ) (l : List Slot) → i ≤ length l → Fits i l (event_from i l)
unfolding event_from Fits
event_from-Fits i [] h = (h, refl)
event_from-Fits (suc i) (s ∷ l) h =
    behind-Fits i s l (event_from i l) (event_from-Fits i l (omega (arith, h)))
event_from-Fits zero (s ∷ l) h = elim (Bool-cases (is_blank s)) [
  | inl e ↦ rw e (behind-Fits 0 s l (event_from 0 l) (event_from-Fits 0 l (omega arith)))
  | inr e ↦ rw e (take_slot-Fits s l)
]

nil_length : {A : Type 0} (l l' : List A) → length l' ≡ length l → l ≡ [] → l' ≡ []
nil_length l [] e h = refl
nil_length [] (x ∷ l') e h = absurd (omega (arith, e))
nil_length (y ∷ l) (x ∷ l') e h = cc

-- A poller with other slots, as many as before, and another place among them.
moved_Bounded :
    (p q : Poller)
    → length q.events ≡ length p.events
    → q.index ≤ length p.events
    → q.wait_failed ≡ p.wait_failed
    → q.overrun ≡ p.overrun
    → Bounded p
    → Bounded q
moved_Bounded p q e i f o b = record {
  index = rw e i;
  events = rw e b.events;
  none_failed = λ h. nil_length p.events q.events e (b.none_failed (sym f ∙ h));
  in_bounds = o ∙ b.in_bounds;
}

event-Bounded : (p : Poller) → Bounded p → Bounded (event p).1
unfolding event Fits
event-Bounded p b =
    let (i, l) = event_from-Fits p.index p.events b.index in moved_Bounded p _ l i refl refl b

-- A poller within its bounds, of which the rest of a sequence is proper.
abbrev Ready : List Op → Option Poller → Type 0
Ready os none = Unit {0}
Ready os (some p) = Bounded p × Proper p.wait_failed os

wait-Ready :
    (waits : List (Io (List Slot))) (os : List Op) (p : Poller)
    → p.overrun ≡ false
    → Small waits
    → Proper (fails waits) os
    → Ready os (wait waits p)
unfolding wait Small fails
wait-Ready [] os p o h r = tt
wait-Ready (moved slots ∷ l) os p o (h, k) r =
    (record { index = omega arith; events = h; none_failed = λ e. cc; in_bounds = o }, r)
wait-Ready (failed e ∷ l) os p o h r = elim (Bool-cases (is_eintr e)) [
  | inl again ↦ rw again (wait-Ready l os p o h (rw again at r))
  | inr ends ↦ rw ends (
    record { index = omega arith; events = omega arith; none_failed = λ e. refl; in_bounds = o },
    rw ends at r,
  )
]

set_in-Ready :
    (h : ℕ) (os : List Op) (p : Poller)
    → Bounded p
    → Proper p.wait_failed os
    → Ready os (some (set_in h p))
unfolding set_in modify_handle set_handle
set_in-Ready h os p b s = elim (Bool-cases (p.handles h).is_in) [
  | inl e ↦ rw e (b, s)
  | inr e ↦ rw e (moved_Bounded p _ refl b.index refl refl b, s)
]

set_out-Ready :
    (h : ℕ) (os : List Op) (p : Poller)
    → Bounded p
    → Proper p.wait_failed os
    → Ready os (some (set_out h p))
unfolding set_out modify_handle set_handle
set_out-Ready h os p b s = elim (Bool-cases (p.handles h).is_out) [
  | inl e ↦ rw e (b, s)
  | inr e ↦ rw e (moved_Bounded p _ refl b.index refl refl b, s)
]

-- `from_index` keeps the bounds, and the loop of ResetIn and ResetOut ends where no Wait failed.
from_index-Bounded :
    (p q : Poller) (f : Slot → Slot)
    → q.events ≡ from_index p.index f p.events
    → q.index ≡ p.index
    → q.wait_failed ≡ p.wait_failed
    → q.overrun ≡ p.overrun
    → Bounded p
    → Bounded q
from_index-Bounded p q f e i w o b =
    moved_Bounded p q (ap length e ∙ length-from_index p.index f p.events) (rw i b.index) w o b

reset_in-Ready :
    (h : ℕ) (os : List Op) (p : Poller)
    → Bounded p
    → p.wait_failed ≡ false
    → Proper p.wait_failed os
    → Ready os (some (reset_in h p))
unfolding reset_in modify_handle set_handle
reset_in-Ready h os p b w s = elim (Bool-cases (p.handles h).is_in) [
  | inl e ↦
      let o : (p.overrun || p.wait_failed) ≡ p.overrun = rw (b.in_bounds, w) refl in
      rw e (from_index-Bounded p _ (blank_in h) refl refl refl o b, s)
  | inr e ↦ rw e (b, s)
]

reset_out-Ready :
    (h : ℕ) (os : List Op) (p : Poller)
    → Bounded p
    → p.wait_failed ≡ false
    → Proper p.wait_failed os
    → Ready os (some (reset_out h p))
unfolding reset_out modify_handle set_handle
reset_out-Ready h os p b w s = elim (Bool-cases (p.handles h).is_out) [
  | inl e ↦
      let o : (p.overrun || p.wait_failed) ≡ p.overrun = rw (b.in_bounds, w) refl in
      rw e (from_index-Bounded p _ (blank_out h) refl refl refl o b, s)
  | inr e ↦ rw e (b, s)
]

operate-Ready :
    (o : Op) (os : List Op) (p : Poller)
    → Bounded p
    → Proper p.wait_failed (o ∷ os)
    → Ready os (operate o p)
unfolding operate Proper add rm set_handle
operate-Ready (op_add fd h) os p b s = (moved_Bounded p _ refl b.index refl refl b, s)
operate-Ready (op_rm h) os p b s = (from_index-Bounded p _ (blank h) refl refl refl refl b, s)
operate-Ready (op_set_in h) os p b s = set_in-Ready h os p b s
operate-Ready (op_set_out h) os p b s = set_out-Ready h os p b s
operate-Ready (op_reset_in h) os p b (w, s) = reset_in-Ready h os p b w s
operate-Ready (op_reset_out h) os p b (w, s) = reset_out-Ready h os p b w s
operate-Ready (op_wait waits) os p b (s, t) = wait-Ready waits os p b.in_bounds s t
operate-Ready op_event os p b s = (event-Bounded p b, unfold event in s)

next-Bounded :
    (os : List Op) (f : Poller → Option Poller) (q : Poller)
    → ((p : Poller) → Bounded p → Proper p.wait_failed os → f p ≡ some q → Bounded q)
    → (o : Option Poller) → Ready os o
    → next o f ≡ some q
    → Bounded q
next-Bounded os f q h none b e = cc
next-Bounded os f q h (some p) (b, s) e = h p b s e

-- From a poller whose `index_` is at most `nevents_`, which is at most kNetPollerMaxEvents, or which
-- has no event since its last Wait failed, and whose loops have not run past the events, any sequence
-- of its methods that comes to an end leads to such a poller again, if `epoll_wait` never brings more
-- events than it is asked for, and if neither ResetIn nor ResetOut is called while `nevents_` is -1,
-- between a Wait that failed with another error than EINTR and the next Wait.
pub operate_all-Bounded :
    (os : List Op) (p q : Poller)
    → Bounded p
    → Proper p.wait_failed os
    → operate_all os p ≡ some q
    → Bounded q
unfolding operate_all
operate_all-Bounded [] p q b s e = let same : p ≡ q = cc in subst Bounded same b
operate_all-Bounded (o ∷ os) p q b s e =
    next-Bounded os (operate_all os) q (λ p' b' s' e'. operate_all-Bounded os p' q b' s' e')
      (operate o p) (operate-Ready o os p b s) e
