-- ===== src/Poller/Pending.antt =====
-- What a poller still has to tell.
use klibmsg.Base.{
  ℕ, zero, suc, ◌≡◌, refl, Bool, true, false, ◌&&◌, not, List, [], ◌∷◌, ◌==◌, if◌then◌else◌, first,
  Bool-cases, inl, inr, arith,
}
use klibmsg.Poller.{
  Slot, Kind, poller_in, poller_out, poller_err, Poller, from_index, blank, blank_in, blank_out, rm,
  reset_in, reset_out, modify_handle, set_handle, is_zero, is_blank, Found, take_slot, event_from,
  event,
}

abbrev cons_if : Bool → ℕ × Kind → List (ℕ × Kind) → List (ℕ × Kind)
cons_if true x l = x ∷ l
cons_if false x l = l

-- The events of one slot, in front of later ones.
unfoldable pub told : Slot → List (ℕ × Kind) → List (ℕ × Kind)
told s l =
    cons_if s.is_in (s.handle, poller_in)
      (cons_if s.is_out (s.handle, poller_out)
        (cons_if (not (is_zero s.rest)) (s.handle, poller_err) l))

-- The events that are to come from an index on: of each slot, the one to read, the one to write
-- and the error, in that order.
unfoldable pub pending : ℕ → List Slot → List (ℕ × Kind)
pending i [] = []
pending zero (s ∷ ss) = told s (pending zero ss)
pending (suc i) (s ∷ ss) = pending i ss

abbrev pub drop_first : List (ℕ × Kind) → List (ℕ × Kind)
drop_first [] = []
drop_first (x ∷ xs) = xs

-- Event returns the first of the events that are to come, and leaves the others.
abbrev Pops : List (ℕ × Kind) → Found → Type 0
Pops l r = (r.0 ≡ first l) × (pending r.1 r.2 ≡ drop_first l)

blank-Pops : (s : Slot) (l : List (ℕ × Kind)) → is_blank s ≡ true → told s l ≡ l
unfolding told
blank-Pops s l h = ground arith

take-Pops :
    (s : Slot) (ss : List Slot)
    → is_blank s ≡ false
    → Pops (told s (pending zero ss)) (take_slot s ss)
unfolding told take_slot pending
take-Pops s ss h = elim (Bool-cases s.is_in) [
  | inl reads ↦ rw reads (refl, refl)
  | inr not_in ↦ elim (Bool-cases s.is_out) [
    | inl writes ↦ rw (not_in, writes) (refl, refl)
    | inr not_out ↦ elim (Bool-cases (is_zero s.rest)) [
      | inl z ↦ absurd cc
      | inr nz ↦ rw (not_in, not_out, nz) (refl, refl)
    ]
  ]
]

event_from-Pops : (i : ℕ) (ss : List Slot) → Pops (pending i ss) (event_from i ss)
unfolding pending event_from
event_from-Pops i [] = (refl, refl)
event_from-Pops (suc i) (s ∷ ss) = event_from-Pops i ss
event_from-Pops zero (s ∷ ss) = elim (Bool-cases (is_blank s)) [
  | inl none_left ↦
      let (e, l) = event_from-Pops zero ss in
      rw (none_left, blank-Pops s (pending zero ss) none_left) (e, l)
  | inr some_left ↦ rw some_left (take-Pops s ss some_left)
]

abbrev pub to_come : Poller → List (ℕ × Kind)
to_come p = pending p.index p.events

-- Event returns the first of the events that are to come, or -EAGAIN if there is none, and leaves
-- the others to come.
pub event-to_come :
    (p : Poller)
    → ((event p).0 ≡ first (to_come p)) × (to_come (event p).1 ≡ drop_first (to_come p))
unfolding event
event-to_come p = event_from-Pops p.index p.events

-- The list less what passes a test.
unfoldable pub without : (ℕ × Kind → Bool) → List (ℕ × Kind) → List (ℕ × Kind)
without t [] = []
without t (x ∷ xs) = if t x then without t xs else x ∷ without t xs

abbrev pub of_handle : ℕ → ℕ × Kind → Bool
of_handle h (h', k) = h' == h

abbrev pub in_of : ℕ → ℕ × Kind → Bool
in_of h (h', poller_in) = h' == h
in_of h x = false

abbrev pub out_of : ℕ → ℕ × Kind → Bool
out_of h (h', poller_out) = h' == h
out_of h x = false

-- A change of the slots that takes the events that pass a test.
abbrev Takes : (Slot → Slot) → (ℕ × Kind → Bool) → Type 0
Takes f t = (s : Slot) (l : List (ℕ × Kind)) → told (f s) (without t l) ≡ without t (told s l)

from_index-pending :
    (f : Slot → Slot) (t : ℕ × Kind → Bool) (i : ℕ) (ss : List Slot)
    → Takes f t
    → pending i (from_index i f ss) ≡ without t (pending i ss)
unfolding from_index pending without
from_index-pending f t i [] k = refl
from_index-pending f t (suc i) (s ∷ ss) k = from_index-pending f t i ss k
from_index-pending f t zero (s ∷ ss) k =
    rw (from_index-pending f t zero ss k) (k s (pending zero ss))

without-cons_if :
    (t : ℕ × Kind → Bool) (b : Bool) (x : ℕ × Kind) (l : List (ℕ × Kind))
    → without t (cons_if b x l) ≡ cons_if (b && not (t x)) x (without t l)
unfolding without
without-cons_if t false x l = refl
without-cons_if t true x l = elim (Bool-cases (t x)) [ inl e ↦ rw e | inr e ↦ rw e ]

without-told :
    (t : ℕ × Kind → Bool) (s : Slot) (l : List (ℕ × Kind))
    → without t (told s l)
      ≡ cons_if
          (s.is_in && not (t (s.handle, poller_in)))
          (s.handle, poller_in)
          (cons_if
            (s.is_out && not (t (s.handle, poller_out)))
            (s.handle, poller_out)
            (cons_if
              (not (is_zero s.rest) && not (t (s.handle, poller_err)))
              (s.handle, poller_err)
              (without t l)))
unfolding told
without-told t s l = rw (
  without-cons_if t s.is_in (s.handle, poller_in),
  without-cons_if t s.is_out (s.handle, poller_out),
  without-cons_if t (not (is_zero s.rest)) (s.handle, poller_err),
)

and_true : (b : Bool) → (b && true) ≡ b
and_true true = refl
and_true false = refl

and_false : (b : Bool) → (b && false) ≡ false
and_false true = refl
and_false false = refl

blank-Takes : (h : ℕ) → Takes (blank h) (of_handle h)
unfolding told
blank-Takes h s l = elim (Bool-cases (s.handle == h)) [
  | inl e ↦ rw (
    without-told (of_handle h) s l,
    e,
    and_false s.is_in,
    and_false s.is_out,
    and_false (not (is_zero s.rest)),
  )
  | inr e ↦ rw (
    without-told (of_handle h) s l,
    e,
    and_true s.is_in,
    and_true s.is_out,
    and_true (not (is_zero s.rest)),
  )
]

blank_in-Takes : (h : ℕ) → Takes (blank_in h) (in_of h)
unfolding told
blank_in-Takes h s l = elim (Bool-cases (s.handle == h)) [
  | inl e ↦ rw (
    without-told (in_of h) s l,
    e,
    and_false s.is_in,
    and_true s.is_out,
    and_true (not (is_zero s.rest)),
  )
  | inr e ↦ rw (
    without-told (in_of h) s l,
    e,
    and_true s.is_in,
    and_true s.is_out,
    and_true (not (is_zero s.rest)),
  )
]

blank_out-Takes : (h : ℕ) → Takes (blank_out h) (out_of h)
unfolding told
blank_out-Takes h s l = elim (Bool-cases (s.handle == h)) [
  | inl e ↦ rw (
    without-told (out_of h) s l,
    e,
    and_true s.is_in,
    and_false s.is_out,
    and_true (not (is_zero s.rest)),
  )
  | inr e ↦ rw (
    without-told (out_of h) s l,
    e,
    and_true s.is_in,
    and_true s.is_out,
    and_true (not (is_zero s.rest)),
  )
]

-- Once Rm has removed a handle, no event of it is to come any more, and those of the others are.
pub rm-to_come : (h : ℕ) (p : Poller) → to_come (rm h p) ≡ without (of_handle h) (to_come p)
unfolding rm
rm-to_come h p = from_index-pending (blank h) (of_handle h) p.index p.events (blank-Takes h)

-- Where a handle polls for reads, ResetIn takes its read events from those to come, and no other;
-- where it polls for writes, ResetOut does so with its write events.
pub reset-to_come :
    (h : ℕ) (p : Poller)
    → ((p.handles h).is_in ≡ true → to_come (reset_in h p) ≡ without (in_of h) (to_come p))
      × ((p.handles h).is_out ≡ true → to_come (reset_out h p) ≡ without (out_of h) (to_come p))
unfolding reset_in reset_out modify_handle set_handle
reset-to_come h p = (
  λ e. rw e (from_index-pending (blank_in h) (in_of h) p.index p.events (blank_in-Takes h)),
  λ e. rw e (from_index-pending (blank_out h) (out_of h) p.index p.events (blank_out-Takes h)),
)
