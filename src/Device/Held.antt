-- ===== src/Device/Held.antt =====
-- Where a callback of ReadData is, until it has been called.
use klibmsg.Base.{
  ℕ, ◌≡◌, refl, true, ◌⊎◌, inl, inr, some, List, [], ◌∷◌, ◌++◌, ◌==◌, Bool-cases, is_some,
}
use klibmsg.Net.{Act, run_callback}
use klibmsg.Channel.{send}
use klibmsg.Device.State.{Device}
use klibmsg.Device.Tables.{find, emplace, erase_key, Listed}

unfoldable pub Occurs : ℕ → List ℕ → Type 0
Occurs x [] = ⊥
Occurs x (y ∷ l) = (y ≡ x) ⊎ Occurs x l

-- The log tells that it was called.
unfoldable pub Ran : ℕ → List Act → Type 0
Ran x [] = ⊥
Ran x (run_callback y ∷ l) = (y ≡ x) ⊎ Ran x l
Ran x (a ∷ l) = Ran x l

-- It waits for the data, or for PollCompletionQueue, or it was called, or the sending end of the
-- queue is closed.
pub data Held (d : Device) (l : List Act) (x : ℕ) : Type 0 where
  awaits : (token : ℕ) → Listed token x d.token2callback → Held d l x
  completed : Occurs x d.cq.val → Held d l x
  ran : Ran x l → Held d l x
  closed_end : d.cq.is_send_closed ≡ true → Held d l x

pub Ran-cons : (x : ℕ) (a : Act) (l : List Act) → Ran x l → Ran x (a ∷ l)
unfolding Ran
Ran-cons x (run_callback y) l h = inr h
Ran-cons x _ l h = h

pub Held-cons : (d : Device) (l : List Act) (x : ℕ) (a : Act) → Held d l x → Held d (a ∷ l) x
Held-cons d l x a (awaits t e) = awaits t e
Held-cons d l x a (completed e) = completed e
Held-cons d l x a (ran e) = ran (Ran-cons x a l e)
Held-cons d l x a (closed_end e) = closed_end e

Occurs-append : (x : ℕ) (l k : List ℕ) → Occurs x l → Occurs x (l ++ k)
unfolding Occurs
Occurs-append x [] k h = absurd h
Occurs-append x (y ∷ l) k (inl e) = inl e
Occurs-append x (y ∷ l) k (inr h) = inr (Occurs-append x l k h)

Occurs-last : (x : ℕ) (l : List ℕ) → Occurs x (l ++ x ∷ [])
unfolding Occurs
Occurs-last x [] = inl refl
Occurs-last x (y ∷ l) = inr (Occurs-last x l)

-- An entry that is not the one that is erased stays.
Listed-erase_key :
    (k v t x : ℕ) (m : List (ℕ × ℕ))
    → find k m ≡ some v
    → Listed t x m
    → (x ≡ v) ⊎ Listed t x (erase_key k m)
unfolding find Listed erase_key
Listed-erase_key k v t x [] e h = absurd h
Listed-erase_key k v t x ((j, w) ∷ m) e h = elim (Bool-cases (j == k)) [
  | inl here ↦ elim h [
    | inl (p, q) ↦ let r : some w ≡ some v = rw here at e in inl (cc)
    | inr later ↦ inr (rw here later)
  ]
  | inr other ↦ elim h [
    | inl same ↦ inr (rw other (inl same))
    | inr later ↦ elim (Listed-erase_key k v t x m (rw other at e) later) [
      | inl p ↦ inl p
      | inr l ↦ inr (rw other (inr l))
    ]
  ]
]

-- The callback of a token that is found goes from the map to the queue.
pub completed-Held :
    (d : Device) (l : List Act) (token v x : ℕ)
    → find token d.token2callback ≡ some v
    → Held d l x
    → Held
        (record d { cq = (send v d.cq).1; token2callback = erase_key token d.token2callback })
        l
        x
unfolding send
completed-Held d l token v x e (awaits t h) = elim (Bool-cases d.cq.is_send_closed) [
  | inl shut ↦ closed_end (rw shut)
  | inr up ↦ elim (Listed-erase_key token v t x d.token2callback e h) [
    | inl p ↦ completed (rw (up, p) (Occurs-last v d.cq.val))
    | inr later ↦ awaits t later
  ]
]
completed-Held d l token v x e (completed h) = elim (Bool-cases d.cq.is_send_closed) [
  | inl shut ↦ closed_end (rw shut)
  | inr up ↦ completed (rw up (Occurs-append x d.cq.val _ h))
]
completed-Held d l token v x e (ran h) = ran h
completed-Held d l token v x e (closed_end h) = closed_end (rw h)

pub emplaced-Held :
    (d : Device) (l : List Act) (token v x : ℕ)
    → Held d l x
    → Held (record d { token2callback = emplace token v d.token2callback }) l x
unfolding emplace Listed
emplaced-Held d l token v x (awaits t h) =
    elim (Bool-cases (is_some (find token d.token2callback))) [
      | inl there ↦ awaits t (rw there h)
      | inr new ↦ awaits t (rw new (inr h))
    ]
emplaced-Held d l token v x (completed h) = completed h
emplaced-Held d l token v x (ran h) = ran h
emplaced-Held d l token v x (closed_end h) = closed_end h
