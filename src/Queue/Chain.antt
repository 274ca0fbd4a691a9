-- ===== src/Queue/Chain.antt =====
-- What a queue of utils.cpp stands for: the items from `head_` along `next_`, in order.
use klibmsg.Base.{
  ℕ, ◌≡◌, ◌≢◌, refl, ap, Bool, true, false, ◌||◌, List, [], ◌∷◌, ◌++◌, arith, ◌==◌, first, last,
}
use klibmsg.Queue.{Link, not_in_queue, link, Heap, Queue, set_next}

abbrev pub has : ℕ → List ℕ → Bool
has a [] = false
has a (x ∷ xs) = (a == x) || has a xs

abbrev pub Distinct : List ℕ → Type 0
Distinct [] = Unit {0}
Distinct (x ∷ xs) = (has x xs ≡ false) × Distinct xs

-- Each item links to the one behind it, and the last one to nullptr.
abbrev pub Chain : Heap → List ℕ → Type 0
Chain h [] = Unit {0}
Chain h (x ∷ xs) = (h x ≡ link (first xs)) × Chain h xs

pub record Represents (h : Heap) (q : Queue) (xs : List ℕ) : Type 0 where
  pub head_first : q.head ≡ first xs
  pub tail_last : q.tail ≡ last xs
  pub chain : Chain h xs
  pub distinct : Distinct xs

-- `g` differs from `h` at most at the items of `xs`.
abbrev pub SameOutside : List ℕ → Heap → Heap → Type 0
SameOutside xs h g = (a : ℕ) → has a xs ≡ false → g a ≡ h a

pub Chain-frame :
    (h g : Heap) (xs : List ℕ) → Chain h xs → ((a : ℕ) → has a xs ≡ true → g a ≡ h a) → Chain g xs
Chain-frame h g [] c same = tt
Chain-frame h g (x ∷ xs) c same =
    (ground (arith, same x), Chain-frame h g xs c.1 (λ a i. same a (ground arith)))

-- A write to the link of an item that is not in the chain leaves the chain.
pub Chain-set_next :
    (h : Heap) (a : ℕ) (l : Link) (xs : List ℕ)
    → has a xs ≡ false
    → Chain h xs
    → Chain (set_next h a l) xs
unfolding set_next
Chain-set_next h a l [] out c = tt
Chain-set_next h a l (x ∷ xs) out c = (ground arith, Chain-set_next h a l xs (ground arith) c.1)

-- A queued item's link is not NETQUEUE_NOT_INQUEUE.
pub Chain-link :
    (h : Heap) (a : ℕ) (xs : List ℕ) → Chain h xs → has a xs ≡ true → h a ≢ not_in_queue
Chain-link h a [] c i = cc
Chain-link h a (x ∷ xs) c i = ground (arith, Chain-link h a xs c.1)

pub not-has_of_not_in_queue :
    (h : Heap) (a : ℕ) (xs : List ℕ) → Chain h xs → h a ≡ not_in_queue → has a xs ≡ false
not-has_of_not_in_queue h a [] c e = refl
not-has_of_not_in_queue h a (x ∷ xs) c e = ground (arith, not-has_of_not_in_queue h a xs c.1)

pub has-append : (a : ℕ) (xs ys : List ℕ) → has a (xs ++ ys) ≡ (has a xs || has a ys)
has-append a [] ys = refl
has-append a (x ∷ xs) ys = ground (arith, has-append a xs ys)

pub ne_of_has : (a b : ℕ) (xs : List ℕ) → has a xs ≡ false → has b xs ≡ true → a ≢ b
ne_of_has a b xs out i e = cc (ap (λ c. has c xs) e)

pub set_next_self : (h : Heap) (a : ℕ) (l : Link) → set_next h a l a ≡ l
unfolding set_next
set_next_self h a l = ground arith

pub set_next_ne : (h : Heap) (a b : ℕ) (l : Link) → b ≢ a → set_next h a l b ≡ h b
unfolding set_next
set_next_ne h a b l ne = ground arith

-- A write outside a list of items is a write that the list does not see.
pub has_or : (a x : ℕ) (xs : List ℕ) → has a (x ∷ xs) ≡ false → (a ≢ x) × (has a xs ≡ false)
has_or a x xs o = ground arith
