-- ===== src/Queue/Erase.antt =====
-- The list less an item.
use klibmsg.Base.{ℕ, ◌≡◌, refl, true, false, List, [], ◌∷◌, arith, ◌==◌, if◌then◌else◌, ◌≤◌, length}
use klibmsg.Queue.Chain.{has, Distinct}

unfoldable pub erase : ℕ → List ℕ → List ℕ
erase a [] = []
erase a (x ∷ xs) = if x == a then xs else x ∷ erase a xs

pub has-erase : (a : ℕ) (xs : List ℕ) → Distinct xs → has a (erase a xs) ≡ false
unfolding erase
has-erase a [] d = refl
has-erase a (x ∷ xs) d = ground (arith, has-erase a xs d.1)

pub has-erase_other : (a b : ℕ) (xs : List ℕ) → has b xs ≡ false → has b (erase a xs) ≡ false
unfolding erase
has-erase_other a b [] o = refl
has-erase_other a b (x ∷ xs) o = ground (arith, has-erase_other a b xs)

pub Distinct-erase : (a : ℕ) (xs : List ℕ) → Distinct xs → Distinct (erase a xs)
unfolding erase
Distinct-erase a [] d = tt
Distinct-erase a (x ∷ xs) d = ground (arith, Distinct-erase a xs d.1, has-erase_other a x xs)

module _ (a y : ℕ) (ys : List ℕ) where
  pub hit_erase : (y == a) ≡ true → erase a (y ∷ ys) ≡ ys
  unfolding erase
  hit_erase hit = rw hit

  pub miss_erase : (y == a) ≡ false → erase a (y ∷ ys) ≡ y ∷ erase a ys
  unfolding erase
  miss_erase miss = rw miss

pub length-erase : (a : ℕ) (xs : List ℕ) → length (erase a xs) ≤ length xs
unfolding erase
length-erase a [] = omega arith
length-erase a (x ∷ xs) = ground (arith, length-erase a xs)

pub erase_absent : (a : ℕ) (xs : List ℕ) → has a xs ≡ false → erase a xs ≡ xs
unfolding erase
erase_absent a [] o = refl
erase_absent a (x ∷ xs) o = ground (arith, erase_absent a xs)

pub has-erase_ne :
    (a b : ℕ) (xs : List ℕ) → (b == a) ≡ false → has b (erase a xs) ≡ false → has b xs ≡ false
unfolding erase
has-erase_ne a b [] n o = refl
has-erase_ne a b (x ∷ xs) n o = ground (arith, has-erase_ne a b xs)
