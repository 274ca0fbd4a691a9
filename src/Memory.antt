-- ===== src/Memory.antt =====
-- Bytes at addresses: the memory of the process and the two buffers of a socket; a store of a
-- sequence of bytes, and a load of as many as are asked for.
use klibmsg.Base.{
  ℕ, zero, suc, ◌+◌, ◌-◌, ◌<◌, ◌≤◌, ◌≡◌, refl, ap, ap₂, Bool-cases, inl, inr, ◌∙◌, ==_refl, List,
  [], ◌∷◌, ◌++◌, arith, ◌==◌, if◌then◌else◌, length,
}

abbrev pub Memory : Type 0
Memory = ℕ → ℕ

-- `n` bytes from address `a`.
unfoldable pub load : Memory → ℕ → ℕ → List ℕ
load m a zero = []
load m a (suc n) = m a ∷ load m (a + 1) n

-- The bytes at `a` and behind.
unfoldable pub store : Memory → ℕ → List ℕ → Memory
store m a [] = m
store m a (b ∷ bs) = λ x. if x == a then b else store m (a + 1) bs x

pub length-load : (m : Memory) (a n : ℕ) → length (load m a n) ≡ n
unfolding load
length-load m a zero = refl
length-load m a (suc n) = ap suc (length-load m (a + 1) n)

pub load-cong :
    (m m' : Memory) (a n : ℕ)
    → ((x : ℕ) → a ≤ x → x < a + n → m x ≡ m' x)
    → load m a n ≡ load m' a n
unfolding load
load-cong m m' a zero h = refl
load-cong m m' a (suc n) h =
    ap₂ ◌∷◌ (h a (omega arith) (omega arith))
      (load-cong m m' (a + 1) n λ x p q. h x (omega arith) (omega arith))

-- The same bytes at two addresses.
pub load_ext :
    (m m' : Memory) (a a' n : ℕ)
    → ((i : ℕ) → i < n → m (a + i) ≡ m' (a' + i))
    → load m a n ≡ load m' a' n
unfolding load
load_ext m m' a a' zero h = refl
load_ext m m' a a' (suc n) h =
    let z : a + 0 ≡ a = omega arith in
    let z' : a' + 0 ≡ a' = omega arith in
    ap₂ ◌∷◌ (rw (z, z') at (h 0 (omega arith))) (
      load_ext m m' (a + 1) (a' + 1) n λ i p.
        let e : a + 1 + i ≡ a + suc i = omega arith in
        let e' : a' + 1 + i ≡ a' + suc i = omega arith in rw (e, e') (h (suc i) (omega arith)))

pub load-add : (m : Memory) (a b n k : ℕ) → a + n ≡ b → load m a (n + k) ≡ load m a n ++ load m b k
unfolding load
load-add m a b zero k e =
    let e' : a ≡ b = omega arith in let k' : 0 + k ≡ k = omega arith in rw (e', k')
load-add m a b (suc n) k e =
    let k' : suc n + k ≡ suc (n + k) = omega arith in
    rw k' (ap (◌∷◌ (m a)) (load-add m (a + 1) b n k (omega arith)))

pub store_below : (m : Memory) (a x : ℕ) (bs : List ℕ) → x < a → store m a bs x ≡ m x
unfolding store
store_below m a x [] h = refl
store_below m a x (b ∷ bs) h = ground (arith, store_below m (a + 1) x bs)

pub store_above : (m : Memory) (a x : ℕ) (bs : List ℕ) → a + length bs ≤ x → store m a bs x ≡ m x
unfolding store
store_above m a x [] h = refl
store_above m a x (b ∷ bs) h = ground (arith, store_above m (a + 1) x bs)

-- A store is read back,
pub load-store_self : (m : Memory) (a : ℕ) (bs : List ℕ) → load (store m a bs) a (length bs) ≡ bs
unfolding load store
load-store_self m a [] = refl
load-store_self m a (b ∷ bs) = rw (==_refl a) (
    ap (◌∷◌ b) (
      load-cong (store m a (b ∷ bs)) (store m (a + 1) bs) (a + 1) (length bs)
        (λ x p q. ground arith)
      ∙ load-store_self m (a + 1) bs))

-- leaves what lies in front of it,
pub load-store_below :
    (m : Memory) (a c n : ℕ) (bs : List ℕ) → c + n ≤ a → load (store m a bs) c n ≡ load m c n
load-store_below m a c n bs h =
    load-cong (store m a bs) m c n λ x p q. store_below m a x bs (omega arith)

-- and extends what was loaded up to its address.
pub load-store :
    (m : Memory) (a b n : ℕ) (bs : List ℕ)
    → a + n ≡ b
    → load (store m b bs) a (n + length bs) ≡ load m a n ++ bs
load-store m a b n bs e =
    load-add (store m b bs) a b n (length bs) e
    ∙ ap₂ ◌++◌ (load-store_below m b a n bs (omega arith)) (load-store_self m b bs)

-- A store of bytes that were loaded elsewhere.
pub store-load :
    (m f : Memory) (a c n x : ℕ) → a ≤ x → x < a + n → store m a (load f c n) x ≡ f (c + (x - a))
unfolding store load
store-load m f a c zero x h k = absurd (omega arith)
store-load m f a c (suc n) x h k = elim (Bool-cases (x == a)) [
  | inl here ↦
      let e : x ≡ a = ground arith in let e' : c + (x - a) ≡ c = omega arith in rw (here, e')
  | inr there ↦
      let ne : a + 1 ≤ x = ground arith in
      let e' : c + (x - a) ≡ c + 1 + (x - (a + 1)) = omega arith in
      rw (there, e') (store-load m f (a + 1) (c + 1) n x ne (omega arith))
]
