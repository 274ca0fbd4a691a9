-- ===== src/Queue/Remove.antt =====
-- NetQueue::Remove
use klibmsg.Base.{
  ℕ, zero, suc, ◌<◌, ◌≡◌, refl, sym, ap, subst, true, false, none, some, List, [], ◌∷◌, arith, ◌==◌,
  if◌then◌else◌, first, last, length, inl, inr, ◌∙◌, Bool-cases,
}
use klibmsg.Queue.{
  Link, not_in_queue, link, Heap, Queue, set_next, remove_loop, unlink, remove, same, is_in_queue,
}
use klibmsg.Queue.Erase.{erase, has-erase, has-erase_other, Distinct-erase, hit_erase, miss_erase}
use klibmsg.Queue.Chain.{
  has, Distinct, Chain, Represents, SameOutside, Chain-set_next, Chain-link, ne_of_has,
  set_next_self, set_next_ne, has_or,
}

-- The item in front of `a` in `x ∷ xs`.
previous : ℕ → ℕ → List ℕ → ℕ
previous a x [] = x
previous a x (y ∷ ys) = if y == a then x else previous a y ys

-- The loop stops at the item, and hands its predecessor to the body.
remove_loop-unlink :
    (fuel a x : ℕ) (h : Heap) (q : Queue) (xs : List ℕ)
    → Chain h xs
    → has a xs ≡ true
    → length xs < fuel
    → remove_loop fuel a h q (some x) (first xs) ≡ some (unlink a (some (previous a x xs)) h q)
unfolding remove_loop previous
remove_loop-unlink zero a x h q xs c i f = absurd (omega arith)
remove_loop-unlink (suc fuel) a x h q [] c i f = cc
remove_loop-unlink (suc fuel) a x h q (y ∷ ys) c i f = elim (Bool-cases (y == a)) [
  | inl hit ↦ rw hit
  | inr miss ↦ rw (miss, c.0) (remove_loop-unlink fuel a y h q ys c.1 (ground arith) (omega arith))
]

has-previous : (a x : ℕ) (xs : List ℕ) → has (previous a x xs) (x ∷ xs) ≡ true
unfolding previous
has-previous a x [] = ground arith
has-previous a x (y ∷ ys) = ground (arith, has-previous a y ys)

Chain-at :
    (h : Heap) (a y : ℕ) (ys : List ℕ) → Chain h (y ∷ ys) → (y == a) ≡ true → h a ≡ link (first ys)
Chain-at h a y ys c hit = let e : y ≡ a = ground arith in rw (← e) c.0

module _ (a x y : ℕ) (ys : List ℕ) where
  hit_previous : (y == a) ≡ true → previous a x (y ∷ ys) ≡ x
  unfolding previous
  hit_previous hit = rw hit

  miss_previous : (y == a) ≡ false → previous a x (y ∷ ys) ≡ previous a y ys
  unfolding previous
  miss_previous miss = rw miss

-- The chain behind `x`, with `a` by-passed.
Chain-bypass :
    (h : Heap) (a x : ℕ) (xs : List ℕ)
    → Chain h (x ∷ xs)
    → Distinct (x ∷ xs)
    → has a xs ≡ true
    → Chain (set_next h (previous a x xs) (h a)) (x ∷ erase a xs)
Chain-bypass h a x [] c d i = cc
Chain-bypass h a x (y ∷ ys) c d i = elim (Bool-cases (y == a)) [
  | inl hit ↦
      subst (λ p. Chain (set_next h p (h a)) (x ∷ erase a (y ∷ ys)))
        (sym (hit_previous a x y ys hit))
        (rw (hit_erase a y ys hit) (
          set_next_self h x _ ∙ Chain-at h a y ys c.1 hit,
          Chain-set_next h x _ ys (has_or x y ys d.0).1 c.1.1,
        ))
  | inr miss ↦
      subst (λ p. Chain (set_next h p (h a)) (x ∷ erase a (y ∷ ys)))
        (sym (miss_previous a x y ys miss))
        (rw (miss_erase a y ys miss) (
          set_next_ne h _ x _ (ne_of_has x _ (y ∷ ys) d.0 (has-previous a y ys)) ∙ c.0,
          Chain-bypass h a y ys c.1 d.1 (ground arith),
        ))
]

same-last : (a : ℕ) (xs : List ℕ) → has a xs ≡ false → same (last xs) a ≡ false
same-last a [] o = refl
same-last a (x ∷ []) o = ground arith
same-last a (x ∷ y ∷ xs) o = same-last a (y ∷ xs) (ground arith)

-- Where the item is the first of `y ∷ ys`.
last-first :
    (a x y : ℕ) (ys : List ℕ)
    → has a ys ≡ false
    → (y == a) ≡ true
    → (if same (last (y ∷ ys)) a then some x else last (y ∷ ys)) ≡ last (x ∷ ys)
last-first a x y [] o hit = rw hit
last-first a x y (z ∷ zs) o hit = rw (same-last a (z ∷ zs) o)

-- Where the item is the first of the queue.
last-none :
    (a x : ℕ) (xs : List ℕ)
    → has a xs ≡ false
    → (x == a) ≡ true
    → (if same (last (x ∷ xs)) a then none else last (x ∷ xs)) ≡ last xs
last-none a x [] o hit = rw hit
last-none a x (z ∷ zs) o hit = rw (same-last a (z ∷ zs) o)

last-erase :
    (a x : ℕ) (xs : List ℕ)
    → Distinct (x ∷ xs)
    → has a xs ≡ true
    → (if same (last (x ∷ xs)) a then some (previous a x xs) else last (x ∷ xs))
      ≡ last (x ∷ erase a xs)
last-erase a x [] d i = cc
last-erase a x (y ∷ ys) d i = elim (Bool-cases (y == a)) [
  | inl hit ↦
      rw (hit_previous a x y ys hit, hit_erase a y ys hit)
        (last-first a x y ys (let e : y ≡ a = ground arith in rw (← e) d.1.0) hit)
  | inr miss ↦
      rw (miss_previous a x y ys miss, miss_erase a y ys miss)
        (last-erase a y ys d.1 (ground arith))
]

abbrev pub Removed : Heap → ℕ → List ℕ → Heap → Queue → Type 0
Removed h a xs g q = Represents g q (erase a xs) × (g a ≡ not_in_queue) × SameOutside xs h g

-- The unlinking of the first item.
unlink_first :
    (h : Heap) (q : Queue) (a x : ℕ) (xs : List ℕ)
    → Represents h q (x ∷ xs)
    → (x == a) ≡ true
    → Removed h a (x ∷ xs) (unlink a none h q).0 (unlink a none h q).1
unfolding unlink
unlink_first h q a x xs r hit =
    let e : x ≡ a = ground arith in
    let out = rw e at r.distinct.0 in
    rw (hit_erase a x xs hit) (
      record {
        head_first = rw (r.head_first, hit) (rw (Chain-at h a x xs r.chain hit));
        tail_last = rw r.tail_last (last-none a x xs out hit);
        chain = Chain-set_next h a _ xs out r.chain.1;
        distinct = r.distinct.1;
      },
      set_next_self h a _,
      λ b o. set_next_ne h a b _ (rw (← e) (has_or b x xs o).0),
    )

unlink_later :
    (h : Heap) (q : Queue) (a x : ℕ) (xs : List ℕ)
    → Represents h q (x ∷ xs)
    → (x == a) ≡ false
    → has a xs ≡ true
    → let (g, q') = unlink a (some (previous a x xs)) h q in Removed h a (x ∷ xs) g q'
unfolding unlink
unlink_later h q a x xs r miss i =
    let h' = set_next h (previous a x xs) (h a) in
    rw (miss_erase a x xs miss) (
      record {
        head_first = rw (r.head_first, miss);
        tail_last = rw r.tail_last (last-erase a x xs r.distinct i);
        chain =
            Chain-set_next h' a _ (x ∷ erase a xs) (ground (arith, has-erase a xs r.distinct.1))
              (Chain-bypass h a x xs r.chain r.distinct i);
        distinct = (has-erase_other a x xs r.distinct.0, Distinct-erase a xs r.distinct.1);
      },
      set_next_self h' a _,
      λ b o.
          set_next_ne h' a b _ (ne_of_has b a (x ∷ xs) o (ground arith))
          ∙ set_next_ne h (previous a x xs) b _ (ne_of_has b _ (x ∷ xs) o (has-previous a x xs)),
    )

remove_queued :
    (fuel a : ℕ) (h : Heap) (q : Queue) (x : ℕ) (xs : List ℕ)
    → Represents h q (x ∷ xs)
    → has a (x ∷ xs) ≡ true
    → remove fuel a h q ≡ remove_loop fuel a h q none (some x)
unfolding remove is_in_queue
remove_queued fuel a h q x xs r i = go (h a) refl
  where
    go : (l : Link) → h a ≡ l → remove fuel a h q ≡ remove_loop fuel a h q none (some x)
    go not_in_queue e = absurd (Chain-link h a (x ∷ xs) r.chain i e)
    go (link p) e = rw (e, remove, is_in_queue) (ap (remove_loop fuel a h q none) r.head_first)

loop_hit :
    (fuel a : ℕ) (h : Heap) (q : Queue) (x : ℕ)
    → (x == a) ≡ true
    → remove_loop (suc fuel) a h q none (some x) ≡ some (unlink a none h q)
unfolding remove_loop
loop_hit fuel a h q x hit = rw hit

loop_miss :
    (fuel a : ℕ) (h : Heap) (q : Queue) (x : ℕ) (xs : List ℕ)
    → Chain h (x ∷ xs)
    → (x == a) ≡ false
    → has a xs ≡ true
    → length xs < fuel
    → remove_loop (suc fuel) a h q none (some x) ≡ some (unlink a (some (previous a x xs)) h q)
unfolding remove_loop
loop_miss fuel a h q x xs c miss i f = rw (miss, c.0) (remove_loop-unlink fuel a x h q xs c.1 i f)

-- With fuel for its items, Remove of a queued item ends, leaves the others in their order, marks
-- the item as in no queue, and changes no link outside the queue.
pub remove-erase :
    (fuel : ℕ) (h : Heap) (q : Queue) (a : ℕ) (xs : List ℕ)
    → Represents h q xs
    → has a xs ≡ true
    → length xs < fuel
    → (g : Heap) × (q' : Queue) × (remove fuel a h q ≡ some (g, q')) × Removed h a xs g q'
remove-erase zero h q a xs r i f = absurd (omega arith)
remove-erase (suc fuel) h q a [] r i f = cc
remove-erase (suc fuel) h q a (x ∷ xs) r i f = elim (Bool-cases (x == a)) [
  | inl hit ↦ (
    _,
    _,
    remove_queued (suc fuel) a h q x xs r i ∙ loop_hit fuel a h q x hit,
    unlink_first h q a x xs r hit,
  )
  | inr miss ↦ (
    _,
    _,
    remove_queued (suc fuel) a h q x xs r i
        ∙ loop_miss fuel a h q x xs r.chain miss (ground arith) (omega arith),
    unlink_later h q a x xs r miss (ground arith),
  )
]
