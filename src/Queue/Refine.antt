-- ===== src/Queue/Refine.antt =====
-- A queue against its specification: a list of distinct items, where a push of an item that is
-- there already changes nothing.
use klibmsg.Base.{
  ℕ, ◌+◌, ◌<◌, ◌≤◌, ◌≡◌, refl, ap, ◌∙◌, true, false, Option, none, some, List, [], ◌∷◌, ◌++◌, arith,
  ◌==◌, if◌then◌else◌, first, length, length-append, inl, inr, Bool-cases,
}
use klibmsg.Queue.{Link, not_in_queue, link, Heap, Queue, push, pop, remove, is_in_queue}
use klibmsg.Queue.Chain.{has, Represents, Chain-link}
use klibmsg.Queue.Push.{push-Represents}
use klibmsg.Queue.Pop.{pop-Popped, pop-nil}
use klibmsg.Queue.Erase.{erase, length-erase, erase_absent, has-erase_ne}
use klibmsg.Queue.Remove.{remove-erase}

pub data Call : Type 0 where
  pushes : ℕ → Call
  pops : Call
  removes : ℕ → Call

abbrev drop_first : List ℕ → List ℕ
drop_first [] = []
drop_first (x ∷ xs) = xs

-- The specification: what a call does to the list, and what it returns.
unfoldable pub after : List ℕ → Call → List ℕ
after xs (pushes a) = if has a xs then xs else xs ++ a ∷ []
after xs pops = drop_first xs
after xs (removes a) = erase a xs

abbrev answer : List ℕ → Call → Option ℕ
answer xs (pushes a) = none
answer xs pops = first xs
answer xs (removes a) = none

unfoldable pub answers : List ℕ → List Call → List (Option ℕ)
unfolding after
answers xs [] = []
answers xs (c ∷ cs) = answer xs c ∷ answers (after xs c) cs

abbrev silent : Option (Heap × Queue) → Option (Option ℕ × Heap × Queue)
silent none = none
silent (some (g, q)) = some (none, g, q)

-- The code: the heap and the queue after a call, and what it returns.
unfoldable pub step : ℕ → Heap → Queue → Call → Option (Option ℕ × Heap × Queue)
unfolding push pop remove
step fuel h q (pushes a) = silent (some (push a h q))
step fuel h q pops = some (pop h q)
step fuel h q (removes a) = silent (remove fuel a h q)

unfoldable pub run : ℕ → Heap → Queue → List Call → Option (List (Option ℕ))
unfolding step
run fuel h q [] = some []
run fuel h q (c ∷ cs) = elim (step fuel h q c) [
  | none ↦ none
  | some (r, g, q') ↦ elim (run fuel g q' cs) [ none ↦ none | some rs ↦ some (r ∷ rs) ]
]

-- The queue stands for the list, and no item outside the list is in any queue.
pub record Tracks (h : Heap) (q : Queue) (xs : List ℕ) : Type 0 where
  pub represents : Represents h q xs
  pub others_free : (a : ℕ) → has a xs ≡ false → h a ≡ not_in_queue

abbrev Agrees : ℕ → Heap → Queue → List ℕ → Call → Type 0
Agrees fuel h q xs c =
    (g : Heap) × (q' : Queue) × (step fuel h q c ≡ some (answer xs c, g, q'))
    × Tracks g q' (after xs c)

push_in_queue :
    (h : Heap) (q : Queue) (a : ℕ) (xs : List ℕ)
    → Represents h q xs
    → has a xs ≡ true
    → push a h q ≡ (h, q)
unfolding push
push_in_queue h q a xs r i = go (h a) refl
  where
    go : (l : Link) → h a ≡ l → push a h q ≡ (h, q)
    go not_in_queue e = absurd (Chain-link h a xs r.chain i e)
    go (link p) e = rw (e, push)

remove_free :
    (fuel : ℕ) (h : Heap) (q : Queue) (a : ℕ) → h a ≡ not_in_queue → remove fuel a h q ≡ some (h, q)
unfolding remove is_in_queue
remove_free fuel h q a e = rw (e, remove, is_in_queue)

has-append_cons : (b a : ℕ) (xs : List ℕ) → has b (xs ++ a ∷ []) ≡ false → has b (a ∷ xs) ≡ false
has-append_cons b a [] o = o
has-append_cons b a (x ∷ xs) o = ground (arith, has-append_cons b a xs)

push-Agrees :
    (fuel : ℕ) (h : Heap) (q : Queue) (xs : List ℕ) (a : ℕ)
    → Tracks h q xs
    → Agrees fuel h q xs (pushes a)
unfolding step after
push-Agrees fuel h q xs a t = elim (Bool-cases (has a xs)) [
  | inl there ↦ rw (there, push_in_queue h q a xs t.represents there) (h, q, refl, t)
  | inr absent ↦
      let (r, same) = push-Represents h q xs a t.represents (t.others_free a absent) in
      rw absent (
        _,
        _,
        refl,
        record {
          represents = r;
          others_free = λ b o.
              let p : has b (a ∷ xs) ≡ false = has-append_cons b a xs o in
              same b p ∙ t.others_free b (ground arith);
        },
      )
]

pop-Agrees :
    (fuel : ℕ) (h : Heap) (q : Queue) (xs : List ℕ) → Tracks h q xs → Agrees fuel h q xs pops
unfolding step after
pop-Agrees fuel h q [] t = (h, q, rw (pop-nil h q t.represents), t)
pop-Agrees fuel h q (x ∷ xs) t =
    let (e, r, free, same) = pop-Popped h q x xs t.represents in
    (
      _,
      _,
      ap (λ o. some (o, (pop h q).1, (pop h q).2)) e,
      record {
        represents = r;
        others_free = λ b o. elim (Bool-cases (b == x)) [
          | inl y ↦ let e' : b ≡ x = ground arith in rw e' free
          | inr n ↦ same b (ground arith) ∙ t.others_free b (ground arith)
        ];
      },
    )

remove-Agrees :
    (fuel : ℕ) (h : Heap) (q : Queue) (xs : List ℕ) (a : ℕ)
    → Tracks h q xs
    → length xs < fuel
    → Agrees fuel h q xs (removes a)
unfolding step after
remove-Agrees fuel h q xs a t f = elim (Bool-cases (has a xs)) [
  | inl there ↦
      let (g, q', e, r') = remove-erase fuel h q a xs t.represents there f in
      (
        g,
        q',
        ap silent e,
        record {
          represents = r'.0;
          others_free = λ b o. elim (Bool-cases (b == a)) [
            | inl y ↦ let e' : b ≡ a = ground arith in rw e' r'.1
            | inr n ↦ let o' = has-erase_ne a b xs n o in r'.2 b o' ∙ t.others_free b o'
          ];
        },
      )
  | inr absent ↦ (
    h,
    q,
    ap silent (remove_free fuel h q a (t.others_free a absent)),
    rw (erase_absent a xs absent) t,
  )
]

-- A call grows the list by one item at most.
length-after : (xs : List ℕ) (c : Call) → length (after xs c) ≤ length xs + 1
unfolding after
length-after xs (pushes a) = ground (arith, length-append xs (a ∷ []))
length-after [] pops = omega arith
length-after (x ∷ xs) pops = omega arith
length-after xs (removes a) = omega (arith, length-erase a xs)

step-Agrees :
    (fuel : ℕ) (h : Heap) (q : Queue) (xs : List ℕ) (c : Call)
    → Tracks h q xs
    → length xs < fuel
    → Agrees fuel h q xs c
step-Agrees fuel h q xs (pushes a) t f = push-Agrees fuel h q xs a t
step-Agrees fuel h q xs pops t f = pop-Agrees fuel h q xs t
step-Agrees fuel h q xs (removes a) t f = remove-Agrees fuel h q xs a t f

-- Every sequence of Push, Pop and Remove on a queue ends, and returns what the specification
-- returns on the list, where no item outside the list is in a queue at the start.
pub run-answers :
    (fuel : ℕ) (h : Heap) (q : Queue) (xs : List ℕ) (cs : List Call)
    → Tracks h q xs
    → length xs + length cs < fuel
    → run fuel h q cs ≡ some (answers xs cs)
unfolding run answers
run-answers fuel h q xs [] t f = refl
run-answers fuel h q xs (c ∷ cs) t f =
    let (g, q', e, t') = step-Agrees fuel h q xs c t (omega arith) in
    rw (e, run)
      (rw (run-answers fuel g q' (after xs c) cs t' (omega (arith, length-after xs c)), run))
