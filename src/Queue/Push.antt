-- ===== src/Queue/Push.antt =====
-- NetQueue::Push
use klibmsg.Base.{ℕ, ◌≡◌, refl, sym, ◌∙◌, true, false, none, some, List, [], ◌∷◌, ◌++◌, arith, last}
use klibmsg.Queue.{not_in_queue, link, Heap, Queue, set_next, push}
use klibmsg.Queue.Chain.{
  has, Distinct, Chain, Represents, SameOutside, Chain-set_next, not-has_of_not_in_queue,
  has-append, ne_of_has, set_next_self, set_next_ne, has_or,
}

last-append : (xs : List ℕ) (a : ℕ) → last (xs ++ a ∷ []) ≡ some a
last-append [] a = refl
last-append (x ∷ []) a = refl
last-append (x ∷ y ∷ xs) a = last-append (y ∷ xs) a

Distinct-append : (xs : List ℕ) (a : ℕ) → has a xs ≡ false → Distinct xs → Distinct (xs ++ a ∷ [])
Distinct-append [] a out d = (refl, tt)
Distinct-append (x ∷ xs) a out d =
    (ground (arith, has-append x xs (a ∷ [])), Distinct-append xs a (ground arith) d.1)

has-last : (x : ℕ) (xs : List ℕ) (t : ℕ) → last (x ∷ xs) ≡ some t → has t (x ∷ xs) ≡ true
has-last x [] t l = ground arith
has-last x (y ∷ xs) t l = ground (arith, has-last y xs t l)

-- Linking `a` behind the last item of a non-empty chain.
Chain-append :
    (h : Heap) (x : ℕ) (xs : List ℕ) (a t : ℕ)
    → Chain h (x ∷ xs)
    → Distinct (x ∷ xs)
    → has a (x ∷ xs) ≡ false
    → h a ≡ link none
    → last (x ∷ xs) ≡ some t
    → Chain (set_next h t (link (some a))) ((x ∷ xs) ++ a ∷ [])
Chain-append h x [] a t c d out e l =
    let e' : x ≡ t = ground arith in
    (
      rw (← e') (set_next_self h x _),
      (set_next_ne h t a _ (rw (← e') (has_or a x [] out).0) ∙ e, tt),
    )
Chain-append h x (y ∷ xs) a t c d out e l = (
  set_next_ne h t x _ (ne_of_has x t (y ∷ xs) d.0 (has-last y xs t l)) ∙ c.0,
  Chain-append h y xs a t c.1 d.1 (ground arith) e l,
)

last-some : (x : ℕ) (xs : List ℕ) → (t : ℕ) × (last (x ∷ xs) ≡ some t)
last-some x [] = (x, refl)
last-some x (y ∷ xs) = last-some y xs

-- Push of an item that is in no queue appends it, and changes no link but those of the items that
-- are then in the queue.
pub push-Represents :
    (h : Heap) (q : Queue) (xs : List ℕ) (a : ℕ)
    → Represents h q xs
    → h a ≡ not_in_queue
    → Represents (push a h q).0 (push a h q).1 (xs ++ a ∷ [])
      × SameOutside (a ∷ xs) h (push a h q).0
unfolding push
push-Represents h q [] a r e =
    rw (e, r.tail_last, r.head_first)
      (
        record {
          head_first = refl;
          tail_last = refl;
          chain = (set_next_self h a _, tt);
          distinct = (refl, tt);
        },
        λ b o. set_next_ne h a b _ (has_or b a [] o).0,
      )
push-Represents h q (x ∷ xs) a r e =
    let (t, l) = last-some x xs in
    let out = not-has_of_not_in_queue h a (x ∷ xs) r.chain e in
    let h' = set_next h a (link none) in
    let c = Chain-set_next h a (link none) (x ∷ xs) out r.chain in
    rw (e, r.tail_last, l)
      (
        record {
          head_first = rw r.head_first;
          tail_last = sym (last-append (x ∷ xs) a);
          chain = Chain-append h' x xs a t c r.distinct out (set_next_self h a _) l;
          distinct = Distinct-append (x ∷ xs) a out r.distinct;
        },
        λ b o.
            set_next_ne h' t b _
              (ne_of_has b t (x ∷ xs) (has_or b a (x ∷ xs) o).1 (has-last x xs t l))
            ∙ set_next_ne h a b _ (has_or b a (x ∷ xs) o).0,
      )
