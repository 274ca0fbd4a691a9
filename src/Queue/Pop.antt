-- ===== src/Queue/Pop.antt =====
-- NetQueue::Pop and NetQueue::Empty
use klibmsg.Base.{ℕ, ◌≡◌, refl, true, false, Option, none, some, List, [], ◌∷◌}
use klibmsg.Queue.{not_in_queue, Heap, Queue, empty, pop}
use klibmsg.Queue.Chain.{
  Represents, SameOutside, Chain-set_next, set_next_self, set_next_ne, has_or,
}

abbrev pub Popped : Heap → ℕ → List ℕ → Option ℕ × Heap × Queue → Type 0
Popped h x xs (result, g, q) =
    (result ≡ some x) × Represents g q xs × (g x ≡ not_in_queue) × SameOutside (x ∷ []) h g

-- Pop returns the first item, which is then in no queue, keeps the others in their order, and
-- changes no other link.
pub pop-Popped :
    (h : Heap) (q : Queue) (x : ℕ) (xs : List ℕ) → Represents h q (x ∷ xs) → Popped h x xs (pop h q)
unfolding pop
pop-Popped h q x [] r =
    rw (r.head_first, r.chain.0)
      (
        refl,
        record { head_first = refl; tail_last = refl; chain = tt; distinct = tt },
        set_next_self h x _,
        λ b o. set_next_ne h x b _ (has_or b x [] o).0,
      )
pop-Popped h q x (y ∷ xs) r =
    rw (r.head_first, r.chain.0)
      (
        refl,
        record {
          head_first = refl;
          tail_last = r.tail_last;
          chain = Chain-set_next h x _ (y ∷ xs) r.distinct.0 r.chain.1;
          distinct = r.distinct.1;
        },
        set_next_self h x _,
        λ b o. set_next_ne h x b _ (has_or b x [] o).0,
      )

-- On an empty queue Pop returns nullptr and changes nothing.
pub pop-nil : (h : Heap) (q : Queue) → Represents h q [] → pop h q ≡ (none, h, q)
unfolding pop
pop-nil h q r = rw r.head_first

-- Empty tells whether the queue stands for no item.
pub empty-nil :
    (h : Heap) (q : Queue) (x : ℕ) (xs : List ℕ)
    → (Represents h q [] → empty q ≡ true) × (Represents h q (x ∷ xs) → empty q ≡ false)
unfolding empty
empty-nil h q x xs = (λ r. rw r.head_first, λ r. rw r.head_first)
