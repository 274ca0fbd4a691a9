-- ===== src/Tests/Queues.antt =====
-- The theorems on queues at queues of two items.
use klibmsg.Base.{◌≡◌, refl, none, some, List, [], ◌∷◌, ◌++◌, arith, ◌==◌, if◌then◌else◌}
use klibmsg.Queue.{not_in_queue, link, Heap, Queue, push, pop, remove}
use klibmsg.Queue.Chain.{Represents, SameOutside}
use klibmsg.Queue.Push.{push-Represents}
use klibmsg.Queue.Pop.{Popped, pop-Popped}
use klibmsg.Queue.Remove.{Removed, remove-erase}
use klibmsg.Queue.Refine.{Call, pushes, pops, removes, answers, run, Tracks, run-answers}

-- Items 5 and 7 in a queue.
abbrev two_items : Heap
two_items a = if a == 5 then link (some 7) else if a == 7 then link none else not_in_queue

abbrev two : Queue
two = record { head = some 5; tail = some 7 }

two-Represents : Represents two_items two (5 ∷ 7 ∷ [])
two-Represents = record {
  head_first = refl;
  tail_last = refl;
  chain = (refl, (refl, tt));
  distinct = (refl, (refl, tt));
}

two-Tracks : Tracks two_items two (5 ∷ 7 ∷ [])
two-Tracks = record { represents = two-Represents; others_free = λ a o. ground arith }

push-Represents_example :
    Represents (push 9 two_items two).0 (push 9 two_items two).1 ((5 ∷ 7 ∷ []) ++ 9 ∷ [])
    × SameOutside (9 ∷ 5 ∷ 7 ∷ []) two_items (push 9 two_items two).0
push-Represents_example = push-Represents two_items two (5 ∷ 7 ∷ []) 9 two-Represents refl

pop-Popped_example : Popped two_items 5 (7 ∷ []) (pop two_items two)
pop-Popped_example = pop-Popped two_items two 5 (7 ∷ []) two-Represents

remove-erase_example :
    (g : Heap) × (q : Queue) × (remove 3 7 two_items two ≡ some (g, q))
    × Removed two_items 7 (5 ∷ 7 ∷ []) g q
remove-erase_example = remove-erase 3 two_items two 7 (5 ∷ 7 ∷ []) two-Represents refl (omega arith)

abbrev calls : List Call
calls = removes 7 ∷ pushes 9 ∷ pops ∷ pops ∷ pops ∷ []

run-answers_example : run 8 two_items two calls ≡ some (answers (5 ∷ 7 ∷ []) calls)
run-answers_example = run-answers 8 two_items two (5 ∷ 7 ∷ []) calls two-Tracks (omega arith)
