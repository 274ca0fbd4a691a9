-- ===== src/Queue.antt =====
-- NetQueueItem and NetQueue (utils.h, utils.cpp): an intrusive singly linked queue. An item is an
-- address; `next_` is a link, and the value NETQUEUE_NOT_INQUEUE, the pointer -1, is a link of its
-- own. The `next_` fields of all items are the heap, so that several queues can share items.
pub mod Chain
pub mod Push
pub mod Pop
pub mod Remove
pub mod Erase
pub mod Refine
use klibmsg.Base.{ℕ, zero, suc, Bool, true, false, Option, none, some, ◌==◌, if◌then◌else◌, is_some}

pub data Link : Type 0 where
  not_in_queue : Link
  link : Option ℕ → Link

-- The field `next_` of the item at each address.
abbrev pub Heap : Type 0
Heap = ℕ → Link

pub record Queue : Type 0 where
  pub head : Option ℕ
  pub tail : Option ℕ

unfoldable pub set_next : Heap → ℕ → Link → Heap
set_next h a l b = if b == a then l else h b

-- NetQueue::Init and NetQueue::Terminate.
abbrev pub init : Queue
init = record { head = none; tail = none }

unfoldable pub empty : Queue → Bool
empty q = if is_some q.head then false else true

unfoldable pub is_in_queue : Heap → ℕ → Bool
is_in_queue h a = elim (h a) [ not_in_queue ↦ false | link p ↦ true ]

-- NetQueueItem::Init
unfoldable pub init_item : Heap → ℕ → Heap
init_item h a = set_next h a not_in_queue

-- `if (tail_) tail_->next() = item`
append_to : Option ℕ → ℕ → Heap → Heap
append_to none item h = h
append_to (some t) item h = set_next h t (link (some item))

push_link : Link → ℕ → Heap → Queue → Heap × Queue
unfolding append_to
push_link (link p) item h q = (h, q)
push_link not_in_queue item h q = (
  append_to q.tail item (set_next h item (link none)),
  record { head = if is_some q.head then q.head else some item; tail = some item },
)

unfoldable pub push : ℕ → Heap → Queue → Heap × Queue
unfolding push_link
push item h q = push_link (h item) item h q

-- The pointer that a link holds; -1 is no address, and no queue that is well formed meets it.
abbrev pub target : Link → Option ℕ
target not_in_queue = none
target (link p) = p

pop_head : Option ℕ → Heap → Queue → Option ℕ × Heap × Queue
pop_head none h q = (none, h, q)
pop_head (some result) h q =
    let head' = target (h result) in
    (
      some result,
      set_next h result not_in_queue,
      record { head = head'; tail = if is_some head' then q.tail else none },
    )

unfoldable pub pop : Heap → Queue → Option ℕ × Heap × Queue
unfolding pop_head
pop h q = pop_head q.head h q

abbrev pub same : Option ℕ → ℕ → Bool
same none a = false
same (some b) a = b == a

-- `if (prev) prev->next() = it->next()`
bypass : Option ℕ → Link → Heap → Heap
bypass none l h = h
bypass (some p) l h = set_next h p l

-- The body of the loop of Remove where it finds the item.
unlink : ℕ → Option ℕ → Heap → Queue → Heap × Queue
unfolding bypass
unlink item prev h q = (
  set_next (bypass prev (h item) h) item not_in_queue,
  record {
    head = if same q.head item then target (h item) else q.head;
    tail = if same q.tail item then prev else q.tail;
  },
)

-- The loop of Remove on fuel; `none` if the fuel ends first, or the walk leaves the queue.
remove_loop : ℕ → ℕ → Heap → Queue → Option ℕ → Option ℕ → Option (Heap × Queue)
unfolding unlink
remove_loop zero item h q prev it = none
remove_loop (suc fuel) item h q prev none = some (h, q)
remove_loop (suc fuel) item h q prev (some a) =
    let rest = remove_loop fuel item h q (some a) (target (h a)) in
    if a == item then some (unlink item prev h q) else rest

unfoldable pub remove : ℕ → ℕ → Heap → Queue → Option (Heap × Queue)
unfolding remove_loop is_in_queue
remove fuel item h q =
    if is_in_queue h item then remove_loop fuel item h q none q.head else some (h, q)
