-- ===== src/Socket/Queued.antt =====
-- What becomes of the queues of the workers (worker.cpp) while a call of a socket runs.
use klibmsg.Base.{
  ℕ, ◌≡◌, ◌<◌, ◌≤◌, refl, ◌∙◌, ap, true, ◌&&◌, List, [], ◌∷◌, ◌++◌, ◌==◌, ==_refl, if◌then◌else◌,
  arith, Bool-cases, ◌⊎◌, inl, inr, ℤ,
}
use klibmsg.Net.{
  EventKind, SrcPtr, TaskKind, connecting_task, connected_task, accept_task, send_task, recv_task,
  stop_task, Sock, Act, add_fd, rm_fd, set_in, set_out, reset_out, signal, set_nonblock, close,
  delete, run_callback, write, bad_action, bad_source, bad_state, Task, sock_task, stop_item, Net,
  count_act,
}
use klibmsg.Fsm.{same_task, raised}
use klibmsg.Worker.{has_task}

-- A task is in the queue of its socket's worker, and the worker is signalled.
abbrev pub InQueue : ℕ → TaskKind → Net → Type 0
InQueue i k n =
    (has_task i k (n.tasks (n.socks i).worker) ≡ true) × (0 < n.efd_count (n.socks i).worker)

-- A task of socket `i` that is marked as queued, and was not, is in the queue of the worker, which is
-- signalled; no task leaves a queue, and no worker loses its signal.
pub record Queued (i : ℕ) (n n' : Net) : Type 0 where
  pub marked :
      (k : TaskKind)
      → (n'.socks i).task_queued k ≡ true
      → ((n.socks i).task_queued k ≡ true) ⊎ InQueue i k n'
  pub stays :
      (w j : ℕ) (k : TaskKind) → has_task j k (n.tasks w) ≡ true → has_task j k (n'.tasks w) ≡ true
  pub signalled : (w : ℕ) → n.efd_count w ≤ n'.efd_count w
  pub worker : (n'.socks i).worker ≡ (n.socks i).worker
  pub taken : n'.taken ≡ n.taken

-- A socket keeps its worker, and none of its tasks is newly marked.
abbrev pub Unmarked : Sock → Sock → Type 0
Unmarked s s' =
    (s'.worker ≡ s.worker) × ((k : TaskKind) → s'.task_queued k ≡ true → s.task_queued k ≡ true)

pub Queued-refl : (i : ℕ) (n : Net) → Queued i n n
Queued-refl i n = record {
  marked = λ k h. inl h;
  stays = λ w j k h. h;
  signalled = λ w. omega arith;
  worker = refl;
  taken = refl;
}

InQueue-Queued :
    (i : ℕ) (k : TaskKind) (n n' : Net) → Queued i n n' → InQueue i k n → InQueue i k n'
InQueue-Queued i k n n' q (h, c) =
    let more = q.signalled (n.socks i).worker in
    (rw q.worker (q.stays (n.socks i).worker i k h), rw q.worker (omega (arith, c, more)))

pub Queued-trans : (i : ℕ) (n n' n'' : Net) → Queued i n n' → Queued i n' n'' → Queued i n n''
Queued-trans i n n' n'' p q = record {
  marked = λ k h. elim (q.marked k h) [
    | inl h' ↦ elim (p.marked k h') [
      | inl old ↦ inl old
      | inr there ↦ inr (InQueue-Queued i k n' n'' q there)
    ]
    | inr there ↦ inr there
  ];
  stays = λ w j k h. q.stays w j k (p.stays w j k h);
  signalled = λ w. let a = p.signalled w in let b = q.signalled w in omega (arith, a, b);
  worker = q.worker ∙ p.worker;
  taken = q.taken ∙ p.taken;
}

-- A change of the socket alone.
pub Unmarked-Queued :
    (i : ℕ) (n n' : Net)
    → n'.tasks ≡ n.tasks
    → n'.taken ≡ n.taken
    → n'.efd_count ≡ n.efd_count
    → Unmarked (n.socks i) (n'.socks i)
    → Queued i n n'
Unmarked-Queued i n n' t l c (w, m) = record {
  marked = λ k h. inl (m k h);
  stays = λ w j k h. rw t h;
  signalled = λ w. rw c (omega arith);
  worker = w;
  taken = l;
}

pub count_act-grows : (a : Act) (c : ℕ → ℕ) (w : ℕ) → c w ≤ count_act a c w
unfolding count_act
count_act-grows (signal v) c w = elim (Bool-cases (w == v)) [
  | inl here ↦ rw here (omega arith)
  | inr other ↦ rw other (omega arith)
]
count_act-grows (add_fd j fd) c w = omega arith
count_act-grows (rm_fd j) c w = omega arith
count_act-grows (set_in j) c w = omega arith
count_act-grows (set_out j) c w = omega arith
count_act-grows (reset_out j) c w = omega arith
count_act-grows (set_nonblock j) c w = omega arith
count_act-grows (close j) c w = omega arith
count_act-grows (delete j) c w = omega arith
count_act-grows (run_callback j) c w = omega arith
count_act-grows (write fd l) c w = omega arith
count_act-grows (bad_action k st a) c w = omega arith
count_act-grows (bad_source k st a) c w = omega arith
count_act-grows (bad_state k st a) c w = omega arith

-- An item is put at the end of a queue.
same_task_eq : (k t : TaskKind) → same_task k t ≡ true → k ≡ t
same_task_eq connecting_task connecting_task h = refl
same_task_eq connected_task connected_task h = refl
same_task_eq accept_task accept_task h = refl
same_task_eq send_task send_task h = refl
same_task_eq recv_task recv_task h = refl
same_task_eq stop_task stop_task h = refl
same_task_eq _ _ h = cc

same_task_refl : (k : TaskKind) → same_task k k ≡ true
same_task_refl connecting_task = refl
same_task_refl connected_task = refl
same_task_refl accept_task = refl
same_task_refl send_task = refl
same_task_refl recv_task = refl
same_task_refl stop_task = refl

pub has_task-pushed :
    (i : ℕ) (k : TaskKind) (l : List Task) → has_task i k (l ++ sock_task i k ∷ []) ≡ true
unfolding has_task
has_task-pushed i k [] = rw (==_refl i, same_task_refl k) refl
has_task-pushed i k (stop_item ∷ l) = has_task-pushed i k l
has_task-pushed i k (sock_task j k' ∷ l) = elim (Bool-cases (j == i && same_task k' k)) [
  | inl here ↦ rw here refl
  | inr other ↦ rw other (has_task-pushed i k l)
]

pub has_task-append :
    (i : ℕ) (k : TaskKind) (l l' : List Task)
    → has_task i k l ≡ true
    → has_task i k (l ++ l') ≡ true
unfolding has_task
has_task-append i k [] l' h = cc
has_task-append i k (stop_item ∷ l) l' h = has_task-append i k l l' h
has_task-append i k (sock_task j k' ∷ l) l' h = elim (Bool-cases (j == i && same_task k' k)) [
  | inl here ↦ rw here refl
  | inr other ↦ rw other (has_task-append i k l l' (rw other at h))
]

pub has_task-behind :
    (i : ℕ) (k : TaskKind) (l l' : List Task)
    → has_task i k l' ≡ true
    → has_task i k (l ++ l') ≡ true
unfolding has_task
has_task-behind i k [] l' h = h
has_task-behind i k (stop_item ∷ l) l' h = has_task-behind i k l l' h
has_task-behind i k (sock_task j k' ∷ l) l' h = elim (Bool-cases (j == i && same_task k' k)) [
  | inl here ↦ rw here refl
  | inr other ↦ rw other (has_task-behind i k l l' h)
]

-- The queue of a worker with one more item.
has_task-at :
    (w v j : ℕ) (k : TaskKind) (l : List Task) (t : Task)
    → has_task j k l ≡ true
    → has_task j k (if v == w then l ++ t ∷ [] else l) ≡ true
has_task-at w v j k l t h = elim (Bool-cases (v == w)) [
  | inl here ↦ rw here (has_task-append j k l (t ∷ []) h)
  | inr other ↦ rw other h
]

-- A task is put into the queue of a worker, which is signalled.
module _ (i : ℕ) (t : TaskKind) (n n' : Net) where
  pub pushed-Queued :
      (n'.socks i).worker ≡ (n.socks i).worker
      → ((k : TaskKind)
          → (n'.socks i).task_queued k
            ≡ (if same_task k t then true else (n.socks i).task_queued k))
      → n'.tasks
        ≡ (λ w. if w == (n.socks i).worker then n.tasks w ++ sock_task i t ∷ [] else n.tasks w)
      → n'.efd_count ≡ count_act (signal (n'.socks i).worker) n.efd_count
      → n'.taken ≡ n.taken
      → Queued i n n'
  unfolding count_act
  pushed-Queued w m q c l = record {
    marked = λ k h. elim (Bool-cases (same_task k t)) [
      | inl same ↦
          let e = same_task_eq k t same in
          let there = has_task-pushed i t (n.tasks (n.socks i).worker) in
          let it = ==_refl (n.socks i).worker in
          inr (rw (e, q, w, it) there, rw (c, w, it) (omega arith))
      | inr other ↦ inl (rw (m k, other) at h)
    ];
    stays = λ v j k h. rw q (has_task-at (n.socks i).worker v j k (n.tasks v) (sock_task i t) h);
    signalled = λ v. rw c (count_act-grows (signal (n'.socks i).worker) n.efd_count v);
    worker = w;
    taken = l;
  }

-- A request alone.
pub emitted-Queued :
    (i : ℕ) (a : Act) (n n' : Net)
    → n'.socks ≡ n.socks
    → n'.tasks ≡ n.tasks
    → n'.efd_count ≡ count_act a n.efd_count
    → n'.taken ≡ n.taken
    → Queued i n n'
emitted-Queued i a n n' s t c l = record {
  marked = λ k h. inl (rw s at h);
  stays = λ w j k h. rw t h;
  signalled = λ w. rw c (count_act-grows a n.efd_count w);
  worker = ap (λ f. (f i).worker) s;
  taken = l;
}

-- Raise marks no task.
pub raised-Unmarked :
    (i : ℕ) (k : EventKind) (type : ℤ) (p : SrcPtr) (s : Sock) → Unmarked s (raised i k type p s)
raised-Unmarked i k type p s = elim (Bool-cases (s.event k).queued) [
  | inl old ↦ rw old (refl, λ t h. h)
  | inr new ↦ rw new (refl, λ t h. h)
]
