-- ===== src/Socket/Runs.antt =====
-- What a call makes of one socket: rules by the shape of the code.
pub mod Stop
pub mod Busy
pub mod Connect
pub mod InMemory
pub mod Post
use klibmsg.Base.{
  ℕ, ◌≡◌, ◌≢◌, refl, sym, ◌∙◌, ap, Bool, true, false, Option, none, some, List, [], ◌∷◌, ◌++◌, ◌==◌,
  append_assoc, append-nil, subst, ℤ, ◌==ℤ◌, if◌then◌else◌, not, Bool-cases, inl, inr,
}
use klibmsg.Net.{
  EventKind, TaskKind, SrcPtr, Sock, Act, close, signal, Task, sock_task, Net, Run, ok, M, pure,
  and_then, ◌>>=◌, ◌>>◌, get, modify, emit, check, change, update,
}
use klibmsg.Socket.Queued.{
  Queued, Unmarked, Queued-refl, Queued-trans, Unmarked-Queued, emitted-Queued, pushed-Queued,
  raised-Unmarked,
}
use klibmsg.Net.Laws.{update_self, update_ne}
use klibmsg.Fsm.{raise, raised, execute, queue_task, same_task}
use klibmsg.Socket.Ops.{Env, close_socket, net_close_fd, can_ignore}

-- The run ends with a result and a socket `i` that are known, leaves the other sockets and the
-- memory, and adds to the log, the latest entry first. What it marks as queued is in the queue of the
-- socket's worker, which is signalled, and it takes nothing from a queue.
abbrev pub Leaves : {A : Type 0} → ℕ → A → Sock → List Act → Net → Run A → Type 0
Leaves {A} i a s' acts n r =
    (n' : Net) × (r ≡ ok a n')
    × (n'.socks i ≡ s')
    × (n'.log ≡ acts ++ n.log)
    × (n'.mem ≡ n.mem)
    × Queued i n n'
    × ((j : ℕ) → j ≢ i → n'.socks j ≡ n.socks j)

modified-Queued :
    (i : ℕ) (n : Net) (f : Sock → Sock)
    → Unmarked (n.socks i) (f (n.socks i))
    → Queued i n (record n { socks = update n.socks i (f (n.socks i)) })
modified-Queued i n f u =
    Unmarked-Queued i n _ refl refl refl (rw (update_self n.socks i (f (n.socks i))) u)

-- From every state of the program where socket `i` is `s`.
pub record Does {A : Type 0} (i : ℕ) (s : Sock) (m : M A) (a : A) (s' : Sock) (acts : List Act)
    : Type 0 where
  pub run : (n : Net) → n.socks i ≡ s → Leaves i a s' acts n (m n)

module _ (i : ℕ) (s : Sock) where
  pub pure-Does : {A : Type 0} (a : A) → Does i s (pure a) a s []
  unfolding pure
  pure-Does a = record { run = λ n e. (n, refl, e, refl, refl, Queued-refl i n, λ j ne. refl) }

  pub get-Does : Does i s (get i) s s []
  unfolding get
  get-Does = record {
    run = λ n e. (n, ap (λ t. ok t n) e, e, refl, refl, Queued-refl i n, λ j ne. refl);
  }

  pub modify-Does : (f : Sock → Sock) → Unmarked s (f s) → Does i s (modify i f) tt (f s) []
  unfolding modify
  modify-Does f u = record {
    run = λ n e. (
      _,
      refl,
      update_self n.socks i (f (n.socks i)) ∙ ap f e,
      refl,
      refl,
      modified-Queued i n f (rw e u),
      λ j ne. update_ne n.socks i j (f (n.socks i)) ne,
    );
  }

  pub emit-Does : (a : Act) → Does i s (emit a) tt s (a ∷ [])
  unfolding emit
  emit-Does a = record {
    run = λ n e. (_, refl, e, refl, refl, emitted-Queued i a n _ refl refl refl refl, λ j ne. refl);
  }

  pub check-Does : (b : Bool) → b ≡ true → Does i s (check b) tt s []
  unfolding check
  check-Does true h = record {
    run = λ n e. (n, refl, e, refl, refl, Queued-refl i n, λ j ne. refl);
  }
  check-Does false h = cc

module _ {A B : Type 0} {i : ℕ} {s s' s'' : Sock} {a : A} {b : B} {l l' : List Act} where
  pub bind-Does :
      {m : M A} (f : A → M B)
      → Does i s m a s' l
      → Does i s' (f a) b s'' l'
      → Does i s (m >>= f) b s'' (l' ++ l)
  unfolding ◌>>=◌
  bind-Does {m} f p q = record {
    run = λ n e.
        let (n', r, e', g, m', u, o) = p.run n e in
        let (n'', r', e'', g', m'', u', o') = q.run n' e' in
        (
          n'',
          ap (λ t. and_then t f) r ∙ r',
          e'',
          g' ∙ ap (◌++◌ l') g ∙ sym (append_assoc l' l n.log),
          m'' ∙ m',
          Queued-trans i n n' n'' u u',
          λ j ne. o' j ne ∙ o j ne,
        );
  }

pub then-Does :
    {B : Type 0} {i : ℕ} {s s' s'' : Sock} {b : B} {l l' : List Act} {m : M (Unit {0})} {k : M B}
    → Does i s m tt s' l
    → Does i s' k b s'' l'
    → Does i s (m >> k) b s'' (l' ++ l)
then-Does {k} p q = bind-Does (λ _. k) p q

-- The same where the first part writes nothing to the log.
pub next-Does :
    {A B : Type 0} {i : ℕ} {s s' s'' : Sock} {a : A} {b : B} {l : List Act} {m : M A} (f : A → M B)
    → Does i s m a s' []
    → Does i s' (f a) b s'' l
    → Does i s (m >>= f) b s'' l
next-Does {i} {s} {s''} {b} {l} {m} f p q =
    subst (λ k. Does i s (m >>= f) b s'' k) (append-nil l) (bind-Does f p q)

pub step-Does :
    {B : Type 0} {i : ℕ} {s s' s'' : Sock} {b : B} {l : List Act} {m : M (Unit {0})} {k : M B}
    → Does i s m tt s' []
    → Does i s' k b s'' l
    → Does i s (m >> k) b s'' l
step-Does {k} p q = next-Does (λ _. k) p q

module _ (i : ℕ) (s : Sock) where
  pub raise-Does :
      (k : EventKind) (type : ℤ) (p : SrcPtr)
      → Does i s (raise i k type p) tt (raised i k type p s) []
  unfolding raise
  raise-Does k type p = modify-Does i s (raised i k type p) (raised-Unmarked i k type p s)

  -- A socket with a task in the queue of its worker.
  abbrev pub tasked : TaskKind → Sock
  tasked t =
      if s.task_queued t
      then s
      else record s { task_queued = λ t'. if same_task t' t then true else s.task_queued t' }

  pub execute-Does :
      (t : TaskKind) → Does i s (execute i t) tt (tasked t) (signal (tasked t).worker ∷ [])
  unfolding execute change queue_task get emit ◌>>=◌
  execute-Does t = elim (Bool-cases (s.task_queued t)) [
    | inl old ↦ rw old (record {
      run = λ n e.
          rw (e, old)
            (
              _,
              refl,
              e,
              ap (λ x. signal x.worker ∷ n.log) e,
              refl,
              emitted-Queued i (signal (n.socks i).worker) n _ refl refl refl refl,
              λ j ne. refl,
            );
    })
    | inr new ↦ rw new (record {
      run = λ n e.
          let s' = record s {
            task_queued = λ t'. if same_task t' t then true else s.task_queued t';
          } in
          let here = update_self n.socks i s' in
          rw (e, new)
            (
              _,
              refl,
              here,
              ap (λ x. signal x.worker ∷ n.log) here,
              refl,
              pushed-Queued i t n _ (ap (λ x. x.worker) here ∙ ap (λ x. x.worker) (sym e))
                  (λ k.
                    ap (λ x. x.task_queued k) here
                    ∙ ap (λ x. if same_task k t then true else x.task_queued k) (sym e))
                  (ap {B = ℕ → List Task}
                    (λ x w. if w == x.worker then n.tasks w ++ sock_task i t ∷ [] else n.tasks w)
                    (sym e))
                  refl refl,
              λ j ne. update_ne n.socks i j _ ne,
            );
    })
  ]

  net_close_fd-Does :
      (env : Env) (o : Option ℕ) (fd : ℕ)
      → o ≡ some fd
      → can_ignore env.close_errno ≡ true
      → Does i s (net_close_fd env o) tt s (close fd ∷ [])
  unfolding net_close_fd
  net_close_fd-Does env o fd e c =
      rw e (then-Does (emit-Does i s (close fd)) (check-Does i s (can_ignore env.close_errno) c))

  pub close_socket-Does :
      (env : Env) (fd : ℕ)
      → s.s ≡ some fd
      → can_ignore env.close_errno ≡ true
      → Does i s (close_socket env i) tt (record s { s = none }) (close fd ∷ [])
  unfolding close_socket
  close_socket-Does env fd e c = bind-Does _ (get-Does i s) (
      then-Does (net_close_fd-Does env s.s fd e c)
        (modify-Does i s (λ s. record s { s = none }) (refl, λ k h. h)))
