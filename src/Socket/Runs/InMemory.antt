-- ===== src/Socket/Runs/InMemory.antt =====
-- What a call makes of one socket, from the states of the program with a given memory.
use klibmsg.Base.{ℕ, ◌≡◌, refl, ap, ◌∙◌, subst, sym, append_assoc, append-nil, List, [], ◌++◌}
use klibmsg.Memory.{Memory}
use klibmsg.Net.{Sock, Act, Net, ok, M, ◌>>=◌, ◌>>◌, and_then, get_mem}
use klibmsg.Socket.Queued.{Queued-refl, Queued-trans}
use klibmsg.Socket.Runs.{Does, Leaves}

pub record DoesIn {A : Type 0} (mem : Memory) (i : ℕ) (s : Sock) (m : M A) (a : A) (s' : Sock)
    (acts : List Act) : Type 0 where
  pub run : (n : Net) → n.socks i ≡ s → n.mem ≡ mem → Leaves i a s' acts n (m n)

module _ {mem : Memory} {i : ℕ} where
  pub Does-DoesIn :
      {A : Type 0} {s s' : Sock} {m : M A} {a : A} {l : List Act}
      → Does i s m a s' l
      → DoesIn mem i s m a s' l
  Does-DoesIn p = record { run = λ n e k. p.run n e }

  pub get_mem-DoesIn : {s : Sock} → DoesIn mem i s get_mem mem s []
  unfolding get_mem
  get_mem-DoesIn = record {
    run = λ n e k. (n, ap (λ t. ok t n) k, e, refl, refl, Queued-refl i n, λ j ne. refl);
  }

  pub bind-DoesIn :
      {A B : Type 0} {s s' s'' : Sock} {a : A} {b : B} {l l' : List Act} {m : M A} (f : A → M B)
      → DoesIn mem i s m a s' l
      → DoesIn mem i s' (f a) b s'' l'
      → DoesIn mem i s (m >>= f) b s'' (l' ++ l)
  unfolding ◌>>=◌
  bind-DoesIn {l} {l'} f p q = record {
    run = λ n e k.
        let (n', r, e', g, m', u, o) = p.run n e k in
        let (n'', r', e'', g', m'', u', o') = q.run n' e' (m' ∙ k) in
        (
          n'',
          ap (λ t. and_then t f) r ∙ r',
          e'',
          g' ∙ ap (◌++◌ l') g ∙ sym (append_assoc l' l n.log),
          m'' ∙ m',
          Queued-trans i n n' n'' u u',
          λ j ne. o' j ne ∙ o j ne,
        );
  }

  pub then-DoesIn :
      {B : Type 0} {s s' s'' : Sock} {b : B} {l l' : List Act} {m : M (Unit {0})} {k : M B}
      → DoesIn mem i s m tt s' l
      → DoesIn mem i s' k b s'' l'
      → DoesIn mem i s (m >> k) b s'' (l' ++ l)
  then-DoesIn {k} p q = bind-DoesIn (λ _. k) p q

  -- The same where the first part writes nothing to the log.
  pub next-DoesIn :
      {A B : Type 0} {s s' s'' : Sock} {a : A} {b : B} {l : List Act} {m : M A} (f : A → M B)
      → DoesIn mem i s m a s' []
      → DoesIn mem i s' (f a) b s'' l
      → DoesIn mem i s (m >>= f) b s'' l
  next-DoesIn {s} {s''} {b} {l} {m} f p q =
      subst (λ k. DoesIn mem i s (m >>= f) b s'' k) (append-nil l) (bind-DoesIn f p q)

  pub step-DoesIn :
      {B : Type 0} {s s' s'' : Sock} {b : B} {l : List Act} {m : M (Unit {0})} {k : M B}
      → DoesIn mem i s m tt s' []
      → DoesIn mem i s' k b s'' l
      → DoesIn mem i s (m >> k) b s'' l
  step-DoesIn {k} p q = next-DoesIn (λ _. k) p q
