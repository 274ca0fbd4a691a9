-- ===== src/Socket/Safety.antt =====
-- What every call of a handler keeps, whatever it is fed: rules by the shape of the code.
pub mod Steps
pub mod Partly
pub mod Events
pub mod Cases
pub mod Feed
pub mod Session
use klibmsg.Base.{
  ℕ, ◌<◌, ◌≤◌, ◌≡◌, refl, ◌∙◌, ℕ_discrete, Bool, true, false, ◌||◌, Option, none, some, List, [],
  ◌∷◌, arith, ◌==◌, if◌then◌else◌, ◌⊎◌, inl, inr,
}
use klibmsg.Net.{
  SockState, done, Sock, Act, close, Net, Run, ok, abort, out_of_fuel, M, pure, and_then, ◌>>=◌,
  ◌>>◌, get, modify, emit, check, change, get_mem, update, put_sock, signal, count_act,
}
use klibmsg.Device.Held.{Held, Held-cons}
use klibmsg.Net.Laws.{update_self, update_ne}

-- The log tells of a `close` of the descriptor.
unfoldable pub closed : ℕ → List Act → Bool
closed fd [] = false
closed fd (close f ∷ l) = (f == fd) || closed fd l
closed fd (a ∷ l) = closed fd l

-- A socket and the log before and after. A socket that is done has no descriptor, if that was so
-- before; a descriptor is kept, or it was closed; and the log forgets no `close`.
pub record SockSafe (s : Sock) (l : List Act) (s' : Sock) (l' : List Act) : Type 0 where
  pub done_closed : (s.state ≡ done → s.s ≡ none) → s'.state ≡ done → s'.s ≡ none
  pub kept_or_closed : (fd : ℕ) → s.s ≡ some fd → (s'.s ≡ some fd) ⊎ (closed fd l' ≡ true)
  pub grows : (fd : ℕ) → closed fd l ≡ true → closed fd l' ≡ true

-- If a worker has a task, its event descriptor is signalled.
abbrev pub Woken : Net → ℕ → Type 0
Woken n w = (n.tasks w ≡ []) ⊎ (0 < n.efd_count w)

-- What holds between the states before and after, for the sockets that there are before.
pub record Safe (n n' : Net) : Type 0 where
  pub socks : (j : ℕ) → j < n.dev.next → SockSafe (n.socks j) n.log (n'.socks j) n'.log
  pub later : n.dev.next ≤ n'.dev.next
  pub wakes : (w : ℕ) → Woken n w → Woken n' w
  pub held : (x : ℕ) → Held n.dev n.log x → Held n'.dev n'.log x

-- A run that does not abort ends, in a state that is safe.
abbrev pub After : {A : Type 0} → Net → Run A → Type 0
After n (ok a n') = Safe n n'
After n abort = Unit {0}
After n out_of_fuel = ⊥

pub record Keeps {A : Type 0} (m : M A) : Type 0 where
  pub holds : (n : Net) → After n (m n)

pub SockSafe-refl : (s : Sock) (l : List Act) → SockSafe s l s l
SockSafe-refl s l = record {
  done_closed = λ h. h;
  kept_or_closed = λ fd e. inl e;
  grows = λ fd h. h;
}

SockSafe-trans :
    {s s' s'' : Sock} {l l' l'' : List Act}
    → SockSafe s l s' l'
    → SockSafe s' l' s'' l''
    → SockSafe s l s'' l''
SockSafe-trans p q = record {
  done_closed = λ h. q.done_closed (p.done_closed h);
  kept_or_closed = λ fd e. elim (p.kept_or_closed fd e) [
    | inl e' ↦ q.kept_or_closed fd e'
    | inr c ↦ inr (q.grows fd c)
  ];
  grows = λ fd h. q.grows fd (p.grows fd h);
}

pub Safe-refl : (n : Net) → Safe n n
Safe-refl n = record {
  socks = λ j h. SockSafe-refl (n.socks j) n.log;
  later = omega arith;
  wakes = λ w h. h;
  held = λ x h. h;
}

pub Safe-trans : (n n' n'' : Net) → Safe n n' → Safe n' n'' → Safe n n''
Safe-trans n n' n'' p q = record {
  socks = λ j h.
      let k : j < n'.dev.next = omega (arith, p.later) in
      SockSafe-trans (p.socks j h) (q.socks j k);
  later = omega (arith, p.later, q.later);
  wakes = λ w h. q.wakes w (p.wakes w h);
  held = λ x h. q.held x (p.held x h);
}

After-trans : {A : Type 0} (n n' : Net) (r : Run A) → Safe n n' → After n' r → After n r
After-trans n n' (ok a n'') p q = Safe-trans n n' n'' p q
After-trans n n' abort p q = tt
After-trans n n' out_of_fuel p q = q

module _ {A B : Type 0} where
  pub bind_After :
      (n : Net) (r : Run A) (f : A → M B)
      → After n r
      → ((a : A) → Keeps (f a))
      → After n (and_then r f)
  bind_After n (ok a n') f p k = After-trans n n' (f a n') p ((k a).holds n')
  bind_After n abort f p k = tt
  bind_After n out_of_fuel f p k = p

  pub bind-Keeps : {m : M A} {f : A → M B} → Keeps m → ((a : A) → Keeps (f a)) → Keeps (m >>= f)
  unfolding ◌>>=◌
  bind-Keeps {m} {f} p k = record { holds = λ n. bind_After n (m n) f (p.holds n) k }

pub then-Keeps : {B : Type 0} {m : M (Unit {0})} {k : M B} → Keeps m → Keeps k → Keeps (m >> k)
then-Keeps p q = bind-Keeps p λ _. q

pub pure-Keeps : {A : Type 0} (a : A) → Keeps (pure a)
unfolding pure
pure-Keeps a = record { holds = λ n. Safe-refl n }

pub get-Keeps : (i : ℕ) → Keeps (get i)
unfolding get
get-Keeps i = record { holds = λ n. Safe-refl n }

pub check-Keeps : (b : Bool) → Keeps (check b)
unfolding check
check-Keeps true = record { holds = λ n. Safe-refl n }
check-Keeps false = record { holds = λ n. tt }

pub get_mem-Keeps : Keeps get_mem
unfolding get_mem
get_mem-Keeps = record { holds = λ n. Safe-refl n }

-- A change of the state that is safe.
pub change-Keeps : (f : Net → Net) → ((n : Net) → Safe n (f n)) → Keeps (change f)
unfolding change
change-Keeps f h = record { holds = h }

pub if-Keeps :
    {A : Type 0} {m m' : M A} (b : Bool)
    → (b ≡ true → Keeps m)
    → (b ≡ false → Keeps m')
    → Keeps (if b then m else m')
if-Keeps true p q = p refl
if-Keeps false p q = q refl

pub closed-cons : (fd : ℕ) (a : Act) (l : List Act) → closed fd l ≡ true → closed fd (a ∷ l) ≡ true
unfolding closed
closed-cons fd (close f) l h = ground arith
closed-cons fd _ l h = h

pub count_act_pos : (a : Act) (c : ℕ → ℕ) (w : ℕ) → 0 < c w → 0 < count_act a c w
unfolding count_act
count_act_pos (signal v) c w h = ground arith
count_act_pos _ c w h = h

pub emit-Keeps : (a : Act) → Keeps (emit a)
unfolding emit
emit-Keeps a = record {
  holds = λ n. record {
    socks = λ j k. record {
      done_closed = λ h. h;
      kept_or_closed = λ fd e. inl e;
      grows = λ fd h. closed-cons fd a n.log h;
    };
    later = omega arith;
    wakes = λ w. elim [ inl e ↦ inl e | inr h ↦ inr (count_act_pos a n.efd_count w h) ];
    held = λ x h. Held-cons n.dev n.log x a h;
  };
}

pub update-SockSafe :
    (f : ℕ → Sock) (i : ℕ) (s' : Sock) (l l' : List Act)
    → SockSafe (f i) l s' l'
    → (j : ℕ) → SockSafe (f j) l (update f i s' j) l'
update-SockSafe f i s' l l' h j = elim (ℕ_discrete j i) [
  | yes e ↦ rw (e, update_self f i s') h
  | no ne ↦
      rw (update_ne f i j s' ne)
        (record { done_closed = λ c. c; kept_or_closed = λ fd e. inl e; grows = h.grows })
]

-- The other sockets are as they were.
pub update-SockSafe_ne :
    (f : ℕ → Sock) (i : ℕ) (s' : Sock) (l : List Act) (j : ℕ)
    → j < i
    → SockSafe (f j) l (update f i s' j) l
update-SockSafe_ne f i s' l j h =
    rw (update_ne f i j s' (λ e. absurd (omega (arith, e)))) (SockSafe-refl (f j) l)

-- A write to one socket, where the log is as it was.
pub put_sock-Safe :
    (n : Net) (i : ℕ) (s' : Sock) → SockSafe (n.socks i) n.log s' n.log → Safe n (put_sock n i s')
put_sock-Safe n i s' h = record {
  socks = λ j k. update-SockSafe n.socks i s' n.log n.log h j;
  later = omega arith;
  wakes = λ w k. k;
  held = λ x k. k;
}

-- A write to one socket, safe for it at every log.
pub modify-Keeps :
    (i : ℕ) (f : Sock → Sock)
    → ((s : Sock) (l : List Act) → SockSafe s l (f s) l)
    → Keeps (modify i f)
unfolding modify
modify-Keeps i f h = record { holds = λ n. put_sock-Safe n i (f (n.socks i)) (h (n.socks i) n.log) }

-- A write that leaves the descriptor and does not make the socket done.
pub modify-Keeps_same :
    (i : ℕ) (f : Sock → Sock)
    → ((s : Sock) → (f s).s ≡ s.s)
    → ((s : Sock) → (f s).state ≡ done → s.state ≡ done)
    → Keeps (modify i f)
modify-Keeps_same i f fd st = modify-Keeps i f λ s l. record {
  done_closed = λ h e. fd s ∙ h (st s e);
  kept_or_closed = λ d e. inl (fd s ∙ e);
  grows = λ d c. c;
}

-- The run is safe, and leaves socket `i` with no descriptor.
abbrev pub Clears : ℕ → Net → Run (Unit {0}) → Type 0
Clears i n (ok a n') = Safe n n' × ((n'.socks i).s ≡ none)
Clears i n abort = Unit {0}
Clears i n out_of_fuel = ⊥

Clears-After :
    (i : ℕ) (n : Net) (r : Run (Unit {0})) (k : M (Unit {0}))
    → Clears i n r
    → ((n' : Net) → (n'.socks i).s ≡ none → After n' (k n'))
    → After n (and_then r λ _. k)
Clears-After i n (ok a n') k p h = After-trans n n' (k n') p.0 (h n' p.1)
Clears-After i n abort k p h = tt
Clears-After i n out_of_fuel k p h = p

pub Clears-Keeps :
    (i : ℕ) (m k : M (Unit {0}))
    → ((n : Net) → Clears i n (m n))
    → ((n : Net) → (n.socks i).s ≡ none → After n (k n))
    → Keeps (m >> k)
unfolding ◌>>=◌
Clears-Keeps i m k p h = record { holds = λ n. Clears-After i n (m n) k (p n) h }

-- Done, once there is no descriptor.
pub done_After :
    (i : ℕ) (n : Net) (k : M (Unit {0}))
    → (n.socks i).s ≡ none
    → Keeps k
    → After n ((modify i (λ s. record s { state = done }) >> k) n)
unfolding ◌>>=◌ modify
done_After i n k e p =
    bind_After n (modify i (λ s. record s { state = done }) n) (λ _. k)
      (put_sock-Safe n i _
        (record { done_closed = λ h d. e; kept_or_closed = λ fd h. inl h; grows = λ fd h. h }))
      λ _. p
