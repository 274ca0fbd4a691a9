-- ===== src/Socket/Safety/Partly.antt =====
-- Safety of what may run out of fuel, since how often it goes round depends on the outside.
use klibmsg.Net.{Net, Run, ok, abort, out_of_fuel, M, and_then, ◌>>=◌, ◌>>◌}
use klibmsg.Socket.Safety.{Safe, Safe-trans, After, Keeps}

-- A run that ends with a result is safe.
abbrev pub Within : {A : Type 0} → Net → Run A → Type 0
Within n (ok a n') = Safe n n'
Within n abort = Unit {0}
Within n out_of_fuel = Unit {0}

pub record Partly {A : Type 0} (m : M A) : Type 0 where
  pub holds : (n : Net) → Within n (m n)

module _ {A : Type 0} where
  After-Within : (n : Net) (r : Run A) → After n r → Within n r
  After-Within n (ok a n') p = p
  After-Within n abort p = tt
  After-Within n out_of_fuel p = tt

  pub Keeps-Partly : {m : M A} → Keeps m → Partly m
  Keeps-Partly {m} p = record { holds = λ n. After-Within n (m n) (p.holds n) }

  pub fuel-Partly : Partly {A = A} (λ n. out_of_fuel)
  fuel-Partly = record { holds = λ n. tt }

Within-trans : {B : Type 0} (n n' : Net) (r : Run B) → Safe n n' → Within n' r → Within n r
Within-trans n n' (ok b n'') p q = Safe-trans n n' n'' p q
Within-trans n n' abort p q = tt
Within-trans n n' out_of_fuel p q = tt

module _ {A B : Type 0} where
  bind_Within :
      (n : Net) (r : Run A) (f : A → M B)
      → Within n r
      → ((a : A) → Partly (f a))
      → Within n (and_then r f)
  bind_Within n (ok a n') f p k = Within-trans n n' (f a n') p ((k a).holds n')
  bind_Within n abort f p k = tt
  bind_Within n out_of_fuel f p k = tt

  pub bind-Partly : {m : M A} {f : A → M B} → Partly m → ((a : A) → Partly (f a)) → Partly (m >>= f)
  unfolding ◌>>=◌
  bind-Partly {m} {f} p k = record { holds = λ n. bind_Within n (m n) f (p.holds n) k }

pub then-Partly : {B : Type 0} {m : M (Unit {0})} {k : M B} → Partly m → Partly k → Partly (m >> k)
then-Partly p q = bind-Partly p λ _. q
