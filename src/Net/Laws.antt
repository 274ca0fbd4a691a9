-- ===== src/Net/Laws.antt =====
-- Reading back a write to a socket, and the state behind a run.
use klibmsg.Base.{ℕ, ◌≡◌, ◌≢◌, arith}
use klibmsg.Net.{Sock, update, Net, ok}

pub update_self : (f : ℕ → Sock) (i : ℕ) (s : Sock) → update f i s i ≡ s
unfolding update
update_self f i s = ground arith

pub update_ne : (f : ℕ → Sock) (i j : ℕ) (s : Sock) → j ≢ i → update f i s j ≡ f j
unfolding update
update_ne f i j s ne = ground arith

-- Two results that are the same have the same state.
pub same_net : {A : Type 0} {a b : A} (n n1 : Net) → ok a n ≡ ok b n1 → n ≡ n1
same_net n n1 e = cc
