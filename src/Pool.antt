-- ===== src/Pool.antt =====
-- NetPool::ChooseWorker (utils.h, utils.cpp): the workers of the pool in turn.
use klibmsg.Base.{ℕ, zero, suc, ◌+◌, ◌%◌, ◌≡◌, ◌<◌, arith, if◌then◌else◌, leb}

-- kNetWorkerNum
abbrev pub worker_num : ℕ
worker_num = 4

-- The worker that is chosen, and `cur_worker_idx_` after it.
unfoldable pub choose_worker : ℕ → ℕ × ℕ
choose_worker cur = (cur, if leb worker_num (cur + 1) then 0 else cur + 1)

-- The worker of the call number `n`, counted from 0, after Init.
unfoldable pub chosen : ℕ → ℕ → ℕ
chosen cur zero = (choose_worker cur).0
chosen cur (suc n) = chosen (choose_worker cur).1 n

next : (cur : ℕ) → cur < worker_num → (choose_worker cur).1 ≡ (cur + 1) % worker_num
unfolding choose_worker
next cur h = ground arith

next_small : (cur : ℕ) → (choose_worker cur).1 < worker_num
unfolding choose_worker
next_small cur = ground arith

-- From a valid index on, the calls go round the workers: each is in range, and call number `n` gets
-- the worker `n` places behind the first.
pub chosen_mod : (cur n : ℕ) → cur < worker_num → chosen cur n ≡ (cur + n) % worker_num
unfolding chosen choose_worker
chosen_mod cur zero h = omega arith
chosen_mod cur (suc n) h =
    let e = chosen_mod (choose_worker cur).1 n (next_small cur) in
    let k = next cur h in ground arith
