-- ===== src/Worker/Start.antt =====
-- NetPool::Init, NetWorker::Init and NetEventFd::Init (utils.cpp, worker.cpp): the workers, before
-- their threads run.
use klibmsg.Base.{
  ℕ, zero, suc, ◌+◌, Option, none, ◌<◌, ◌≡◌, ◌≢◌, refl, Bool, true, false, List, [], ◌∷◌, some,
  arith, ◌==◌, length, ==_refl,
}
use klibmsg.Os.{Errno, emfile, enfile, Rc, rc_ok, rc_err, Io, moved, failed}
use klibmsg.Poller
use klibmsg.Poller.{Poller, Ctl, ctl_add, ctl_mod}
use klibmsg.Net.{Net, Run, ok, M, pure, ◌>>=◌, ◌>>◌, change, check, at, efd_handle}
use klibmsg.Device.Ops.{change_dev}

-- What the system answers while a worker is made: `eventfd`, whether `fcntl` with F_SETFL succeeds,
-- and whether `fcntl` with F_SETFD does, which fails on the -1 of an `epoll_create1` that failed.
pub record Boot : Type 0 where
  pub made : Io ℕ
  pub setfl_ok : Bool
  pub setfd_ok : Bool

abbrev is_limit : Errno → Bool
is_limit emfile = true
is_limit enfile = true
is_limit _ = false

-- NetEventFd::Init, with the descriptor where it returns 0.
unfoldable pub init_event_fd : ℕ → Boot → Io ℕ → M (Io ℕ)
init_event_fd w b (failed e) = do check (is_limit e); pure (failed emfile)
init_event_fd w b (moved fd) = do
  check b.setfl_ok
  change λ n. record n { efd_count = at n.efd_count w λ c. 0 }
  pure (moved fd)

-- The rest of NetWorker::Init, up to the start of the thread.
unfoldable pub init_queues : ℕ → Boot → Io ℕ → M Rc
init_queues w b (failed e) = pure (rc_err e)
init_queues w b (moved fd) = do
  change λ n. record n { tasks = at n.tasks w λ l. []; stop_queued = at n.stop_queued w λ q. false }
  check b.setfd_ok
  change λ n. record n {
    pollers =
        at n.pollers w
          λ p. Poller.set_in efd_handle (Poller.add (some fd) efd_handle (Poller.init p));
  }
  pure rc_ok

unfoldable pub init_worker : ℕ → Boot → M Rc
init_worker w b = do made ← init_event_fd w b b.made; init_queues w b made

-- `ok = worker_[i].Init()`: an `int` as a `bool`.
abbrev is_nonzero : Rc → Bool
is_nonzero rc_ok = false
is_nonzero (rc_err e) = true

unfoldable pub init_workers : ℕ → List Boot → Bool → M Bool
init_workers i [] last = pure last
init_workers i (b ∷ bs) last = do rc ← init_worker i b; init_workers (suc i) bs (is_nonzero rc)

-- NetPool::Init, with one `Boot` for each worker; what it returns is 0 where this is `false`.
unfoldable pub init_pool : List Boot → M Bool
init_pool bs = do change_dev λ d. record d { cur_worker_idx = 0 }; init_workers 0 bs true

-- All that is asked of the system succeeds.
abbrev Fine : List Boot → Type 0
Fine [] = Unit {0}
Fine (b ∷ bs) =
    ((fd : ℕ) × (b.made ≡ moved fd)) × (b.setfl_ok ≡ true) × (b.setfd_ok ≡ true) × Fine bs

abbrev made_fd : Io ℕ → Option ℕ
made_fd (moved fd) = some fd
made_fd (failed e) = none

-- The descriptor that `eventfd` returned for a worker.
abbrev pub descriptor : List Boot → ℕ → Option ℕ
descriptor [] w = none
descriptor (b ∷ bs) (suc w) = descriptor bs w
descriptor (b ∷ bs) zero = made_fd b.made

-- A worker that has nothing to do. The last that was asked of its `epoll` is to take in the
-- descriptor of its signal and then to wait for reads of it, and its handle holds the same.
pub record Ready (n : Net) (w : ℕ) (fd : Option ℕ) : Type 0 where
  pub no_task : n.tasks w ≡ []
  pub no_stop : n.stop_queued w ≡ false
  pub no_signal : n.efd_count w ≡ 0
  pub no_event : ((n.pollers w).index ≡ 0) × ((n.pollers w).events ≡ [])
  pub handle : (n.pollers w).handles efd_handle ≡ record { fd = fd; is_in = true; is_out = false }
  pub listens :
      (before : List Ctl) × ((n.pollers w).log
        ≡ ctl_mod fd efd_handle true false ∷ ctl_add fd efd_handle false false ∷ before)

worker_ready : Net → ℕ → ℕ → Net
worker_ready n w fd = record n {
  efd_count = at n.efd_count w λ c. 0;
  tasks = at n.tasks w λ l. [];
  stop_queued = at n.stop_queued w λ q. false;
  pollers =
      at n.pollers w
        λ p. Poller.set_in efd_handle (Poller.add (some fd) efd_handle (Poller.init p));
}

init_worker_fine :
    (w : ℕ) (b : Boot) (fd : ℕ) (n : Net)
    → b.made ≡ moved fd
    → b.setfl_ok ≡ true
    → b.setfd_ok ≡ true
    → init_worker w b n ≡ ok rc_ok (worker_ready n w fd)
unfolding init_worker init_event_fd init_queues worker_ready check change pure ◌>>=◌
init_worker_fine w b fd n e f g = rw (e, f, g)

worker_ready_self : (n : Net) (w fd : ℕ) → Ready (worker_ready n w fd) w (some fd)
unfolding worker_ready Poller.set_in Poller.add Poller.init Poller.set_handle Poller.modify_handle
worker_ready_self n w fd =
    let e = ==_refl w in
    record {
      no_task = rw e refl;
      no_stop = rw e refl;
      no_signal = rw e refl;
      no_event = rw e (refl, refl);
      handle = rw e refl;
      listens = rw e ((n.pollers w).log, refl);
    }

worker_ready_ne :
    (n : Net) (w fd v : ℕ) (fd' : Option ℕ)
    → v ≢ w
    → Ready n v fd'
    → Ready (worker_ready n w fd) v fd'
unfolding worker_ready
worker_ready_ne n w fd v fd' ne r =
    let e : (v == w) ≡ false = ground arith in
    record {
      no_task = rw e r.no_task;
      no_stop = rw e r.no_stop;
      no_signal = rw e r.no_signal;
      no_event = rw e r.no_event;
      handle = rw e r.handle;
      listens = rw e r.listens;
    }

-- The workers from `i` on are made, and those in front of them are as they were.
Made : ℕ → List Boot → Net → Bool → Run Bool → Type 0
Made i bs n last r =
    (n' : Net) × (r ≡ ok last n')
    × ((w : ℕ) (fd : Option ℕ) → w < i → Ready n w fd → Ready n' w fd)
    × ((w v : ℕ) → v ≡ i + w → w < length bs → Ready n' v (descriptor bs w))

first_or_rest :
    (i : ℕ) (b : Boot) (bs : List Boot) (fd : ℕ) (n' : Net)
    → b.made ≡ moved fd
    → Ready n' i (some fd)
    → ((w v : ℕ) → v ≡ suc i + w → w < length bs → Ready n' v (descriptor bs w))
    → (w v : ℕ) → v ≡ i + w
    → w < length (b ∷ bs)
    → Ready n' v (descriptor (b ∷ bs) w)
first_or_rest i b bs fd n' e here above zero v p l =
    let at_first : v ≡ i = omega (arith, p) in rw (e, at_first) here
first_or_rest i b bs fd n' e here above (suc w) v p l =
    above w v (omega (arith, p)) (omega (arith, l))

init_workers-Fine :
    (i : ℕ) (bs : List Boot) (n : Net) → Fine bs → Made i bs n false (init_workers i bs false n)
unfolding init_workers Made pure ◌>>=◌
init_workers-Fine i [] n h = (n, refl, (λ w fd l r. r), λ w v e l. absurd (omega arith))
init_workers-Fine i (b ∷ bs) n ((fd, e), f, g, fine) =
    let (n', r, below, above) = init_workers-Fine (suc i) bs (worker_ready n i fd) fine in
    rw (init_worker_fine i b fd n e f g) (
      n',
      r,
      (λ w fd' l q.
          below w fd' (omega arith)
            (worker_ready_ne n i fd w fd' (λ p. absurd (omega (arith, p))) q)),
      λ w v.
          first_or_rest i b bs fd n' e (below i (some fd) (omega arith) (worker_ready_self n i fd))
            above w v,
    )

-- If all that NetPool::Init asks of the system succeeds, for one worker or more, it returns 0, and
-- then every worker has no task, no stop item, no signal and no event, the handle of its signal holds
-- the descriptor that `eventfd` returned and the bit of a read, and the last that its poller asked of
-- `epoll` is to add this descriptor with the handle, and then to wait for reads of it.
pub init_pool-Ready :
    (bs : List Boot) (n : Net)
    → Fine bs
    → 0 < length bs
    → (n' : Net) × (init_pool bs n ≡ ok false n')
      × ((w : ℕ) → w < length bs → Ready n' w (descriptor bs w))
unfolding init_pool init_workers Made change_dev change ◌>>=◌
init_pool-Ready (b ∷ bs) n fine h =
    let n1 = record n { dev = record n.dev { cur_worker_idx = 0 } } in
    let (n', r, below, above) = init_workers-Fine 0 (b ∷ bs) n1 fine in
    (n', r, λ w l. above w w (omega arith) l)
init_pool-Ready [] n fine h = absurd (omega arith)
