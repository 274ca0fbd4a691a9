-- ===== src/Worker/Wakeups.antt =====
-- That a socket with messages to write is not forgotten, whatever the user's thread and its worker do.
use klibmsg.Base.{
  ℕ, suc, ltb, ◌<◌, arith, ◌⊎◌, Bool-cases, ◌≡◌, ◌≢◌, refl, sym, ap, subst, ◌∙◌, true, false, List,
  [], ◌∷◌, ◌++◌, ==_refl, inl, inr,
}
use klibmsg.Codes.{sock_src_task_send, worker_task_execute}
use klibmsg.Memory.{Memory}
use klibmsg.Message.{Layout}
use klibmsg.Net.{
  Sock, Act, signal, send_task, Net, Run, ok, pure, change, at, update, ◌>>=◌, and_then, modify,
}
use klibmsg.Socket.Ops.{Env}
use klibmsg.Socket.Feed.{feed}
use klibmsg.Net.Laws.{update_self, update_ne}
use klibmsg.Socket.Runs.{Leaves}
use klibmsg.Socket.Runs.Post
use klibmsg.Socket.Runs.Post.{async_send_msg-Does}
use klibmsg.Socket.Queued.{Queued, has_task-append, has_task-behind}
use klibmsg.Socket.Outgoing.{polled, poll_acts}
use klibmsg.Socket.Outgoing.Poll.{due, feed_out-DoesIn}
use klibmsg.Socket.Outgoing.Step.{Sending, sending-Sending, Accepts, polled-Sending}
use klibmsg.Worker.{
  set_task, has_task, without_task, take_and_hold, get_taken, take_tasks, unsignal, take_queue,
  hold,
}
use klibmsg.Worker.Awake.{Awake, tasked-queued, due-Awake}
use klibmsg.Worker.Deeds.{
  Deed, post, take_all, work, ready, take_signalled, pick, run_if_taken, deed, deeds,
}
use klibmsg.Worker.Tasked.{send_task-Does, behind, Fair, AllFair}

-- Where the sending task of socket `i` is that is marked as queued: in the queue of worker `w`, which
-- is signalled, or among the tasks that the worker has taken.
abbrev pub Held : ℕ → ℕ → Net → Type 0
Held w i n =
    ((has_task i send_task (n.tasks w) ≡ true) × (0 < n.efd_count w))
    ⊎ (has_task i send_task (n.taken w) ≡ true)

-- The sending task is taken out and is not marked any more.
picked : ℕ → ℕ → Net → Net
picked w i n = record n {
  taken = at n.taken w (without_task i send_task);
  socks = update n.socks i (set_task send_task false (n.socks i));
}

false-ne-true : false ≡ true → ⊥
false-ne-true h = cc

module _ (layout : Layout) (mem : Memory) (fd w i : ℕ) where
  -- An active socket of worker `w` that is not forgotten, and the memory.
  pub record Alert (n : Net) : Type 0 where
    pub awake : Awake i (n.socks i) n.log
    pub held : (n.socks i).task_queued send_task ≡ true → Held w i n
    pub worker : (n.socks i).worker ≡ w
    pub sending : Sending layout mem fd (n.socks i)
    pub memory : n.mem ≡ mem

  abbrev pub Ends : Net → Run (Unit {0}) → Type 0
  Ends n r = (n' : Net) × (r ≡ ok tt n') × Alert n' × ((j : ℕ) → j ≢ i → n'.socks j ≡ n.socks j)

  set_task-Sending :
      {s : Sock} → Sending layout mem fd s → Sending layout mem fd (set_task send_task false s)
  set_task-Sending h = record {
    is_active = h.is_active;
    is_running = h.is_running;
    is_open = h.is_open;
    inside = h.inside;
    sendable = h.sendable;
  }

  -- Where the queues only grow, a task that is marked is where it is to be.
  Held-Queued :
      (n n' : Net)
      → Alert n
      → Queued i n n'
      → (n'.socks i).task_queued send_task ≡ true
      → Held w i n'
  Held-Queued n n' a q h = elim (q.marked send_task h) [
    | inr (there, count) ↦ let e = q.worker ∙ a.worker in inl (rw e at there, rw e at count)
    | inl old ↦ elim (a.held old) [
      | inl (there, count) ↦
          let more = q.signalled w in inl (q.stays w i send_task there, omega (arith, count, more))
      | inr taken ↦ inr (rw q.taken taken)
    ]
  ]

  -- A run that leaves the socket and the log in a known way.
  Leaves-Ends :
      (n : Net) (s' : Sock) (acts : List Act) (r : Run (Unit {0}))
      → Alert n
      → Awake i s' (acts ++ n.log)
      → Sending layout mem fd s'
      → Leaves i tt s' acts n r
      → Ends n r
  Leaves-Ends n s' acts r a awake sends (n', e, here, log, kept, queued, others) = (
    n',
    e,
    record {
      awake = rw (here, log) awake;
      held = Held-Queued n n' a queued;
      worker = queued.worker ∙ a.worker;
      sending = rw here sends;
      memory = kept ∙ a.memory;
    },
    others,
  )

  taken_all : (n : Net) → Held w i n → has_task i send_task (n.taken w ++ n.tasks w) ≡ true
  taken_all n (inl (there, count)) = has_task-behind i send_task (n.taken w) (n.tasks w) there
  taken_all n (inr taken) = has_task-append i send_task (n.taken w) (n.tasks w) taken

  take_signalled-Ends : (n : Net) → Alert n → Ends n (take_signalled w n)
  unfolding take_signalled take_and_hold get_taken take_tasks unsignal take_queue hold change ◌>>=◌
  take_signalled-Ends n a = elim (Bool-cases (ltb 0 (n.efd_count w))) [
    | inl signalled ↦ rw signalled (
      _,
      refl,
      record {
        awake = a.awake;
        held = λ h. inr (rw (==_refl w) (taken_all n (a.held h)));
        worker = a.worker;
        sending = a.sending;
        memory = a.memory;
      },
      λ j ne. refl,
    )
    | inr quiet ↦ rw quiet (n, refl, a, λ j ne. refl)
  ]

  module _ (fuel : ℕ) where
    fed_behind :
        (env : Env) (n : Net)
        → Alert n
        → Ends n (feed (suc fuel) env i sock_src_task_send worker_task_execute (picked w i n))
    unfolding picked
    fed_behind env n a =
        let s = set_task send_task false (n.socks i) in
        let is_s = update_self n.socks i s in
        let (n', e, here, log, kept, queued, others) =
          (send_task-Does env i fuel s a.sending.is_running).run (picked w i n) is_s in
        (
          n',
          e,
          record {
            awake = rw (here, log) (inr (inr (rw (==_refl i) refl)));
            held = λ h. elim (queued.marked send_task h) [
              | inl old ↦
                  let unmarked = ap (λ x. x.task_queued send_task) is_s in
                  absurd (false-ne-true (sym unmarked ∙ old))
              | inr (there, count) ↦
                  let it = queued.worker ∙ ap (λ x. x.worker) is_s ∙ a.worker in
                  inl (rw it at there, rw it at count)
            ];
            worker = queued.worker ∙ ap (λ x. x.worker) is_s ∙ a.worker;
            sending = rw here (set_task-Sending a.sending);
            memory = kept ∙ a.memory;
          },
          λ j ne. others j ne ∙ update_ne n.socks i j s ne,
        )

    work-Ends : (env : Env) (n : Net) → Alert n → Ends n (deed fuel w i (work env) n)
    unfolding deed run_if_taken pick picked change modify ◌>>=◌
    work-Ends env n a = elim (Bool-cases (has_task i send_task (n.taken w))) [
      | inl there ↦ rw there (fed_behind env n a)
      | inr other ↦ rw other (n, refl, a, λ j ne. refl)
    ]

    ready-Ends :
        (env : Env) (n : Net)
        → env.layout ≡ layout
        → Accepts env mem (due env mem i (n.socks i))
        → Alert n
        → Ends n (deed fuel w i (ready env) n)
    unfolding deed
    ready-Ends env n e f a =
        let s = n.socks i in
        let h = subst (λ l. Sending l mem fd s) (sym e) a.sending in
        let (answers, (later, bytes)) = polled-Sending env mem fd i s h f in
        let s' = polled env mem i s (due env mem i s) in
        Leaves-Ends n s' (poll_acts env mem i (due env mem i s)) _ a
          (due-Awake env mem i s n.log (due env mem i s) refl a.awake)
          (subst (λ l. Sending l mem fd s') e later)
          ((feed_out-DoesIn env mem i fuel s h.is_running h.is_active answers).run n refl a.memory)

    deed-Ends :
        (d : Deed) (n : Net)
        → Alert n
        → Fair layout mem fuel w i d (n.socks i)
        → Ends n (deed fuel w i d n)
    unfolding deed
    deed-Ends (post msg) n a f =
        let s = n.socks i in
        let queued = record s { msg_buffer_queue = s.msg_buffer_queue ++ msg ∷ [] } in
        Leaves-Ends n (Post.sending i msg s) (signal (Post.sending i msg s).worker ∷ []) _ a
          (inr (inl (tasked-queued i queued))) (sending-Sending layout mem fd i msg s a.sending f).0
          ((async_send_msg-Does i msg s).run n refl)
    deed-Ends take_all n a f = take_signalled-Ends n a
    deed-Ends (work env) n a f = work-Ends env n a
    deed-Ends (ready env) n a f = ready-Ends env n f.0 f.1 a

    -- Let a socket be active, its machine not be stopping, and let it have a descriptor; let its
    -- messages fit in their layout and have less than 2^31 bytes each, as those that are given to
    -- AsyncSendMsg from then on, let out_offset lie within the message in its output buffer if that
    -- is busy, and let the writes answer at most what is asked of them. Let it have nothing to write,
    -- or its sending task be marked as queued, or its worker's poller have been asked last to wait
    -- until its descriptor can be written to; and where the task is marked, let it be in the queue of
    -- the worker and the worker be signalled, or let the worker have taken it. Then any sequence of
    -- calls of AsyncSendMsg, of the worker taking its tasks where it is signalled, of the worker
    -- running the sending task if it took it, and of events that the descriptor can be written to runs
    -- to its end in such a state again, and changes no other socket and no memory.
    pub deeds-Awake :
        (ds : List Deed) (n : Net)
        → Alert n
        → AllFair layout mem fuel w i ds n
        → Ends n (deeds fuel w i ds n)
    unfolding deeds AllFair pure ◌>>=◌
    deeds-Awake [] n a f = (n, refl, a, λ j ne. refl)
    deeds-Awake (d ∷ ds) n a (f, fs) =
        let (n1, r, later, others) = deed-Ends d n a f in
        let rest = ap (λ x. behind x n) r in
        let (n', r', last, others') =
          deeds-Awake ds n1 later (subst (AllFair layout mem fuel w i ds) rest fs) in
        (
          n',
          ap (λ t. and_then t λ _. deeds fuel w i ds) r ∙ r',
          last,
          λ j ne. others' j ne ∙ others j ne,
        )
