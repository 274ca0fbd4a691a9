-- ===== src/Socket/Safety/Steps.antt =====
-- Safety of the helpers of the handlers (socket.cpp).
use klibmsg.Poller.{Poller}
use klibmsg.Base.{
  ◌<◌, ◌⊎◌, ◌==◌, ℕ, ◌≡◌, ◌∙◌, refl, sym, Bool, true, false, Option, none, some, List, [], ◌∷◌,
  arith, inl, inr, Bool-cases, Option-cases, ap, ℤ, ◌==ℤ◌, if◌then◌else◌, ==_refl, not, is_some,
}
use klibmsg.Codes.{
  worker_task_execute, sock_src_task_send, sock_src_task_recv, sock_src_task_connected,
  sock_src_task_connecting, sock_src_task_accept,
}
use klibmsg.Message.{NetMsg}
use klibmsg.Net.{
  EventKind, TaskKind, SrcPtr, Sock, Act, close, Net, M, pure, ◌>>=◌, ◌>>◌, get, modify, emit,
  check, change, update, signal, set_nonblock, put_sock, count_act, poll_act,
}
use klibmsg.Device.Held.{Held, Held-cons}
use klibmsg.Net.Laws.{update_self}
use klibmsg.Fsm.{raise, raise_to, execute, queue_task, fsm_stopped}
use klibmsg.Socket.Ops.{
  Env, net_close_fd, close_socket, init_from_fd, internal_tasks, dequeue, dequeue_net_msg_to_buf,
  sock_recv_raw, sock_send_raw, can_ignore, is_success, add_wfd, can_take_fd,
}
use klibmsg.Socket.Events.{close_checked, close_some}
use klibmsg.Socket.Safety.{
  closed, closed-cons, SockSafe, Safe, Keeps, bind-Keeps, then-Keeps, pure-Keeps, get-Keeps,
  check-Keeps, if-Keeps, emit-Keeps, modify-Keeps_same, update-SockSafe, bind_After, Clears,
  change-Keeps, get_mem-Keeps, SockSafe-refl, put_sock-Safe, count_act_pos, Woken,
}

pub raise-Keeps : (i : ℕ) (k : EventKind) (type : ℤ) (p : SrcPtr) → Keeps (raise i k type p)
unfolding raise
raise-Keeps i k type p = modify-Keeps_same i _ (λ s. ground arith) (λ s h. ground arith)

pub raise_to-Keeps :
    (i j : ℕ) (k : EventKind) (src type : ℤ) (p : SrcPtr) → Keeps (raise_to i j k src type p)
unfolding raise_to
raise_to-Keeps i j k src type p = bind-Keeps (get-Keeps j) λ sock.
    then-Keeps (modify-Keeps_same j _ (λ s. refl) (λ s h. h))
      (modify-Keeps_same i _ (λ s. ground arith) (λ s h. ground arith))

-- A task that is queued leaves all but the flag of its socket and the tasks of its worker.
module _ (i : ℕ) (t : TaskKind) (n : Net) where
  queue_task_socks : (j : ℕ) (l : List Act) → SockSafe (n.socks j) l ((queue_task i t n).socks j) l
  unfolding queue_task
  queue_task_socks j l = elim (Bool-cases ((n.socks i).task_queued t)) [
    | inl old ↦ rw old (SockSafe-refl (n.socks j) l)
    | inr new ↦ rw new (
        update-SockSafe n.socks i _ l l
          (record { done_closed = λ h. h; kept_or_closed = λ fd e. inl e; grows = λ fd h. h }) j)
  ]

  queue_task_same :
      ((queue_task i t n).dev ≡ n.dev)
      × ((queue_task i t n).efd_count ≡ n.efd_count)
      × ((queue_task i t n).log ≡ n.log)
      × (((queue_task i t n).socks i).worker ≡ (n.socks i).worker)
  unfolding queue_task
  queue_task_same = elim (Bool-cases ((n.socks i).task_queued t)) [
    | inl old ↦ rw old (refl, refl, refl, refl)
    | inr new ↦ rw new (refl, refl, refl, ap (λ s. s.worker) (update_self n.socks i _))
  ]

  queue_task_tasks :
      (w : ℕ) → (w == (n.socks i).worker) ≡ false → (queue_task i t n).tasks w ≡ n.tasks w
  unfolding queue_task
  queue_task_tasks w h = elim (Bool-cases ((n.socks i).task_queued t)) [
    | inl old ↦ rw old
    | inr new ↦ rw (new, h)
  ]

  -- The worker that has a new task is signalled.
  signalled_Woken :
      (w : ℕ)
      → Woken n w
      → ((queue_task i t n).tasks w ≡ [])
        ⊎ (0 < count_act (signal (n.socks i).worker) n.efd_count w)
  unfolding count_act
  signalled_Woken w h = elim (Bool-cases (w == (n.socks i).worker)) [
    | inl here ↦ inr (rw here (omega arith))
    | inr other ↦ elim h [ inl e ↦ inl (queue_task_tasks w other ∙ e) | inr c ↦ inr (rw other c) ]
  ]

pub execute-Keeps : (i : ℕ) (t : TaskKind) → Keeps (execute i t)
unfolding execute ◌>>=◌ change get emit
execute-Keeps i t = record {
  holds = λ n.
      let (dev, count, log, worker) = queue_task_same i t n in
      record {
        socks = λ j k.
            let p = queue_task_socks i t n j n.log in
            record {
              done_closed = p.done_closed;
              kept_or_closed = λ fd e. elim (p.kept_or_closed fd e) [
                | inl same ↦ inl same
                | inr c ↦ inr (closed-cons fd _ _ (rw log c))
              ];
              grows = λ fd c. closed-cons fd _ _ (rw log c);
            };
        later = rw dev (omega arith);
        wakes = λ w h. rw (count, worker) (signalled_Woken i t n w h);
        held = λ x h. Held-cons _ _ x _ (rw (dev, log) h);
      };
}

pub fsm_stopped-Keeps : (i : ℕ) (type : ℤ) → Keeps (fsm_stopped i type)
unfolding fsm_stopped
fsm_stopped-Keeps i type = bind-Keeps (get-Keeps i) λ sock.
    then-Keeps (check-Keeps _)
      (then-Keeps (raise-Keeps i _ type _) (modify-Keeps_same i _ (λ s. refl) (λ s h. h)))

closed_first :
    (f fd : ℕ) (l : List Act) (o : Option ℕ)
    → o ≡ some f
    → o ≡ some fd
    → closed fd (close f ∷ l) ≡ true
unfolding closed
closed_first f fd l o e h = let e' : f ≡ fd = cc in rw (e', ==_refl fd)

-- The descriptor goes where its `close` is in the log.
cleared :
    (i : ℕ) (n : Net) (count : ℕ → ℕ) (pollers : ℕ → Poller) (l : List Act)
    → ((w : ℕ) → 0 < n.efd_count w → 0 < count w)
    → ((x : ℕ) → Held n.dev n.log x → Held n.dev l x)
    → ((fd : ℕ) → (n.socks i).s ≡ some fd → closed fd l ≡ true)
    → ((fd : ℕ) → closed fd n.log ≡ true → closed fd l ≡ true)
    → let f = update n.socks i (record (n.socks i) { s = none }) in
      Safe n (record n { efd_count = count; pollers = pollers; log = l; socks = f })
      × ((f i).s ≡ none)
cleared i n count pollers l wake hold c g = (
  record {
    socks = λ j k.
        update-SockSafe n.socks i _ n.log l
          (record { done_closed = λ h e. refl; kept_or_closed = λ fd e. inr (c fd e); grows = g })
          j;
    later = omega arith;
    wakes = λ w. elim [ inl e ↦ inl e | inr h ↦ inr (wake w h) ];
    held = hold;
  },
  rw (update_self n.socks i (record (n.socks i) { s = none })),
)

-- The descriptor is closed before.
closed_cleared :
    (i f : ℕ) (n : Net)
    → (n.socks i).s ≡ some f
    → let g = update n.socks i (record (n.socks i) { s = none }) in
      Safe n (record n {
        efd_count = count_act (close f) n.efd_count;
        pollers = poll_act (close f) n.socks n.pollers;
        log = close f ∷ n.log;
        socks = g;
      })
      × ((g i).s ≡ none)
closed_cleared i f n e =
    cleared i n _ _ (close f ∷ n.log) (λ w h. count_act_pos (close f) n.efd_count w h)
      (λ x h. Held-cons n.dev n.log x (close f) h) (λ fd h. closed_first f fd n.log _ e h)
      λ fd h. closed-cons fd (close f) n.log h

pub close_socket-Clears : (env : Env) (i : ℕ) (n : Net) → Clears i n (close_socket env i n)
unfolding close_socket net_close_fd ◌>>=◌ get modify emit check pure
close_socket-Clears env i n = elim (Option-cases (n.socks i).s) [
  | inl e ↦
      rw (e, net_close_fd)
        (cleared i n n.efd_count n.pollers n.log (λ w h. h) (λ x h. h) (λ fd h. cc) λ fd h. h)
  | inr (f, e) ↦
      rw (e, net_close_fd)
        (elim (Bool-cases (can_ignore env.close_errno)) [
          | inl fine ↦ rw (fine, check) (closed_cleared i f n e)
          | inr bad ↦ rw (bad, check) tt
        ])
]

pub close_checked-Clears : (env : Env) (i : ℕ) (n : Net) → Clears i n (close_checked env i n)
unfolding close_checked ◌>>=◌ get modify emit check
close_checked-Clears env i n = elim (Option-cases (n.socks i).s) [
  | inl e ↦ rw (e, close_some) tt
  | inr (f, e) ↦
      rw (e, close_some)
        (elim (Bool-cases (is_success env.close_errno)) [
          | inl fine ↦ rw (fine, check) (closed_cleared i f n e)
          | inr bad ↦ rw (bad, check) tt
        ])
]

take_fd-Safe :
    (i fd : ℕ) (n : Net)
    → can_take_fd (n.socks i).state ≡ true
    → not (is_some (n.socks i).s) ≡ true
    → Safe n (put_sock n i (record (n.socks i) { s = some fd }))
take_fd-Safe i fd n c e = put_sock-Safe n i _ (record {
  done_closed = λ h d. cc (ap can_take_fd d);
  kept_or_closed = λ fd' h. cc (ap is_some h);
  grows = λ fd' h. h;
})

pub init_from_fd-Keeps : (env : Env) (i fd : ℕ) → Keeps (init_from_fd env i fd)
unfolding init_from_fd ◌>>=◌ get modify check
init_from_fd-Keeps env i fd = record {
  holds = λ n. elim (Bool-cases (can_take_fd (n.socks i).state)) [
    | inr bad ↦ rw (bad, check) tt
    | inl fine ↦
        rw (fine, check)
          (elim (Bool-cases (not (is_some (n.socks i).s))) [
            | inr bad ↦ rw (bad, check) tt
            | inl free ↦
                rw (free, check)
                  (bind_After n (modify i (λ s. record s { s = some fd }) n) (λ _. rest)
                    (take_fd-Safe i fd n fine free) λ _. rest-Keeps)
          ])
  ];
}
  where
    rest : M (Unit {0})
    rest = do check env.setfd_ok; if env.is_nonblock then pure tt else emit (set_nonblock fd)

    rest-Keeps : Keeps rest
    rest-Keeps =
        then-Keeps (check-Keeps env.setfd_ok)
          (if-Keeps env.is_nonblock (λ e. pure-Keeps tt) (λ e. emit-Keeps (set_nonblock fd)))

pub add_wfd-Keeps : (i : ℕ) → Keeps (add_wfd i)
add_wfd-Keeps i = bind-Keeps (get-Keeps i) λ sock. emit-Keeps _

task-Keeps : {m : M Bool} (type : ℤ) → Keeps m → Keeps (check (type ==ℤ worker_task_execute) >> m)
task-Keeps type p = then-Keeps (check-Keeps (type ==ℤ worker_task_execute)) p

pub internal_tasks-Keeps : (i : ℕ) (src type : ℤ) → Keeps (internal_tasks i src type)
unfolding internal_tasks
internal_tasks-Keeps i src type =
    if-Keeps (src ==ℤ sock_src_task_send)
      (λ e. task-Keeps type (then-Keeps (emit-Keeps _) (pure-Keeps true)))
      λ e.
        if-Keeps (src ==ℤ sock_src_task_recv)
          (λ e. task-Keeps type (then-Keeps (emit-Keeps _) (pure-Keeps true)))
          λ e.
            if-Keeps (src ==ℤ sock_src_task_connected)
              (λ e. task-Keeps type (then-Keeps (add_wfd-Keeps i) (pure-Keeps true)))
              λ e.
                if-Keeps (src ==ℤ sock_src_task_connecting)
                  (λ e.
                    task-Keeps type
                      (then-Keeps (add_wfd-Keeps i) (then-Keeps (emit-Keeps _) (pure-Keeps true))))
                  λ e.
                    if-Keeps (src ==ℤ sock_src_task_accept)
                      (λ e. task-Keeps type (
                        then-Keeps (add_wfd-Keeps i) (then-Keeps (emit-Keeps _) (pure-Keeps true))))
                      λ e. pure-Keeps false

dequeue_same :
    (env : Env) (ms : List NetMsg) (s : Sock)
    → ((dequeue env.layout ms s).1.s ≡ s.s) × ((dequeue env.layout ms s).1.state ≡ s.state)
unfolding dequeue
dequeue_same env [] s = (refl, refl)
dequeue_same env (m ∷ ms) s = (refl, refl)

pub dequeue-Keeps : (env : Env) (i : ℕ) → Keeps (dequeue_net_msg_to_buf env i)
unfolding dequeue_net_msg_to_buf
dequeue-Keeps env i = bind-Keeps (get-Keeps i) λ sock.
    then-Keeps
      (modify-Keeps_same i _ (λ s. (dequeue_same env s.msg_buffer_queue s).0)
        (λ s h. sym (dequeue_same env s.msg_buffer_queue s).1 ∙ h))
      (pure-Keeps _)

pub sock_recv_raw-Keeps : (env : Env) (i : ℕ) → Keeps (sock_recv_raw env i)
unfolding sock_recv_raw
sock_recv_raw-Keeps env i = bind-Keeps (get-Keeps i) λ sock. bind-Keeps get_mem-Keeps λ mem.
    then-Keeps (modify-Keeps_same i _ (λ s. refl) (λ s h. h)) (
      then-Keeps
        (change-Keeps _ (λ n. record {
          socks = λ j h. SockSafe-refl (n.socks j) n.log;
          later = omega arith;
          wakes = λ w h. h;
          held = λ x h. h;
        }))
        (pure-Keeps _))

pub sock_send_raw-Keeps : (env : Env) (i : ℕ) → Keeps (sock_send_raw env i)
unfolding sock_send_raw
sock_send_raw-Keeps env i = bind-Keeps (get-Keeps i) λ sock. bind-Keeps get_mem-Keeps λ mem.
    then-Keeps (modify-Keeps_same i _ (λ s. refl) (λ s h. h))
      (then-Keeps (emit-Keeps _) (pure-Keeps _))
