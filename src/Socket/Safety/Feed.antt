-- ===== src/Socket/Safety/Feed.antt =====
-- Feed, Action, Start and Stop (fsm.cpp) are safe and end, since an action leads to no further one.
use klibmsg.Base.{ℕ, suc, ◌≡◌, refl, Bool, true, false, ◌&&◌, ℤ, pos, negsuc, ◌==ℤ◌}
use klibmsg.Codes.{
  net_fsm_action, net_fsm_start, net_fsm_stop, sock_action_cancel, sock_action_done,
  sock_src_task_stop,
}
use klibmsg.Net.{
  SockState, idle, starting, being_accepted, accepted, removing_fd, done, listening, stopping,
  stopping_accept, accepting_error, M, ◌>>◌, modify, rm_fd,
}
use klibmsg.Fsm.{is_stopping, is_active}
use klibmsg.Socket.Ops.{Env}
use klibmsg.Socket.Events.{async_stop}
use klibmsg.Socket.Shutdown.{finish2, finish1, stop_in, stopping_in, shutdown_handler}
use klibmsg.Socket.Feed.{action_by, feed, action, fsm_start, fsm_stop, is_positive}
use klibmsg.Socket.Safety.{
  Keeps, bind-Keeps, then-Keeps, pure-Keeps, get-Keeps, check-Keeps, if-Keeps, emit-Keeps,
  modify-Keeps_same, Clears-Keeps,
}
use klibmsg.Socket.Safety.Steps.{fsm_stopped-Keeps, close_socket-Clears, internal_tasks-Keeps}
use klibmsg.Socket.Safety.Events.{set_state-Keeps, async_stop-Keeps}
use klibmsg.Socket.Safety.Cases.{handler-Keeps}

finish2-Keeps : (i : ℕ) → Keeps (finish2 i)
unfolding finish2
finish2-Keeps i = then-Keeps (set_state-Keeps i idle refl) (fsm_stopped-Keeps i _)

finish1-Keeps : (env : Env) (i : ℕ) → Keeps (finish1 env i)
unfolding finish1
finish1-Keeps env i =
    Clears-Keeps i _ _ (close_socket-Clears env i) λ n e. (finish2-Keeps i).holds n

async-Keeps : (i : ℕ) → Keeps (async_stop i >> modify i (λ s. record s { state = stopping }))
async-Keeps i = then-Keeps (async_stop-Keeps i) (set_state-Keeps i stopping refl)

module _ (env : Env) (action : ℕ → ℤ → M (Unit {0})) (i : ℕ) where
  stop_in-Keeps :
      (st : SockState)
      → ((j : ℕ) → Keeps (action j sock_action_cancel))
      → Keeps (stop_in env action i st)
  unfolding stop_in
  stop_in-Keeps idle c = pure-Keeps tt
  stop_in-Keeps done c = finish2-Keeps i
  stop_in-Keeps starting c = finish1-Keeps env i
  stop_in-Keeps accepted c = finish1-Keeps env i
  stop_in-Keeps accepting_error c = finish1-Keeps env i
  stop_in-Keeps listening c = finish1-Keeps env i
  stop_in-Keeps being_accepted c = then-Keeps (c i) (set_state-Keeps i stopping_accept refl)
  stop_in-Keeps removing_fd c = set_state-Keeps i stopping refl
  stop_in-Keeps _ c = async-Keeps i

  stopping_in-Keeps : (st : SockState) (src type : ℤ) → Keeps (stopping_in env i st src type)
  unfolding stopping_in
  stopping_in-Keeps stopping_accept src type = then-Keeps (check-Keeps _) (finish2-Keeps i)
  stopping_in-Keeps stopping src type =
      if-Keeps (src ==ℤ sock_src_task_stop)
        (λ e. then-Keeps (check-Keeps _) (then-Keeps (emit-Keeps (rm_fd i)) (finish1-Keeps env i)))
        λ e. pure-Keeps tt
  stopping_in-Keeps _ src type = emit-Keeps _

  shutdown_handler-Keeps :
      (src type : ℤ)
      → ((src ==ℤ net_fsm_action && type ==ℤ net_fsm_stop) ≡ true
          → (j : ℕ) → Keeps (action j sock_action_cancel))
      → Keeps (shutdown_handler env action i src type)
  unfolding shutdown_handler
  shutdown_handler-Keeps src type c = bind-Keeps (internal_tasks-Keeps i src type) λ known.
      bind-Keeps (get-Keeps i) λ sock.
        if-Keeps known (λ e. pure-Keeps tt)
          λ e.
            if-Keeps (src ==ℤ net_fsm_action && type ==ℤ net_fsm_stop)
              (λ h. then-Keeps (check-Keeps _) (
                then-Keeps (modify-Keeps_same i _ (λ s. refl) (λ s h. h))
                  (stop_in-Keeps sock.state (c h))))
              λ h. stopping_in-Keeps sock.state src type

not_stop : (type : ℤ) → is_positive type ≡ true → (type ==ℤ net_fsm_stop) ≡ true → ⊥
not_stop (pos n) p e = cc
not_stop (negsuc n) p e = cc

both_right : (a b : Bool) → (a && b) ≡ true → b ≡ true
both_right true b h = h
both_right false b h = cc

-- An action that a handler raises.
inner-Keeps :
    (k : ℕ) (env : Env) (i : ℕ) (type : ℤ)
    → is_positive type ≡ true
    → Keeps (feed (suc k) env i net_fsm_action type)
unfolding feed
inner-Keeps k env i type p = bind-Keeps (get-Keeps i) λ sock.
    if-Keeps (is_stopping sock.fsm_state)
      (λ e. shutdown_handler-Keeps env (action_by (feed k env)) i net_fsm_action type λ h. absurd (
        not_stop type p (both_right (net_fsm_action ==ℤ net_fsm_action) (type ==ℤ net_fsm_stop) h)))
      λ e. handler-Keeps env (action_by (feed k env)) i net_fsm_action type λ h. absurd cc

inner_action-Keeps :
    (k : ℕ) (env : Env) (i : ℕ) (type : ℤ)
    → is_positive type ≡ true
    → Keeps (action_by (feed (suc k) env) i type)
unfolding action_by
inner_action-Keeps k env i type p = then-Keeps (check-Keeps _) (inner-Keeps k env i type p)

pub feed-Keeps :
    (k : ℕ) (env : Env) (i : ℕ) (src type : ℤ) → Keeps (feed (suc (suc k)) env i src type)
unfolding feed
feed-Keeps k env i src type = bind-Keeps (get-Keeps i) λ sock.
    if-Keeps (is_stopping sock.fsm_state)
      (λ e.
        shutdown_handler-Keeps env (action_by (feed (suc k) env)) i src type
          λ h j. inner_action-Keeps k env j sock_action_cancel refl)
      λ e.
        handler-Keeps env (action_by (feed (suc k) env)) i src type
          λ h j. inner_action-Keeps k env j sock_action_done refl

pub action-Keeps : (k : ℕ) (env : Env) (i : ℕ) (type : ℤ) → Keeps (action (suc (suc k)) env i type)
unfolding action action_by
action-Keeps k env i type = then-Keeps (check-Keeps _) (feed-Keeps k env i net_fsm_action type)

pub fsm_start-Keeps : (k : ℕ) (env : Env) (i : ℕ) → Keeps (fsm_start (suc (suc k)) env i)
unfolding fsm_start
fsm_start-Keeps k env i = bind-Keeps (get-Keeps i) λ sock. then-Keeps (check-Keeps _) (
    then-Keeps
      (handler-Keeps env (action (suc (suc k)) env) i net_fsm_action net_fsm_start
        λ h j. action-Keeps k env j sock_action_done)
      (modify-Keeps_same i _ (λ s. refl) (λ s h. h)))

pub fsm_stop-Keeps : (k : ℕ) (env : Env) (i : ℕ) → Keeps (fsm_stop (suc (suc k)) env i)
unfolding fsm_stop
fsm_stop-Keeps k env i = bind-Keeps (get-Keeps i) λ sock.
    if-Keeps (is_active sock.fsm_state)
      (λ e. then-Keeps (modify-Keeps_same i _ (λ s. refl) (λ s h. h)) (
        shutdown_handler-Keeps env (action (suc (suc k)) env) i net_fsm_action net_fsm_stop
          λ h j. action-Keeps k env j sock_action_cancel))
      λ e. pure-Keeps tt
