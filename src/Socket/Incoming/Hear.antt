-- ===== src/Socket/Incoming/Hear.antt =====
-- The event of a socket's descriptor that it can be read from, in the active state.
use klibmsg.Base.{
  ℕ, suc, ◌≡◌, ◌≢◌, refl, sym, ap, subst, ◌∙◌, ℤ, Bool, false, ◌⊎◌, inl, inr, if◌then◌else◌,
}
use klibmsg.Codes.{sock_event_type_received, sock_src_fd, worker_fd_in}
use klibmsg.Os.{rc_ok, rc_err, eagain, econnreset, Errno}
use klibmsg.Transfer.{header}
use klibmsg.Net.{
  SockState, active, Net, Sock, received, msg_ptr, put_sock, ok, M, pure, ◌>>=◌, get, get_mem,
  modify, change,
}
use klibmsg.Net.Laws.{update_self, update_ne}
use klibmsg.Fsm.{is_stopping, raise, raised}
use klibmsg.Fsm.Laws.{raised-SameButEvents}
use klibmsg.Socket.Ops.{Env, sock_recv_raw, extract_net_msg, internal_tasks}
use klibmsg.Socket.Events.{after_recv, active_in}
use klibmsg.Socket.Cases.{dispatch, handler, case_active}
use klibmsg.Socket.Feed.{feed}
use klibmsg.Socket.Incoming.{heard, Tells}

module _ (env : Env) (i : ℕ) (n : Net) where
  -- The state behind RecvRaw.
  abbrev pub read : Net
  read =
      let r = heard env i n in
      record (put_sock n i (record (n.socks i) { in_buf = r.in_buf; in_offset = r.offset })) {
        mem = r.mem;
      }

  -- The state behind the event of the message.
  abbrev pub told : Net
  told = put_sock read i (
      raised i received sock_event_type_received (msg_ptr (header env.layout (read.socks i).in_buf))
        (read.socks i))

  in_run : active_in env i n ≡ after_recv env i (heard env i n).rc read
  unfolding active_in sock_recv_raw get get_mem modify change pure ◌>>=◌
  in_run = refl

  after_ok : after_recv env i rc_ok read ≡ ok tt told
  unfolding after_recv extract_net_msg raise get modify pure ◌>>=◌
  after_ok = refl

  after_err :
      (e : Errno)
      → ((e ≡ eagain) ⊎ (e ≡ econnreset))
      → after_recv env i (rc_err e) read ≡ ok tt read
  unfolding after_recv pure
  after_err e h = elim h [ inl h' ↦ rw h' refl | inr h' ↦ rw h' refl ]

  dispatched :
      (action : ℕ → ℤ → M (Unit {0})) (st : SockState)
      → st ≡ active
      → dispatch env action i st sock_src_fd worker_fd_in n ≡ active_in env i n
  unfolding dispatch case_active
  dispatched action st e = rw e refl

  otherwise : {b : Bool} (k m : M (Unit {0})) → b ≡ false → (if b then k else m) n ≡ m n
  otherwise k m e = rw e refl

  feed_in :
      (fuel : ℕ)
      → is_stopping (n.socks i).fsm_state ≡ false
      → (n.socks i).state ≡ active
      → feed (suc fuel) env i sock_src_fd worker_fd_in n ≡ after_recv env i (heard env i n).rc read
  unfolding feed handler internal_tasks get pure ◌>>=◌
  feed_in fuel f st = otherwise _ _ f ∙ dispatched _ (n.socks i).state st ∙ in_run

  -- The parts of the state that the next event begins with.
  pub record Follows (n1 : Net) : Type 0 where
    pub mem : n1.mem ≡ (heard env i n).mem
    pub in_buf : (n1.socks i).in_buf ≡ (heard env i n).in_buf
    pub in_offset : (n1.socks i).in_offset ≡ (heard env i n).offset
    pub state : (n1.socks i).state ≡ (n.socks i).state
    pub fsm_state : (n1.socks i).fsm_state ≡ (n.socks i).fsm_state
    pub others : (j : ℕ) → j ≢ i → n1.socks j ≡ n.socks j

  abbrev now : Sock
  now = record (n.socks i) { in_buf = (heard env i n).in_buf; in_offset = (heard env i n).offset }

  here : read.socks i ≡ now
  here = update_self n.socks i now

  read-Follows : Follows read
  read-Follows = record {
    mem = refl;
    in_buf = ap (λ (s : Sock). s.in_buf) here;
    in_offset = ap (λ (s : Sock). s.in_offset) here;
    state = ap (λ (s : Sock). s.state) here;
    fsm_state = ap (λ (s : Sock). s.fsm_state) here;
    others = λ j ne. update_ne n.socks i j now ne;
  }

  abbrev then_told : Sock
  then_told =
      raised i received sock_event_type_received
        (msg_ptr (header env.layout (heard env i n).in_buf)) now

  there : told.socks i ≡ then_told
  there =
      update_self read.socks i _
      ∙ ap
          (λ (s : Sock).
            raised i received sock_event_type_received (msg_ptr (header env.layout s.in_buf)) s)
          here

  told-Follows : Follows told
  told-Follows =
      let f =
        raised-SameButEvents i received sock_event_type_received
          (msg_ptr (header env.layout (heard env i n).in_buf)) now in
      record {
        mem = refl;
        in_buf = ap (λ (s : Sock). s.in_buf) there ∙ f.in_buf;
        in_offset = ap (λ (s : Sock). s.in_offset) there ∙ f.in_offset;
        state = ap (λ (s : Sock). s.state) there ∙ f.state;
        fsm_state = ap (λ (s : Sock). s.fsm_state) there ∙ f.fsm_state;
        others = λ j ne. update_ne read.socks i j _ ne ∙ update_ne n.socks i j now ne;
      }

  -- An event that brings no message to its end.
  pub hear_waits :
      (fuel : ℕ) (e : Errno)
      → is_stopping (n.socks i).fsm_state ≡ false
      → (n.socks i).state ≡ active
      → (heard env i n).rc ≡ rc_err e
      → (e ≡ eagain) ⊎ (e ≡ econnreset)
      → (feed (suc fuel) env i sock_src_fd worker_fd_in n ≡ ok tt read)
        × Follows read
        × ((read.socks i).event ≡ (n.socks i).event)
  hear_waits fuel e f st rc h = (
    feed_in fuel f st ∙ ap (λ c. after_recv env i c read) rc ∙ after_err e h,
    read-Follows,
    ap (λ (s : Sock). s.event) here,
  )

  -- An event that brings a message to its end.
  pub hear_message :
      (fuel : ℕ)
      → is_stopping (n.socks i).fsm_state ≡ false
      → (n.socks i).state ≡ active
      → (heard env i n).rc ≡ rc_ok
      → (feed (suc fuel) env i sock_src_fd worker_fd_in n ≡ ok tt told)
        × Follows told
        × Tells (header env.layout (heard env i n).in_buf) (told.socks i)
  hear_message fuel f st rc = (
    feed_in fuel f st ∙ ap (λ c. after_recv env i c read) rc ∙ after_ok,
    told-Follows,
    subst (Tells (header env.layout (heard env i n).in_buf)) (sym there) (refl, refl, refl),
  )
