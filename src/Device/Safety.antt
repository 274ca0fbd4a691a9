-- ===== src/Device/Safety.antt =====
-- Safety of the methods of the device (device.cpp).
pub mod Handler
use klibmsg.Base.{
  ℕ, suc, ◌≡◌, refl, true, false, Option, none, some, List, [], ◌∷◌, arith, ◌==◌, ◌==ℤ◌, pos, ℤ,
  inl, inr, Option-cases,
}
use klibmsg.Codes.{
  device_src_task_execute, device_src_socket_event, sock_event_type_connected,
  sock_event_type_accepted, sock_event_type_sent, sock_event_type_received, sock_event_type_error,
  sock_event_type_accept_error, sock_event_type_shutdown, net_msg_cmd_read, sock_action_activate,
}
use klibmsg.Os.{Ip}
use klibmsg.Message.{NetMsg}
use klibmsg.Device.State.{Device, User}
use klibmsg.Channel.{close_send_end, close_receive_end}
use klibmsg.Device.Held.{Held, awaits, completed, ran, closed_end, completed-Held, emplaced-Held}
use klibmsg.Device.Tables.{find}
use klibmsg.Device.Ops.{
  Sys, get_dev, get_ips, change_dev, new_socket, token2socket, adopt, socket_by_ip, new_connection,
  or_else, or_new, out_sock, open_socket, send_msg, send_data, read_data, add_callback, complete,
  parse_net_msg, pair_listen_socket, close_completion_queue, stop_all,
}
use klibmsg.Device.Handler.{
  with_sock, with_msg, delete_sock, on_accepted, on_socket_event, device_handler,
}
use klibmsg.Net.{
  SrcPtr, no_ptr, sock_ptr, msg_ptr, M, pure, change, modify, ◌>>=◌, send_task, recv_task, delete,
  Act,
}
use klibmsg.Socket.Feed.{is_idle}
use klibmsg.Socket.Api.{activate}
use klibmsg.Socket.Safety.{
  SockSafe-refl, Safe-refl, Keeps, bind-Keeps, then-Keeps, pure-Keeps, get-Keeps, check-Keeps,
  if-Keeps, emit-Keeps, change-Keeps, update-SockSafe_ne,
}
use klibmsg.Socket.Safety.Steps.{execute-Keeps}
use klibmsg.Socket.Safety.Events.{async_stop-Keeps}
use klibmsg.Socket.Safety.Feed.{action-Keeps}
use klibmsg.Socket.Safety.Session.{start-Keeps, connect-Keeps, accept-Keeps, async_send_msg-Keeps}

get_dev-Keeps : Keeps get_dev
unfolding get_dev
get_dev-Keeps = record { holds = λ n. Safe-refl n }

get_ips-Keeps : Keeps get_ips
unfolding get_ips
get_ips-Keeps = record { holds = λ n. Safe-refl n }

-- A change that leaves the callbacks.
same_Held :
    {d d' : Device} {l : List Act} {x : ℕ}
    → d'.token2callback ≡ d.token2callback
    → d'.cq ≡ d.cq
    → Held d l x
    → Held d' l x
same_Held e f (awaits t h) = awaits t (rw e h)
same_Held e f (completed h) = completed (rw f h)
same_Held e f (ran h) = ran h
same_Held e f (closed_end h) = closed_end (rw f h)

-- A change of the device that takes back no pointer.
change_dev-Keeps :
    (f : Device → Device)
    → ((d : Device) → (f d).next ≡ d.next)
    → ((d : Device) (l : List Act) (x : ℕ) → Held d l x → Held (f d) l x)
    → Keeps (change_dev f)
unfolding change_dev
change_dev-Keeps f h g = change-Keeps _ λ n. record {
  socks = λ j k. SockSafe-refl (n.socks j) n.log;
  later = omega (arith, h n.dev);
  wakes = λ w k. k;
  held = g n.dev n.log;
}

quiet_dev-Keeps :
    (f : Device → Device)
    → ((d : Device) → (f d).next ≡ d.next)
    → ((d : Device) → (f d).token2callback ≡ d.token2callback)
    → ((d : Device) → (f d).cq ≡ d.cq)
    → Keeps (change_dev f)
quiet_dev-Keeps f h e g = change_dev-Keeps f h λ d l x k. same_Held (e d) (g d) k

new_socket-Keeps : (ip : Ip) → Keeps (new_socket ip)
unfolding new_socket ◌>>=◌ get_dev change_dev change modify pure
new_socket-Keeps ip = record {
  holds = λ n. record {
    socks = λ j k. update-SockSafe_ne n.socks n.dev.next _ n.log j (omega arith);
    later = omega arith;
    wakes = λ w k. k;
    held = λ x k. same_Held refl refl k;
  };
}

adopt-Keeps : (token : ℕ) (o : Option ℕ) → Keeps (adopt token o)
unfolding adopt
adopt-Keeps token none = pure-Keeps none
adopt-Keeps token (some j) =
    then-Keeps (quiet_dev-Keeps _ (λ d. refl) (λ d. refl) λ d. refl) (pure-Keeps (some j))

or_else-Keeps : (o : Option ℕ) (m : M (Option ℕ)) → Keeps m → Keeps (or_else o m)
unfolding or_else
or_else-Keeps none m p = p
or_else-Keeps (some j) m p = pure-Keeps (some j)

or_new-Keeps : (o : Option ℕ) (m : M ℕ) → Keeps m → Keeps (or_new o m)
unfolding or_new
or_new-Keeps none m p = p
or_new-Keeps (some j) m p = pure-Keeps j

module _ (user : User) (token : ℕ) where
  token2socket-Keeps : Keeps (token2socket token)
  unfolding token2socket
  token2socket-Keeps = bind-Keeps get_dev-Keeps λ dev. pure-Keeps _

  socket_by_ip-Keeps : Keeps (socket_by_ip user token)
  unfolding socket_by_ip
  socket_by_ip-Keeps =
      bind-Keeps get_dev-Keeps λ dev. bind-Keeps get_ips-Keeps λ ips. adopt-Keeps token _

  new_connection-Keeps : Keeps (new_connection user token)
  unfolding new_connection
  new_connection-Keeps = bind-Keeps (new_socket-Keeps (user.token2ip token)) λ j.
      then-Keeps (quiet_dev-Keeps _ (λ d. refl) (λ d. refl) λ d. refl) (
        then-Keeps (quiet_dev-Keeps _ (λ d. refl) (λ d. refl) λ d. refl)
          (bind-Keeps (get-Keeps j) λ sock. then-Keeps (check-Keeps _) (pure-Keeps j)))

  out_sock-Keeps : Keeps (out_sock user token)
  unfolding out_sock
  out_sock-Keeps = bind-Keeps token2socket-Keeps λ known.
      bind-Keeps (or_else-Keeps known _ socket_by_ip-Keeps)
        λ found. or_new-Keeps found _ new_connection-Keeps

module _ (k : ℕ) (user : User) (sys : Sys) where
  open_socket-Keeps : (j : ℕ) → Keeps (open_socket (suc (suc k)) sys j)
  unfolding open_socket
  open_socket-Keeps j =
      bind-Keeps (start-Keeps k sys.env j sys.made)
        λ rc. connect-Keeps k sys.env j sys.connect_errno

  pub send_msg-Keeps : (msg : NetMsg) → Keeps (send_msg (suc (suc k)) user sys msg)
  unfolding send_msg
  send_msg-Keeps msg = bind-Keeps (out_sock-Keeps user msg.dst) λ j.
      bind-Keeps (get-Keeps j) λ sock.
        then-Keeps (if-Keeps (is_idle sock) (λ e. open_socket-Keeps j) λ e. pure-Keeps tt)
          (async_send_msg-Keeps j msg)

  pub send_data-Keeps : (src dst : ℕ) → Keeps (send_data (suc (suc k)) user sys src dst)
  unfolding send_data
  send_data-Keeps src dst =
      if-Keeps (user.token2dptr src == 0) (λ e. pure-Keeps false)
        λ e.
          if-Keeps (user.token2dptr_size src == 0) (λ e'. pure-Keeps false)
            λ e'. then-Keeps (send_msg-Keeps _) (pure-Keeps true)

  pub read_data-Keeps :
      (src dst callback : ℕ) → Keeps (read_data (suc (suc k)) user sys src dst callback)
  unfolding read_data add_callback
  read_data-Keeps src dst callback =
      then-Keeps (change_dev-Keeps _ (λ d. refl) λ d l x h. emplaced-Held d l src callback x h)
        (send_msg-Keeps _)

  -- A data message.
  complete-Keeps :
      (token : ℕ) → Keeps (get_dev >>= λ dev. complete token (find token dev.token2callback))
  unfolding complete get_dev change_dev change pure ◌>>=◌
  complete-Keeps token = record {
    holds = λ n. elim (Option-cases (find token n.dev.token2callback)) [
      | inl e ↦ rw e (Safe-refl n)
      | inr (v, e) ↦ rw e (record {
        socks = λ j h. SockSafe-refl (n.socks j) n.log;
        later = omega arith;
        wakes = λ w h. h;
        held = λ x h. completed-Held n.dev n.log token v x e h;
      })
    ];
  }

  pub parse_net_msg-Keeps : (msg : NetMsg) → Keeps (parse_net_msg (suc (suc k)) user sys msg)
  unfolding parse_net_msg
  parse_net_msg-Keeps msg =
      if-Keeps (msg.msg_type ==ℤ pos 0)
        (λ e.
          if-Keeps (msg.extra == net_msg_cmd_read)
            (λ e'. then-Keeps (check-Keeps _) (send_msg-Keeps _)) λ e'. check-Keeps false)
        λ e.
          if-Keeps (msg.msg_type ==ℤ pos 1) (λ e'. complete-Keeps msg.dst) λ e'. check-Keeps false

  pair_listen_socket-Keeps : Keeps (pair_listen_socket (suc (suc k)) sys.env)
  unfolding pair_listen_socket
  pair_listen_socket-Keeps = bind-Keeps (new_socket-Keeps _) λ j.
      then-Keeps (quiet_dev-Keeps _ (λ d. refl) (λ d. refl) λ d. refl) (accept-Keeps k sys.env j 0)

  pub on_accepted-Keeps : (j : ℕ) → Keeps (on_accepted (suc (suc k)) sys j)
  unfolding on_accepted activate
  on_accepted-Keeps j =
      then-Keeps (action-Keeps k sys.env j sock_action_activate)
        (then-Keeps (execute-Keeps j recv_task) pair_listen_socket-Keeps)

pub close_completion_queue-Keeps : Keeps close_completion_queue
unfolding close_completion_queue close_send_end close_receive_end
close_completion_queue-Keeps = change_dev-Keeps _ (λ d. refl) λ d l x h. closed_end refl

pub stop_all-Keeps : (js : List ℕ) → Keeps (stop_all js)
unfolding stop_all
stop_all-Keeps [] = pure-Keeps tt
stop_all-Keeps (j ∷ js) = then-Keeps (async_stop-Keeps j) (stop_all-Keeps js)
