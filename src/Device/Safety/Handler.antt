-- ===== src/Device/Safety/Handler.antt =====
-- Safety of the handler of the device (device.cpp).
use klibmsg.Base.{ℕ, suc, false, ◌==ℤ◌, ℤ}
use klibmsg.Codes.{
  device_src_task_execute, device_src_socket_event, sock_event_type_connected,
  sock_event_type_accepted, sock_event_type_sent, sock_event_type_received, sock_event_type_error,
  sock_event_type_accept_error, sock_event_type_shutdown,
}
use klibmsg.Message.{NetMsg}
use klibmsg.Device.State.{User}
use klibmsg.Device.Ops.{Sys}
use klibmsg.Device.Handler.{with_sock, with_msg, delete_sock, on_socket_event, device_handler}
use klibmsg.Net.{SrcPtr, no_ptr, sock_ptr, msg_ptr, M, send_task, delete}
use klibmsg.Socket.Safety.{Keeps, pure-Keeps, check-Keeps, if-Keeps, emit-Keeps, then-Keeps}
use klibmsg.Socket.Safety.Steps.{execute-Keeps}
use klibmsg.Device.Safety.{parse_net_msg-Keeps, on_accepted-Keeps}

with_sock-Keeps :
    (p : SrcPtr) (f : ℕ → M (Unit {0})) → ((j : ℕ) → Keeps (f j)) → Keeps (with_sock p f)
unfolding with_sock
with_sock-Keeps (sock_ptr j) f h = h j
with_sock-Keeps _ f h = check-Keeps false

with_msg-Keeps :
    (p : SrcPtr) (f : NetMsg → M (Unit {0})) → ((m : NetMsg) → Keeps (f m)) → Keeps (with_msg p f)
unfolding with_msg
with_msg-Keeps (msg_ptr m) f h = h m
with_msg-Keeps _ f h = check-Keeps false

delete_sock-Keeps : (p : SrcPtr) → Keeps (delete_sock p)
unfolding delete_sock
delete_sock-Keeps no_ptr = pure-Keeps tt
delete_sock-Keeps (sock_ptr j) = then-Keeps (emit-Keeps (delete j)) (check-Keeps false)
delete_sock-Keeps (msg_ptr m) = check-Keeps false

module _ (k : ℕ) (user : User) (sys : Sys) where
  on_socket_event-Keeps :
      (type : ℤ) (p : SrcPtr) → Keeps (on_socket_event (suc (suc k)) user sys type p)
  unfolding on_socket_event
  on_socket_event-Keeps type p =
      if-Keeps (type ==ℤ sock_event_type_connected)
        (λ e. with_sock-Keeps p _ λ j. execute-Keeps j send_task)
        λ e.
          if-Keeps (type ==ℤ sock_event_type_sent) (λ f. pure-Keeps tt)
            λ f.
              if-Keeps (type ==ℤ sock_event_type_received)
                (λ g. with_msg-Keeps p _ (parse_net_msg-Keeps k user sys))
                λ g.
                  if-Keeps (type ==ℤ sock_event_type_error) (λ h. check-Keeps false)
                    λ h.
                      if-Keeps (type ==ℤ sock_event_type_accept_error) (λ h'. check-Keeps false)
                        λ h'.
                          if-Keeps (type ==ℤ sock_event_type_accepted)
                            (λ a. with_sock-Keeps p _ (on_accepted-Keeps k user sys))
                            λ a.
                              if-Keeps (type ==ℤ sock_event_type_shutdown)
                                (λ b. delete_sock-Keeps p) λ b. pure-Keeps tt

  pub device_handler-Keeps :
      (src type : ℤ) (p : SrcPtr) → Keeps (device_handler (suc (suc k)) user sys src type p)
  unfolding device_handler
  device_handler-Keeps src type p =
      if-Keeps (src ==ℤ device_src_task_execute) (λ e. check-Keeps false)
        λ e.
          if-Keeps (src ==ℤ device_src_socket_event) (λ f. on_socket_event-Keeps type p)
            λ f. pure-Keeps tt
