-- ===== src/Device/Handler.antt =====
-- NetDeviceFsmHandler (device.cpp): what the device does on an event of a socket. LOG(FATAL), which
-- UNEXPECTED_RUN is, ends the program.
use klibmsg.Base.{ℕ, false, if◌then◌else◌, ℤ, ◌==ℤ◌}
use klibmsg.Codes.{
  device_src_task_execute, device_src_socket_event, sock_event_type_connected,
  sock_event_type_accepted, sock_event_type_sent, sock_event_type_received, sock_event_type_error,
  sock_event_type_accept_error, sock_event_type_shutdown,
}
use klibmsg.Message.{NetMsg}
use klibmsg.Net.{
  SrcPtr, no_ptr, sock_ptr, msg_ptr, send_task, recv_task, M, pure, ◌>>◌, emit, check, delete,
}
use klibmsg.Fsm.{execute}
use klibmsg.Socket.Api.{activate}
use klibmsg.Device.State.{User}
use klibmsg.Device.Ops.{Sys, parse_net_msg, pair_listen_socket}

-- `static_cast<NetSocket*>(srcptr)`, and `(NetMsg*)(srcptr)`, which are followed.
unfoldable pub with_sock : SrcPtr → (ℕ → M (Unit {0})) → M (Unit {0})
with_sock (sock_ptr j) f = f j
with_sock p f = check false

unfoldable pub with_msg : SrcPtr → (NetMsg → M (Unit {0})) → M (Unit {0})
with_msg (msg_ptr m) f = f m
with_msg p f = check false

-- `delete sock`, which may be of nullptr. The socket is the one whose context is processing the
-- event, and the section goes on with the queues and the lock of that context, which are freed: the
-- run has no defined way on, which is `abort` like a CHECK that fails.
unfoldable pub delete_sock : SrcPtr → M (Unit {0})
delete_sock no_ptr = pure tt
delete_sock (sock_ptr j) = do emit (delete j); check false
delete_sock (msg_ptr m) = check false

-- kNetSockEventTypeAccepted
unfoldable pub on_accepted : ℕ → Sys → ℕ → M (Unit {0})
on_accepted fuel sys j = do
  activate fuel sys.env j
  execute j recv_task
  pair_listen_socket fuel sys.env

unfoldable pub on_socket_event : ℕ → User → Sys → ℤ → SrcPtr → M (Unit {0})
on_socket_event fuel user sys type p =
    if type ==ℤ sock_event_type_connected
    then with_sock p (λ j. execute j send_task)
    else if type ==ℤ sock_event_type_sent
    then pure tt
    else if type ==ℤ sock_event_type_received
    then with_msg p (parse_net_msg fuel user sys)
    else if type ==ℤ sock_event_type_error
    then check false
    else if type ==ℤ sock_event_type_accept_error
    then check false
    else if type ==ℤ sock_event_type_accepted
    then with_sock p (on_accepted fuel sys)
    else if type ==ℤ sock_event_type_shutdown
    then delete_sock p
    else pure tt

-- NetDeviceFsmHandler, which Feed calls, since the device's machine is never stopping.
unfoldable pub device_handler : ℕ → User → Sys → ℤ → ℤ → SrcPtr → M (Unit {0})
device_handler fuel user sys src type p =
    if src ==ℤ device_src_task_execute
    then check false
    else if src ==ℤ device_src_socket_event
    then on_socket_event fuel user sys type p
    else pure tt
