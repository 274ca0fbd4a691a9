-- ===== src/Codes.antt =====
-- The integer codes of utils.h by which a state machine is told the source and the type of what it
-- is fed. The codes overlap (an action, an event of a file descriptor and a task may share one),
-- so they stay integers.
use klibmsg.Base.{ℕ, ◌-◌, ◌^◌, ℤ, pos, negsuc}

abbrev pub net_fsm_action : ℤ
net_fsm_action = negsuc 1

abbrev pub net_fsm_start : ℤ
net_fsm_start = negsuc 1

abbrev pub net_fsm_stop : ℤ
net_fsm_stop = negsuc 2

abbrev pub sock_action_accept : ℤ
sock_action_accept = pos 1

abbrev pub sock_action_being_accepted : ℤ
sock_action_being_accepted = pos 2

abbrev pub sock_action_cancel : ℤ
sock_action_cancel = pos 3

abbrev pub sock_action_listen : ℤ
sock_action_listen = pos 4

abbrev pub sock_action_connect : ℤ
sock_action_connect = pos 5

abbrev pub sock_action_activate : ℤ
sock_action_activate = pos 6

abbrev pub sock_action_done : ℤ
sock_action_done = pos 7

abbrev pub sock_action_error : ℤ
sock_action_error = pos 8

abbrev pub sock_action_started : ℤ
sock_action_started = pos 9

abbrev pub sock_src_fd : ℤ
sock_src_fd = pos 1

abbrev pub sock_src_task_connecting : ℤ
sock_src_task_connecting = pos 2

abbrev pub sock_src_task_connected : ℤ
sock_src_task_connected = pos 3

abbrev pub sock_src_task_accept : ℤ
sock_src_task_accept = pos 4

abbrev pub sock_src_task_send : ℤ
sock_src_task_send = pos 5

abbrev pub sock_src_task_recv : ℤ
sock_src_task_recv = pos 6

abbrev pub sock_src_task_stop : ℤ
sock_src_task_stop = pos 7

abbrev pub sock_event_type_connected : ℤ
sock_event_type_connected = pos 1

abbrev pub sock_event_type_accepted : ℤ
sock_event_type_accepted = pos 2

abbrev pub sock_event_type_sent : ℤ
sock_event_type_sent = pos 3

abbrev pub sock_event_type_received : ℤ
sock_event_type_received = pos 4

abbrev pub sock_event_type_error : ℤ
sock_event_type_error = pos 5

abbrev pub sock_event_type_accept_error : ℤ
sock_event_type_accept_error = pos 6

abbrev pub sock_event_type_stopped : ℤ
sock_event_type_stopped = pos 7

abbrev pub sock_event_type_shutdown : ℤ
sock_event_type_shutdown = pos 8

abbrev pub worker_fd_in : ℤ
worker_fd_in = pos 1

abbrev pub worker_fd_out : ℤ
worker_fd_out = pos 2

abbrev pub worker_fd_err : ℤ
worker_fd_err = pos 3

abbrev pub worker_task_execute : ℤ
worker_task_execute = pos 1

abbrev pub device_src_socket_event : ℤ
device_src_socket_event = pos 2

abbrev pub device_src_task_execute : ℤ
device_src_task_execute = pos 1

-- kNetMsgCmdRead, as a command in a message.
abbrev pub net_msg_cmd_read : ℕ
net_msg_cmd_read = 1

-- kLocalIpToken, -1 as a token.
abbrev pub local_ip_token : ℕ
local_ip_token = 2 ^ 64 - 1
