-- ===== src/Tests/Programs.antt =====
-- The theorems on interleavings at a machine that reads data, and whose worker then stops.
use klibmsg.Base.{refl, List, [], ◌∷◌}
use klibmsg.Os.{success, einprogress, moved, failed, eagain}
use klibmsg.Codes.{sock_src_task_connecting, worker_task_execute}
use klibmsg.Poller.{poller_in}
use klibmsg.Net.{Net, Run, ok, abort, out_of_fuel}
use klibmsg.Device.State.{User}
use klibmsg.Device.Held.{Held}
use klibmsg.Device.Ops.{Sys}
use klibmsg.Context.{end}
use klibmsg.Worker.{Turn}
use klibmsg.Program.{
  Step, send_step, read_step, send_step, poll_step, close_step, wait_step, take_step, pop_step,
  section_step, event_step, terminate_step, perform, perform_all,
}
use klibmsg.Program.Users.{AllDirect, perform_all-After}
use klibmsg.Program.Safety.{perform_all-Safe, read_step-Held}
use klibmsg.Socket.Safety.{After, Safe}
use klibmsg.Tests.Sessions.{net, env}

abbrev pub user : User
user = record {
  token2dptr = λ t. t;
  token2dptr_size = λ t. 8;
  token2ip = λ t. record { family = 2; port = 8341; addr = t };
}

abbrev pub sys : Sys
sys = record {
  env = env;
  made = moved 5;
  connect_errno = einprogress;
  opt_errno = success;
  bind_errno = success;
  listen_errno = success;
}

abbrev turn : Turn
turn = record { env = env; answers = sys ∷ []; others = end }

-- A net after a run that ends.
abbrev result : Run (Unit {0}) → Net
result (ok a n) = n
result abort = net
result out_of_fuel = net

-- The worker takes its task in one step, and pops and runs it in two others.
abbrev later : List Step
later =
    wait_step 0 (failed eagain ∷ [])
    ∷ take_step 0
    ∷ pop_step 0
    ∷ section_step turn 1 sock_src_task_connecting worker_task_execute
    ∷ terminate_step 0
    ∷ event_step 0 0 poller_in (turn ∷ turn ∷ [])
    ∷ poll_step 3
    ∷ close_step
    ∷ []

abbrev steps : List Step
steps = read_step sys 7 9 42 ∷ later

perform_all-Safe_example : Safe net (result (perform_all 2 user steps net))
unfolding klibmsg.Net.pure klibmsg.Net.◌>>=◌ klibmsg.Net.update klibmsg.Net.get klibmsg.Net.modify
    klibmsg.Net.get_mem klibmsg.Net.change klibmsg.Net.poll_act klibmsg.Net.count_act
    klibmsg.Net.emit klibmsg.Net.check klibmsg.Fsm.raise klibmsg.Fsm.raise_to klibmsg.Fsm.queue_task
    klibmsg.Fsm.execute klibmsg.Fsm.fsm_stopped klibmsg.Os.to_word klibmsg.Os.add_int
    klibmsg.Os.signed_lt klibmsg.Socket.Cases.case_default klibmsg.Socket.Cases.cancelling_fd
    klibmsg.Socket.Cases.case_cancelling klibmsg.Socket.Cases.case_accepting_error
    klibmsg.Socket.Cases.accepting_fd klibmsg.Socket.Cases.case_accepting
    klibmsg.Socket.Cases.case_listening klibmsg.Socket.Cases.case_removing_fd
    klibmsg.Socket.Cases.active_action klibmsg.Socket.Cases.case_active
    klibmsg.Socket.Cases.connecting_fd klibmsg.Socket.Cases.case_connecting
    klibmsg.Socket.Cases.case_accepted klibmsg.Socket.Cases.case_being_accepted
    klibmsg.Socket.Cases.case_starting klibmsg.Socket.Cases.case_idle klibmsg.Socket.Cases.dispatch
    klibmsg.Socket.Cases.handler klibmsg.Socket.Ops.net_close_fd klibmsg.Socket.Ops.close_socket
    klibmsg.Socket.Ops.init_from_fd klibmsg.Socket.Ops.get_err klibmsg.Socket.Ops.internal_tasks
    klibmsg.Socket.Ops.dequeue klibmsg.Socket.Ops.dequeue_net_msg_to_buf
    klibmsg.Socket.Ops.sock_recv_raw klibmsg.Socket.Ops.sock_send_raw
    klibmsg.Socket.Ops.extract_net_msg klibmsg.Socket.Events.async_stop
    klibmsg.Socket.Events.after_recv klibmsg.Socket.Events.after_send
    klibmsg.Socket.Events.active_out klibmsg.Socket.Events.active_in klibmsg.Socket.Events.drop_fd
    klibmsg.Socket.Events.close_checked klibmsg.Socket.Events.connecting_out
    klibmsg.Socket.Events.take_connection klibmsg.Socket.Events.accept_error
    klibmsg.Socket.Events.accept_failed klibmsg.Socket.Events.accept_result
    klibmsg.Socket.Events.accepting_in klibmsg.Socket.Shutdown.finish2
    klibmsg.Socket.Shutdown.finish1 klibmsg.Socket.Shutdown.stop_in
    klibmsg.Socket.Shutdown.stopping_in klibmsg.Socket.Shutdown.shutdown_handler
    klibmsg.Socket.Feed.action_by klibmsg.Socket.Feed.feed klibmsg.Socket.Feed.action
    klibmsg.Socket.Feed.is_idle klibmsg.Socket.Feed.fsm_start klibmsg.Socket.Feed.fsm_stop
    klibmsg.Socket.Api.init klibmsg.Socket.Api.start klibmsg.Socket.Api.start_fd
    klibmsg.Socket.Api.stop klibmsg.Socket.Api.set_sock_opt klibmsg.Socket.Api.bind
    klibmsg.Socket.Api.listen klibmsg.Socket.Api.accept klibmsg.Socket.Api.activate
    klibmsg.Socket.Api.connect klibmsg.Socket.Api.async_send_msg klibmsg.Socket.Session.call
    klibmsg.Socket.Session.serve klibmsg.Device.Tables.find klibmsg.Device.Tables.emplace
    klibmsg.Device.Tables.erase_key klibmsg.Device.Tables.is_ip_equal klibmsg.Device.Tables.find_ip
    klibmsg.Device.Tables.Listed klibmsg.Device.Ops.get_dev klibmsg.Device.Ops.get_ips
    klibmsg.Device.Ops.change_dev klibmsg.Device.Ops.new_socket klibmsg.Device.Ops.token2socket
    klibmsg.Device.Ops.adopt klibmsg.Device.Ops.socket_by_ip klibmsg.Device.Ops.new_connection
    klibmsg.Device.Ops.or_else klibmsg.Device.Ops.or_new klibmsg.Device.Ops.out_sock
    klibmsg.Device.Ops.open_socket klibmsg.Device.Ops.send_msg klibmsg.Device.Ops.send_data
    klibmsg.Device.Ops.add_callback klibmsg.Device.Ops.read_data klibmsg.Device.Ops.complete
    klibmsg.Device.Ops.parse_net_msg klibmsg.Device.Ops.pair_listen_socket
    klibmsg.Device.Ops.init_device klibmsg.Device.Ops.close_completion_queue
    klibmsg.Device.Ops.stop_all klibmsg.Device.Handler.with_sock klibmsg.Device.Handler.with_msg
    klibmsg.Device.Handler.delete_sock klibmsg.Device.Handler.on_accepted
    klibmsg.Device.Handler.on_socket_event klibmsg.Device.Handler.device_handler
    klibmsg.Device.Completion.received klibmsg.Device.Completion.poll_completion_queue
    klibmsg.Device.Completion.tell klibmsg.Device.Completion.told klibmsg.Device.Completion.poll
    klibmsg.Context.unqueue klibmsg.Context.take_front klibmsg.Context.pop_event
    klibmsg.Context.reset klibmsg.Context.feed_owner klibmsg.Context.process
    klibmsg.Context.step_drain klibmsg.Context.drain klibmsg.Context.take_eventsto
    klibmsg.Context.run_section klibmsg.Context.target klibmsg.Context.context_of
    klibmsg.Context.process_others klibmsg.Context.execute_critical_section klibmsg.Worker.unsignal
    klibmsg.Worker.take_queue klibmsg.Worker.take_tasks klibmsg.Worker.push_stop
    klibmsg.Worker.terminate klibmsg.Worker.without_task klibmsg.Worker.has_task
    klibmsg.Worker.remove_task klibmsg.Worker.get_tasks klibmsg.Worker.cancel
    klibmsg.Worker.feed_in_context klibmsg.Worker.discard klibmsg.Worker.unqueue_stop
    klibmsg.Worker.run_tasks klibmsg.Worker.hold klibmsg.Worker.get_taken
    klibmsg.Worker.take_and_hold klibmsg.Worker.pop_task klibmsg.Worker.pop_taken
    klibmsg.Worker.first_turn klibmsg.Worker.handle_event klibmsg.Worker.next_event
    klibmsg.Worker.or_stop klibmsg.Worker.on_event klibmsg.Worker.event_loop
    klibmsg.Worker.set_poller klibmsg.Worker.wait_events klibmsg.Worker.unless_stopped
    klibmsg.Worker.routine klibmsg.Program.perform klibmsg.Program.perform_all klibmsg.Channel.send
    klibmsg.Channel.front klibmsg.Channel.receive klibmsg.Channel.close_send_end
    klibmsg.Channel.close_receive_end klibmsg.Poller.set_handle klibmsg.Poller.init
    klibmsg.Poller.add klibmsg.Poller.from_index klibmsg.Poller.rm klibmsg.Poller.modify_handle
    klibmsg.Poller.set_in klibmsg.Poller.set_out klibmsg.Poller.reset_in klibmsg.Poller.reset_out
    klibmsg.Poller.wait klibmsg.Poller.take_slot klibmsg.Poller.event_from klibmsg.Poller.event
    klibmsg.Pool.choose_worker klibmsg.Pool.chosen klibmsg.Transfer.send_header
    klibmsg.Transfer.send_data klibmsg.Transfer.finish_send klibmsg.Transfer.send_rest
    klibmsg.Transfer.recv_header klibmsg.Transfer.recv_data klibmsg.Transfer.finish_recv
    klibmsg.Transfer.header klibmsg.Transfer.send_raw klibmsg.Transfer.recv_rest
    klibmsg.Transfer.recv_raw klibmsg.Message.data_len klibmsg.Message.total_msg_sz
    klibmsg.Memory.load klibmsg.Memory.store
perform_all-Safe_example =
    perform_all-Safe 0 user steps net (result (perform_all 2 user steps net)) refl

read_step-Held_example : let n = result (perform_all 2 user steps net) in Held n.dev n.log 42
unfolding klibmsg.Net.pure klibmsg.Net.◌>>=◌ klibmsg.Net.update klibmsg.Net.get klibmsg.Net.modify
    klibmsg.Net.get_mem klibmsg.Net.change klibmsg.Net.poll_act klibmsg.Net.count_act
    klibmsg.Net.emit klibmsg.Net.check klibmsg.Fsm.raise klibmsg.Fsm.raise_to klibmsg.Fsm.queue_task
    klibmsg.Fsm.execute klibmsg.Fsm.fsm_stopped klibmsg.Os.to_word klibmsg.Os.add_int
    klibmsg.Os.signed_lt klibmsg.Socket.Cases.case_default klibmsg.Socket.Cases.cancelling_fd
    klibmsg.Socket.Cases.case_cancelling klibmsg.Socket.Cases.case_accepting_error
    klibmsg.Socket.Cases.accepting_fd klibmsg.Socket.Cases.case_accepting
    klibmsg.Socket.Cases.case_listening klibmsg.Socket.Cases.case_removing_fd
    klibmsg.Socket.Cases.active_action klibmsg.Socket.Cases.case_active
    klibmsg.Socket.Cases.connecting_fd klibmsg.Socket.Cases.case_connecting
    klibmsg.Socket.Cases.case_accepted klibmsg.Socket.Cases.case_being_accepted
    klibmsg.Socket.Cases.case_starting klibmsg.Socket.Cases.case_idle klibmsg.Socket.Cases.dispatch
    klibmsg.Socket.Cases.handler klibmsg.Socket.Ops.net_close_fd klibmsg.Socket.Ops.close_socket
    klibmsg.Socket.Ops.init_from_fd klibmsg.Socket.Ops.get_err klibmsg.Socket.Ops.internal_tasks
    klibmsg.Socket.Ops.dequeue klibmsg.Socket.Ops.dequeue_net_msg_to_buf
    klibmsg.Socket.Ops.sock_recv_raw klibmsg.Socket.Ops.sock_send_raw
    klibmsg.Socket.Ops.extract_net_msg klibmsg.Socket.Events.async_stop
    klibmsg.Socket.Events.after_recv klibmsg.Socket.Events.after_send
    klibmsg.Socket.Events.active_out klibmsg.Socket.Events.active_in klibmsg.Socket.Events.drop_fd
    klibmsg.Socket.Events.close_checked klibmsg.Socket.Events.connecting_out
    klibmsg.Socket.Events.take_connection klibmsg.Socket.Events.accept_error
    klibmsg.Socket.Events.accept_failed klibmsg.Socket.Events.accept_result
    klibmsg.Socket.Events.accepting_in klibmsg.Socket.Shutdown.finish2
    klibmsg.Socket.Shutdown.finish1 klibmsg.Socket.Shutdown.stop_in
    klibmsg.Socket.Shutdown.stopping_in klibmsg.Socket.Shutdown.shutdown_handler
    klibmsg.Socket.Feed.action_by klibmsg.Socket.Feed.feed klibmsg.Socket.Feed.action
    klibmsg.Socket.Feed.is_idle klibmsg.Socket.Feed.fsm_start klibmsg.Socket.Feed.fsm_stop
    klibmsg.Socket.Api.init klibmsg.Socket.Api.start klibmsg.Socket.Api.start_fd
    klibmsg.Socket.Api.stop klibmsg.Socket.Api.set_sock_opt klibmsg.Socket.Api.bind
    klibmsg.Socket.Api.listen klibmsg.Socket.Api.accept klibmsg.Socket.Api.activate
    klibmsg.Socket.Api.connect klibmsg.Socket.Api.async_send_msg klibmsg.Socket.Session.call
    klibmsg.Socket.Session.serve klibmsg.Device.Tables.find klibmsg.Device.Tables.emplace
    klibmsg.Device.Tables.erase_key klibmsg.Device.Tables.is_ip_equal klibmsg.Device.Tables.find_ip
    klibmsg.Device.Tables.Listed klibmsg.Device.Ops.get_dev klibmsg.Device.Ops.get_ips
    klibmsg.Device.Ops.change_dev klibmsg.Device.Ops.new_socket klibmsg.Device.Ops.token2socket
    klibmsg.Device.Ops.adopt klibmsg.Device.Ops.socket_by_ip klibmsg.Device.Ops.new_connection
    klibmsg.Device.Ops.or_else klibmsg.Device.Ops.or_new klibmsg.Device.Ops.out_sock
    klibmsg.Device.Ops.open_socket klibmsg.Device.Ops.send_msg klibmsg.Device.Ops.send_data
    klibmsg.Device.Ops.add_callback klibmsg.Device.Ops.read_data klibmsg.Device.Ops.complete
    klibmsg.Device.Ops.parse_net_msg klibmsg.Device.Ops.pair_listen_socket
    klibmsg.Device.Ops.init_device klibmsg.Device.Ops.close_completion_queue
    klibmsg.Device.Ops.stop_all klibmsg.Device.Handler.with_sock klibmsg.Device.Handler.with_msg
    klibmsg.Device.Handler.delete_sock klibmsg.Device.Handler.on_accepted
    klibmsg.Device.Handler.on_socket_event klibmsg.Device.Handler.device_handler
    klibmsg.Device.Completion.received klibmsg.Device.Completion.poll_completion_queue
    klibmsg.Device.Completion.tell klibmsg.Device.Completion.told klibmsg.Device.Completion.poll
    klibmsg.Context.unqueue klibmsg.Context.take_front klibmsg.Context.pop_event
    klibmsg.Context.reset klibmsg.Context.feed_owner klibmsg.Context.process
    klibmsg.Context.step_drain klibmsg.Context.drain klibmsg.Context.take_eventsto
    klibmsg.Context.run_section klibmsg.Context.target klibmsg.Context.context_of
    klibmsg.Context.process_others klibmsg.Context.execute_critical_section klibmsg.Worker.unsignal
    klibmsg.Worker.take_queue klibmsg.Worker.take_tasks klibmsg.Worker.push_stop
    klibmsg.Worker.terminate klibmsg.Worker.without_task klibmsg.Worker.has_task
    klibmsg.Worker.remove_task klibmsg.Worker.get_tasks klibmsg.Worker.cancel
    klibmsg.Worker.feed_in_context klibmsg.Worker.discard klibmsg.Worker.unqueue_stop
    klibmsg.Worker.run_tasks klibmsg.Worker.hold klibmsg.Worker.get_taken
    klibmsg.Worker.take_and_hold klibmsg.Worker.pop_task klibmsg.Worker.pop_taken
    klibmsg.Worker.first_turn klibmsg.Worker.handle_event klibmsg.Worker.next_event
    klibmsg.Worker.or_stop klibmsg.Worker.on_event klibmsg.Worker.event_loop
    klibmsg.Worker.set_poller klibmsg.Worker.wait_events klibmsg.Worker.unless_stopped
    klibmsg.Worker.routine klibmsg.Program.perform klibmsg.Program.perform_all klibmsg.Channel.send
    klibmsg.Channel.front klibmsg.Channel.receive klibmsg.Channel.close_send_end
    klibmsg.Channel.close_receive_end klibmsg.Poller.set_handle klibmsg.Poller.init
    klibmsg.Poller.add klibmsg.Poller.from_index klibmsg.Poller.rm klibmsg.Poller.modify_handle
    klibmsg.Poller.set_in klibmsg.Poller.set_out klibmsg.Poller.reset_in klibmsg.Poller.reset_out
    klibmsg.Poller.wait klibmsg.Poller.take_slot klibmsg.Poller.event_from klibmsg.Poller.event
    klibmsg.Pool.choose_worker klibmsg.Pool.chosen klibmsg.Transfer.send_header
    klibmsg.Transfer.send_data klibmsg.Transfer.finish_send klibmsg.Transfer.send_rest
    klibmsg.Transfer.recv_header klibmsg.Transfer.recv_data klibmsg.Transfer.finish_recv
    klibmsg.Transfer.header klibmsg.Transfer.send_raw klibmsg.Transfer.recv_rest
    klibmsg.Transfer.recv_raw klibmsg.Message.data_len klibmsg.Message.total_msg_sz
    klibmsg.Memory.load klibmsg.Memory.store
read_step-Held_example =
    read_step-Held 0 user sys 7 9 42 later net (result (perform_all 2 user steps net)) refl refl

abbrev direct_steps : List Step
direct_steps = read_step sys 7 9 42 ∷ send_step sys 3 7 ∷ terminate_step 0 ∷ close_step ∷ []

perform_all-After_example : After net (perform_all 2 user direct_steps net)
unfolding AllDirect
perform_all-After_example = perform_all-After 0 user direct_steps net tt
