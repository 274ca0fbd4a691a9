-- ===== src/Tests/Wakeups.antt =====
-- The theorem on the sending tasks of a worker, at one message of three bytes of data.
use klibmsg.Base.{refl, inl, List, [], ◌∷◌, arith}
use klibmsg.Memory.{load, store}
use klibmsg.Os.{to_word, add_int, signed_lt}
use klibmsg.Message.{data_len, total_msg_sz}
use klibmsg.Transfer.{header, send_raw, send_header, send_data, send_rest, finish_send}
use klibmsg.Net.{Sock, Net, ok}
use klibmsg.Socket.Outgoing.{settled}
use klibmsg.Worker.Deeds.{Deed, post, take_all, work, ready, deeds}
use klibmsg.Worker.Tasked.{AllFair}
use klibmsg.Worker.Wakeups.{Alert, Ends, deeds-Awake}
use klibmsg.Tests.Transfers.{zeros, encode, decode, layout}
use klibmsg.Tests.Sessions.{env}
use klibmsg.Tests.Messages.{note, note-Sendable, speaker, speaking, writing}

-- A socket with nothing to write is given a message; its worker takes the task, runs it, and then
-- writes most of the message, at two events.
abbrev mute : Sock
mute = record speaker { msg_buffer_queue = [] }

abbrev idling : Net
idling = record speaking { socks = λ _. mute }

abbrev some_deeds : List Deed
some_deeds = post note ∷ take_all ∷ work env ∷ ready (writing 20 0) ∷ ready (writing 12 2) ∷ []

idling-Alert : Alert layout idling.mem 3 0 0 idling
idling-Alert = record {
  awake = inl (refl, refl);
  held = λ h. cc;
  worker = refl;
  sending = record {
    is_active = refl;
    is_running = refl;
    is_open = refl;
    inside = λ h. cc;
    sendable = tt;
  };
  memory = refl;
}

some_deeds-AllFair : AllFair layout idling.mem 1 0 0 some_deeds idling
unfolding zeros encode decode data_len header send_raw send_header send_data send_rest finish_send
    store load to_word add_int signed_lt total_msg_sz settled AllFair klibmsg.Net.pure
    klibmsg.Net.◌>>=◌ klibmsg.Net.update klibmsg.Net.get klibmsg.Net.modify klibmsg.Net.get_mem
    klibmsg.Net.change klibmsg.Net.poll_act klibmsg.Net.count_act klibmsg.Net.emit klibmsg.Net.check
    klibmsg.Fsm.raise klibmsg.Fsm.raise_to klibmsg.Fsm.queue_task klibmsg.Fsm.execute
    klibmsg.Fsm.fsm_stopped klibmsg.Fsm.fsm_stopped_no_event klibmsg.Worker.unsignal
    klibmsg.Worker.take_queue klibmsg.Worker.take_tasks klibmsg.Worker.push_stop
    klibmsg.Worker.terminate klibmsg.Worker.without_task klibmsg.Worker.has_task
    klibmsg.Worker.remove_task klibmsg.Worker.get_tasks klibmsg.Worker.cancel
    klibmsg.Worker.feed_in_context klibmsg.Worker.discard klibmsg.Worker.unqueue_stop
    klibmsg.Worker.run_tasks klibmsg.Worker.hold klibmsg.Worker.get_taken
    klibmsg.Worker.take_and_hold klibmsg.Worker.pop_task klibmsg.Worker.pop_taken
    klibmsg.Worker.first_turn klibmsg.Worker.handle_event klibmsg.Worker.next_event
    klibmsg.Worker.or_stop klibmsg.Worker.on_event klibmsg.Worker.event_loop
    klibmsg.Worker.set_poller klibmsg.Worker.wait_events klibmsg.Worker.unless_stopped
    klibmsg.Worker.routine klibmsg.Worker.Deeds.take_signalled klibmsg.Worker.Deeds.pick
    klibmsg.Worker.Deeds.run_if_taken klibmsg.Worker.Deeds.deed klibmsg.Worker.Deeds.deeds
    klibmsg.Socket.Feed.action_by klibmsg.Socket.Feed.feed klibmsg.Socket.Feed.action
    klibmsg.Socket.Feed.is_idle klibmsg.Socket.Feed.fsm_start klibmsg.Socket.Feed.fsm_stop
    klibmsg.Socket.Cases.case_default klibmsg.Socket.Cases.cancelling_fd
    klibmsg.Socket.Cases.case_cancelling klibmsg.Socket.Cases.case_accepting_error
    klibmsg.Socket.Cases.accepting_fd klibmsg.Socket.Cases.case_accepting
    klibmsg.Socket.Cases.case_listening klibmsg.Socket.Cases.case_removing_fd
    klibmsg.Socket.Cases.active_action klibmsg.Socket.Cases.case_active
    klibmsg.Socket.Cases.connecting_fd klibmsg.Socket.Cases.case_connecting
    klibmsg.Socket.Cases.case_accepted klibmsg.Socket.Cases.case_being_accepted
    klibmsg.Socket.Cases.case_starting klibmsg.Socket.Cases.case_idle klibmsg.Socket.Cases.dispatch
    klibmsg.Socket.Cases.handler klibmsg.Socket.Events.async_stop klibmsg.Socket.Events.after_recv
    klibmsg.Socket.Events.after_send klibmsg.Socket.Events.active_out
    klibmsg.Socket.Events.active_in klibmsg.Socket.Events.drop_fd
    klibmsg.Socket.Events.close_checked klibmsg.Socket.Events.connecting_out
    klibmsg.Socket.Events.take_connection klibmsg.Socket.Events.accept_error
    klibmsg.Socket.Events.accept_failed klibmsg.Socket.Events.accept_result
    klibmsg.Socket.Events.accepting_in klibmsg.Socket.Ops.net_close_fd
    klibmsg.Socket.Ops.close_socket klibmsg.Socket.Ops.init_from_fd klibmsg.Socket.Ops.get_err
    klibmsg.Socket.Ops.internal_tasks klibmsg.Socket.Ops.dequeue
    klibmsg.Socket.Ops.dequeue_net_msg_to_buf klibmsg.Socket.Ops.sock_recv_raw
    klibmsg.Socket.Ops.sock_send_raw klibmsg.Socket.Ops.extract_net_msg klibmsg.Socket.Api.init
    klibmsg.Socket.Api.start klibmsg.Socket.Api.start_fd klibmsg.Socket.Api.stop
    klibmsg.Socket.Api.set_sock_opt klibmsg.Socket.Api.bind klibmsg.Socket.Api.listen
    klibmsg.Socket.Api.accept klibmsg.Socket.Api.activate klibmsg.Socket.Api.connect
    klibmsg.Socket.Api.async_send_msg
some_deeds-AllFair = (
  note-Sendable,
  (tt, (refl, ((refl, (omega arith, omega arith)), ((refl, (omega arith, omega arith)), tt)))),
)

deeds-Awake_example : Ends layout idling.mem 3 0 0 idling (deeds 1 0 0 some_deeds idling)
deeds-Awake_example =
    deeds-Awake layout idling.mem 3 0 0 1 some_deeds idling idling-Alert some_deeds-AllFair
