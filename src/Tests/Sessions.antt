-- ===== src/Tests/Sessions.antt =====
-- The theorems on sequences of calls of sockets.
use klibmsg.Base.{refl, some, false, true, none, List, [], ◌∷◌, pos}
use klibmsg.Codes.{
  sock_src_fd, worker_fd_out, worker_fd_err, sock_src_task_connecting, worker_task_execute,
}
use klibmsg.Os.{success, einprogress, eagain, moved, failed}
use klibmsg.Os.{econnreset}
use klibmsg.Device.State.{Device}
use klibmsg.Channel.{opened}
use klibmsg.Poller.{Poller}
use klibmsg.Codes.{sock_src_task_stop, net_fsm_action, sock_action_cancel}
use klibmsg.Net.{
  starting, being_accepted, active, listening, stopping_accept, fsm_active, fsm_stopping, close,
  signal, rm_fd, bad_state, stop_task, ◌>>◌,
}
use klibmsg.Socket.Feed.{feed}
use klibmsg.Socket.Api.{stop, connect}
use klibmsg.Socket.Runs.{Does, tasked}
use klibmsg.Socket.Runs.Stop.{ended, stop_plain-Does}
use klibmsg.Socket.Runs.Busy.{waiting, stop_busy-Does}
use klibmsg.Socket.Runs.Connect.{connected, connect-Does, stop_being_accepted-Does}
use klibmsg.Net.{idle, Sock, Event, Net, no_ptr, fsm_idle}
use klibmsg.Socket.Ops.{Env}
use klibmsg.Socket.Session.{Call, call_feed, call_start, call_connect, call_stop, serve}
use klibmsg.Socket.Safety.{After}
use klibmsg.Socket.Safety.Session.{serve-Safe}
use klibmsg.Tests.Transfers.{layout, token2dptr}

abbrev pub fresh_event : Event
fresh_event = record { fsm = none; src = pos 0; srcptr = no_ptr; type = pos 0; queued = false }

abbrev pub fresh : Sock
fresh = record {
  state = idle;
  s = none;
  errnum = success;
  worker = 0;
  ip = record { family = 2; port = 0; addr = 0 };
  asock = none;
  in_buf = λ _. 0;
  in_offset = 0;
  out_buf = λ _. 0;
  out_offset = 0;
  is_out_buf_busy = false;
  msg_buffer_queue = [];
  fsm_state = fsm_idle;
  fsm_src = pos 1;
  fsm_srcptr = no_ptr;
  event = λ _. fresh_event;
  task_queued = λ _. false;
  events = [];
  eventsto = [];
}

abbrev pub device : Device
device = record {
  token2sock = [];
  token2callback = [];
  sock_sets = [];
  cq = opened;
  next = 1;
  cur_worker_idx = 0;
  ip_addr = record { family = 2; port = 8341; addr = 1 };
}

abbrev pub empty_poller : Poller
empty_poller = record {
  handles = λ _. record { fd = none; is_in = false; is_out = false };
  wait_failed = false;
  overrun = false;
  index = 0;
  events = [];
  log = [];
}

abbrev pub net : Net
net = record {
  socks = λ _. fresh;
  tasks = λ _. [];
  taken = λ _. [];
  stop_queued = λ _. false;
  efd_count = λ _. 0;
  pollers = λ _. empty_poller;
  mem = λ _. 0;
  dev = device;
  log = [];
}

abbrev pub env : Env
env = record {
  layout = layout;
  token2dptr = token2dptr;
  accept4 = failed eagain;
  close_errno = success;
  setfd_ok = true;
  is_nonblock = true;
  so_error = moved success;
  reads = (failed eagain, failed eagain);
  writes = (failed eagain, failed eagain);
}

-- A socket that starts and connects, and whose descriptor then fails.
abbrev pub calls : List (Env × Call)
calls =
    (env, call_start 0 (moved 3))
    ∷ (env, call_connect 0 einprogress)
    ∷ (env, call_feed 0 sock_src_task_connecting worker_task_execute)
    ∷ (env, call_feed 0 sock_src_fd worker_fd_out)
    ∷ (env, call_feed 0 sock_src_fd worker_fd_err)
    ∷ (env, call_stop 0)
    ∷ []

serve-Safe_example : After net (serve 2 calls net)
serve-Safe_example = serve-Safe 0 calls net

-- A socket that listens, with descriptor 3.
abbrev listener : Sock
listener = record fresh { state = listening; s = some 3; fsm_state = fsm_active }

stop_plain-Does_example :
    Does 0 listener
      (stop 2 env 0)
      tt
      (ended 0 (record listener { errnum = success; fsm_state = fsm_stopping }))
      (close 3 ∷ [])
stop_plain-Does_example = stop_plain-Does 2 env 0 3 listener refl refl refl refl

abbrev talker : Sock
talker = record fresh { state = active; s = some 3; fsm_state = fsm_active }

stop_busy-Does_example :
    Does 0 talker
      (stop 2 env 0 >> feed 1 env 0 sock_src_task_stop worker_task_execute)
      tt
      (ended 0 (waiting 0 talker))
      (close 3
        ∷ rm_fd 0
        ∷ signal
            (tasked 0
              (record talker { fsm_state = fsm_stopping; errnum = success })
              stop_task).worker
        ∷ [])
stop_busy-Does_example = stop_busy-Does 2 0 env 0 3 talker refl refl refl refl

abbrev starter : Sock
starter = record fresh { state = starting; s = some 3; fsm_state = fsm_active }

connect-Does_example :
    Does 0 starter
      (connect 2 env 0 econnreset)
      tt
      (connected 0 econnreset 3 starter).0
      (connected 0 econnreset 3 starter).1
connect-Does_example = connect-Does 1 env 0 3 econnreset starter refl refl refl refl

abbrev acceptee : Sock
acceptee = record fresh { state = being_accepted; fsm_state = fsm_active }

stop_being_accepted-Does_example :
    Does 0 acceptee
      (stop 2 env 0)
      tt
      (record acceptee { state = stopping_accept; fsm_state = fsm_stopping; errnum = success })
      (bad_state being_accepted net_fsm_action sock_action_cancel ∷ [])
stop_being_accepted-Does_example = stop_being_accepted-Does 1 env 0 acceptee refl refl
