-- ===== src/Tests/Devices.antt =====
-- The theorems on the maps and the completion queue of a device.
use klibmsg.Base.{
  false, ◌==◌, if◌then◌else◌, ℕ, suc, ◌≡◌, refl, sym, ◌∙◌, ap, true, false, inl, inr, [], ◌∷◌,
  arith, pos,
}
use klibmsg.Message.{NetMsg}
use klibmsg.Channel.{Channel, opened}
use klibmsg.Net.{fsm_active, signal, Net, ok, ◌>>◌}
use klibmsg.Device.State.{Device}
use klibmsg.Device.Tables.{find, find_ip, Listed}
use klibmsg.Device.Routing.{Routed}
use klibmsg.Os.{Ip}
use klibmsg.Device.OutSock.{find_ip-Routed, Chosen, out_sock-Chosen}
use klibmsg.Socket.Runs.Post.{sending}
use klibmsg.Device.Sending.{data_msg, send_data-Leaves}
use klibmsg.Socket.Feed.{is_idle}
use klibmsg.Socket.Runs.{Leaves}
use klibmsg.Device.Ops.{send_data, out_sock, add_callback, parse_net_msg, close_completion_queue}
use klibmsg.Device.Completion.{poll_completion_queue, returns}
use klibmsg.Device.Callbacks.{
  ended, poll_completion_queue-ended, poll-close_completion_queue, parse_net_msg-add_callback,
}
use klibmsg.Tests.Sessions.{net, device, fresh}
use klibmsg.Tests.Programs.{user, sys}

-- Socket 1 is connected to the address of token 7.
abbrev connected : Net
connected = record net {
  socks = λ _. record fresh { ip = user.token2ip 7 };
  dev = record device { token2sock = (7, 1) ∷ []; next = 2 };
}

connected-Routed : Routed user (λ j. (connected.socks j).ip) connected.dev
unfolding Listed
connected-Routed = record {
  right = λ t j. elim [ inl (p, q) ↦ (omega (arith, q), ap user.token2ip p) | inr l ↦ absurd l ];
  one = λ t j t' j'. elim [
    | inl (p, q) ↦ elim [ inl (p', q') ↦ λ e. sym q ∙ q' | inr l ↦ absurd l ]
    | inr l ↦ absurd l
  ];
}

out_sock-Chosen_example : Chosen user 8 connected (out_sock user 8 connected)
out_sock-Chosen_example = out_sock-Chosen user 8 connected connected-Routed

abbrev queue : Channel ℕ
queue = record { val = 4 ∷ 5 ∷ []; is_send_closed = true; is_receive_closed = false }

poll_completion_queue-ended_example : poll_completion_queue 3 queue ≡ ended queue (4 ∷ 5 ∷ [])
poll_completion_queue-ended_example = poll_completion_queue-ended 3 queue (omega arith) refl

abbrev waiting : Net
waiting = record net { dev = record device { cq = record opened { val = 4 ∷ 5 ∷ [] } } }

poll-close_completion_queue_example :
    (n' : Net) × (close_completion_queue waiting ≡ ok tt n')
    × (n'.dev.cq.val ≡ waiting.dev.cq.val)
    × ((fuel : ℕ) → poll_completion_queue (suc fuel) n'.dev.cq ≡ returns [] n'.dev.cq)
poll-close_completion_queue_example = poll-close_completion_queue waiting

abbrev data_message : NetMsg
data_message = record { msg_type = pos 1; src = 0; dst = 7; extra = 8 }

parse_net_msg-add_callback_example :
    (add_callback 7 42
        >> (parse_net_msg 2 user sys data_message >> parse_net_msg 2 user sys data_message))
      waiting
    ≡ ok tt (record waiting {
      dev = record waiting.dev { cq = record waiting.dev.cq { val = 4 ∷ 5 ∷ 42 ∷ [] } };
    })
unfolding find
parse_net_msg-add_callback_example =
    parse_net_msg-add_callback 2 user sys sys 7 42 data_message data_message waiting refl refl
      (refl, refl) (refl, refl)

-- Tokens 7 and 9 have the address of socket 1 or of socket 2.
abbrev machines : Device
machines = record device { token2sock = (7, 1) ∷ (9, 2) ∷ []; next = 3 }

abbrev addresses : ℕ → Ip
addresses j = user.token2ip (if j == 1 then 7 else 9)

machines-Routed : Routed user addresses machines
unfolding Listed
machines-Routed = record {
  right = λ t j. elim [
    | inl (p, q) ↦ (omega (arith, q), rw (← p, ← q))
    | inr (inl (p, q)) ↦ (omega (arith, q), rw (← p, ← q))
    | inr (inr l) ↦ absurd l
  ];
  one = λ t j t' j'. elim [
    | inl (p, q) ↦ elim [
      | inl (p', q') ↦ λ e. sym q ∙ q'
      | inr (inl (p', q')) ↦
          λ e. let f : 7 ≡ 9 = p ∙ ap (λ x. x.addr) e ∙ sym p' in absurd (omega (arith, f))
      | inr (inr l) ↦ absurd l
    ]
    | inr (inl (p, q)) ↦ elim [
      | inl (p', q') ↦
          λ e. let f : 9 ≡ 7 = p ∙ ap (λ x. x.addr) e ∙ sym p' in absurd (omega (arith, f))
      | inr (inl (p', q')) ↦ λ e. sym q ∙ q'
      | inr (inr l) ↦ absurd l
    ]
    | inr (inr l) ↦ absurd l
  ];
}

find_ip-Routed_example :
    find_ip addresses (user.token2ip 9) ((9, 2) ∷ (7, 1) ∷ [])
    ≡ find_ip addresses (user.token2ip 9) machines.token2sock
unfolding Listed
find_ip-Routed_example =
    find_ip-Routed user addresses machines (user.token2ip 9) ((9, 2) ∷ (7, 1) ∷ []) machines-Routed
      (λ t j. elim [ inl h ↦ inr (inl h) | inr (inl h) ↦ inl h | inr (inr l) ↦ absurd l ])
      λ t j. elim [ inl h ↦ inr (inl h) | inr (inl h) ↦ inl h | inr (inr l) ↦ absurd l ]

-- Socket 1 talks to the machine of token 7.
abbrev talking : Net
talking = record connected {
  socks = λ _. record fresh { fsm_state = fsm_active; ip = user.token2ip 7 };
}

send_data-Leaves_example :
    Leaves 1 true
      (sending 1 (data_msg user 3 7) (talking.socks 1))
      (signal (sending 1 (data_msg user 3 7) (talking.socks 1)).worker ∷ [])
      talking
      (send_data 2 user sys 3 7 talking)
unfolding find is_idle
send_data-Leaves_example = send_data-Leaves 2 user sys 3 7 talking 1 refl refl refl refl refl
