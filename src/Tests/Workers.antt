-- ===== src/Tests/Workers.antt =====
-- The theorems on the poller, the channel and the pool of workers.
use klibmsg.Base.{
  ◌<◌, refl, none, Option, some, ℕ, ◌+◌, ◌%◌, ◌≡◌, true, false, List, [], ◌∷◌, ◌++◌, arith, first,
}
use klibmsg.Os.{moved, failed, eintr, eagain}
use klibmsg.Net.{Net, ok}
use klibmsg.Worker.Start.{Boot, init_pool, Ready, descriptor, init_pool-Ready}
use klibmsg.Tests.Sessions.{net}
use klibmsg.Poller.Calls.{
  Op, op_event, op_rm, op_reset_in, op_wait, operate, operate_all, Small, fails, Proper, Bounded,
}
use klibmsg.Poller.Bounds.{operate_all-Bounded}
use klibmsg.Poller.{
  Poller, rm, modify_handle, set_handle, reset_in, reset_out, event, event_from, take_slot,
  from_index, wait,
}
use klibmsg.Poller.Pending.{
  to_come, drop_first, event-to_come, without, of_handle, in_of, out_of, rm-to_come, reset-to_come,
}
use klibmsg.Channel.{opened}
use klibmsg.Channel.Fifo.{Call, sends, receives, closes_send, traffic, traffic-fifo}
use klibmsg.Pool.{chosen, worker_num, chosen_mod}

-- Handle 1 can be read and written, and handle 2 fails.
abbrev poller : Poller
poller = record {
  handles = λ h. record { fd = some (h + 10); is_in = true; is_out = true };
  index = 0;
  events =
      record { handle = 1; is_in = true; is_out = true; rest = 0 }
      ∷ record { handle = 2; is_in = false; is_out = false; rest = 8 }
      ∷ [];
  wait_failed = false;
  overrun = false;
  log = [];
}

event-to_come_example :
    ((event poller).0 ≡ first (to_come poller))
    × (to_come (event poller).1 ≡ drop_first (to_come poller))
event-to_come_example = event-to_come poller

rm-to_come_example : to_come (rm 1 poller) ≡ without (of_handle 1) (to_come poller)
rm-to_come_example = rm-to_come 1 poller

reset-to_come_example :
    ((poller.handles 1).is_in ≡ true
      → to_come (reset_in 1 poller) ≡ without (in_of 1) (to_come poller))
    × ((poller.handles 1).is_out ≡ true
        → to_come (reset_out 1 poller) ≡ without (out_of 1) (to_come poller))
reset-to_come_example = reset-to_come 1 poller

abbrev calls : List (Call ℕ)
calls = sends 5 ∷ sends 6 ∷ receives ∷ closes_send ∷ sends 7 ∷ receives ∷ receives ∷ []

traffic-fifo_example :
    opened.val ++ (traffic opened calls).taken
    ≡ (traffic opened calls).given ++ (traffic opened calls).last.val
traffic-fifo_example = traffic-fifo opened calls

chosen_mod_example : chosen 2 7 ≡ (2 + 7) % worker_num
chosen_mod_example = chosen_mod 2 7 (omega arith)

-- Two rounds of the poller, the first with a Wait that fails before it.
abbrev operations : List Op
operations =
    op_event
    ∷ op_reset_in 1
    ∷ op_wait (failed eintr ∷ failed eagain ∷ [])
    ∷ op_event
    ∷ op_rm 2
    ∷ op_event
    ∷ op_wait (failed eintr ∷ moved poller.events ∷ [])
    ∷ op_event
    ∷ []

abbrev operated : Option Poller → Poller
operated none = poller
operated (some p) = p

operate_all-Bounded_example : Bounded (operated (operate_all operations poller))
unfolding Small fails Proper reset_in modify_handle set_handle operate_all operate event event_from
    take_slot rm from_index wait
operate_all-Bounded_example =
    operate_all-Bounded operations poller (operated (operate_all operations poller))
      (record {
        index = omega arith;
        events = omega arith;
        none_failed = λ e. cc;
        in_bounds = refl;
      })
      (refl, (tt, ((omega arith, tt), tt))) refl

abbrev boots : List Boot
boots =
    record { made = moved 4; setfl_ok = true; setfd_ok = true }
    ∷ record { made = moved 6; setfl_ok = true; setfd_ok = true }
    ∷ []

init_pool-Ready_example :
    (n' : Net) × (init_pool boots net ≡ ok false n')
    × ((w : ℕ) → w < 2 → Ready n' w (descriptor boots w))
init_pool-Ready_example =
    init_pool-Ready boots net ((4, refl), refl, refl, ((6, refl), refl, refl, tt)) (omega arith)
