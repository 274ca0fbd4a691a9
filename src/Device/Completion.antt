-- ===== src/Device/Completion.antt =====
-- NetDevice::PollCompletionQueue (device.h, device.cpp).
use klibmsg.Base.{ℕ, zero, suc, List, [], ◌∷◌}
use klibmsg.Channel.{Channel, Receipt, waits, fails, gets, receive}
use klibmsg.Net.{Act, run_callback, Net, Run, ok, out_of_fuel, M}

-- What a run of PollCompletionQueue does: it returns, or it blocks in `Receive`. The callbacks that
-- it has called stand with it, and the queue as it leaves it.
pub data Poll : Type 0 where
  returns : List ℕ → Channel ℕ → Poll
  blocks : List ℕ → Channel ℕ → Poll
  unfinished : Poll

abbrev pub called : ℕ → Poll → Poll
called f (returns fs c) = returns (f ∷ fs) c
called f (blocks fs c) = blocks (f ∷ fs) c
called f unfinished = unfinished

unfoldable pub received : Receipt ℕ → Channel ℕ → Poll → Poll
received waits c more = blocks [] c
received fails c more = returns [] c
received (gets f) c more = called f more

-- NetDevice::PollCompletionQueue, while no other thread uses the queue.
unfoldable pub poll_completion_queue : ℕ → Channel ℕ → Poll
poll_completion_queue zero c = unfinished
poll_completion_queue (suc fuel) c =
    let r = receive c in let more = poll_completion_queue fuel r.1 in received r.0 r.1 more

-- The calls of callbacks, told to a log.
unfoldable pub tell : List ℕ → List Act → List Act
tell [] l = l
tell (f ∷ fs) l = tell fs (run_callback f ∷ l)

-- A run of the loop, up to where it returns or has to wait.
unfoldable pub told : Net → Poll → Run (Unit {0})
told n (returns fs c) = ok tt (record n { dev = record n.dev { cq = c }; log = tell fs n.log })
told n (blocks fs c) = ok tt (record n { dev = record n.dev { cq = c }; log = tell fs n.log })
told n unfinished = out_of_fuel

unfoldable pub poll : ℕ → M (Unit {0})
poll fuel n = told n (poll_completion_queue fuel n.dev.cq)
