-- ===== src/Device/Callbacks.antt =====
-- The callbacks of ReadData, from `token2callback_` through the completion queue to
-- PollCompletionQueue (device.h, device.cpp).
use klibmsg.Base.{
  ℕ, zero, suc, ◌<◌, ◌≡◌, ◌∙◌, subst, sym, refl, ap, Bool, true, false, none, some, List, [], ◌∷◌,
  ◌++◌, arith, if◌then◌else◌, Bool-cases, inl, inr, ==_refl, length, pos,
}
use klibmsg.Message.{NetMsg}
use klibmsg.Channel.{Channel, send, front, receive, close_send_end, close_receive_end}
use klibmsg.Net.{Net, ok, pure, ◌>>=◌, ◌>>◌, change}
use klibmsg.Device.State.{User}
use klibmsg.Device.Tables.{find, emplace, erase_key}
use klibmsg.Device.Completion.{Poll, returns, blocks, called, received, poll_completion_queue}
use klibmsg.Device.Ops.{
  Sys, get_dev, change_dev, complete, add_callback, parse_net_msg, close_completion_queue,
}

-- Where the loop stops, once the queue is empty.
abbrev pub ended : Channel ℕ → List ℕ → Poll
ended c fs = let d = record c { val = [] } in if c.is_send_closed then returns fs d else blocks fs d

called-ended : (f : ℕ) (c : Channel ℕ) (fs : List ℕ) → called f (ended c fs) ≡ ended c (f ∷ fs)
called-ended f c fs = elim (Bool-cases c.is_send_closed) [ inl e ↦ rw e | inr e ↦ rw e ]

poll-list :
    (fuel : ℕ) (l : List ℕ) (closed : Bool)
    → length l < fuel
    → let c : Channel ℕ = record { val = l; is_send_closed = closed; is_receive_closed = false } in
      poll_completion_queue fuel c ≡ ended c l
unfolding poll_completion_queue receive front received
poll-list zero l closed h = absurd (omega (arith, h))
poll-list (suc fuel) [] true h = refl
poll-list (suc fuel) [] false h = refl
poll-list (suc fuel) (f ∷ l) closed h =
    let c : Channel ℕ = record { val = l; is_send_closed = closed; is_receive_closed = false } in
    ap (called f) (poll-list fuel l closed (omega (arith, h))) ∙ called-ended f c l

channel :
    (c : Channel ℕ)
    → c.is_receive_closed ≡ false
    → c ≡ record { val = c.val; is_send_closed = c.is_send_closed; is_receive_closed = false }
channel c p =
    λ i. record { val = c.val; is_send_closed = c.is_send_closed; is_receive_closed = p i }

poll_shut :
    (fuel : ℕ) (l : List ℕ)
    → let c : Channel ℕ = record { val = l; is_send_closed = true; is_receive_closed = true } in
      poll_completion_queue (suc fuel) c ≡ returns [] c
unfolding poll_completion_queue receive front received
poll_shut fuel [] = refl
poll_shut fuel (f ∷ l) = refl

-- With the receiving end open and more fuel than there are callbacks, PollCompletionQueue calls
-- every callback of the queue, in the order in which they were sent; then it returns if the sending
-- end is closed, and else it blocks.
pub poll_completion_queue-ended :
    (fuel : ℕ) (c : Channel ℕ)
    → length c.val < fuel
    → c.is_receive_closed ≡ false
    → poll_completion_queue fuel c ≡ ended c c.val
poll_completion_queue-ended fuel c h e =
    subst (λ x. poll_completion_queue fuel x ≡ ended x x.val) (sym (channel c e))
      (poll-list fuel c.val c.is_send_closed h)

-- After CloseCompletionQueue, PollCompletionQueue returns at once, and it calls no callback, even if
-- there are callbacks in the queue, which stay there.
pub poll-close_completion_queue :
    (n : Net)
    → (n' : Net) × (close_completion_queue n ≡ ok tt n')
      × (n'.dev.cq.val ≡ n.dev.cq.val)
      × ((fuel : ℕ) → poll_completion_queue (suc fuel) n'.dev.cq ≡ returns [] n'.dev.cq)
unfolding close_completion_queue change_dev change close_receive_end close_send_end
poll-close_completion_queue n = (_, refl, refl, λ fuel. poll_shut fuel n.dev.cq.val)

-- A data message for a token whose callback is in the map.
complete_found :
    (token : ℕ) (n : Net) (callback : ℕ)
    → n.dev.cq.is_send_closed ≡ false
    → complete token (some callback) n
      ≡ ok tt (record n {
        dev = record n.dev {
          cq = record n.dev.cq { val = n.dev.cq.val ++ callback ∷ [] };
          token2callback = erase_key token n.dev.token2callback;
        };
      })
unfolding complete change_dev change send
complete_found token n callback e = rw e

erase-emplace :
    (token callback : ℕ) (m : List (ℕ × ℕ))
    → find token m ≡ none
    → (find token (emplace token callback m) ≡ some callback)
      × (erase_key token (emplace token callback m) ≡ m)
unfolding find emplace erase_key
erase-emplace token callback m e = rw (e, ==_refl token) (refl, refl)

data_msg :
    (fuel : ℕ) (user : User) (sys : Sys) (m : NetMsg) (token : ℕ) (n : Net)
    → (m.msg_type ≡ pos 1) × (m.dst ≡ token)
    → parse_net_msg fuel user sys m n ≡ complete token (find token n.dev.token2callback) n
unfolding parse_net_msg get_dev ◌>>=◌
data_msg fuel user sys m token n (t, d) = rw (t, d)

-- A data message for a token that has no callback.
unknown_data_msg :
    (fuel : ℕ) (user : User) (sys : Sys) (m : NetMsg) (token : ℕ) (n : Net)
    → (m.msg_type ≡ pos 1) × (m.dst ≡ token)
    → find token n.dev.token2callback ≡ none
    → parse_net_msg fuel user sys m n ≡ ok tt n
unfolding complete pure
unknown_data_msg fuel user sys m token n h e = rw (data_msg fuel user sys m token n h, e)

known_data_msg :
    (fuel : ℕ) (user : User) (sys : Sys) (m : NetMsg) (token callback : ℕ) (n : Net)
    → (m.msg_type ≡ pos 1) × (m.dst ≡ token)
    → find token n.dev.token2callback ≡ some callback
    → n.dev.cq.is_send_closed ≡ false
    → parse_net_msg fuel user sys m n
      ≡ ok tt (record n {
        dev = record n.dev {
          cq = record n.dev.cq { val = n.dev.cq.val ++ callback ∷ [] };
          token2callback = erase_key token n.dev.token2callback;
        };
      })
known_data_msg fuel user sys m token callback n h e closed =
    rw (data_msg fuel user sys m token n h, e) (complete_found token n callback closed)

-- A token that has no callback gets one by ReadData. The first data message for it puts the callback
-- into the completion queue, behind what is there, and takes it out of the map; a second data
-- message for it changes nothing. So the callback is in the queue once, and the map is what it was.
pub parse_net_msg-add_callback :
    (fuel : ℕ) (user : User) (sys sys' : Sys) (token callback : ℕ) (m m' : NetMsg) (n : Net)
    → find token n.dev.token2callback ≡ none
    → n.dev.cq.is_send_closed ≡ false
    → (m.msg_type ≡ pos 1) × (m.dst ≡ token)
    → (m'.msg_type ≡ pos 1) × (m'.dst ≡ token)
    → (add_callback token callback
          >> (parse_net_msg fuel user sys m >> parse_net_msg fuel user sys' m'))
        n
      ≡ ok tt (record n {
        dev = record n.dev { cq = record n.dev.cq { val = n.dev.cq.val ++ callback ∷ [] } };
      })
unfolding add_callback change_dev change ◌>>=◌
parse_net_msg-add_callback fuel user sys sys' token callback m m' n e closed h h' =
    let (found, erased) = erase-emplace token callback n.dev.token2callback e in
    let n' = record n {
      dev = record n.dev { token2callback = emplace token callback n.dev.token2callback };
    } in
    rw (known_data_msg fuel user sys m token callback n' h found closed, erased)
      (unknown_data_msg fuel user sys' m' token _ h' e)
