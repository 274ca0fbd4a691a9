-- ===== src/Device/Sending.antt =====
-- SendData and SendMsg over a connection that there is already (device.cpp, socket.cpp).
use klibmsg.Base.{
  ℕ, ◌≡◌, refl, ap, Bool, true, false, some, List, [], ◌∷◌, ◌==◌, pos, Bool-cases, inl, inr, ◌⊎◌,
  ◌^◌, ◌-◌,
}
use klibmsg.Message.{NetMsg}
use klibmsg.Net.{Sock, Act, signal, Net, Run, ok, pure, and_then, ◌>>=◌, get}
use klibmsg.Device.State.{User}
use klibmsg.Device.Tables.{find}
use klibmsg.Device.Ops.{Sys, get_dev, token2socket, or_else, or_new, out_sock, send_msg, send_data}
use klibmsg.Socket.Feed.{is_idle}
use klibmsg.Socket.Api.{async_send_msg}
use klibmsg.Socket.Runs.{Leaves}
use klibmsg.Socket.Runs.Post.{sending, async_send_msg-Does}

-- SendMsg, where the token leads to a socket that is not idle.
send_msg_known :
    (fuel : ℕ) (user : User) (sys : Sys) (msg : NetMsg) (n : Net) (j : ℕ)
    → find msg.dst n.dev.token2sock ≡ some j
    → is_idle (n.socks j) ≡ false
    → send_msg fuel user sys msg n ≡ async_send_msg j msg n
unfolding send_msg out_sock token2socket get_dev get or_else or_new pure ◌>>=◌
send_msg_known fuel user sys msg n j e idle = rw (e, or_else, or_new) (rw idle refl)

-- A run that ends in the same way, with another result.
returned :
    (j : ℕ) (s' : Sock) (acts : List Act) (n : Net) (r : Run (Unit {0})) (b : Bool)
    → Leaves j tt s' acts n r
    → Leaves j b s' acts n (and_then r λ _. pure b)
unfolding pure
returned j s' acts n r b (n', e, here, log, kept, queued, others) =
    (n', ap (λ x. and_then x (λ _. ok b)) e, here, log, kept, queued, others)

-- The message of SendData.
abbrev pub data_msg : User → ℕ → ℕ → NetMsg
data_msg user src dst = record {
  msg_type = pos 1;
  src = user.token2dptr src;
  dst = dst;
  extra = user.token2dptr_size src;
}

-- SendData returns -1 and changes nothing, wherever the other token leads.
send_data_refused :
    (fuel : ℕ) (user : User) (sys : Sys) (src dst : ℕ) (n : Net)
    → (user.token2dptr src == 0) ≡ true ⊎ (user.token2dptr_size src == 0) ≡ true
    → send_data fuel user sys src dst n ≡ ok false n
unfolding send_data pure ◌>>=◌
send_data_refused fuel user sys src dst n (inl h) = rw h
send_data_refused fuel user sys src dst n (inr h) = elim (Bool-cases (user.token2dptr src == 0)) [
  | inl h' ↦ rw h'
  | inr h' ↦ rw (h', h)
]

-- Where the token's pointer is not nullptr and its size is neither 0 nor the -1 of a failure, and
-- where the other token leads to a socket that is not idle, SendData returns 0, one message with the
-- pointer, the size and that token stands behind the others of the socket, the socket's sending task
-- is in the queue of its worker if it was not marked as queued before, the worker is signalled, and
-- no other socket is touched.
pub send_data-Leaves :
    (fuel : ℕ) (user : User) (sys : Sys) (src dst : ℕ) (n : Net) (j : ℕ)
    → (user.token2dptr src == 0) ≡ false
    → (user.token2dptr_size src == 0) ≡ false
    → (user.token2dptr_size src == 2 ^ 64 - 1) ≡ false
    → find dst n.dev.token2sock ≡ some j
    → is_idle (n.socks j) ≡ false
    → Leaves j true
        (sending j (data_msg user src dst) (n.socks j))
        (signal (sending j (data_msg user src dst) (n.socks j)).worker ∷ [])
        n
        (send_data fuel user sys src dst n)
unfolding send_data pure ◌>>=◌
send_data-Leaves fuel user sys src dst n j h h' ok_size e idle =
    let msg = data_msg user src dst in
    rw (h, h', send_msg_known fuel user sys msg n j e idle)
      (returned j _ (signal (sending j msg (n.socks j)).worker ∷ []) n _ true
        ((async_send_msg-Does j msg (n.socks j)).run n refl))
