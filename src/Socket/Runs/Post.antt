-- ===== src/Socket/Runs/Post.antt =====
-- What AsyncSendMsg makes of a socket (socket.cpp).
use klibmsg.Base.{ℕ, refl, [], ◌∷◌, ◌++◌}
use klibmsg.Message.{NetMsg}
use klibmsg.Net.{Sock, signal, send_task}
use klibmsg.Socket.Api.{async_send_msg}
use klibmsg.Socket.Runs.{Does, tasked, step-Does, modify-Does, execute-Does}

-- A socket whose queue of messages has one more, and whose worker is to send.
abbrev pub sending : ℕ → NetMsg → Sock → Sock
sending j msg s =
    tasked j (record s { msg_buffer_queue = s.msg_buffer_queue ++ msg ∷ [] }) send_task

pub async_send_msg-Does :
    (j : ℕ) (msg : NetMsg) (s : Sock)
    → Does j s (async_send_msg j msg) tt (sending j msg s) (signal (sending j msg s).worker ∷ [])
unfolding async_send_msg
async_send_msg-Does j msg s =
    step-Does (modify-Does j s _ (refl, λ k h. h)) (execute-Does j _ send_task)
