-- ===== src/Device/Ops.antt =====
-- The methods of NetDevice (device.cpp). `fuel` is that of the actions on sockets.
use klibmsg.Base.{
  ℕ, ◌+◌, ◌-◌, ◌^◌, Bool, true, false, not, Option, none, some, List, [], ◌∷◌, ◌==◌, if◌then◌else◌,
  pos, ◌==ℤ◌,
}
use klibmsg.Codes.{device_src_socket_event, net_msg_cmd_read, local_ip_token}
use klibmsg.Os.{Errno, Ip, Io}
use klibmsg.Message.{NetMsg}
use klibmsg.Channel.{send, close_send_end, close_receive_end}
use klibmsg.Pool.{choose_worker}
use klibmsg.Device.State.{Device, User}
use klibmsg.Device.Tables.{find, emplace, erase_key, find_ip}
use klibmsg.Net.{ok, M, pure, ◌>>=◌, ◌>>◌, get, modify, change, check}
use klibmsg.Socket.Ops.{Env}
use klibmsg.Socket.Events.{async_stop}
use klibmsg.Socket.Feed.{is_idle}
use klibmsg.Socket.Api.{init, start, bind, listen, accept, connect, async_send_msg}

-- What the system answers to the calls that one method may make: of `socket`, `connect`, and in
-- NetDevice::Init of `setsockopt`, `bind` and `listen`.
pub record Sys : Type 0 where
  pub env : Env
  pub made : Io ℕ
  pub connect_errno : Errno
  pub opt_errno : Errno
  pub bind_errno : Errno
  pub listen_errno : Errno

unfoldable pub get_dev : M Device
get_dev n = ok n.dev n

unfoldable pub get_ips : M (ℕ → Ip)
get_ips n = ok (λ j. (n.socks j).ip) n

unfoldable pub change_dev : (Device → Device) → M (Unit {0})
change_dev f = change λ n. record n { dev = f n.dev }

-- listen_sock_
abbrev pub listen_sock : ℕ
listen_sock = 0

-- `new NetSocket` and its `Init`, for which the pool chooses a worker.
unfoldable pub new_socket : Ip → M ℕ
new_socket ip = do
  dev ← get_dev
  change_dev
      λ d. record d { next = d.next + 1; cur_worker_idx = (choose_worker d.cur_worker_idx).1 }
  modify dev.next λ s.
      init device_src_socket_event (choose_worker dev.cur_worker_idx).0 ip
        (record s { is_out_buf_busy = false })
  pure dev.next

abbrev insert_sock : ℕ → Device → Device
insert_sock j d = record d { sock_sets = j ∷ d.sock_sets }

abbrev emplace_sock : ℕ → ℕ → Device → Device
emplace_sock token j d = record d { token2sock = emplace token j d.token2sock }

-- NetDevice::Token2Socket
unfoldable pub token2socket : ℕ → M (Option ℕ)
token2socket token = do dev ← get_dev; pure (find token dev.token2sock)

-- A socket of the map with the address of the token, which the token then has too.
unfoldable pub adopt : ℕ → Option ℕ → M (Option ℕ)
adopt token none = pure none
adopt token (some j) = do change_dev (emplace_sock token j); pure (some j)

unfoldable pub socket_by_ip : User → ℕ → M (Option ℕ)
socket_by_ip user token = do
  dev ← get_dev
  ips ← get_ips
  adopt token (find_ip ips (user.token2ip token) dev.token2sock)

unfoldable pub new_connection : User → ℕ → M ℕ
new_connection user token = do
  j ← new_socket (user.token2ip token)
  change_dev (insert_sock j)
  change_dev (emplace_sock token j)
  sock ← get j
  check (is_idle sock)
  pure j

unfoldable pub or_else : Option ℕ → M (Option ℕ) → M (Option ℕ)
or_else (some j) m = pure (some j)
or_else none m = m

unfoldable pub or_new : Option ℕ → M ℕ → M ℕ
or_new (some j) m = pure j
or_new none m = m

-- The socket of SendMsg: `out_sock`.
unfoldable pub out_sock : User → ℕ → M ℕ
out_sock user token = do
  known ← token2socket token
  found ← or_else known (socket_by_ip user token)
  or_new found (new_connection user token)

-- `out_sock->Start(…); out_sock->Connect();`
unfoldable pub open_socket : ℕ → Sys → ℕ → M (Unit {0})
open_socket fuel sys j = do
  rc ← start fuel sys.env j sys.made
  connect fuel sys.env j sys.connect_errno

-- NetDevice::SendMsg
unfoldable pub send_msg : ℕ → User → Sys → NetMsg → M (Unit {0})
send_msg fuel user sys msg = do
  j ← out_sock user msg.dst
  sock ← get j
  if is_idle sock then open_socket fuel sys j else pure tt
  async_send_msg j msg

-- NetDevice::SendData; `false` is -1.
unfoldable pub send_data : ℕ → User → Sys → ℕ → ℕ → M Bool
send_data fuel user sys src_token dst_token =
    let address = user.token2dptr src_token in
    let size = user.token2dptr_size src_token in
    if address == 0 then pure false else if size == 0 then pure false else (do
      send_msg fuel user sys
          (record { msg_type = pos 1; src = address; dst = dst_token; extra = size })
      pure true)

-- `token2callback_.emplace(msg.dst.token, callback);`
unfoldable pub add_callback : ℕ → ℕ → M (Unit {0})
add_callback token callback =
    change_dev λ d. record d { token2callback = emplace token callback d.token2callback }

-- NetDevice::ReadData
unfoldable pub read_data : ℕ → User → Sys → ℕ → ℕ → ℕ → M (Unit {0})
read_data fuel user sys src_token dst_token callback = do
  add_callback src_token callback
  send_msg fuel user sys
      (record { msg_type = pos 0; src = dst_token; dst = src_token; extra = net_msg_cmd_read })

-- The callback of a token goes to the completion queue, and is forgotten.
unfoldable pub complete : ℕ → Option ℕ → M (Unit {0})
complete token none = pure tt
complete token (some callback) =
    change_dev λ d. record d {
      cq = (send callback d.cq).1;
      token2callback = erase_key token d.token2callback;
    }

-- NetDevice::ParseNetMsg
unfoldable pub parse_net_msg : ℕ → User → Sys → NetMsg → M (Unit {0})
parse_net_msg fuel user sys msg =
    if msg.msg_type ==ℤ pos 0
    then (if msg.extra == net_msg_cmd_read
        then (do
          let size = user.token2dptr_size msg.src
          check (not (size == 2 ^ 64 - 1))
          send_msg fuel user sys (record {
            msg_type = pos 1;
            src = user.token2dptr msg.src;
            dst = msg.dst;
            extra = size;
          }))
        else check false)
    else if msg.msg_type ==ℤ pos 1
    then (do dev ← get_dev; complete msg.dst (find msg.dst dev.token2callback))
    else check false

abbrev no_ip : Ip
no_ip = record { family = 0; port = 0; addr = 0 }

-- NetDevice::PairListenSocket
unfoldable pub pair_listen_socket : ℕ → Env → M (Unit {0})
pair_listen_socket fuel env = do
  j ← new_socket no_ip
  change_dev (insert_sock j)
  accept fuel env j listen_sock

-- NetDevice::Init, behind the `Init` of the pool; the results of the calls are not looked at.
unfoldable pub init_device : ℕ → User → Sys → M (Unit {0})
init_device fuel user sys = do
  let ip = user.token2ip local_ip_token
  dev ← get_dev
  change_dev λ d. record d { ip_addr = ip; cur_worker_idx = (choose_worker d.cur_worker_idx).1 }
  modify listen_sock (init device_src_socket_event (choose_worker dev.cur_worker_idx).0 ip)
  started ← start fuel sys.env listen_sock sys.made
  bound ← bind listen_sock sys.opt_errno sys.bind_errno
  listening ← listen fuel sys.env listen_sock sys.listen_errno
  pair_listen_socket fuel sys.env

-- NetDevice::CloseCompletionQueue
unfoldable pub close_completion_queue : M (Unit {0})
close_completion_queue = change_dev λ d. record d { cq = close_receive_end (close_send_end d.cq) }

-- ~NetDevice
unfoldable pub stop_all : List ℕ → M (Unit {0})
stop_all [] = pure tt
stop_all (j ∷ js) = do async_stop j; stop_all js
