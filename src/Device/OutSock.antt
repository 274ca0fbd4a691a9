-- ===== src/Device/OutSock.antt =====
-- SendMsg's choice of a socket (device.cpp).
use klibmsg.Base.{
  ℕ, ◌+◌, ◌≡◌, ◌≢◌, refl, sym, ◌∙◌, ap, ◌⊎◌, inl, inr, none, some, List, ◌∷◌, arith, ◌==◌,
  Bool-cases, Option-cases, ==_refl,
}
use klibmsg.Os.{Ip}
use klibmsg.Net.{
  Sock, Net, Run, ok, abort, out_of_fuel, pure, ◌>>=◌, get, modify, change, check, update,
}
use klibmsg.Net.Laws.{update_self, update_ne}
use klibmsg.Device.State.{Device, User}
use klibmsg.Device.Tables.{Listed, find, emplace, find_ip}
use klibmsg.Device.Routing.{find_ip-Listed, find_ip-none, Routed, cons-Routed}
use klibmsg.Socket.Api.{init}
use klibmsg.Socket.Feed.{is_idle}
use klibmsg.Device.Ops.{
  get_dev, get_ips, change_dev, new_socket, token2socket, adopt, socket_by_ip, new_connection,
  or_else, or_new, out_sock,
}

abbrev ips : Net → ℕ → Ip
ips n j = (n.socks j).ip

-- The choice of a socket ends: the map is as it is to be, the token leads to the socket, what was in
-- the map is still there, and a socket is made only if no token of the map had the address.
abbrev pub Chosen : User → ℕ → Net → Run ℕ → Type 0
Chosen user token n (ok j n') =
    Routed user (ips n') n'.dev
    × (find token n'.dev.token2sock ≡ some j)
    × ((t i : ℕ) → find t n.dev.token2sock ≡ some i → find t n'.dev.token2sock ≡ some i)
    × ((n'.dev.next ≡ n.dev.next)
        ⊎ ((t i : ℕ) → Listed t i n.dev.token2sock → user.token2ip t ≢ user.token2ip token))
Chosen user token n abort = ⊥
Chosen user token n out_of_fuel = ⊥

find_cons : (token j : ℕ) (m : List (ℕ × ℕ)) → find token ((token, j) ∷ m) ≡ some j
unfolding find
find_cons token j m = rw (==_refl token)

find_cons_kept :
    (token j t i : ℕ) (m : List (ℕ × ℕ))
    → find token m ≡ none
    → find t m ≡ some i
    → find t ((token, j) ∷ m) ≡ some i
unfolding find
find_cons_kept token j t i m e h = elim (Bool-cases (token == t)) [
  | inl same ↦ let p : token ≡ t = ground arith in cc
  | inr other ↦ rw other h
]

module _ (user : User) (token : ℕ) (n : Net) (r : Routed user (ips n) n.dev) where
  by_ip-Chosen :
      (j : ℕ)
      → find token n.dev.token2sock ≡ none
      → find_ip (ips n) (user.token2ip token) n.dev.token2sock ≡ some j
      → Chosen user token n
          (ok j (record n { dev = record n.dev { token2sock = (token, j) ∷ n.dev.token2sock } }))
  by_ip-Chosen j e h =
      let (same, (t, l)) = find_ip-Listed (ips n) _ j n.dev.token2sock h in
      (
        cons-Routed user (ips n) n.dev token j r (r.right t j l).0 same
            λ t' j' l' q. r.one t j t' j' l l' (sym (r.right t j l).1 ∙ same ∙ q),
        find_cons token j n.dev.token2sock,
        λ t' i g. find_cons_kept token j t' i n.dev.token2sock e g,
        inl refl,
      )

  new-Chosen :
      (s : Sock) (w : ℕ)
      → s.ip ≡ user.token2ip token
      → find token n.dev.token2sock ≡ none
      → find_ip (ips n) (user.token2ip token) n.dev.token2sock ≡ none
      → Chosen user token n (
          ok n.dev.next (record n {
            socks = update n.socks n.dev.next s;
            dev = record n.dev {
              next = n.dev.next + 1;
              cur_worker_idx = w;
              sock_sets = n.dev.next ∷ n.dev.sock_sets;
              token2sock = (token, n.dev.next) ∷ n.dev.token2sock;
            };
          }))
  new-Chosen s w ip e h =
      let n' = record n { socks = update n.socks n.dev.next s } in
      let d = record n.dev {
        next = n.dev.next + 1;
        cur_worker_idx = w;
        sock_sets = n.dev.next ∷ n.dev.sock_sets;
      } in
      let fresh : (t' j' : ℕ)
          → Listed t' j' n.dev.token2sock
          → user.token2ip token ≢ user.token2ip t' =
        λ t' j' l q.
          find_ip-none (ips n) _ n.dev.token2sock t' j' h l ((r.right t' j' l).1 ∙ sym q) in
      let kept : Routed user (ips n') d = record {
        right = λ t i l. (
          omega (arith, (r.right t i l).0),
          ap (λ x. x.ip)
                (update_ne n.socks n.dev.next i s
                  (λ p. absurd (omega (arith, p, (r.right t i l).0))))
              ∙ (r.right t i l).1,
        );
        one = r.one;
      } in
      (
        cons-Routed user (ips n') d token n.dev.next kept (omega arith)
            (ap (λ x. x.ip) (update_self n.socks n.dev.next s) ∙ ip)
            λ t' j' l' q. absurd (fresh t' j' l' q),
        find_cons token n.dev.next n.dev.token2sock,
        λ t' i g. find_cons_kept token n.dev.next t' i n.dev.token2sock e g,
        inr λ t i l q. fresh t i l (sym q),
      )

  new_connection-Chosen :
      find token n.dev.token2sock ≡ none
      → find_ip (ips n) (user.token2ip token) n.dev.token2sock ≡ none
      → Chosen user token n (new_connection user token n)
  unfolding new_connection new_socket get_dev change_dev change modify get check pure ◌>>=◌ emplace
      is_idle init
  new_connection-Chosen e h = rw (e, update_self n.socks n.dev.next) (new-Chosen _ _ refl e h)

  socket_by_ip-Chosen :
      find token n.dev.token2sock ≡ none
      → Chosen user token n
          ((or_else none (socket_by_ip user token) >>= λ o. or_new o (new_connection user token)) n)
  unfolding or_else or_new socket_by_ip get_dev get_ips adopt change_dev change pure ◌>>=◌ emplace
  socket_by_ip-Chosen e =
      elim (Option-cases (find_ip (ips n) (user.token2ip token) n.dev.token2sock)) [
        | inl h ↦ rw (h, adopt, or_new) (new_connection-Chosen e h)
        | inr (j, h) ↦ rw (h, adopt, or_new, e) (by_ip-Chosen j e h)
      ]

-- From a map that is as it is to be, SendMsg's choice of a socket always ends, with no CHECK that
-- fails, and the map is then so too: each token leads to a socket whose address is its own, tokens
-- of the same address lead to the same socket, the token of the message leads to the socket that
-- was chosen, what was in the map is still there, and a socket is made only if no token of the map
-- had the address.
pub out_sock-Chosen :
    (user : User) (token : ℕ) (n : Net)
    → Routed user (ips n) n.dev
    → Chosen user token n (out_sock user token n)
unfolding out_sock token2socket get_dev or_else or_new pure ◌>>=◌
out_sock-Chosen user token n r = elim (Option-cases (find token n.dev.token2sock)) [
  | inr (j, e) ↦ rw (e, or_else, or_new) (r, e, (λ t i h. h), inl refl)
  | inl e ↦ rw e (socket_by_ip-Chosen user token n r e)
]

-- Where the map of connections is as it is to be, SendMsg's loop over it finds the same socket in
-- whatever order the entries are walked.
pub find_ip-Routed :
    (user : User) (ip : ℕ → Ip) (d : Device) (a : Ip) (m : List (ℕ × ℕ))
    → Routed user ip d
    → ((t j : ℕ) → Listed t j m → Listed t j d.token2sock)
    → ((t j : ℕ) → Listed t j d.token2sock → Listed t j m)
    → find_ip ip a m ≡ find_ip ip a d.token2sock
find_ip-Routed user ip d a m r there back = elim (Option-cases (find_ip ip a m)) [
  | inl e ↦ elim (Option-cases (find_ip ip a d.token2sock)) [
    | inl e' ↦ e ∙ sym e'
    | inr (j, e') ↦
        let (same, (t, l)) = find_ip-Listed ip a j d.token2sock e' in
        absurd (find_ip-none ip a m t j e (back t j l) same)
  ]
  | inr (i, e) ↦
      let (same, (t, l)) = find_ip-Listed ip a i m e in
      elim (Option-cases (find_ip ip a d.token2sock)) [
        | inl e' ↦ absurd (find_ip-none ip a d.token2sock t i e' (there t i l) same)
        | inr (j, e') ↦
            let (same', (t', l')) = find_ip-Listed ip a j d.token2sock e' in
            let (k, p) = r.right t i (there t i l) in
            let (k', p') = r.right t' j l' in
            e ∙ ap some (r.one t i t' j (there t i l) l' (sym p ∙ same ∙ sym same' ∙ p')) ∙ sym e'
      ]
]
