-- ===== src/Device/Routing.antt =====
-- The maps of the device, and what the map of connections is to be (device.cpp).
use klibmsg.Base.{
  ℕ, ◌<◌, ◌≡◌, ◌≢◌, refl, sym, ◌∙◌, ap, Bool, true, false, ◌&&◌, inl, inr, none, some, List, [],
  ◌∷◌, arith, ◌==◌, Bool-cases,
}
use klibmsg.Os.{Ip}
use klibmsg.Device.State.{Device, User}
use klibmsg.Device.Tables.{Listed, find, is_ip_equal, find_ip}

pub eq_of_== : (a b : ℕ) → (a == b) ≡ true → a ≡ b
eq_of_== a b h = ground arith

pub find-Listed : (t j : ℕ) (m : List (ℕ × ℕ)) → find t m ≡ some j → Listed t j m
unfolding find Listed
find-Listed t j [] e = cc
find-Listed t j ((t', j') ∷ m) e = elim (Bool-cases (t' == t)) [
  | inl here ↦ inl (eq_of_== t' t here, ap_some (rw here at e))
  | inr other ↦ inr (find-Listed t j m (rw other at e))
]
  where
    ap_some : some j' ≡ some j → j' ≡ j
    ap_some h = cc

and-split : (a b : Bool) → (a && b) ≡ true → (a ≡ true) × (b ≡ true)
and-split true b h = (refl, h)
and-split false b h = cc

pub ip_eq : (a b : Ip) → is_ip_equal a b ≡ true → a ≡ b
unfolding is_ip_equal
ip_eq a b h =
    let (family_port, addr) = and-split _ _ h in
    let (family, port) = and-split _ _ family_port in
    let f : a.family ≡ b.family = eq_of_== _ _ family in
    let p : a.port ≡ b.port = eq_of_== _ _ port in
    let q : a.addr ≡ b.addr = eq_of_== _ _ addr in
    λ i. record { family = f i; port = p i; addr = q i }

is_ip_equal_refl : (a : Ip) → is_ip_equal a a ≡ true
unfolding is_ip_equal
is_ip_equal_refl a = ground arith

-- The socket that the loop finds has the address, and stands in the map.
pub find_ip-Listed :
    (ip : ℕ → Ip) (a : Ip) (j : ℕ) (m : List (ℕ × ℕ))
    → find_ip ip a m ≡ some j
    → (ip j ≡ a) × ((t : ℕ) × Listed t j m)
unfolding find_ip Listed
find_ip-Listed ip a j [] e = cc
find_ip-Listed ip a j ((t', j') ∷ m) e = elim (Bool-cases (is_ip_equal (ip j') a)) [
  | inl here ↦
      let same : j' ≡ j = ap_some (rw here at e) in
      (ap ip (sym same) ∙ ip_eq (ip j') a here, (t', inl (refl, same)))
  | inr other ↦ let (right, (t, l)) = find_ip-Listed ip a j m (rw other at e) in (right, (t, inr l))
]
  where
    ap_some : some j' ≡ some j → j' ≡ j
    ap_some h = cc

-- If it finds none, no socket of the map has the address.
pub find_ip-none :
    (ip : ℕ → Ip) (a : Ip) (m : List (ℕ × ℕ)) (t j : ℕ)
    → find_ip ip a m ≡ none
    → Listed t j m
    → ip j ≢ a
unfolding find_ip Listed
find_ip-none ip a [] t j e l = absurd l
find_ip-none ip a ((t', j') ∷ m) t j e l = elim (Bool-cases (is_ip_equal (ip j') a)) [
  | inl here ↦ cc (rw here at e)
  | inr other ↦ elim l [
    | inr later ↦ find_ip-none ip a m t j (rw other at e) later
    | inl (p, q) ↦ λ h. cc (ap ip q ∙ h, is_ip_equal_refl a)
  ]
]

-- The map of a device: each token leads to a socket that there is, whose address is the token's,
-- and tokens of the same address lead to the same socket.
pub record Routed (user : User) (ip : ℕ → Ip) (d : Device) : Type 0 where
  pub right : (t j : ℕ) → Listed t j d.token2sock → (j < d.next) × (ip j ≡ user.token2ip t)
  pub one :
      (t j t' j' : ℕ)
      → Listed t j d.token2sock
      → Listed t' j' d.token2sock
      → user.token2ip t ≡ user.token2ip t'
      → j ≡ j'

-- A token whose socket has its address, and shares it with the tokens of that address, may be added.
pub cons-Routed :
    (user : User) (ip : ℕ → Ip) (d : Device) (token j : ℕ)
    → Routed user ip d
    → j < d.next
    → ip j ≡ user.token2ip token
    → ((t' j' : ℕ) → Listed t' j' d.token2sock → user.token2ip token ≡ user.token2ip t' → j ≡ j')
    → Routed user ip (record d { token2sock = (token, j) ∷ d.token2sock })
unfolding Listed
cons-Routed user ip d token j r below same alone = record {
  right = λ t i. elim [
    | inl (p, q) ↦ (omega (arith, below, q), ap ip (sym q) ∙ same ∙ ap user.token2ip p)
    | inr l ↦ r.right t i l
  ];
  one = λ t i t' i'. elim [
    | inl (p, q) ↦ elim [
      | inl (p', q') ↦ λ e. sym q ∙ q'
      | inr l' ↦ λ e. sym q ∙ alone t' i' l' (ap user.token2ip p ∙ e)
    ]
    | inr l ↦ elim [
      | inl (p', q') ↦ λ e. sym (alone t i l (ap user.token2ip p' ∙ sym e)) ∙ q'
      | inr l' ↦ λ e. r.one t i t' i' l l' e
    ]
  ];
}
