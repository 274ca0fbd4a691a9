-- ===== src/Device/Tables.antt =====
-- The maps of the device, as lists of keys and values. The order in which an `unordered_map` is
-- walked is not specified; here it is the order of the list.
use klibmsg.Base.{
  ℕ, Bool, ◌&&◌, Option, none, some, List, [], ◌∷◌, ◌==◌, ◌≡◌, ◌⊎◌, if◌then◌else◌, is_some,
}
use klibmsg.Os.{Ip}

-- `find`
unfoldable pub find : ℕ → List (ℕ × ℕ) → Option ℕ
find k [] = none
find k ((j, v) ∷ m) = if j == k then some v else find k m

-- `emplace`, which leaves the value of a key that is there.
unfoldable pub emplace : ℕ → ℕ → List (ℕ × ℕ) → List (ℕ × ℕ)
unfolding find
emplace k v m = if is_some (find k m) then m else (k, v) ∷ m

-- `erase` of the entry that `find` found.
unfoldable pub erase_key : ℕ → List (ℕ × ℕ) → List (ℕ × ℕ)
erase_key k [] = []
erase_key k ((j, v) ∷ m) = if j == k then m else (j, v) ∷ erase_key k m

-- IsIpEqual
unfoldable pub is_ip_equal : Ip → Ip → Bool
is_ip_equal a b = (a.family == b.family && a.port == b.port) && a.addr == b.addr

-- The loop of SendMsg: the first socket of the map with an address.
unfoldable pub find_ip : (ℕ → Ip) → Ip → List (ℕ × ℕ) → Option ℕ
find_ip ip addr [] = none
find_ip ip addr ((t, j) ∷ m) = if is_ip_equal (ip j) addr then some j else find_ip ip addr m

-- An entry of a map.
unfoldable pub Listed : ℕ → ℕ → List (ℕ × ℕ) → Type 0
Listed t j [] = ⊥
Listed t j ((t', j') ∷ m) = ((t' ≡ t) × (j' ≡ j)) ⊎ Listed t j m
