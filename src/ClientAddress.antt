-- ===== src/ClientAddress.antt =====
-- The address of a client: fief/dependencies/client_ip.py. A text is its list of code points, and a
-- header is ASCII text. Python's `ipaddress` is the parameter `Addresses`: it reads an address as its
-- version and number and prints one.
pub mod Spoofing
pub mod Network
mod Tests
use fief.Recovery.{strip_left, strip_right}
use fief.Prelude.{
  List, ℕ, Option, max, some, ◌∷◌, ◌-◌, length, Bool, none, suc, if◌then◌else◌, true, select, ◌%◌,
  [], ◌==◌, false, zero, not, map,
}

-- x.split(",")
abbrev pub comma : ℕ
comma = 44

abbrev pub add_first : ℕ → List (List ℕ) → List (List ℕ)
add_first c [] = (c ∷ []) ∷ []
add_first c (p ∷ ps) = (c ∷ p) ∷ ps

unfoldable pub split : List ℕ → List (List ℕ)
split [] = [] ∷ []
split (c ∷ s) = let rest = split s in if c == comma then [] ∷ rest else add_first c rest

abbrev pub is_empty : List ℕ → Bool
is_empty [] = true
is_empty (c ∷ s) = false

-- the entries of the header, without whitespace around them and without the empty ones
unfoldable pub xff_entries : List ℕ → List (List ℕ)
unfolding split strip_left strip_right
xff_entries header =
    select (λ p. not (is_empty p)) (map (λ p. strip_right (strip_left p)) (split header))

unfoldable pub get_elem : List (List ℕ) → ℕ → Option (List ℕ)
get_elem [] i = none
get_elem (x ∷ xs) zero = some x
get_elem (x ∷ xs) (suc i) = get_elem xs i

-- the entry at this index from the right, and the leftmost if there are not enough
unfoldable pub from_right : ℕ → List (List ℕ) → Option (List ℕ)
unfolding get_elem
from_right i xs = get_elem xs (length xs - i)

unfoldable pub select_xff_entry : List ℕ → ℕ → Option (List ℕ)
unfolding xff_entries from_right
select_xff_entry header trusted_proxy_count =
    from_right (max 1 trusted_proxy_count) (xff_entries header)

pub data Address : Type 0 where
  ipv4 ipv6 : ℕ → Address

pub record Addresses : Type 0 where
  pub ip_address : List ℕ → Option Address
  pub str : Address → List ℕ

-- 2 ** 64
abbrev pub network_size : ℕ
network_size = 18446744073709551616

-- the network address of the /64 network
abbrev pub network_address : ℕ → ℕ
network_address n = n - n % network_size

pub record ClientIpInfo : Type 0 where
  pub raw : List ℕ
  pub rate_limit_key : List ℕ

abbrev pub unknown_client : List ℕ
unknown_client = 117 ∷ 110 ∷ 107 ∷ 110 ∷ 111 ∷ 119 ∷ 110 ∷ []

-- a text that is there and not empty
abbrev pub present : Option (List ℕ) → Option (List ℕ)
present none = none
present (some s) = if is_empty s then none else some s

abbrev pub host_or_unknown : Option (List ℕ) → List ℕ
host_or_unknown none = unknown_client
host_or_unknown (some host) = host

-- the header counts only behind a trusted proxy
unfoldable pub forwarded : ℕ → Option (List ℕ) → Option (List ℕ)
unfolding select_xff_entry
forwarded zero header = none
forwarded (suc n) none = none
forwarded (suc n) (some header) = if is_empty header then none else select_xff_entry header (suc n)

module _ (ipaddress : Addresses) where
  unfoldable pub normalise_parsed : List ℕ → Option Address → List ℕ
  normalise_parsed ip none = ip
  normalise_parsed ip (some (ipv4 n)) = ipaddress.str (ipv4 n)
  normalise_parsed ip (some (ipv6 n)) = ipaddress.str (ipv6 (network_address n))

  unfoldable pub normalise_for_rate_limit : List ℕ → List ℕ
  unfolding normalise_parsed
  normalise_for_rate_limit ip = normalise_parsed ip (ipaddress.ip_address ip)

  abbrev pub info_of : List ℕ → ClientIpInfo
  info_of chosen = record { raw = chosen; rate_limit_key = normalise_for_rate_limit chosen }

  -- the peer's host when no entry was chosen
  unfoldable pub chosen_or_peer : Option (List ℕ) → Option (List ℕ) → ClientIpInfo
  unfolding normalise_for_rate_limit
  chosen_or_peer (some chosen) host = info_of chosen
  chosen_or_peer none host = info_of (host_or_unknown (present host))

  -- from `trusted_proxy_count`, the header X-Forwarded-For and the host of the peer
  unfoldable pub get_client_ip_info : ℕ → Option (List ℕ) → Option (List ℕ) → ClientIpInfo
  unfolding forwarded chosen_or_peer
  get_client_ip_info trusted_proxy_count xff_header host =
      chosen_or_peer (forwarded trusted_proxy_count xff_header) host
