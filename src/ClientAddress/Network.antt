-- ===== src/ClientAddress/Network.antt =====
-- The key of the rate limits: `_normalise_for_rate_limit` of fief/dependencies/client_ip.py.
use fief.Prelude.{List, ℕ, ◌≡◌, some, ◌↔◌, ◌/◌, arith, ap}
use fief.ClientAddress.{
  normalise_for_rate_limit, Addresses, Address, ipv6, network_size, ipv4, network_address,
}

number : Address → ℕ
number (ipv4 n) = n
number (ipv6 n) = n

network-eq : (m n : ℕ) → network_address m ≡ network_address n → m / network_size ≡ n / network_size
network-eq m n e = omega arith

eq-network : (m n : ℕ) → m / network_size ≡ n / network_size → network_address m ≡ network_address n
eq-network m n e = omega arith

-- Two texts of IPv6 addresses have the same rate-limit key exactly if the addresses are in the same /64
-- network, if the printed form of an address tells it apart.
pub normalise_for_rate_limit_lem :
    (ipaddress : Addresses) (a b : List ℕ) (m n : ℕ)
    → ((x y : Address) → ipaddress.str x ≡ ipaddress.str y → x ≡ y)
    → ipaddress.ip_address a ≡ some (ipv6 m)
    → ipaddress.ip_address b ≡ some (ipv6 n)
    → (normalise_for_rate_limit ipaddress a ≡ normalise_for_rate_limit ipaddress b)
      ↔ (m / network_size ≡ n / network_size)
unfolding normalise_for_rate_limit number
normalise_for_rate_limit_lem ipaddress a b m n distinct pa pb = (
  λ e.
      let printed : ipaddress.str (ipv6 (network_address m))
          ≡ ipaddress.str (ipv6 (network_address n)) =
        rw (pa, pb) at e in
      network-eq m n
        (ap number (distinct (ipv6 (network_address m)) (ipv6 (network_address n)) printed)),
  λ e. rw (pa, pb) (ap (λ x. ipaddress.str (ipv6 x)) (eq-network m n e)),
)
