-- ===== src/ClientAddress/Tests.antt =====
-- Addresses of a client on concrete headers.
use fief.ClientAddress.Spoofing.{joined, get_client_ip_info-joined}
use fief.Recovery.{strip_left, strip_right}
use fief.ClientAddress.{
  Addresses, Address, xff_entries, split, ipv4, get_client_ip_info, ipv6, comma,
}
use fief.Prelude.{List, ℕ, Option, none, ◌∷◌, if◌then◌else◌, [], select, ◌==◌, some, ◌≡◌, arith}

abbrev read_number : List ℕ → Option Address
read_number [] = none
read_number (v ∷ []) = none
read_number (v ∷ n ∷ s) = if v == 6 then some (ipv6 n) else some (ipv4 n)

abbrev print : Address → List ℕ
print (ipv4 n) = 4 ∷ n ∷ []
print (ipv6 n) = 6 ∷ n ∷ []

-- an address is written as its version and its number
abbrev in_memory : Addresses
in_memory = record { ip_address = read_number; str = print }

get_client_ip_info-joined_example :
    get_client_ip_info in_memory 2
      (some (joined (6 ∷ 9 ∷ []) (6 ∷ 7 ∷ comma ∷ b' ' ∷ 4 ∷ 8 ∷ [])))
      none
    ≡ get_client_ip_info in_memory 2 (some (6 ∷ 7 ∷ comma ∷ b' ' ∷ 4 ∷ 8 ∷ [])) none
unfolding xff_entries split strip_left strip_right select
get_client_ip_info-joined_example =
    get_client_ip_info-joined in_memory 2 (6 ∷ 9 ∷ []) (6 ∷ 7 ∷ comma ∷ b' ' ∷ 4 ∷ 8 ∷ []) none
      (omega arith) (omega arith)
