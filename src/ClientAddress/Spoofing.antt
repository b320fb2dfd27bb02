-- ===== src/ClientAddress/Spoofing.antt =====
-- What a client can make of the header X-Forwarded-For: fief/dependencies/client_ip.py.
use fief.Prelude.{
  List, select, ℕ, ◌≡◌, ◌≤◌, Bool, map, ◌++◌, Option, refl, ◌<◌, ◌∷◌, length, arith, ap, some, [],
  ◌-◌, ◌+◌, length-append, suc, ◌≢◌, Bool-cases, inl, true, zero, ◌==◌, false, inr, max,
}
use fief.ClientAddress.{
  xff_entries, split, from_right, get_elem, get_client_ip_info, Addresses, comma, forwarded,
  add_first, is_empty,
}

-- a text up to a comma, and the rest
abbrev pub joined : List ℕ → List ℕ → List ℕ
joined a b = a ++ comma ∷ b

add_first-append :
    (c : ℕ) (xs ys : List (List ℕ)) → length xs ≢ 0 → add_first c (xs ++ ys) ≡ add_first c xs ++ ys
add_first-append c [] ys h = absurd (h refl)
add_first-append c (x ∷ xs) ys h = refl

longer : (c : ℕ) (xs : List (List ℕ)) → length (add_first c xs) ≢ 0
longer c [] = λ z. absurd (omega arith)
longer c (x ∷ xs) = λ z. absurd (omega arith)

length-split : (a : List ℕ) → length (split a) ≢ 0
unfolding split
length-split [] = λ e. absurd (omega arith)
length-split (c ∷ a) = elim (Bool-cases (c == comma)) [
  | inl e ↦ rw e (λ z. absurd (omega arith))
  | inr e ↦ rw e (longer c (split a))
]

split-joined : (a b : List ℕ) → split (joined a b) ≡ split a ++ split b
unfolding split
split-joined [] b = ground arith
split-joined (c ∷ a) b = elim (Bool-cases (c == comma)) [
  | inl e ↦ rw (e, split-joined a b) refl
  | inr e ↦ rw (e, split-joined a b) (add_first-append c (split a) (split b) (length-split a))
]

select-append :
    (p : List ℕ → Bool) (xs ys : List (List ℕ)) → select p (xs ++ ys) ≡ select p xs ++ select p ys
unfolding select
select-append p [] ys = refl
select-append p (x ∷ xs) ys = ground (arith, select-append p xs ys)

map_append : (f : List ℕ → List ℕ) (xs ys : List (List ℕ)) → map f (xs ++ ys) ≡ map f xs ++ map f ys
map_append f [] ys = refl
map_append f (x ∷ xs) ys = ap (λ l. f x ∷ l) (map_append f xs ys)

xff_entries-joined : (a b : List ℕ) → xff_entries (joined a b) ≡ xff_entries a ++ xff_entries b
unfolding xff_entries
xff_entries-joined a b = rw (split-joined a b, map_append, select-append) refl

get_elem-append :
    (xs ys : List (List ℕ)) (k i : ℕ) → k ≡ length xs + i → get_elem (xs ++ ys) k ≡ get_elem ys i
unfolding get_elem
get_elem-append [] ys k i h = ap (get_elem ys) (omega arith)
get_elem-append (x ∷ xs) ys zero i h = absurd (omega arith)
get_elem-append (x ∷ xs) ys (suc k) i h = get_elem-append xs ys k i (omega arith)

from_right-append :
    (i : ℕ) (xs ys : List (List ℕ)) → i ≤ length ys → from_right i (xs ++ ys) ≡ from_right i ys
unfolding from_right
from_right-append i xs ys h =
    get_elem-append xs ys (length (xs ++ ys) - i) (length ys - i)
      (omega (arith, length-append xs ys))

is_empty-joined : (a b : List ℕ) → is_empty (joined a b) ≡ false
is_empty-joined [] b = refl
is_empty-joined (c ∷ a) b = refl

no_entries : (b : List ℕ) → is_empty b ≡ true → xff_entries b ≡ []
unfolding xff_entries select
no_entries [] h = refl
no_entries (c ∷ b) h = absurd (ground arith)

forwarded-joined :
    (n : ℕ) (sent added : List ℕ)
    → suc n ≤ length (xff_entries added)
    → forwarded (suc n) (some (joined sent added)) ≡ forwarded (suc n) (some added)
unfolding forwarded
forwarded-joined n sent added enough = elim (Bool-cases (is_empty added)) [
  | inl e ↦
      absurd (omega (arith, enough, ap (λ (l : List (List ℕ)). length l) (no_entries added e)))
  | inr e ↦
      rw (is_empty-joined sent added, e, xff_entries-joined sent added)
        (from_right-append (max 1 (suc n)) (xff_entries sent) (xff_entries added) (omega arith))
]

-- A client cannot choose its address behind `n` trusted proxies: whatever it writes into the header
-- first, the address and its rate-limit key are those of the part after its text, if the proxies
-- wrote at least `n` entries there.
pub get_client_ip_info-joined :
    (ipaddress : Addresses) (n : ℕ) (sent added : List ℕ) (host : Option (List ℕ))
    → 0 < n
    → n ≤ length (xff_entries added)
    → get_client_ip_info ipaddress n (some (joined sent added)) host
      ≡ get_client_ip_info ipaddress n (some added) host
unfolding get_client_ip_info
get_client_ip_info-joined ipaddress zero sent added host pos enough = absurd (omega arith)
get_client_ip_info-joined ipaddress (suc n) sent added host pos enough =
    rw (forwarded-joined n sent added enough) refl
