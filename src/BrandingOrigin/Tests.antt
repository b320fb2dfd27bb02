-- ===== src/BrandingOrigin/Tests.antt =====
-- Tokens of a concrete signer.
use fief.BrandingOrigin.Trusted.{IsTimely, verify_origin-trusted}
use fief.BrandingOrigin.Signed.{signed_token}
use fief.BrandingOrigin.{
  Library, rsplit, cut_last, verify_origin, with_signature, with_expiry, check_parts,
  check_signature, dot, check_expiry, allowed_host, same_text, extract_hosts, verify_token, dotted,
  message,
}
use fief.Prelude.{
  ℤ, pos, negsuc, exists, List, ℕ, length, ◌+◌, Option, some, none, ◌∷◌, [], ◌≡◌, refl,
}

abbrev print : ℤ → List ℕ
print (pos n) = n ∷ []
print (negsuc n) = 45 ∷ n ∷ []

abbrev read_number : List ℕ → Option ℤ
read_number [] = none
read_number (n ∷ []) = some (pos n)
read_number (c ∷ n ∷ s) = none

-- the digest is the length of the message, a number is its own code point, and a URI is its host
abbrev library : Library
library = record {
  hmac = λ key text. (length key + length text) ∷ [];
  int = read_number;
  str = print;
  hostname = λ uri. some uri;
}

abbrev storefront_token : List ℕ
storefront_token = signed_token library (1 ∷ []) (5 ∷ dot ∷ 6 ∷ []) (7 ∷ []) (pos 60)

verify_origin-trusted_example :
    (key : List ℕ) × (nonce : List ℕ) × (expiry : List ℕ) × (n : ℕ) × ((some (1 ∷ [])) ≡ some key)
    × (library.int expiry ≡ some (pos n))
    × ((some storefront_token)
        ≡ some (
            dotted
              (dotted (dotted (5 ∷ dot ∷ 6 ∷ []) nonce) expiry)
              (library.hmac key (message library (5 ∷ dot ∷ 6 ∷ []) nonce (pos n)))))
    × IsTimely library 50000000
        (extract_hosts library ((5 ∷ dot ∷ 6 ∷ []) ∷ []))
        (5 ∷ dot ∷ 6 ∷ [])
        n
unfolding rsplit cut_last with_signature with_expiry exists check_parts check_signature check_expiry
    allowed_host same_text extract_hosts verify_token verify_origin
verify_origin-trusted_example =
    verify_origin-trusted library 50000000 (some (1 ∷ [])) ((5 ∷ dot ∷ 6 ∷ []) ∷ [])
      (some storefront_token) (5 ∷ dot ∷ 6 ∷ []) refl
