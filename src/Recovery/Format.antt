-- ===== src/Recovery/Format.antt =====
-- A recovery code as it is shown, and as it is checked: `_generate_code`, `_normalize` and
-- `_is_well_formed` of fief/services/security/recovery_codes.py.
use fief.Prelude.{
  delete, List, ℕ, exists, All, Bool, not, true, ◌≡◌, ◌∷◌, map, false, refl, ◌==◌, arith, ◌&&◌,
  Bool-cases, ap, inl, [], ==_iff, inr, ◌++◌, delete-append, length, ◌+◌, All-append, length-append,
}
use fief.Recovery.{
  contains, strip_left, strip_right, all_in, alphabet, to_upper, is_space, normalize, format_code,
  is_well_formed, code_len,
}

unfoldable check_all : (ℕ → Bool) → List ℕ → Bool
check_all q [] = true
check_all q (c ∷ cs) = q c && check_all q cs

check_all_sound :
    (q : ℕ → Bool) (s : List ℕ) (c : ℕ) → check_all q s ≡ true → contains s c ≡ true → q c ≡ true
unfolding check_all contains exists
check_all_sound q [] c h m = cc
check_all_sound q (d ∷ s) c h m = elim (Bool-cases (d == c)) [
  | inl here ↦ let e : d ≡ c = (==_iff d c).0 here in rw (← e) (ground arith)
  | inr there ↦ check_all_sound q s c (ground arith) (ground arith)
]

-- a character that normalisation keeps as it is
is_plain : ℕ → Bool
is_plain c = not (c == b'-') && (not (c == b' ') && (not (is_space c) && to_upper c == c))

alphabet-plain : (c : ℕ) → contains alphabet c ≡ true → is_plain c ≡ true
unfolding is_plain check_all
alphabet-plain c m = check_all_sound is_plain alphabet c refl m

plain_letters : (s : List ℕ) → all_in alphabet s ≡ true → All (λ c. is_plain c ≡ true) s
unfolding all_in
plain_letters [] h = tt
plain_letters (c ∷ s) h = (alphabet-plain c (ground arith), plain_letters s (ground arith))

delete_plain :
    (p : ℕ → Bool) (s : List ℕ)
    → ((c : ℕ) → is_plain c ≡ true → p c ≡ false)
    → All (λ c. is_plain c ≡ true) s
    → delete p s ≡ s
unfolding delete
delete_plain p [] h a = refl
delete_plain p (c ∷ s) h a = rw (h c a.0) (ap (◌∷◌ c) (delete_plain p s h a.1))

strip_left_plain : (s : List ℕ) → All (λ c. is_plain c ≡ true) s → strip_left s ≡ s
unfolding strip_left is_plain
strip_left_plain [] a = refl
strip_left_plain (c ∷ s) a = ground arith

strip_right_plain : (s : List ℕ) → All (λ c. is_plain c ≡ true) s → strip_right s ≡ s
unfolding strip_right is_plain
strip_right_plain [] a = refl
strip_right_plain (c ∷ s) a = ground (arith, strip_right_plain s a.1)

map-to_upper_plain : (s : List ℕ) → All (λ c. is_plain c ≡ true) s → map to_upper s ≡ s
unfolding is_plain
map-to_upper_plain [] a = refl
map-to_upper_plain (c ∷ s) a = ground (arith, map-to_upper_plain s a.1)

all_in-append : (a s t : List ℕ) → all_in a (s ++ t) ≡ all_in a s && all_in a t
unfolding all_in
all_in-append a [] t = refl
all_in-append a (c ∷ s) t = ground (arith, all_in-append a s t)

not_dash : (c : ℕ) → is_plain c ≡ true → (c == b'-') ≡ false
unfolding is_plain
not_dash c h = ground arith

not_blank : (c : ℕ) → is_plain c ≡ true → (c == b' ') ≡ false
unfolding is_plain
not_blank c h = ground arith

normalize_plain :
    (s : List ℕ)
    → All (λ c. is_plain c ≡ true) s
    → map to_upper (strip_right (strip_left (delete (λ c. c == b' ') s))) ≡ s
normalize_plain s a =
    rw (delete_plain (λ c. c == b' ') s not_blank a, strip_left_plain s a, strip_right_plain s a)
      (map-to_upper_plain s a)

delete-format_code :
    (h1 h2 : List ℕ)
    → All (λ c. is_plain c ≡ true) h1
    → All (λ c. is_plain c ≡ true) h2
    → delete (λ c. c == b'-') (format_code h1 h2) ≡ h1 ++ h2
delete-format_code h1 h2 a1 a2 =
    rw (delete-append, delete_plain (λ c. c == b'-') h1 not_dash a1)
      (ap (◌++◌ h1) (unfold delete in delete_plain (λ c. c == b'-') h2 not_dash a2))

-- A code is read back as it was shown: for two halves of letters of the alphabet, the normal form of
-- `half1-half2` is the two halves joined, and it is well formed exactly if they have eight characters
-- in all.
pub normalize-format_code :
    (h1 h2 : List ℕ)
    → all_in alphabet h1 ≡ true
    → all_in alphabet h2 ≡ true
    → (normalize (format_code h1 h2) ≡ h1 ++ h2)
      × (is_well_formed (normalize (format_code h1 h2)) ≡ (length h1 + length h2 == code_len))
normalize-format_code h1 h2 m1 m2 =
    let a1 = plain_letters h1 m1 in
    let a2 = plain_letters h2 m2 in
    let joined : normalize (format_code h1 h2) ≡ h1 ++ h2 =
      unfold normalize in
      rw (delete-format_code h1 h2 a1 a2) (normalize_plain (h1 ++ h2) (All-append _ h1 h2 a1 a2)) in
    (
      joined,
      rw (joined) (
          unfold is_well_formed in
          ground (arith, length-append h1 h2, all_in-append alphabet h1 h2)),
    )
