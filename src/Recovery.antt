-- ===== src/Recovery.antt =====
-- Single-use recovery codes: fief/services/security/recovery_codes.py, with the repository
-- fief/repositories/user_mfa_recovery_code.py. A typed code is its list of code points; `strip` and
-- `upper` are Python's on ASCII text. `pwdlib`'s bcrypt hasher is the parameter `Hasher`.
pub mod Format
pub mod Consume
pub mod Generate
mod Tests
use fief.Models.{
  Time, UserMfaRecoveryCode, World, audit_logger, user_mfa_recovery_code_used,
  user_mfa_recovery_codes_regenerated,
}
use fief.Prelude.{
  String, List, ℕ, ◌∷◌, map, ◌++◌, Bool, if◌then◌else◌, [], Option, select, not, leb, ◌==◌, update,
  suc, ◌&&◌, true, exists, none, false, delete, some, ◌*◌, zero, length, is_some, ◌||◌, ◌-◌,
}
use Prim.Native.Char.{code}
use mathlib.Core.List.{reverse}

-- `hash` and `verify` of `BcryptHasher`; `none` where `verify` raises ValueError or TypeError.
pub record Hasher : Type 0 where
  pub hash : List ℕ → String
  pub verify : List ℕ → String → Option Bool

abbrev pub codes : String → List ℕ
codes String.[] = []
codes (String.◌∷◌ c s) = code c ∷ codes s

-- _ALPHABET
abbrev pub alphabet : List ℕ
alphabet = codes "ABCDEFGHIJKLMNOPQRSTUVWXYZ234567"

abbrev pub code_len : ℕ
code_len = 8

abbrev pub num_codes : ℕ
num_codes = 10

-- `ch in s`
unfoldable pub contains : List ℕ → ℕ → Bool
contains s ch = exists (λ c. c == ch) s

-- f"{half1}-{half2}", of the characters that `secrets.choice` gave
abbrev pub format_code : List ℕ → List ℕ → List ℕ
format_code half1 half2 = half1 ++ b'-' ∷ half2

-- what `str.strip` removes, in ASCII
abbrev pub is_space : ℕ → Bool
is_space c = (leb 9 c && leb c 13) || (leb 28 c && leb c 32)

unfoldable pub strip_left : List ℕ → List ℕ
strip_left [] = []
strip_left (c ∷ s) = let rest = strip_left s in if is_space c then rest else c ∷ s

unfoldable pub strip_right : List ℕ → List ℕ
strip_right [] = []
strip_right (c ∷ s) = elim (strip_right s) [
  | [] ↦ if is_space c then [] else c ∷ []
  | d ∷ r ↦ c ∷ d ∷ r
]

abbrev pub to_upper : ℕ → ℕ
to_upper c = if leb b'a' c && leb c b'z' then c - 32 else c

-- code.replace("-", "").replace(" ", "").strip().upper()
unfoldable pub normalize : List ℕ → List ℕ
unfolding strip_left strip_right
normalize s =
    map to_upper (strip_right (strip_left (delete (λ c. c == b' ') (delete (λ c. c == b'-') s))))

unfoldable pub all_in : List ℕ → List ℕ → Bool
all_in s [] = true
all_in s (c ∷ cs) = contains s c && all_in s cs

unfoldable pub is_well_formed : List ℕ → Bool
unfolding all_in
is_well_formed normalized =
    if not (length normalized == code_len) then false else all_in alphabet normalized

-- equality of two texts
unfoldable pub same_code : List ℕ → List ℕ → Bool
same_code [] [] = true
same_code (c ∷ cs) (d ∷ ds) = c == d && same_code cs ds
same_code _ _ = false

abbrev pub is_unused : ℕ → UserMfaRecoveryCode → Bool
is_unused user_id c = c.user_id == user_id && not (is_some c.used_at)

-- list_by_user_id(user_id, only_unused=True)
abbrev pub list_unused : ℕ → World → List UserMfaRecoveryCode
list_unused user_id w = select (is_unused user_id) w.recovery_codes

-- UserMfaRecoveryCodeRepository.mark_used
unfoldable pub mark_used : Time → UserMfaRecoveryCode → World → World
mark_used now matched w = record w {
  recovery_codes =
      update (λ c. c.id == matched.id) (λ c. record c { used_at = some now }) w.recovery_codes;
}

module _ (bcrypt : Hasher) where
  -- the `try` of the loop: an exception counts as no match
  abbrev pub matches : List ℕ → UserMfaRecoveryCode → Bool
  matches normalized row = elim (bcrypt.verify normalized row.code_hash) [
    | none ↦ false
    | some b ↦ b
  ]

  -- the loop over all rows, with the first match so far
  unfoldable pub match_rows :
      List ℕ → Option UserMfaRecoveryCode → List UserMfaRecoveryCode → Option UserMfaRecoveryCode
  match_rows normalized matched [] = matched
  match_rows normalized matched (row ∷ rows) =
      match_rows normalized
        (if matches normalized row && not (is_some matched) then some row else matched) rows

  use_code : Time → ℕ → Option UserMfaRecoveryCode → World → Bool × World
  use_code now user_id none w = (false, w)
  use_code now user_id (some matched) w =
      (true, audit_logger user_mfa_recovery_code_used (some user_id) [] (mark_used now matched w))

  unfoldable pub consume : Time → ℕ → List ℕ → World → Bool × World
  unfolding use_code
  consume now user_id typed w =
      let normalized = normalize typed in
      if is_well_formed normalized
      then use_code now user_id (match_rows normalized none (list_unused user_id w)) w
      else (false, w)

  abbrev pub new_row : ℕ → ℕ → List ℕ → UserMfaRecoveryCode
  new_row row_id user_id typed = record {
    id = row_id;
    user_id = user_id;
    code_hash = bcrypt.hash (normalize typed);
    used_at = none;
  }

  -- The loop of `generate_for`, with `attempts` more attempts and `missing` more codes to go;
  -- `draw n` is the code of the attempt with n attempts left, `row_id n` the id of its row. `seen`
  -- holds the codes so far, the latest first.
  unfoldable pub generate_loop :
      (ℕ → List ℕ)
      → (ℕ → ℕ)
      → ℕ
      → ℕ
      → ℕ
      → List (List ℕ)
      → List UserMfaRecoveryCode
      → List (List ℕ) × List UserMfaRecoveryCode
  generate_loop draw row_id user_id zero missing seen rows = (seen, rows)
  generate_loop draw row_id user_id (suc attempts) zero seen rows = (seen, rows)
  generate_loop draw row_id user_id (suc attempts) (suc missing) seen rows =
      let typed = draw attempts in
      let skip = generate_loop draw row_id user_id attempts (suc missing) seen rows in
      let keep =
        generate_loop draw row_id user_id attempts missing (typed ∷ seen)
          (rows ++ new_row (row_id attempts) user_id typed ∷ []) in
      if exists (same_code typed) seen then skip else keep

  unfoldable pub generate_for : (ℕ → List ℕ) → (ℕ → ℕ) → ℕ → World → List (List ℕ) × World
  generate_for draw row_id user_id w =
      let kept = delete (λ c. c.user_id == user_id) w.recovery_codes in
      let (seen, rows) = generate_loop draw row_id user_id (num_codes * 5) num_codes [] kept in
      (
        reverse seen,
        audit_logger user_mfa_recovery_codes_regenerated (some user_id) []
            (record w { recovery_codes = rows }),
      )
