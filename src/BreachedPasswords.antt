-- ===== src/BreachedPasswords.antt =====
-- The check of a password against known breaches: fief/services/security/breached_passwords.py. SHA-1,
-- `upper`, `int`, `splitlines` and the f-strings of the errors are the parameter `Corpus`, as are Redis and the range API, which
-- answer at each call as they will: the map that the cache holds for a prefix, and the response. A
-- line is its list of code points.
pub mod Threshold
mod Tests
use fief.Prelude.{
  ℤ, pos, negsuc, reaches, List, Option, Bool, String, ℕ, none, ◌∷◌, exists, if◌then◌else◌, some,
  true, [], false, ◌==◌, ltb, not, ◌++◌, leb, ◌&&◌, suc, Result, err, zero, ok,
}
use fief.Recovery.{strip_left, strip_right}
use fief.Models.{Tenant, World, audit_logger, text, user_password_breached_check_failed_open}

abbrev pub Counts : Type 0
Counts = List (List ℕ × ℕ)

-- the cache row of a prefix: a RedisError and a corrupt row are misses
pub data Cached : Type 0 where
  cache_miss : Cached
  cached : Counts → Cached

pub data Fetched : Type 0 where
  transport_error : String → Fetched
  response : ℕ → List (List ℕ) → Fetched

pub record Corpus (Store : Type 0) : Type 0 where
  pub sha1 : String → List ℕ × List ℕ
  pub upper : List ℕ → List ℕ
  pub int : List ℕ → Option ℤ
  pub unparseable : List ℕ → String
  pub non_int : List ℕ → String
  pub str : ℕ → String
  pub get_cached : List ℕ → Store → Cached
  pub set_cached : List ℕ → Counts → Store → Store
  pub get_range : List ℕ → Fetched

pub record BreachSettings : Type 0 where
  pub breached_password_check_enabled : Bool
  pub breached_password_default_threshold : ℤ

abbrev pub colon : ℕ
colon = 58

unfoldable pub take : ℕ → List ℕ → List ℕ
take zero l = []
take (suc n) [] = []
take (suc n) (c ∷ l) = c ∷ take n l

-- line.split(":") with exactly two parts
abbrev pub with_colon : ℕ → List ℕ → Option (List ℕ × List ℕ) → Option (List ℕ × List ℕ)
with_colon c s none = none
with_colon c s (some (a, b)) = some (c ∷ a, b)

abbrev pub has_colon : List ℕ → Bool
has_colon s = exists (λ c. c == colon) s

unfoldable pub split_line : List ℕ → Option (List ℕ × List ℕ)
split_line [] = none
split_line (c ∷ s) =
    let rest = split_line s in
    if c == colon then (if has_colon s then none else some ([], s)) else with_colon c s rest

abbrev pub is_blank_line : List ℕ → Bool
is_blank_line [] = true
is_blank_line (c ∷ s) = false

unfoldable pub same_suffix : List ℕ → List ℕ → Bool
same_suffix [] [] = true
same_suffix [] (d ∷ t) = false
same_suffix (c ∷ s) [] = false
same_suffix (c ∷ s) (d ∷ t) = (c == d) && same_suffix s t

-- suffixes.get(suffix, 0): the last entry of a key counts
unfoldable pub count_of : List ℕ → Counts → ℕ
unfolding same_suffix
count_of suffix [] = 0
count_of suffix ((s, n) ∷ l) = if same_suffix s suffix then n else count_of suffix l

module _ {Store : Type 0} (corpus : Corpus Store) where
  -- a count above zero is an entry; padding has the count zero
  abbrev entry : List ℕ → ℤ → Counts
  entry suffix (pos n) = if ltb 0 n then (corpus.upper suffix, n) ∷ [] else []
  entry suffix (negsuc n) = []

  unfoldable pub add_count :
      List ℕ → List ℕ → Option ℤ → Result String Counts → Result String Counts
  unfolding take
  add_count line suffix none counts = err (corpus.non_int (take 32 line))
  add_count line suffix (some n) (err e) = err e
  add_count line suffix (some n) (ok counts) = ok (counts ++ entry suffix n)

  unfoldable pub add_parts :
      List ℕ → Option (List ℕ × List ℕ) → Result String Counts → Result String Counts
  unfolding add_count take
  add_parts line none counts = err (corpus.unparseable (take 32 line))
  add_parts line (some (suffix, count_str)) counts =
      add_count line suffix (corpus.int count_str) counts

  unfoldable pub add_line : List ℕ → Result String Counts → Result String Counts
  unfolding add_parts split_line
  add_line line counts =
      if is_blank_line line then counts else add_parts line (split_line line) counts

  -- _parse_body on the lines, from the last: so a later entry stands before an earlier one, and the
  -- error is the one of the first line that has one
  unfoldable pub parse_body : List (List ℕ) → Result String Counts
  unfolding add_line strip_left strip_right
  parse_body [] = ok []
  parse_body (raw ∷ lines) = add_line (strip_right (strip_left raw)) (parse_body lines)

  unfoldable pub fail_open : String → String → World → World
  fail_open reason exc_class w =
      audit_logger user_password_breached_check_failed_open none
        (("reason", text reason) ∷ ("exc_class", text exc_class) ∷ []) w

  unfoldable pub parsed_body :
      List ℕ → Result String Counts → Store → World → Counts × Store × World
  unfolding fail_open
  parsed_body prefix (err e) s w = ([], s, fail_open "malformed_body" e w)
  parsed_body prefix (ok counts) s w = (counts, corpus.set_cached prefix counts s, w)

  unfoldable pub fetched : List ℕ → Fetched → Store → World → Counts × Store × World
  unfolding parsed_body parse_body
  fetched prefix (transport_error exc) s w = ([], s, fail_open "transport_error" exc w)
  fetched prefix (response status lines) s w =
      if status == 429
      then ([], s, fail_open "hibp_rate_limited" "429" w)
      else if not (leb 200 status && ltb status 300)
      then ([], s, fail_open "hibp_non_2xx" (corpus.str status) w)
      else parsed_body prefix (parse_body lines) s w

  unfoldable pub from_cache : List ℕ → Cached → Store → World → Counts × Store × World
  unfolding fetched
  from_cache prefix (cached counts) s w = (counts, s, w)
  from_cache prefix cache_miss s w = fetched prefix (corpus.get_range prefix) s w

  unfoldable pub fetch_prefix : List ℕ → Store → World → Counts × Store × World
  unfolding from_cache
  fetch_prefix prefix s w = from_cache prefix (corpus.get_cached prefix s) s w

  abbrev pub tenant_threshold : Option Tenant → Option ℤ
  tenant_threshold none = none
  tenant_threshold (some tenant) = tenant.breached_password_threshold

  abbrev pub threshold : BreachSettings → Option Tenant → ℤ
  threshold settings tenant = elim (tenant_threshold tenant) [
    | none ↦ settings.breached_password_default_threshold
    | some n ↦ n
  ]

  -- BreachedPasswordChecker.is_breached
  unfoldable pub is_breached :
      BreachSettings → String → Option Tenant → Store → World → Bool × Store × World
  unfolding fetch_prefix count_of
  is_breached settings password tenant s w =
      if not settings.breached_password_check_enabled
      then (false, s, w)
      else (let (prefix, suffix) = corpus.sha1 password in
          let (counts, s', w') = fetch_prefix prefix s w in
          (reaches (count_of suffix counts) (threshold settings tenant), s', w'))
