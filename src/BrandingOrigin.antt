-- ===== src/BrandingOrigin.antt =====
-- The signed origin of a storefront: fief/services/branding/origin_verifier.py. A text is its list of
-- code points. HMAC, `int`, `str` of a number and `urlparse` are the parameter `Library`. The
-- comparison of the digests raises a TypeError on a signature that is not ASCII, which `verify` lets
-- through: `type_error`.
pub mod Signed
pub mod Trusted
mod Tests
use fief.Models.{Time, seconds}
use fief.Prelude.{
  ℤ, pos, negsuc, ℕ, List, Option, some, ◌++◌, none, if◌then◌else◌, Bool, [], ◌>>=◌, ◌∷◌, true, not,
  ltb, ◌==◌, exists, ◌||◌, leb, false, ◌-◌, ◌&&◌,
}

pub record Library : Type 0 where
  pub hmac : List ℕ → List ℕ → List ℕ
  pub int : List ℕ → Option ℤ
  pub str : ℤ → List ℕ
  pub hostname : List ℕ → Option (List ℕ)

-- VerificationResult with the origin: `trusted` is OK
pub data VerificationResult : Type 0 where
  trusted : List ℕ → VerificationResult
  no_token no_signing_key malformed signature_mismatch : VerificationResult
  expired origin_not_allowed type_error : VerificationResult

abbrev pub dot : ℕ
dot = 46

abbrev pub is_blank : List ℕ → Bool
is_blank [] = true
is_blank (c ∷ s) = false

-- equality of two texts
unfoldable pub same_text : List ℕ → List ℕ → Bool
same_text [] [] = true
same_text [] (d ∷ t) = false
same_text (c ∷ s) [] = false
same_text (c ∷ s) (d ∷ t) = (c == d) && same_text s t

abbrev pub is_ascii : List ℕ → Bool
is_ascii s = not (exists (λ c. leb 128 c) s)

abbrev pub has_dot : List ℕ → Bool
has_dot s = exists (λ c. c == dot) s

-- a text up to a dot, and the rest
abbrev pub dotted : List ℕ → List ℕ → List ℕ
dotted a b = a ++ dot ∷ b

abbrev pub at_first : ℕ → List ℕ → Option (List ℕ × List ℕ)
at_first c s = if c == dot then some ([], s) else none

abbrev pub longer : ℕ → List ℕ → Option (List ℕ × List ℕ) → Option (List ℕ × List ℕ)
longer c s none = at_first c s
longer c s (some (a, b)) = some (c ∷ a, b)

-- the text before the last dot, and after it
unfoldable pub cut_last : List ℕ → Option (List ℕ × List ℕ)
cut_last [] = none
cut_last (c ∷ s) = longer c s (cut_last s)

abbrev pub with_nonce :
    List ℕ → List ℕ → Option (List ℕ × List ℕ) → Option (List ℕ × List ℕ × List ℕ × List ℕ)
with_nonce expiry signature none = none
with_nonce expiry signature (some (origin, nonce)) = some (origin, nonce, expiry, signature)

unfoldable pub with_expiry :
    List ℕ → Option (List ℕ × List ℕ) → Option (List ℕ × List ℕ × List ℕ × List ℕ)
unfolding cut_last
with_expiry signature none = none
with_expiry signature (some (front, expiry)) = with_nonce expiry signature (cut_last front)

unfoldable pub with_signature :
    Option (List ℕ × List ℕ) → Option (List ℕ × List ℕ × List ℕ × List ℕ)
unfolding with_expiry
with_signature none = none
with_signature (some (rest, signature)) = with_expiry signature (cut_last rest)

-- token.rsplit(".", 3), if it has four parts
unfoldable pub rsplit : List ℕ → Option (List ℕ × List ℕ × List ℕ × List ℕ)
unfolding with_signature
rsplit token = with_signature (cut_last token)

-- TOKEN_MAX_AGE_SECONDS
abbrev pub token_max_age_seconds : ℕ
token_max_age_seconds = 300

-- origin_host in self._allowed_hosts
unfoldable pub allowed_host : List (List ℕ) → List ℕ → Option (List ℕ) → VerificationResult
unfolding same_text
allowed_host hosts origin none = origin_not_allowed
allowed_host hosts origin (some host) =
    if exists (same_text host) hosts then trusted origin else origin_not_allowed

module _ (library : Library) where
  abbrev pub host_of : Option (List ℕ) → List (List ℕ)
  host_of none = []
  host_of (some host) = if is_blank host then [] else host ∷ []

  unfoldable pub extract_hosts : List (List ℕ) → List (List ℕ)
  extract_hosts [] = []
  extract_hosts (uri ∷ uris) = host_of (library.hostname uri) ++ extract_hosts uris

  -- the expiry in seconds, from the signature on
  unfoldable pub check_expiry : Time → List (List ℕ) → List ℕ → ℤ → VerificationResult
  unfolding allowed_host
  check_expiry now hosts origin (negsuc n) = expired
  check_expiry now hosts origin (pos n) =
      if ltb (seconds n) now
      then expired
      else if ltb (seconds token_max_age_seconds) (seconds n - now)
      then expired
      else allowed_host hosts origin (library.hostname origin)

  abbrev pub message : List ℕ → List ℕ → ℤ → List ℕ
  message origin nonce expiry = dotted origin (dotted nonce (library.str expiry))

  unfoldable pub check_signature :
      Time → List ℕ → List (List ℕ) → List ℕ → List ℕ → List ℕ → Option ℤ → VerificationResult
  unfolding check_expiry
  check_signature now key hosts origin nonce signature none = malformed
  check_signature now key hosts origin nonce signature (some expiry) =
      if not (is_ascii signature)
      then type_error
      else if not (same_text (library.hmac key (message origin nonce expiry)) signature)
      then signature_mismatch
      else check_expiry now hosts origin expiry

  unfoldable pub check_parts :
      Time
      → List ℕ
      → List (List ℕ)
      → Option (List ℕ × List ℕ × List ℕ × List ℕ)
      → VerificationResult
  unfolding check_signature
  check_parts now key hosts none = malformed
  check_parts now key hosts (some (origin, nonce, expiry, signature)) =
      if is_blank origin || is_blank nonce || is_blank expiry || is_blank signature
      then malformed
      else check_signature now key hosts origin nonce signature (library.int expiry)

  unfoldable pub verify_token :
      Time → Option (List ℕ) → List (List ℕ) → Option (List ℕ) → VerificationResult
  unfolding check_parts rsplit
  verify_token now none hosts token = no_signing_key
  verify_token now (some key) hosts none = no_token
  verify_token now (some key) hosts (some token) =
      if is_blank token then no_token else check_parts now key hosts (rsplit token)

  -- BrandingOriginVerifier(client).verify(token), with the client's signing key and redirect URIs
  unfoldable pub verify_origin :
      Time → Option (List ℕ) → List (List ℕ) → Option (List ℕ) → VerificationResult
  unfolding verify_token extract_hosts
  verify_origin now signing_key redirect_uris token =
      verify_token now signing_key (extract_hosts redirect_uris) token
