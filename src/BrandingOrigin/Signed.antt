-- ===== src/BrandingOrigin/Signed.antt =====
-- A token that the storefront's signer made: fief/services/branding/origin_verifier.py.
use fief.Models.{Time, seconds}
use fief.Prelude.{
  ℤ, pos, List, exists, ℕ, ◌≡◌, false, true, some, none, ◌∷◌, [], arith, refl, if◌then◌else◌, ltb,
  ◌||◌, ◌+◌,
}
use fief.BrandingOrigin.{
  cut_last, Library, same_text, rsplit, verify_origin, has_dot, is_blank, dotted, message, is_ascii,
  token_max_age_seconds, expired, allowed_host, extract_hosts,
}

no_cut : (b : List ℕ) → has_dot b ≡ false → cut_last b ≡ none
unfolding cut_last exists
no_cut [] h = refl
no_cut (c ∷ b) h = rw (no_cut b (ground arith)) (ground arith)

cut_last-dotted : (a b : List ℕ) → has_dot b ≡ false → cut_last (dotted a b) ≡ some (a, b)
unfolding cut_last
cut_last-dotted [] b h = rw (no_cut b h) refl
cut_last-dotted (c ∷ a) b h = rw (cut_last-dotted a b h) refl

same_text_self : (s : List ℕ) → same_text s s ≡ true
unfolding same_text
same_text_self [] = refl
same_text_self (c ∷ s) = ground (arith, same_text_self s)

not_blank : (a b : List ℕ) → is_blank (dotted a b) ≡ false
not_blank [] b = refl
not_blank (c ∷ a) b = refl

-- a text that stands between dots
abbrev pub IsPart : List ℕ → Type 0
IsPart s = (has_dot s ≡ false) × (is_blank s ≡ false)

module _ (library : Library) where
  abbrev pub signed_token : List ℕ → List ℕ → List ℕ → ℤ → List ℕ
  signed_token key origin nonce expiry =
      dotted (dotted (dotted origin nonce) (library.str expiry))
        (library.hmac key (message library origin nonce expiry))

  rsplit-signed_token :
      (key origin nonce : List ℕ) (expiry : ℤ)
      → has_dot nonce ≡ false
      → has_dot (library.str expiry) ≡ false
      → has_dot (library.hmac key (message library origin nonce expiry)) ≡ false
      → rsplit (signed_token key origin nonce expiry)
        ≡ some (
          origin,
          nonce,
          library.str expiry,
          library.hmac key (message library origin nonce expiry),
        )
  unfolding rsplit
  rsplit-signed_token key origin nonce expiry n e s =
      let digest = library.hmac key (message library origin nonce expiry) in
      rw
        (
          cut_last-dotted (dotted (dotted origin nonce) (library.str expiry)) digest s,
          cut_last-dotted (dotted origin nonce) (library.str expiry) e,
          cut_last-dotted origin nonce n,
        )
        refl

  -- A token that is signed with the client's key is judged by its age and its origin alone: expired before
  -- the instant or more than five minutes after it, and otherwise trusted exactly if the origin's host is
  -- one of the redirect URIs' hosts. The digest and the number are printed in ASCII without a dot, and
  -- `int` reads a printed number back.
  pub verify_origin-signed_token :
      (now : Time) (key origin nonce : List ℕ) (n : ℕ) (uris : List (List ℕ))
      → is_blank origin ≡ false
      → IsPart nonce
      → IsPart (library.str (pos n))
      → library.int (library.str (pos n)) ≡ some (pos n)
      → IsPart (library.hmac key (message library origin nonce (pos n)))
      → is_ascii (library.hmac key (message library origin nonce (pos n))) ≡ true
      → verify_origin library now (some key) uris (some (signed_token key origin nonce (pos n))) ≡ (
          if ltb (seconds n) now || ltb (now + seconds token_max_age_seconds) (seconds n)
          then expired
          else allowed_host (extract_hosts library uris) origin (library.hostname origin))
  unfolding verify_origin
  verify_origin-signed_token now key origin nonce n uris o p e back d ascii =
      let token = signed_token key origin nonce (pos n) in
      let digest = library.hmac key (message library origin nonce (pos n)) in
      let parts = rsplit-signed_token key origin nonce (pos n) (p.0) (e.0) (d.0) in
      rw
        (
          not_blank (dotted (dotted origin nonce) (library.str (pos n))) digest,
          parts,
          o,
          p.1,
          e.1,
          d.1,
          back,
          ascii,
          same_text_self digest,
        )
        (ground arith)
