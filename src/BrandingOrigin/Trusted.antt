-- ===== src/BrandingOrigin/Trusted.antt =====
-- Which tokens are trusted: fief/services/branding/origin_verifier.py.
use fief.Models.{Time, seconds}
use fief.Prelude.{
  ℤ, pos, negsuc, List, ℕ, ◌≡◌, true, some, [], arith, ◌∷◌, refl, Option-cases, Option, inl, inr,
  exists, ap, none, ◌∙◌, Bool-cases, ◌==◌, ltb, same_number, false, sym, ◌++◌, ◌-◌,
}
use fief.BrandingOrigin.{
  same_text, cut_last, dotted, allowed_host, rsplit, trusted, at_first, Library, verify_origin,
  check_signature, check_expiry, check_parts, dot, message, extract_hosts, token_max_age_seconds,
}

same_text-eq : (s t : List ℕ) → same_text s t ≡ true → s ≡ t
unfolding same_text
same_text-eq [] [] h = refl
same_text-eq [] (d ∷ t) h = absurd (ground arith)
same_text-eq (c ∷ s) [] h = absurd (ground arith)
same_text-eq (c ∷ s) (d ∷ t) h = let rest = same_text-eq s t (ground arith) in ground (arith, rest)

at_first-eq : (c : ℕ) (s a b : List ℕ) → at_first c s ≡ some (a, b) → c ∷ s ≡ dotted a b
at_first-eq c s a b h = elim (Bool-cases (c == dot)) [
  | inl e ↦
      let kept : some ([], s) ≡ some (a, b) = rw e at h in
      let before : [] ≡ a = ground arith in
      let after : s ≡ b = ground arith in
      ap (λ x. x ∷ s) (same_number c dot e)
      ∙ ap (λ l. l ++ dot ∷ s) before
      ∙ ap (λ l. dotted a l) after
  | inr e ↦ absurd (ground arith)
]

cut_last-eq : (s a b : List ℕ) → cut_last s ≡ some (a, b) → s ≡ dotted a b
unfolding cut_last
cut_last-eq [] a b h = absurd (ground arith)
cut_last-eq (c ∷ s) a b h = elim (Option-cases (cut_last s)) [
  | inl e ↦ at_first-eq c s a b (rw e at h)
  | inr ((a', b'), e) ↦
      let kept : some (c ∷ a', b') ≡ some (a, b) = rw e at h in
      let before : c ∷ a' ≡ a = ground arith in
      let after : b' ≡ b = ground arith in
      ap (λ l. c ∷ l) (cut_last-eq s a' b' e)
      ∙ ap (λ l. dotted l b') before
      ∙ ap (λ l. dotted a l) after
]

rsplit-eq :
    (token origin nonce expiry signature : List ℕ)
    → rsplit token ≡ some (origin, nonce, expiry, signature)
    → token ≡ dotted (dotted (dotted origin nonce) expiry) signature
unfolding rsplit
rsplit-eq token origin nonce expiry signature h = elim (Option-cases (cut_last token)) [
  | inl e ↦ absurd (ground arith)
  | inr ((rest, s), e) ↦ elim (Option-cases (cut_last rest)) [
    | inl e' ↦ absurd (ground arith)
    | inr ((front, x), e') ↦ elim (Option-cases (cut_last front)) [
      | inl e'' ↦ absurd (ground arith)
      | inr ((o, n), e'') ↦
          let kept : some (o, n, x, s) ≡ some (origin, nonce, expiry, signature) =
            rw (e, e', e'') at h in
          let first : o ≡ origin = ground arith in
          let second : n ≡ nonce = ground arith in
          let third : x ≡ expiry = ground arith in
          let fourth : s ≡ signature = ground arith in
          rw
            (
              cut_last-eq token rest s e,
              cut_last-eq rest front x e',
              cut_last-eq front o n e'',
              first,
              second,
              third,
              fourth,
            )
            refl
    ]
  ]
]

allowed_host_lem :
    (hosts : List (List ℕ)) (origin : List ℕ) (found : Option (List ℕ)) (o : List ℕ)
    → allowed_host hosts origin found ≡ trusted o
    → (origin ≡ o) × (host : List ℕ) × (found ≡ some host) × (exists (same_text host) hosts ≡ true)
unfolding allowed_host
allowed_host_lem hosts origin none o h = absurd (ground arith)
allowed_host_lem hosts origin (some host) o h = (ground arith, host, refl, ground arith)

module _ (library : Library) where
  -- a timely number of seconds and an origin on one of the hosts
  abbrev pub IsTimely : Time → List (List ℕ) → List ℕ → ℕ → Type 0
  IsTimely now hosts origin n =
      (ltb (seconds n) now ≡ false)
      × (ltb (seconds token_max_age_seconds) (seconds n - now) ≡ false)
      × (host : List ℕ) × (library.hostname origin ≡ some host)
      × (exists (same_text host) hosts ≡ true)

  check_expiry_lem :
      (now : Time) (hosts : List (List ℕ)) (origin : List ℕ) (expiry : ℤ) (o : List ℕ)
      → check_expiry library now hosts origin expiry ≡ trusted o
      → (origin ≡ o) × (n : ℕ) × (expiry ≡ pos n) × IsTimely now hosts origin n
  unfolding check_expiry
  check_expiry_lem now hosts origin (negsuc n) o h = absurd (ground arith)
  check_expiry_lem now hosts origin (pos n) o h =
      let (same, host, found, known) =
        allowed_host_lem hosts origin (library.hostname origin) o (ground arith) in
      (same, n, refl, (ground arith, ground arith, host, found, known))

  check_signature_lem :
      (now : Time) (key : List ℕ) (hosts : List (List ℕ)) (origin nonce signature : List ℕ)
      (read : Option ℤ) (o : List ℕ)
      → check_signature library now key hosts origin nonce signature read ≡ trusted o
      → (origin ≡ o)
        × (n : ℕ) × (read ≡ some (pos n))
        × (signature ≡ library.hmac key (message library origin nonce (pos n)))
        × IsTimely now hosts origin n
  unfolding check_signature
  check_signature_lem now key hosts origin nonce signature none o h = absurd (ground arith)
  check_signature_lem now key hosts origin nonce signature (some expiry) o h =
      let (same, n, read, timely) = check_expiry_lem now hosts origin expiry o (ground arith) in
      let digest =
        same_text-eq (library.hmac key (message library origin nonce expiry)) signature
          (ground arith) in
      (
        same,
        n,
        ap some read,
        sym digest ∙ ap (λ x. library.hmac key (message library origin nonce x)) read,
        timely,
      )

  check_parts_lem :
      (now : Time) (key : List ℕ) (hosts : List (List ℕ))
      (parts : Option (List ℕ × List ℕ × List ℕ × List ℕ)) (o : List ℕ)
      → check_parts library now key hosts parts ≡ trusted o
      → (nonce : List ℕ) × (expiry : List ℕ) × (n : ℕ) × (library.int expiry ≡ some (pos n))
        × (parts ≡ some (o, nonce, expiry, library.hmac key (message library o nonce (pos n))))
        × IsTimely now hosts o n
  unfolding check_parts
  check_parts_lem now key hosts none o h = absurd (ground arith)
  check_parts_lem now key hosts (some (origin, nonce, expiry, signature)) o h =
      let (same, n, read, digest, timely) =
        check_signature_lem now key hosts origin nonce signature (library.int expiry) o
          (ground arith) in
      (nonce, expiry, n, read, rw (digest, same) refl, rw same at timely)

  -- An origin is trusted only from a token that holds it and that is signed with the client's key: it is
  -- the first part, the digest covers it with the nonce and the expiry as a number, the expiry is not
  -- past and at most five minutes ahead, and the origin's host is one of the redirect URIs' hosts.
  pub verify_origin-trusted :
      (now : Time) (signing_key : Option (List ℕ)) (uris : List (List ℕ)) (token : Option (List ℕ))
      (o : List ℕ)
      → verify_origin library now signing_key uris token ≡ trusted o
      → (key : List ℕ) × (nonce : List ℕ) × (expiry : List ℕ) × (n : ℕ) × (signing_key ≡ some key)
        × (library.int expiry ≡ some (pos n))
        × (token
            ≡ some (
                dotted
                  (dotted (dotted o nonce) expiry)
                  (library.hmac key (message library o nonce (pos n)))))
        × IsTimely now (extract_hosts library uris) o n
  unfolding verify_origin
  verify_origin-trusted now none uris token o h = absurd (ground arith)
  verify_origin-trusted now (some key) uris none o h = absurd (ground arith)
  verify_origin-trusted now (some key) uris (some token) o h =
      let (nonce, expiry, n, read, parts, timely) =
        check_parts_lem now key (extract_hosts library uris) (rsplit token) o (ground arith) in
      let whole =
        rsplit-eq token o nonce expiry (library.hmac key (message library o nonce (pos n))) parts in
      (key, nonce, expiry, n, refl, read, ap some whole, timely)
