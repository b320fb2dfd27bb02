-- ===== src/Token/SingleUse.antt =====
-- An authorization code is exchanged once: /token of fief/apps/auth/routers/token.py, whatever happens to
-- the table of codes between two requests.
use fief.Token.Codes.{redeemed, same_code}
use fief.Models.{Time, World, audit_logger, AuthorizationCode, User}
use fief.Token.{
  issue_to, token, answer, issue, TokenRequest, Validated, validate_grant_request, Tokens, refused,
  issued, GrantRequest, granted, Presented, get_user, by_code, by_refresh_token, consumed,
}
use fief.Prelude.{
  String, List, Option, ◌≡◌, ◌≢◌, some, true, false, arith, none, str_eq, ◌∷◌, [], ◌++◌, exists,
  All, exists-append, select_one, select_one-satisfies, ◌&&◌, ltb, exists-delete,
  select_one-eq-none, exists-delete_implied, exists-narrower, ap, sym, ◌∙◌,
}

-- what changes the table of codes: a request to /token with any outcome, and /consent, which stores a row
pub data Event : Type 0 where
  requested : Time → TokenRequest → Event
  code_issued : AuthorizationCode → Event

-- no code with this hash is issued
abbrev pub IsOther : String → Event → Type 0
IsOther hash (requested now r) = Unit
IsOther hash (code_issued a) = str_eq a.code hash ≡ false

module _ (get_token_hash verifier_hash : String → String) (words : String → List String) where
  unfoldable pub happen : List Event → World → World
  unfolding token
  happen [] w = w
  happen (requested now r ∷ es) w = happen es (token get_token_hash verifier_hash words now r w).1
  happen (code_issued a ∷ es) w =
      happen es (record w { authorization_codes = w.authorization_codes ++ a ∷ [] })

  abbrev pub IsGone : String → World → Type 0
  IsGone hash w = exists (λ a. str_eq a.code hash) w.authorization_codes ≡ false

  issued_codes :
      (now : Time) (r : TokenRequest) (g : GrantRequest) (p : Presented) (user : User) (w : World)
      → (issue_to get_token_hash verifier_hash words now r g p (some user) w).1.authorization_codes
        ≡ (consumed get_token_hash verifier_hash words p w).authorization_codes
  unfolding issue_to issue audit_logger
  issued_codes now r g (by_code a) user w = ground arith
  issued_codes now r g (by_refresh_token t) user w = ground arith

  issue_to-IsGone :
      (hash : String) (now : Time) (r : TokenRequest) (g : GrantRequest) (p : Presented)
      (user : Option User) (w : World)
      → IsGone hash w
      → IsGone hash (issue_to get_token_hash verifier_hash words now r g p user w).1
  unfolding issue_to
  issue_to-IsGone hash now r g p none w h = h
  issue_to-IsGone hash now r g (by_code a) (some user) w h =
      rw (issued_codes now r g (by_code a) user w) (
        exists-delete (λ b. str_eq b.code hash) (λ b. str_eq b.code a.code) w.authorization_codes h)
  issue_to-IsGone hash now r g (by_refresh_token t) (some user) w h =
      rw (issued_codes now r g (by_refresh_token t) user w) h

  answer-IsGone :
      (hash : String) (now : Time) (r : TokenRequest) (v : Validated) (w : World)
      → IsGone hash w
      → IsGone hash (answer get_token_hash verifier_hash words now r v w).1
  unfolding answer
  answer-IsGone hash now r (refused e) w h = h
  answer-IsGone hash now r (granted g p) w h =
      issue_to-IsGone hash now r g p
        (get_user get_token_hash verifier_hash words g.user_id g.client.tenant_id w) w h

  happen-IsGone :
      (hash : String) (es : List Event) (w : World)
      → All (IsOther hash) es
      → IsGone hash w
      → IsGone hash (happen es w)
  unfolding happen token exists
  happen-IsGone hash [] w o h = h
  happen-IsGone hash (requested now r ∷ es) w o h =
      happen-IsGone hash es (token get_token_hash verifier_hash words now r w).1 o.1 (
        answer-IsGone hash now r
          (validate_grant_request get_token_hash verifier_hash words now r r.grant_type w) w h)
  happen-IsGone hash (code_issued a ∷ es) w o h =
      happen-IsGone hash es (record w { authorization_codes = w.authorization_codes ++ a ∷ [] }) o.1
        (ground
          (arith, o.0, exists-append (λ b. str_eq b.code hash) w.authorization_codes (a ∷ [])))

  exchanged-IsGone :
      (now : Time) (r : TokenRequest) (code : String) (w : World) (t : Tokens)
      → r.grant_type ≡ some "authorization_code"
      → r.code ≡ some code
      → (token get_token_hash verifier_hash words now r w).0 ≡ issued t
      → IsGone (get_token_hash code) (token get_token_hash verifier_hash words now r w).1
  exchanged-IsGone now r code w t gt c h =
      let (a, redeems, left) = redeemed get_token_hash verifier_hash words now r w t gt h in
      let valid =
        select_one-satisfies (λ b. str_eq b.code (get_token_hash redeems.0) && ltb now b.expires_at)
          w.authorization_codes a redeems.2 in
      let same : redeems.0 ≡ code = ground (arith, redeems.1) in
      let named : str_eq a.code (get_token_hash code) ≡ true =
        let own : str_eq a.code (get_token_hash redeems.0) ≡ true = ground arith in
        ap (λ c. str_eq a.code (get_token_hash c)) (sym same) ∙ own in
      rw left (
        exists-delete_implied (λ b. str_eq b.code (get_token_hash code)) (λ b. str_eq b.code a.code)
          w.authorization_codes
          (λ x p.
            same_code get_token_hash verifier_hash words x.code a.code (get_token_hash code) p
              named))

  -- An authorization code that was exchanged for tokens is exchanged no more: not by a request to /token
  -- at any later time, after any further requests to /token, with whatever parameters and outcome, and
  -- any codes that /consent issued, provided that none of these has the same hash.
  pub token_single_use :
      (now later : Time) (r again : TokenRequest) (code : String) (es : List Event) (w : World)
      (t t' : Tokens)
      → r.grant_type ≡ some "authorization_code"
      → again.grant_type ≡ some "authorization_code"
      → r.code ≡ some code
      → again.code ≡ some code
      → All (IsOther (get_token_hash code)) es
      → (token get_token_hash verifier_hash words now r w).0 ≡ issued t
      → (token get_token_hash verifier_hash words later again
          (happen es (token get_token_hash verifier_hash words now r w).1)).0
        ≢ issued t'
  token_single_use now later r again code es w t t' gt gt' c c' others h h' =
      let w' = happen es (token get_token_hash verifier_hash words now r w).1 in
      let hash = get_token_hash code in
      let gone =
        happen-IsGone hash es (token get_token_hash verifier_hash words now r w).1 others
          (exchanged-IsGone now r code w t gt c h) in
      let (a, redeems, left) =
        redeemed get_token_hash verifier_hash words later again w' t' gt' h' in
      let same : redeems.0 ≡ code = ground (arith, redeems.1) in
      let found : select_one (λ b. str_eq b.code hash && ltb later b.expires_at)
            w'.authorization_codes
          ≡ some a =
        rw same at redeems.2 in
      let lost =
        select_one-eq-none (λ b. str_eq b.code hash && ltb later b.expires_at)
          w'.authorization_codes
          (exists-narrower (λ b. str_eq b.code hash)
            (λ b. str_eq b.code hash && ltb later b.expires_at) w'.authorization_codes
            (λ x p. ground arith) gone) in
      ground arith
