-- ===== src/Consent/Prompt.antt =====
-- What becomes of the `prompt` parameter between /authorize and /consent of
-- fief/apps/auth/routers/auth.py.
use fief.Authorize.Stored.{authorize_row}
use fief.Flow.{RequestInfo}
use fief.Authorize.{authorize, AuthorizeRequest, NewLoginSession, AuthorizeAnswer, check_early}
use fief.Models.{Time, LoginSession, Client, SessionToken, World}
use fief.Consent.{consent_body, NewCode, ConsentForm, get_needs_consent, consent_form, give_code}
use fief.Prelude.{
  Option, String, List, some, none, ℕ, ◌≡◌, if◌then◌else◌, ok, get, arith, ap, sym, ◌∙◌,
}

no_prompt :
    (now : Time) (code : NewCode) (session : SessionToken) (ls : LoginSession) (client : Client)
    (form : ConsentForm) (w : World)
    → ls.prompt ≡ none
    → consent_body now code session ls client form w ≡ (
        if get_needs_consent session ls client w
        then consent_form now code session ls client form w
        else give_code now code session ls client w)
unfolding consent_body
no_prompt now code session ls client form w e = rw e (ground arith)

unfoldable pub prompt_of : Option LoginSession → Option String
prompt_of none = none
prompt_of (some ls) = ls.prompt

module _ (words : String → List String) (get_token_hash : String → String)
    (verified_origin : Client → Option String) where
  -- /consent does not know the prompt: for the login session that /authorize stored, whatever prompt the
  -- request named, it shows the form if consent is needed and issues a code at once if not; so
  -- `prompt=consent` asks for nothing, and `prompt=none` gets the form where the protocol wants the
  -- error `consent_required`.
  pub prompt_forgotten :
      (now later : Time) (tenant : ℕ) (r : AuthorizeRequest) (new : NewLoginSession)
      (info : RequestInfo) (cookie : Option String) (w w' : World) (a : AuthorizeAnswer)
      (ls : LoginSession) (code : NewCode) (session : SessionToken) (client : Client)
      (form : ConsentForm)
      → (authorize words get_token_hash verified_origin now tenant r new info cookie w).0 ≡ ok a
      → (let (_, w1) =
            authorize words get_token_hash verified_origin now tenant r new info cookie w in
          get w1.login_sessions new.id ≡ some ls)
      → consent_body later code session ls client form w' ≡ (
          if get_needs_consent session ls client w'
          then consent_form later code session ls client form w'
          else give_code later code session ls client w')
  unfolding authorize prompt_of
  prompt_forgotten now later tenant r new info cookie w w' a ls code session client form h row =
      let (c, valid, (stored, route)) =
        authorize_row words get_token_hash verified_origin now tenant r new info cookie
          (check_early words tenant r w) w a h in
      no_prompt later code session ls client form w' (ap prompt_of (sym row ∙ stored))
