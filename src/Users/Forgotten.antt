-- ===== src/Users/Forgotten.antt =====
-- A password that was forgotten and is set anew: forgot_password, then reset_password, of
-- fief/services/user_manager.py.
use fief.Users.Reset.{reset_target-accepted}
use fief.Users.SingleUse.{with_password}
use fief.Users.Passwords.{
  reset_password, reset_user, set_user_attributes, set_attributes, set_password, store_user,
  validate_password, validate, breach_answer, messages_answer,
}
use fief.Models.{
  User, audit_logger, World, send_task, Tenant, user_password_reset, on_after_forgot_password, Task,
  on_after_register, on_email_verification_requested, on_mfa_state_changed,
}
use fief.BreachedPasswords.{
  Corpus, parsed_body, is_breached, from_cache, fetched, fetch_prefix, Cached, fail_open, cached,
  Counts, Fetched, transport_error, cache_miss, response, parse_body,
}
use fief.Users.{
  AccountLibrary, AccountSettings, commit_user, forgot_password, is_clash, set_email, claims,
  PasswordMessage, UserError,
}
use fief.Prelude.{
  ℕ, String, Option, ◌≡◌, some, true, false, ok, refl, arith, get, none, put, exists, Bool-cases,
  inl, inr, [], List, Bool, ap, sym, ◌∙◌, ◌∷◌, Result, err, ◌++◌,
}

module _ (lib : AccountLibrary) {Store : Type 0} (corpus : Corpus Store)
    (settings : AccountSettings) where
  parsed_body-users :
      (prefix : List ℕ) (c : Result String Counts) (s : Store) (w : World)
      → (parsed_body corpus prefix c s w).2.users ≡ w.users
  unfolding parsed_body fail_open audit_logger
  parsed_body-users prefix (err e) s w = refl
  parsed_body-users prefix (ok c) s w = refl

  fetched-users :
      (prefix : List ℕ) (f : Fetched) (s : Store) (w : World)
      → (fetched corpus prefix f s w).2.users ≡ w.users
  unfolding fetched fail_open audit_logger
  fetched-users prefix (transport_error exc) s w = refl
  fetched-users prefix (response status lines) s w =
      ground (arith, parsed_body-users prefix (parse_body corpus lines) s w)

  from_cache-users :
      (prefix : List ℕ) (c : Cached) (s : Store) (w : World)
      → (from_cache corpus prefix c s w).2.users ≡ w.users
  unfolding from_cache
  from_cache-users prefix cache_miss s w = fetched-users prefix (corpus.get_range prefix) s w
  from_cache-users prefix (cached counts) s w = refl

  is_breached-users :
      (password : String) (tenant : Option Tenant) (s : Store) (w : World)
      → (is_breached corpus settings.breaches password tenant s w).2.users ≡ w.users
  unfolding is_breached fetch_prefix
  is_breached-users password tenant s w =
      let prefix = (corpus.sha1 password).0 in
      ground (arith, from_cache-users prefix (corpus.get_cached prefix s) s w)

  breach_answer-users :
      (subject : Option ℕ) (tenant : Option Tenant) (a : Bool × Store × World)
      → (breach_answer lib corpus settings subject tenant a).2.users ≡ a.2.users
  unfolding audit_logger
  breach_answer-users subject tenant (true, s, w) = refl
  breach_answer-users subject tenant (false, s, w) = refl

  messages_answer-users :
      (l : List PasswordMessage) (subject : Option ℕ) (password : String) (tenant : Option Tenant)
      (s : Store) (w : World)
      → (messages_answer lib corpus settings l subject password tenant s w).2.users ≡ w.users
  messages_answer-users [] subject password tenant s w =
      breach_answer-users subject tenant (is_breached corpus settings.breaches password tenant s w)
      ∙ is_breached-users password tenant s w
  messages_answer-users (m ∷ l) subject password tenant s w = refl

  -- a check of a password leaves the users alone
  pub validate_password-users :
      (password : String) (subject : Option ℕ) (tenant : Option Tenant) (s : Store) (w : World)
      → (validate_password lib corpus settings password subject tenant s w).2.users ≡ w.users
  unfolding validate_password
  validate_password-users password subject tenant s w =
      messages_answer-users
        (validate lib password settings.password_min_length settings.password_min_score) subject
        password tenant s w

  commit_user_lem :
      (user : User) (w : World)
      → exists (is_clash user) w.users.entries ≡ false
      → commit_user user w ≡ ok (record w { users = put w.users user.id user })
  unfolding commit_user
  commit_user_lem user w free = rw free refl

  forgot_password-users :
      (user : User) (salt : String) (brand : Option String) (w w1 : World)
      → forgot_password lib user salt brand w ≡ ok w1
      → (user.is_active ≡ true) × (w1.users ≡ w.users)
  unfolding forgot_password audit_logger send_task
  forgot_password-users user salt brand w w1 h = elim (Bool-cases user.is_active) [
    | inl active ↦ (active, ground arith)
    | inr inactive ↦ absurd (ground arith)
  ]

  abbrev link_of : Task → Option String
  link_of (on_after_forgot_password user_id url brand) = some url
  link_of (on_after_register user_id brand) = none
  link_of (on_email_verification_requested id code brand) = none
  link_of (on_mfa_state_changed user_id event reason) = none

  -- the link in the task that was sent last
  unfoldable pub last_link : List Task → Option String
  last_link [] = none
  last_link (t ∷ []) = link_of t
  last_link (t ∷ u ∷ l) = last_link (u ∷ l)

  last_link-append : (l : List Task) (t : Task) → last_link (l ++ t ∷ []) ≡ link_of t
  unfolding last_link
  last_link-append [] t = refl
  last_link-append (u ∷ []) t = refl
  last_link-append (u ∷ v ∷ l) t = last_link-append (v ∷ l) t

  -- the link that was sent carries a token for this user and the hash of the password
  sent_link :
      (user : User) (salt url : String) (brand : Option String) (w w1 : World)
      → forgot_password lib user salt brand w ≡ ok w1
      → last_link w1.tasks ≡ some url
      → url
        ≡ lib.reset_url user.tenant_id
            (lib.sign user.tenant_id (lib.str user.id) (lib.hash salt user.hashed_password))
  unfolding forgot_password audit_logger send_task
  sent_link user salt url brand w w1 h linked =
      let token = lib.sign user.tenant_id (lib.str user.id) (lib.hash salt user.hashed_password) in
      let t = on_after_forgot_password user.id (lib.reset_url user.tenant_id token) brand in
      let last = last_link-append w.tasks t in
      elim (Bool-cases user.is_active) [
        | inl active ↦
            let tasks : w1.tasks ≡ w.tasks ++ t ∷ [] = ground arith in
            let sent : last_link w1.tasks ≡ some (lib.reset_url user.tenant_id token) =
              rw tasks last in
            ground arith
        | inr inactive ↦ absurd (ground arith)
      ]

  -- Where `forgot_password` succeeds for the stored row of a user of the tenant, `url` is the link of the
  -- task that was sent last and the browser reads `token` from it, `reset_password` with this token and a
  -- password that passes `validate_password` stores the user's row with the hash of the new password,
  -- and logs it. No other row of the tenant has the user's address. The libraries read back what they
  -- wrote: a link its token, a token of this user its claims, the text of the id the id, and a hash
  -- verifies its own password.
  pub forgot_password-reset_password :
      (link_token : String → Option String) (user : User) (tenant : Tenant)
      (salt salt' password url token : String) (brand : Option String) (s s' : Store)
      (w w1 w2 : World)
      → get w.users user.id ≡ some user
      → user.tenant_id ≡ tenant.id
      → exists (is_clash user) w.users.entries ≡ false
      → forgot_password lib user salt brand w ≡ ok w1
      → last_link w1.tasks ≡ some url
      → link_token url ≡ some token
      → ((t : String) → link_token (lib.reset_url user.tenant_id t) ≡ some t)
      → ((fgpt : String)
          → lib.decode tenant.id (lib.sign user.tenant_id (lib.str user.id) fgpt)
            ≡ claims (some (lib.str user.id)) (some fgpt))
      → lib.uuid (lib.str user.id) ≡ some user.id
      → ((salt p : String) → (lib.verify_and_update p (lib.hash salt p)).0 ≡ true)
      → validate_password lib corpus settings password (some user.id) (some tenant) s w1
        ≡ (none, s', w2)
      → (let user' = with_password lib corpus settings salt' password user in
          reset_password lib corpus settings token password tenant salt' s w1 ≡ (
            ok user',
            s',
            audit_logger user_password_reset
                (some user.id)
                []
                (record w2 { users = put w2.users user.id user' }),
          ))
  unfolding reset_password reset_user set_user_attributes set_email set_attributes set_password
      store_user audit_logger
  forgot_password-reset_password link_token user tenant salt salt' password url token brand s s' w
        w1 w2 known same free sent linked read reads decodes parsed verifies valid =
      let fgpt = lib.hash salt user.hashed_password in
      let signed = lib.sign user.tenant_id (lib.str user.id) fgpt in
      let link = sent_link user salt url brand w w1 sent linked in
      let there_token : link_token url ≡ some signed = rw link (reads signed) in
      let carried : signed ≡ token = ground arith in
      let decoded : lib.decode tenant.id token ≡ claims (some (lib.str user.id)) (some fgpt) =
        rw (sym carried) (decodes fgpt) in
      let (active, kept) = forgot_password-users user salt brand w w1 sent in
      let there : get w1.users user.id ≡ some user = rw kept known in
      let target =
        reset_target-accepted lib token (lib.str user.id) fgpt tenant.id user.id user w1 decoded
          parsed there same (verifies salt user.hashed_password) active in
      let users : w2.users ≡ w.users =
        ap (λ (x : Option UserError × Store × World). x.2.users) (sym valid)
        ∙ validate_password-users password (some user.id) (some tenant) s w1
        ∙ kept in
      let free' : exists (is_clash user) w2.users.entries ≡ false = rw users free in
      rw
        (
          target,
          valid,
          commit_user_lem (with_password lib corpus settings salt' password user) w2 free',
        )
        refl
