-- ===== src/Challenge/Gate.antt =====
-- What the gate of the challenge routes lets through, and what it does to a passkey user.
use fief.Totp.Flag.{disable_lem}
use fief.Flow.{without_mfa_state}
use fief.Flow.Response.{Limiter, Settings, plain, redirect, login_route}
use fief.Prelude.{
  ℕ, some, ◌≡◌, String, get, none, false, Bool-cases, ◌⊎◌, true, Option-cases, inl, ◌<◌, arith,
  get-put_self, inr, refl, select, ◌==◌, [], ◌+◌,
}
use fief.Totp.{Otp, get_confirmed, count_passkeys}
use fief.Challenge.Handlers.{mfa_totp}
use fief.Models.{Time, LoginSession, World, audit_logger, User}
use fief.Challenge.{
  gate_mfa_challenge, maybe_self_heal_orphan_mfa, open_for, bounced, is_locked, ChallengeRequest,
}

bounced_row :
    (now : Time) (ls : LoginSession) (w : World) (pending : ℕ)
    → ls.mfa_pending_user_id ≡ some pending
    → (gate_mfa_challenge now (some ls) w).0 ≡ bounced
    → (row : LoginSession) × (get (gate_mfa_challenge now (some ls) w).1.login_sessions ls.id
        ≡ some row)
      × (row.mfa_pending_user_id ≡ none)
unfolding gate_mfa_challenge
bounced_row now ls w pending e h = elim (Bool-cases (is_locked now ls)) [
  | inl locked_now ↦ (record ls { mfa_pending_user_id = none }, grind (arith, get-put_self), refl)
  | inr unlocked_now ↦ (without_mfa_state ls, grind (arith, get-put_self), refl)
]

-- For a request with a login session, either the gate opens for a user and changes nothing, and the
-- login session waits for that user, who exists, and is not locked; or it bounces the request, and the
-- session waits for nobody afterwards.
pub gate_mfa_challenge_lem :
    (now : Time) (ls : LoginSession) (w : World)
    → let (gated, w') = gate_mfa_challenge now (some ls) w in
      ((user : User) × (pending : ℕ) × (gated ≡ open_for user ls)
        × (w' ≡ w)
        × (is_locked now ls ≡ false)
        × (ls.mfa_pending_user_id ≡ some pending)
        × (get w.users pending ≡ some user))
      ⊎ ((gated ≡ bounced)
          × ((w' ≡ w) × (ls.mfa_pending_user_id ≡ none)
              ⊎ ((row : LoginSession) × (get w'.login_sessions ls.id ≡ some row)
                  × (row.mfa_pending_user_id ≡ none))))
unfolding gate_mfa_challenge
gate_mfa_challenge_lem now ls w = elim (Option-cases ls.mfa_pending_user_id) [
  | inl e ↦ inr (ground arith, inl (ground arith, e))
  | inr (pending, e) ↦ elim (Bool-cases (is_locked now ls)) [
    | inl l ↦
        let shut : (gate_mfa_challenge now (some ls) w).0 ≡ bounced = ground arith in
        inr (shut, inr (bounced_row now ls w pending e shut))
    | inr l ↦ elim (Option-cases (get w.users pending)) [
      | inl u ↦
          let shut : (gate_mfa_challenge now (some ls) w).0 ≡ bounced = ground arith in
          inr (shut, inr (bounced_row now ls w pending e shut))
      | inr (user, u) ↦ inl (user, pending, ground arith, ground arith, l, e, u)
    ]
  ]
]

-- A user whose only factor is a passkey cannot get past /mfa/totp, where /login sends every user with
-- MFA: opening the page as such a user (flag on, no confirmed secret, at least one passkey, waiting
-- in a session that is not locked) bounces the request to /login with the session's MFA state wiped,
-- so that /mfa/passkey cannot follow either; the user's recovery codes are gone, and the stored flag is still
-- on, so that the next login comes the same way.
pub passkey_only_bounced :
    (otp : Otp) {Store : Type 0} (limiter : Limiter Store) (settings : Settings)
    (hash_key : String → String) (now : Time) (request : ChallengeRequest) (s : Store) (w : World)
    (ls : LoginSession) (user : User)
    → request.is_get ≡ true
    → request.login_session ≡ some ls
    → ls.mfa_pending_user_id ≡ some user.id
    → is_locked now ls ≡ false
    → get w.users user.id ≡ some user
    → user.mfa_enabled ≡ true
    → get_confirmed user.id w ≡ none
    → 0 < count_passkeys user.id w
    → let (response, s', w') = mfa_totp otp limiter settings hash_key now request s w in
      (response ≡ plain (redirect login_route))
      × (get w'.login_sessions ls.id ≡ some (without_mfa_state ls))
      × (get w'.users user.id ≡ some user)
      × (select (λ c. c.user_id == user.id) w'.recovery_codes ≡ [])
unfolding mfa_totp gate_mfa_challenge maybe_self_heal_orphan_mfa audit_logger
passkey_only_bounced otp limiter settings hash_key now request s w ls user g l p u e m c k =
    let off = disable_lem user none true w (user.id + 1) e (λ h. omega arith) in
    (ground arith, grind (arith, get-put_self), ground (arith, off), ground (arith, off))
