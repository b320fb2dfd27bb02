-- ===== src/Login/Fresh.antt =====
-- What a right password does to the login session, in /login of fief/apps/auth/routers/auth.py: its
-- state of the second factor starts afresh.
use fief.Login.{LoginRequest, authenticated, challenge_or_session, reset_enabled}
use fief.Models.{Time, User, LoginSession, World, SessionToken}
use fief.Flow.{
  rotate_session_token, clear_mfa_state, create_session_token, delete_session_token,
  without_mfa_state, RequestInfo, NewToken,
}
use fief.Prelude.{
  Bool, ◌≡◌, some, get, get-put_self, refl, Bool-cases, inl, inr, ◌&&◌, not, ℕ, Option, none,
}

-- the row has no wrong codes against it, and no lock
abbrev pub IsFresh : ℕ → World → Type 0
IsFresh id w =
    (row : LoginSession) × (get w.login_sessions id ≡ some row)
    × (row.id ≡ id)
    × (row.mfa_attempts_count ≡ 0)

cleared_row :
    (ls : LoginSession) (w : World)
    → get (clear_mfa_state ls w).login_sessions ls.id ≡ some (without_mfa_state ls)
unfolding clear_mfa_state
cleared_row ls w = get-put_self w.login_sessions ls.id (without_mfa_state ls)

rotate_kept :
    (now : Time) (user_id : ℕ) (info : RequestInfo) (new : NewToken) (token : Option SessionToken)
    (w : World)
    → (rotate_session_token now user_id info new token w).1.login_sessions ≡ w.login_sessions
unfolding rotate_session_token create_session_token delete_session_token
rotate_kept now user_id info new none w = refl
rotate_kept now user_id info new (some t) w = refl

rotated_row :
    (now : Time) (user_id : ℕ) (request : LoginRequest) (ls : LoginSession) (w : World)
    → get
        (rotate_session_token now user_id request.info request.new_token request.session_token
          (clear_mfa_state ls w)).1.login_sessions
        ls.id
      ≡ some (without_mfa_state ls)
rotated_row now user_id request ls w =
    rw
      (rotate_kept now user_id request.info request.new_token request.session_token
        (clear_mfa_state ls w))
      (cleared_row ls w)

-- The path after a right password leaves the login session of the request without wrong codes
-- against it.
pub authenticated-IsFresh :
    (on : Bool) (now : Time) (request : LoginRequest) (user : User) (ls : LoginSession) (w : World)
    → request.login_session ≡ some ls
    → IsFresh ls.id (authenticated on now request user w).1
unfolding authenticated challenge_or_session
authenticated-IsFresh on now request user ls w h =
    elim (Bool-cases (request.tenant.mfa_required && not user.mfa_enabled)) [
      | inl b ↦ (
        without_mfa_state ls,
        rw (h, b) (rotated_row now user.id request ls (reset_enabled on user.id w)),
        refl,
        refl,
      )
      | inr b ↦ elim (Bool-cases user.mfa_enabled) [
        | inl e ↦ (
          record (without_mfa_state ls) { mfa_pending_user_id = some user.id },
          rw (h, b, e)
              (get-put_self (clear_mfa_state ls (reset_enabled on user.id w)).login_sessions ls.id
                (record (without_mfa_state ls) { mfa_pending_user_id = some user.id })),
          refl,
          refl,
        )
        | inr e ↦ (
          without_mfa_state ls,
          rw (h, b, e) (rotated_row now user.id request ls (reset_enabled on user.id w)),
          refl,
          refl,
        )
      ]
    ]
