-- ===== src/Flow/Sessions.antt =====
-- Which sessions are there after a rotation and after a revocation.
use fief.Models.{World, Time, audit_logger, SessionToken}
use fief.Prelude.{
  ℕ, select, delete, Option, List, ◌≡◌, ◌==◌, ◌≢◌, ◌&&◌, some, ◌++◌, ◌∷◌, arith, [], select-append,
  length, refl, ==_refl, ◌+◌, select-delete_self, sym, length-select-eq-count, length-append,
  select-delete_disjoint,
}
use fief.Flow.Revoke.{sign_out_others, revoked_session, except, revoked_refresh}
use fief.Flow.{rotate_session_token, RequestInfo, NewToken, session_row}

-- the sessions of a user, in the order of the table
abbrev pub sessions_of : ℕ → World → List SessionToken
sessions_of user_id w = select (λ t. t.user_id == user_id) w.session_tokens

keeps_only :
    (u : ℕ) (current : Option ℕ) (l : List SessionToken)
    → select (λ t. t.user_id == u) (delete (revoked_session u current) l)
      ≡ select (λ t. t.user_id == u && except current t.id) l
unfolding select delete
keeps_only u current [] = refl
keeps_only u current (t ∷ l) = ground (arith, keeps_only u current l)

-- Signing out elsewhere, on request or automatically, leaves the user no session but the current one
-- (none at all if there is no current one) and no refresh token; it reports the numbers of rows that
-- it deleted, writes one audit line, and leaves the sessions and refresh tokens of every other user.
pub sign_out_others_lem :
    (u v : ℕ) (current : Option ℕ) (w : World)
    → u ≢ v
    → let ((s_count, r_count), w') = sign_out_others u current w in
      (sessions_of u w' ≡ select (λ t. t.user_id == u && except current t.id) w.session_tokens)
      × (select (revoked_refresh u) w'.refresh_tokens ≡ [])
      × (s_count ≡ length (select (revoked_session u current) w.session_tokens))
      × (r_count ≡ length (select (revoked_refresh u) w.refresh_tokens))
      × (length w'.audit ≡ length w.audit + 1)
      × (sessions_of v w' ≡ sessions_of v w)
      × (select (revoked_refresh v) w'.refresh_tokens ≡ select (revoked_refresh v) w.refresh_tokens)
unfolding sign_out_others audit_logger
sign_out_others_lem u v current w ne = (
  keeps_only u current w.session_tokens,
  select-delete_self (revoked_refresh u) w.refresh_tokens,
  sym (length-select-eq-count (revoked_session u current) w.session_tokens),
  sym (length-select-eq-count (revoked_refresh u) w.refresh_tokens),
  omega (arith, length-append {0} w.audit),
  select-delete_disjoint _ (λ t. t.user_id == v) w.session_tokens (λ t h. ground arith),
  select-delete_disjoint _ (revoked_refresh v) w.refresh_tokens (λ t h. ground arith),
)

-- Rotating the session ends the presented one and starts a new one: afterwards the user's sessions
-- are those from before without the presented one, then the new row, and the cookie carries the new
-- token's value; so the presented id is gone, if the new id is another.
pub rotate_session_token_lem :
    (now : Time) (u : ℕ) (request : RequestInfo) (new : NewToken) (old : SessionToken) (w : World)
    → new.id ≢ old.id
    → let (cookie, w') = rotate_session_token now u request new (some old) w in
      (cookie ≡ new.value)
      × (sessions_of u w'
          ≡ select (λ t. t.user_id == u) (delete (λ t. t.id == old.id) w.session_tokens)
            ++ session_row now u request new ∷ [])
      × (select (λ t. t.id == old.id) w'.session_tokens ≡ [])
unfolding rotate_session_token
rotate_session_token_lem now u request new old w ne =
    let kept = delete (λ t. t.id == old.id) w.session_tokens in
    (
      refl,
      rw select-append (unfold select in ground (arith, ==_refl u)),
      rw (select-append, select-delete_self (λ t. t.id == old.id) w.session_tokens)
          (unfold select in ground arith),
    )
