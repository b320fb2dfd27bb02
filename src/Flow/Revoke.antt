-- ===== src/Flow/Revoke.antt =====
-- The revocations of `DeviceSessionsService`.
use fief.Models.{
  AuditLogMessage, SessionToken, RefreshToken, World, user_sessions_auto_revoked, Extra,
  user_sessions_signed_out_others, text, audit_logger, number,
}
use fief.Prelude.{
  Option, ℕ, Bool, String, List, false, ◌==◌, [], ◌&&◌, count, some, ◌∷◌, none, not, ◌++◌, delete,
}

abbrev pub except : Option ℕ → ℕ → Bool
except none id = false
except (some kept) id = id == kept

-- SessionTokenRepository.delete_all_except_for_user, for at most one exception
abbrev pub revoked_session : ℕ → Option ℕ → SessionToken → Bool
revoked_session user_id current t = t.user_id == user_id && not (except current t.id)

-- RefreshTokenRepository.delete_all_except_for_user, with no exception
abbrev pub revoked_refresh : ℕ → RefreshToken → Bool
revoked_refresh user_id t = t.user_id == user_id

unfoldable pub revoke_others :
    AuditLogMessage → List (String × Extra) → ℕ → Option ℕ → World → (ℕ × ℕ) × World
revoke_others message reason user_id current w =
    let s_count = count (revoked_session user_id current) w.session_tokens in
    let r_count = count (revoked_refresh user_id) w.refresh_tokens in
    (
      (s_count, r_count),
      audit_logger message (some user_id)
          (reason
            ++ ("revoked_session_count", number s_count)
              ∷ ("revoked_refresh_count", number r_count)
              ∷ [])
          (record w {
            session_tokens = delete (revoked_session user_id current) w.session_tokens;
            refresh_tokens = delete (revoked_refresh user_id) w.refresh_tokens;
          }),
    )

unfoldable pub sign_out_others : ℕ → Option ℕ → World → (ℕ × ℕ) × World
unfolding revoke_others
sign_out_others = revoke_others user_sessions_signed_out_others []

unfoldable pub auto_revoke_others : ℕ → Option ℕ → String → World → (ℕ × ℕ) × World
unfolding revoke_others
auto_revoke_others user_id current reason =
    revoke_others user_sessions_auto_revoked (("trigger_reason", text reason) ∷ []) user_id current
