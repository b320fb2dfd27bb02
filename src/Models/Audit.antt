-- ===== src/Models/Audit.antt =====
-- fief/models/audit_log.py and the calls of `AuditLogger`: one record for each audit line, in the
-- order in which they are written. `extra` keeps the keys and the values that the caller gives.
use fief.Prelude.{ℕ, String, Option, List}

pub data AuditLogMessage : Type 0 where
  object_created object_updated object_deleted : AuditLogMessage
  user_registered user_updated user_email_verify_requested : AuditLogMessage
  user_forgot_password_requested user_password_reset : AuditLogMessage
  user_token_generated user_token_generated_by_admin : AuditLogMessage
  user_mfa_enrolled user_mfa_disabled user_mfa_verified user_mfa_verify_failed : AuditLogMessage
  user_mfa_recovery_code_used user_mfa_recovery_codes_regenerated : AuditLogMessage
  user_mfa_force_reenrolled user_mfa_state_inconsistent : AuditLogMessage
  user_login_failed user_rate_limit_exceeded : AuditLogMessage
  user_account_locked user_account_auto_unlocked user_account_admin_unlocked : AuditLogMessage
  user_password_breached_rejected user_password_breached_check_failed_open : AuditLogMessage
  user_session_revoked user_sessions_signed_out_others : AuditLogMessage
  user_sessions_auto_revoked : AuditLogMessage
  user_passkey_registered user_passkey_deleted user_passkey_verified : AuditLogMessage
  user_passkey_verify_failed user_passkey_sign_count_rollback : AuditLogMessage
  oauth_provider_user_access_token_get : AuditLogMessage

-- a value of the `extra` dictionary
pub data Extra : Type 0 where
  text : String → Extra
  number : ℕ → Extra
  texts : List String → Extra
  null : Extra

pub record AuditRecord : Type 0 where
  pub message : AuditLogMessage
  pub subject_user_id : Option ℕ
  pub extra : List (String × Extra)
