-- ===== src/Models.antt =====
-- fief/models: the rows of the tables that the modelled services read and write, and the state of
-- one deployment. Primary keys are numbers; a datetime is its count of microseconds since the epoch,
-- the resolution of Python's `datetime`. Columns that no modelled code reads are left out.
mod Audit
pub use Audit.*
use fief.Prelude.{ℤ, ℕ, ◌+◌, ◌*◌, String, Bool, Option, List, [], ◌∷◌, ◌++◌, Dict, ltb}

abbrev pub Time : Type 0
Time = ℕ

-- timedelta(seconds=n)
abbrev pub seconds : ℕ → Time
seconds n = n * 1000000

abbrev pub minutes : ℕ → Time
minutes n = seconds (n * 60)

abbrev pub hours : ℕ → Time
hours n = minutes (n * 60)

-- fief/services/acr.py: class ACR
pub data Acr : Type 0 where
  level_zero level_one : Acr

pub record User : Type 0 where
  pub id : ℕ
  pub tenant_id : ℕ
  pub email : String
  pub email_verified : Bool
  pub hashed_password : String
  pub is_active : Bool
  pub mfa_enabled : Bool

pub record Tenant : Type 0 where
  pub id : ℕ
  pub mfa_required : Bool
  pub registration_allowed : Bool
  pub breached_password_threshold : Option ℤ

pub data ClientType : Type 0 where
  public confidential : ClientType

pub record Client : Type 0 where
  pub id : ℕ
  pub tenant_id : ℕ
  pub client_id : String
  pub client_secret : String
  pub client_type : ClientType
  pub first_party : Bool
  pub redirect_uris : List String
  pub branding_signing_key : Option String
  pub authorization_code_lifetime_seconds : ℕ
  pub refresh_token_lifetime_seconds : ℕ

-- one row for each user: `user_id` is the primary key
pub record UserLockout : Type 0 where
  pub failed_count : ℕ
  pub locked_until : Option Time

-- one row for each user, by the unique constraint on `user_id`
pub record UserTotpSecret : Type 0 where
  pub secret_encrypted : String
  pub confirmed_at : Option Time
  pub last_used_step : Option ℕ

pub record UserMfaRecoveryCode : Type 0 where
  pub id : ℕ
  pub user_id : ℕ
  pub code_hash : String
  pub used_at : Option Time

pub record UserWebAuthnCredential : Type 0 where
  pub id : ℕ
  pub user_id : ℕ
  pub credential_id : String
  pub public_key : String
  pub sign_count : ℕ
  pub transports : List String
  pub aaguid : Option String
  pub backup_eligible : Bool
  pub backup_state : Bool
  pub label : Option String
  pub created_at : Time
  pub last_used_at : Option Time

pub record LoginSession : Type 0 where
  pub id : ℕ
  pub token : String
  pub response_type : String
  pub redirect_uri : String
  pub response_mode : String
  pub scope : List String
  pub prompt : Option String
  pub state : Option String
  pub nonce : Option String
  pub acr : Acr
  pub code_challenge : Option String
  pub code_challenge_method : Option String
  pub client_id : ℕ
  pub branding_origin : Option String
  pub expires_at : Time
  pub mfa_pending_user_id : Option ℕ
  pub mfa_attempts_count : ℕ
  pub mfa_locked_until : Option Time

pub record SessionToken : Type 0 where
  pub id : ℕ
  pub token : String
  pub user_id : ℕ
  pub created_at : Time
  pub expires_at : Time
  pub created_ip : Option String
  pub created_user_agent : Option String
  pub last_seen_at : Option Time
  pub last_seen_ip : Option String

pub record RefreshToken : Type 0 where
  pub id : ℕ
  pub token : String
  pub scope : List String
  pub authenticated_at : Time
  pub user_id : ℕ
  pub client_id : ℕ
  pub created_at : Time
  pub expires_at : Time
  pub created_ip : Option String
  pub created_user_agent : Option String
  pub last_seen_at : Option Time
  pub last_seen_ip : Option String

pub record AuthorizationCode : Type 0 where
  pub code : String
  pub c_hash : String
  pub redirect_uri : String
  pub scope : List String
  pub authenticated_at : Time
  pub nonce : Option String
  pub acr : Acr
  pub code_challenge : Option String
  pub code_challenge_method : Option String
  pub user_id : ℕ
  pub client_id : ℕ
  pub expires_at : Time

pub record Grant : Type 0 where
  pub user_id : ℕ
  pub client_id : ℕ
  pub scope : List String

pub record EmailVerification : Type 0 where
  pub id : ℕ
  pub code : String
  pub email : String
  pub user_id : ℕ
  pub expires_at : Time

pub record UserField : Type 0 where
  pub id : ℕ
  pub slug : String
  pub default : Option String

pub record UserFieldValue : Type 0 where
  pub user_id : ℕ
  pub user_field_id : ℕ
  pub value : String

-- the background tasks that `send_task` enqueues
pub data Task : Type 0 where
  on_mfa_state_changed : ℕ → String → Option String → Task
  on_after_register : ℕ → Option String → Task
  on_email_verification_requested : ℕ → String → Option String → Task
  on_after_forgot_password : ℕ → String → Option String → Task

-- The database of one deployment, with the audit lines and the tasks sent so far.
pub record World : Type 0 where
  pub users : Dict User
  pub clients : List Client
  pub lockouts : Dict UserLockout
  pub totp_secrets : Dict UserTotpSecret
  pub recovery_codes : List UserMfaRecoveryCode
  pub passkeys : List UserWebAuthnCredential
  pub login_sessions : Dict LoginSession
  pub session_tokens : List SessionToken
  pub refresh_tokens : List RefreshToken
  pub authorization_codes : List AuthorizationCode
  pub grants : List Grant
  pub email_verifications : List EmailVerification
  pub user_field_values : List UserFieldValue
  pub audit : List AuditRecord
  pub tasks : List Task

-- ExpiresAt.is_expired
abbrev pub is_expired : Time → Time → Bool
is_expired now expires_at = ltb expires_at now

-- AuditLogger.__call__
unfoldable pub audit_logger : AuditLogMessage → Option ℕ → List (String × Extra) → World → World
audit_logger m subject extra w = record w {
  audit = w.audit ++ record { message = m; subject_user_id = subject; extra = extra } ∷ [];
}

unfoldable pub send_task : Task → World → World
send_task t w = record w { tasks = w.tasks ++ t ∷ [] }
