-- ===== src/Totp/Flag.antt =====
-- `users.mfa_enabled` and the factors that are there (fief/services/security/mfa_state.py).
use fief.Prelude.{
  ◌≡◌, get, some, Option, ℕ, String, ◌≢◌, Bool, arith, get-put_self, none, get-put, select, ◌==◌,
  [], ltb, select-delete_self, select-delete_disjoint, get-remove_self, get-remove,
}
use fief.Models.{User, World, audit_logger, send_task}
use fief.Totp.{
  disable, recompute_mfa_enabled, get_confirmed, count_passkeys, has_factor, get_secret,
}

-- Whatever the flag was, after `recompute_mfa_enabled` on a user as the database has it, the stored
-- flag tells whether the user has a confirmed secret or a passkey; nothing else of the user changes,
-- no other user does, and neither do the factors, the sessions or the audit log.
pub recompute_mfa_enabled_lem :
    (user : User) (w : World) (v : ℕ)
    → get w.users user.id ≡ some user
    → user.id ≢ v
    → let w' = recompute_mfa_enabled user w in
      (get w'.users user.id ≡ some (record user { mfa_enabled = has_factor user.id w }))
      × (get w'.users v ≡ get w.users v)
      × (has_factor user.id w' ≡ has_factor user.id w)
      × (record w' { users = w.users } ≡ w)
unfolding recompute_mfa_enabled get_confirmed count_passkeys
recompute_mfa_enabled_lem user w v e ne =
    (grind (arith, get-put_self), grind (arith, get-put), ground arith, ground arith)

-- Disabling TOTP removes the user's secret and all recovery codes, and the flag that is stored stays
-- on exactly if the user still has a passkey. Other users keep their secrets and their codes.
pub disable_lem :
    (user : User) (send : Option (Option String)) (notify : Bool) (w : World) (v : ℕ)
    → get w.users user.id ≡ some user
    → user.id ≢ v
    → let w' = disable user send notify w in
      (get_secret user.id w' ≡ none)
      × (select (λ c. c.user_id == user.id) w'.recovery_codes ≡ [])
      × (get w'.users user.id
          ≡ some (record user { mfa_enabled = ltb 0 (count_passkeys user.id w) }))
      × (get_secret v w' ≡ get_secret v w)
      × (select (λ c. c.user_id == v) w'.recovery_codes
          ≡ select (λ c. c.user_id == v) w.recovery_codes)
unfolding disable get_confirmed count_passkeys audit_logger send_task
disable_lem user send notify w v e ne =
    let codes_deleted = select-delete_self (λ c. c.user_id == user.id) w.recovery_codes in
    let codes_kept =
      select-delete_disjoint (λ c. c.user_id == user.id) (λ c. c.user_id == v) w.recovery_codes
        (λ c h. ground arith) in
    (
      grind (arith, get-remove_self),
      ground (arith, codes_deleted, send),
      grind (arith, get-put_self, get-remove_self),
      grind (arith, get-remove),
      ground (arith, codes_kept),
    )
