-- ===== src/Totp/Enrollment.antt =====
-- Enrolment in `TotpService`: a confirmed secret is never replaced, and a secret that was begun can be
-- confirmed.
use fief.Prelude.{
  String, some, Option, ℕ, ◌≡◌, none, true, ◌↔◌, get, is_some, arith, false, get-put_self, get-put,
  get-remove,
}
use fief.Models.{Time, User, audit_logger, World, UserTotpSecret, send_task}
use fief.Totp.{
  Otp, begin_enrollment, get_confirmed, confirm_enrollment, current_step, already_enrolled,
}

-- Beginning an enrolment, whatever its outcome, keeps the confirmed secret of every user, and is
-- refused exactly for a user who has one.
pub begin_enrollment-keeps_confirmed :
    (otp : Otp) (user : User) (label secret : String) (w : World)
    → ((v : ℕ) → get_confirmed v (begin_enrollment otp user label secret w).1 ≡ get_confirmed v w)
      × (((begin_enrollment otp user label secret w).0 ≡ already_enrolled)
          ↔ (is_some (get_confirmed user.id w) ≡ true))
unfolding begin_enrollment get_confirmed
begin_enrollment-keeps_confirmed otp user label secret w =
    (λ v. grind (arith, get-put, get-remove), (λ e. ground arith, λ e. ground arith))

abbrev pub confirmed_row : Otp → Time → String → UserTotpSecret
confirmed_row otp now secret = record {
  secret_encrypted = otp.encrypt secret;
  confirmed_at = some now;
  last_used_step = some (current_step now);
}

-- From the start of an enrolment to its end, for a user without a confirmed secret and a cipher
-- that decrypts what it encrypted: a code that the otp library accepts for the new secret confirms
-- it, switches the user's MFA flag on, and uses up the current step, so that the same step cannot be
-- replayed at the next login; a code that it refuses changes nothing, so that the user can try again.
pub begin_confirm :
    (otp : Otp) (user : User) (label secret code : String) (now : Time)
    (notify : Option (Option String)) (w : World)
    → otp.decrypt (otp.encrypt secret) ≡ some secret
    → get_confirmed user.id w ≡ none
    → let w1 = (begin_enrollment otp user label secret w).1 in
      let (confirmed, w2) = confirm_enrollment otp now user code notify w1 in
      (confirmed ≡ otp.verify secret code now)
      × (otp.verify secret code now ≡ true
          → (get_confirmed user.id w2 ≡ some (confirmed_row otp now secret))
            × (get w2.users user.id ≡ some (record user { mfa_enabled = true })))
      × (otp.verify secret code now ≡ false → w2 ≡ w1)
unfolding begin_enrollment confirm_enrollment get_confirmed audit_logger send_task
begin_confirm otp user label secret code now notify w d c = (
  grind (arith, get-put_self),
  λ v. (grind (arith, get-put_self), grind (arith, get-put_self)),
  λ v. grind (arith, get-put_self),
)
