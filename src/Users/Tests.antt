-- ===== src/Users/Tests.antt =====
-- A library that keeps passwords and codes as they are, and a range API that is down.
use fief.Users.Forgotten.{forgot_password-reset_password, last_link}
use fief.Users.Create.{create}
use fief.Users.SingleUse.{ResetBy, with_password, reset_password-ok, reset_password-used}
use fief.Users.Registered.{new_user, create-registered}
use fief.Users.Emails.{
  verify_email-ambiguous, confirmed, request_verify_email-verify_email, verify_email_by_code-ok,
  verify_email-expired,
}
use fief.Users.Enumeration.{Alike, Unambiguous, forgot-Alike}
use fief.Roles.Sync.{gives, is_distinct_rows, IsSynced}
use fief.Samples.{world, alice, same, size, no_limiter, request_info, bob}
use fief.Roles.{RoleStore, is_distinct, is_user_role, mem, default_roles}
use fief.BreachedPasswords.{
  Corpus, fail_open, cache_miss, transport_error, is_breached, fetch_prefix, from_cache, fetched,
  count_of,
}
use fief.Users.Routes.{RouteSettings, forgot, AccountRequest}
use fief.Models.{
  Tenant, User, EmailVerification, World, send_task, audit_logger, on_after_forgot_password,
  user_password_reset, on_email_verification_requested, user_forgot_password_requested,
  user_email_verify_requested, is_expired, text, on_after_register,
}
use fief.Prelude.{
  pos, String, exists, get, if◌then◌else◌, ℕ, true, false, select_one, [], str_eq, ◌≡◌, ◌∷◌, none,
  some, select, put, delete, err, arith, Bool-cases, ok, refl, inl, inr, ◌++◌, eq_iff,
}
use fief.Users.{
  get_by_email, AccountLibrary, verify_email_by_code, request_verify_email, AccountSettings,
  get_by_code, get_by_code_and_user, UserCreate, delete_by_user, reset_target, only_user, not_taken,
  verify_email, confirm_email, read_claims, commit_user, get_account, claims,
  invalid_email_verification_code, multiple_results_found, is_by_user, set_email, forgot_password,
  invalid_reset_password_token, may_request, store_code,
}
use fief.Users.Passwords.{
  reset_password, reset_user, set_user_attributes, set_attributes, set_password, store_user,
  validate_password, validate,
}

abbrev lib : AccountLibrary
lib = record {
  lower = same;
  len = size;
  first = λ n s. s;
  zxcvbn = λ s. 4;
  hash = λ salt password. password;
  verify_and_update = λ password hashed. (str_eq password hashed, none);
  get_verify_code_hash = same;
  sign = λ tenant sub fgpt. "token";
  decode = λ tenant token. claims (some "1") (some "pw");
  uuid = λ s. some 1;
  str = λ n. "1";
  reset_url = λ tenant token. token;
}

abbrev down : Corpus ℕ
down = record {
  sha1 = λ password. (1 ∷ [], 2 ∷ []);
  upper = λ s. s;
  int = λ s. some (pos 3);
  unparseable = λ l. "unparseable";
  non_int = λ l. "non-int";
  str = λ n. "500";
  get_cached = λ prefix s. cache_miss;
  set_cached = λ prefix counts s. s;
  get_range = λ prefix. transport_error "down";
}

abbrev account_settings : AccountSettings
account_settings = record {
  password_min_length = 3;
  password_min_score = 3;
  email_verification_lifetime_seconds = 3600;
  breaches = record {
    breached_password_check_enabled = true;
    breached_password_default_threshold = pos 1;
  };
}

abbrev home : Tenant
home = record {
  id = 1;
  mfa_required = false;
  registration_allowed = true;
  breached_password_threshold = none;
}

abbrev reset_alice : User
reset_alice = record alice { hashed_password = "long enough" }

abbrev failed_open : World
failed_open = fail_open down "transport_error" "down" world

abbrev reset_world : World
reset_world =
    audit_logger user_password_reset (some 1) []
      (record failed_open { users = put failed_open.users 1 reset_alice })

abbrev pending : EmailVerification
pending = record { id = 5; code = "CODE"; email = "new"; user_id = 1; expires_at = 10 }

abbrev code_world : World
code_world = record world { email_verifications = pending ∷ [] }

abbrev verified_alice : User
verified_alice = record alice { email = "new"; email_verified = true }

abbrev verified_world : World
verified_world =
    delete_by_user 1 (record code_world { users = put code_world.users 1 verified_alice })

-- `BOB` as an address of alice, with a library that lowers it
abbrev lower_bob : String → String
lower_bob s = if str_eq s "BOB" then "bob" else s

abbrev lowering : AccountLibrary
lowering = record lib { lower = lower_bob }

abbrev bob_code : EmailVerification
bob_code = record pending { email = "BOB" }

abbrev bob_world : World
bob_world = record world { email_verifications = bob_code ∷ [] }

abbrev shouting_alice : User
shouting_alice = record alice { email = "BOB"; email_verified = true }

abbrev ambiguous_world : World
ambiguous_world =
    delete_by_user 1 (record bob_world { users = put bob_world.users 1 shouting_alice })

keyed : (k : ℕ) (u : User) → get world.users k ≡ some u → u.id ≡ k
unfolding get
keyed k u e = ground arith

abbrev carol : UserCreate
carol = record {
  email = "carol";
  email_verified = false;
  password = "long enough";
  fields = λ slug. none;
}

-- one role that is granted by default
abbrev roles : RoleStore
roles = record {
  users = [];
  permissions = 7 ∷ [];
  roles = record { entries = (4, record { granted_by_default = true; permissions = 7 ∷ [] }) ∷ [] };
  user_roles = [];
  user_permissions = [];
  queue = [];
  audit = [];
}

roles-IsSynced : IsSynced roles
unfolding exists gives is_distinct get is_distinct_rows
roles-IsSynced = record {
  rows = λ u p r. refl;
  unique = refl;
  role_permissions = λ r role e. ground arith;
  role_exists = λ u r e. absurd (ground arith);
  user_exists = λ u r e. absurd (ground arith);
}

reset_password-ok_example :
    (sub : String) × (fgpt : String) × (id : ℕ) × (user : User) × ResetBy lib down account_settings
      "token" "long enough" home "salt" 0 world reset_alice 0 reset_world sub fgpt id user
unfolding reset_password reset_target read_claims get_account get put reset_user set_user_attributes
    set_email set_attributes set_password store_user commit_user exists validate_password validate
    is_breached fetch_prefix from_cache fetched fail_open count_of audit_logger
reset_password-ok_example =
    reset_password-ok lib down account_settings "token" "long enough" home "salt" 0 0 world
      reset_world reset_alice refl

reset_password-used_example :
    reset_password lib down account_settings "token" "pw pw" home "salt" 0 reset_world
    ≡ (err invalid_reset_password_token, 0, reset_world)
unfolding reset_password reset_target read_claims get_account get put reset_user set_user_attributes
    set_email set_attributes set_password store_user commit_user exists validate_password validate
    is_breached fetch_prefix from_cache fetched fail_open count_of audit_logger
reset_password-used_example =
    reset_password-used lib down account_settings "token" "long enough" "pw pw" home "salt" "salt"
      "1" "pw" 0 0 world reset_world reset_alice keyed refl refl refl

-- a token is the fingerprint that was signed
abbrev signing : AccountLibrary
signing = record lib {
  sign = λ tenant sub fgpt. fgpt;
  decode = λ tenant token. claims (some "1") (some token);
}

abbrev asked : World
asked =
    send_task (on_after_forgot_password 1 "pw" none)
      (audit_logger user_forgot_password_requested (some 1) [] world)

forgot_password-reset_password_example :
    (let user' = with_password signing down account_settings "salt" "long enough" alice in
      reset_password signing down account_settings "pw" "long enough" home "salt" 0 asked ≡ (
        ok user',
        0,
        audit_logger user_password_reset
            (some alice.id)
            []
            (record (fail_open down "transport_error" "down" asked) {
              users = put (fail_open down "transport_error" "down" asked).users alice.id user';
            }),
      ))
unfolding reset_password reset_target read_claims get_account get put reset_user set_user_attributes
    set_email set_attributes set_password store_user commit_user exists validate_password validate
    is_breached fetch_prefix from_cache fetched fail_open count_of audit_logger forgot_password
    send_task last_link
forgot_password-reset_password_example =
    forgot_password-reset_password signing down account_settings (λ url. some url) alice home "salt"
      "salt" "long enough" "pw" "pw" none 0 0 world asked
      (fail_open down "transport_error" "down" asked) refl refl refl refl refl refl (λ t. refl)
      (λ fgpt. refl) refl (λ salt p. ground (arith, eq_iff p p)) refl

verify_email_by_code-ok_example :
    (v : EmailVerification) × (user : User) × (get_by_code
        (lib.get_verify_code_hash "CODE")
        code_world
      ≡ some v)
    × (is_expired 7 v.expires_at ≡ false)
    × (get code_world.users v.user_id ≡ some user)
    × (user.tenant_id ≡ 1)
    × (verified_alice ≡ confirmed user v)
    × (verified_world.users ≡ put code_world.users user.id verified_alice)
    × (select (is_by_user user.id) verified_world.email_verifications ≡ [])
unfolding verify_email_by_code get_by_code select_one confirm_email commit_user exists get put
    delete_by_user
verify_email_by_code-ok_example =
    verify_email_by_code-ok lib 7 "CODE" 1 code_world verified_world verified_alice refl

abbrev sent_row : EmailVerification
sent_row = record { id = 5; code = "CODE"; email = "new"; user_id = 1; expires_at = 3600000007 }

abbrev requested : World
requested = send_task (on_email_verification_requested 5 "CODE" none) (
    audit_logger user_email_verify_requested (some 1) (("email", text "new") ∷ [])
      (record world { email_verifications = sent_row ∷ [] }))

request_verify_email-verify_email_example :
    (w2 : World) × (verify_email lib alice "CODE" requested
      ≡ ok (record alice { email = "new"; email_verified = true }, w2))
    × (w2.users ≡ put world.users alice.id (record alice { email = "new"; email_verified = true }))
    × (select (is_by_user alice.id) w2.email_verifications ≡ [])
unfolding request_verify_email may_request store_code get_by_email not_taken only_user select
    delete_by_user delete exists audit_logger send_task
request_verify_email-verify_email_example =
    request_verify_email-verify_email lib account_settings 7 alice "new" "CODE" 5 none world
      requested refl refl

verify_email-expired_example :
    (verify_email_by_code lib 11 "CODE" (some 1) code_world ≡ err invalid_email_verification_code)
    × (verify_email lib alice "CODE" code_world
        ≡ ok (
          confirmed alice pending,
          delete_by_user alice.id (record code_world {
            users = put code_world.users alice.id (confirmed alice pending);
          }),
        ))
unfolding get_by_code select_one exists
verify_email-expired_example =
    verify_email-expired lib 11 "CODE" (some 1) alice pending code_world refl refl refl refl refl

verify_email-ambiguous_example :
    get_by_email lowering bob_code.email alice.tenant_id ambiguous_world
    ≡ err multiple_results_found
unfolding get_by_code_and_user select_one get verify_email confirm_email commit_user exists put
    delete_by_user
verify_email-ambiguous_example =
    verify_email-ambiguous lowering "CODE" alice bob shouting_alice bob_code bob_world
      ambiguous_world refl refl refl refl refl refl

abbrev route_settings : RouteSettings
route_settings = record {
  rate_limit_enabled = true;
  rate_limit_forgot_per_ip_per_min = 10;
  rate_limit_forgot_per_email_per_hour = 3;
  rate_limit_verify_per_ip_per_min = 30;
}

abbrev forgot_request : AccountRequest
forgot_request = record {
  is_post = true;
  query_code = none;
  form = some "alice";
  tenant = home;
  info = request_info;
  brand = none;
}

abbrev alice_alone : World
alice_alone = record world { users = record { entries = (1, alice) ∷ [] } }

abbrev nobody : World
nobody = record world { users = record { entries = [] } }

alice_alone-Unambiguous : Unambiguous lib same same no_limiter route_settings 1 alice_alone
unfolding get_by_email only_user select
alice_alone-Unambiguous email e = elim (Bool-cases (str_eq "alice" email)) [
  | inl hers ↦ absurd (ground arith)
  | inr other ↦ absurd (ground arith)
]

nobody-Unambiguous : Unambiguous lib same same no_limiter route_settings 1 nobody
unfolding get_by_email only_user select
nobody-Unambiguous email e = absurd (ground arith)

forgot-Alike_example :
    Alike lib same same no_limiter route_settings
      (forgot lib same same no_limiter route_settings 7 "salt" forgot_request 0 alice_alone)
      (forgot lib same same no_limiter route_settings 7 "salt" forgot_request 0 nobody)
unfolding forgot
forgot-Alike_example =
    forgot-Alike lib same same no_limiter route_settings 7 "salt" forgot_request 0 alice_alone
      nobody alice_alone-Unambiguous nobody-Unambiguous

create-registered_example :
    (let user = new_user lib down account_settings carol 1 3 "salt" in
      (w' : World) × (roles' : RoleStore) × (create lib down account_settings carol 1 3 "salt" none
          [] 0 world roles
        ≡ (ok user, 0, w', roles'))
      × (get_by_email lib carol.email 1 w' ≡ ok user)
      × IsSynced roles'
      × ((r : ℕ)
          → exists (is_user_role 3 r) roles'.user_roles ≡ mem r (default_roles roles.roles.entries))
      × (w'.tasks ≡ failed_open.tasks ++ on_after_register 3 none ∷ []))
unfolding reset_password reset_target read_claims get_account get put reset_user set_user_attributes
    set_email set_attributes set_password store_user commit_user exists validate_password validate
    is_breached fetch_prefix from_cache fetched fail_open count_of audit_logger get_by_email
    only_user select is_distinct
create-registered_example =
    create-registered lib down account_settings carol 1 3 "salt" none [] 0 0 world failed_open roles
      refl refl refl roles-IsSynced refl (λ r. refl)
