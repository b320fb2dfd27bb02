-- ===== src/Login/Tests.antt =====
-- Logins of concrete users.
use fief.Login.Logout.{
  UrlLibrary, logout, logout_to, is_allowed_origin, ended, logout-redirect, IsRegistered,
}
use fief.Models.{World, Tenant}
use fief.Login.Safety.{LogsIn, refused, login_cookie_lem}
use fief.Flow.{rotate_session_token, create_session_token}
use fief.Samples.{
  same, alice_session, no_limiter, settings, request_info, world, new_token, browser_session,
}
use fief.Prelude.{
  String, Bool, some, Option, false, str_eq, none, ◌≡◌, refl, ◌&&◌, true, delete, ◌==◌, exists,
  select, ◌⊎◌,
}
use fief.Login.{
  LoginRequest, get_by_email_and_tenant, login, login_form, submitted, password_step, authenticate,
  verified_by, verified, after_authenticate, authenticated, challenge_or_session, one_or_none,
}

abbrev alice_login : LoginRequest
alice_login = record {
  form = some ("alice", "pw");
  tenant = record {
    id = 1;
    mfa_required = false;
    registration_allowed = true;
    breached_password_threshold = none;
  };
  login_session = none;
  session_token = none;
  info = request_info;
  new_token = new_token;
}

abbrev alice_challenged : LoginRequest
alice_challenged = record alice_login { login_session = some alice_session }

abbrev check_password : String → String → Bool × Option String
check_password typed hashed = (str_eq typed hashed, none)

login_cookie_lem_example :
    (email : String) × (password : String) × (alice_login.form ≡ some (email, password))
    × LogsIn same same check_password alice_login email password world
    × ((settings.rate_limit_enabled
          && refused same same check_password no_limiter settings same 7 alice_login email world)
        ≡ false)
unfolding login login_form submitted password_step authenticate verified_by verified
    after_authenticate authenticated challenge_or_session get_by_email_and_tenant one_or_none select
    rotate_session_token create_session_token
login_cookie_lem_example =
    login_cookie_lem same same check_password no_limiter settings same 7 alice_login 0 world refl

abbrev urls : UrlLibrary
urls = record {
  str_url = λ s. s;
  urlparse = λ s. ("https", s);
  without_backslashes = λ s. s;
  origin = λ scheme netloc. netloc;
}

abbrev here : Tenant
here = record {
  id = 1;
  mfa_required = false;
  registration_allowed = true;
  breached_password_threshold = none;
}

abbrev logged_out : World
logged_out = record world { session_tokens = delete (λ x. x.id == 30) world.session_tokens }

abbrev sent : Option String
sent = some "uri"

logout-redirect_example :
    (let parsed = urls.urlparse (urls.without_backslashes "uri") in
      (url : String) × (sent ≡ some url)
      × ("uri" ≡ urls.str_url url)
      × ((parsed.0 ≡ "") ⊎ (parsed.1 ≡ "") ⊎ IsRegistered urls here parsed world)
      × (logged_out ≡ ended (some browser_session) world))
unfolding logout logout_to is_allowed_origin exists select delete
logout-redirect_example =
    logout-redirect urls here (some browser_session) sent "uri" world logged_out refl
