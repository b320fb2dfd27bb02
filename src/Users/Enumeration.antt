-- ===== src/Users/Enumeration.antt =====
-- What /forgot of fief/apps/auth/routers/reset.py tells about the accounts.
use fief.Users.Routes.{
  RouteSettings, forgot_form, email_checked, forgot_user, forgot_submitted, ip_checked,
  AccountAnswer, forgot, AccountRequest, forgot_answer, success_page,
}
use fief.Users.{
  AccountLibrary, only_user, get_by_email, multiple_results_found, forgot_password, is_address,
}
use fief.Prelude.{
  ℕ, String, Option, Bool, none, some, true, false, err, ◌≡◌, ◌≢◌, List, [], ◌∷◌, refl, ◌∙◌, select,
  sym, ◌>>=◌, Bool-cases, inl, inr,
}
use fief.RateLimit.{Verdict, allowed, exceeded, redis_error}
use fief.Flow.Response.{Limiter}
use fief.Models.{World, Time, User}

module _ (lib : AccountLibrary) (strip hash_key : String → String) {Store : Type 0}
    (limiter : Limiter Store) (settings : RouteSettings) where
  -- no two users of the tenant share an address up to case
  abbrev pub Unambiguous : ℕ → World → Type 0
  Unambiguous tenant w =
      (email : String) → get_by_email lib email tenant w ≢ err multiple_results_found

  found_lem :
      (salt : String) (request : AccountRequest) (w : World) (l : List (ℕ × User))
      → only_user l ≢ err multiple_results_found
      → (forgot_answer lib strip hash_key limiter settings w
          (only_user l >>= λ user. forgot_password lib user salt request.brand w)).0
        ≡ success_page
  unfolding only_user forgot_answer forgot_password
  found_lem salt request w [] clear = refl
  found_lem salt request w ((k, user) ∷ []) clear = elim (Bool-cases user.is_active) [
    | inl active ↦ rw active refl
    | inr inactive ↦ rw inactive refl
  ]
  found_lem salt request w (e ∷ f ∷ l) clear = absurd (clear refl)

  forgot_user_lem :
      (email salt : String) (request : AccountRequest) (w : World)
      → Unambiguous request.tenant.id w
      → (forgot_user lib strip hash_key limiter settings email salt request w).0 ≡ success_page
  unfolding forgot_user get_by_email
  forgot_user_lem email salt request w clear =
      found_lem salt request w (select (is_address lib email request.tenant.id) w.users.entries)
        (clear email)

  -- the answer and the rate limits, apart from the world
  abbrev pub Alike : AccountAnswer × Store × World → AccountAnswer × Store × World → Type 0
  Alike a b = (a.0 ≡ b.0) × (a.1 ≡ b.1)

  email_checked-Alike :
      (email salt : String) (request : AccountRequest) (verdict : Verdict) (s : Store) (w v : World)
      → Unambiguous request.tenant.id w
      → Unambiguous request.tenant.id v
      → Alike
          (email_checked lib strip hash_key limiter settings email salt request verdict s w)
          (email_checked lib strip hash_key limiter settings email salt request verdict s v)
  unfolding email_checked
  email_checked-Alike email salt request (allowed n) s w v clear clear' = (
    forgot_user_lem email salt request w clear ∙ sym (forgot_user_lem email salt request v clear'),
    refl,
  )
  email_checked-Alike email salt request (exceeded n) s w v clear clear' = (refl, refl)
  email_checked-Alike email salt request redis_error s w v clear clear' = (refl, refl)

  ip_checked-Alike :
      (now : Time) (email salt : String) (request : AccountRequest) (verdict : Verdict) (s : Store)
      (w v : World)
      → Unambiguous request.tenant.id w
      → Unambiguous request.tenant.id v
      → Alike
          (ip_checked lib strip hash_key limiter settings now email salt request verdict s w)
          (ip_checked lib strip hash_key limiter settings now email salt request verdict s v)
  unfolding ip_checked
  ip_checked-Alike now email salt request (allowed n) s w v clear clear' =
      let checked =
        limiter "forgot_email" (lib.lower (strip email))
          (record { max_count = settings.rate_limit_forgot_per_email_per_hour; per_seconds = 3600 })
          now s in
      email_checked-Alike email salt request checked.0 checked.1 w v clear clear'
  ip_checked-Alike now email salt request (exceeded n) s w v clear clear' = (refl, refl)
  ip_checked-Alike now email salt request redis_error s w v clear clear' = (refl, refl)

  submitted-Alike :
      (on : Bool) (now : Time) (email salt : String) (request : AccountRequest) (s : Store)
      (w v : World)
      → Unambiguous request.tenant.id w
      → Unambiguous request.tenant.id v
      → Alike
          (forgot_submitted lib strip hash_key limiter settings on now email salt request s w)
          (forgot_submitted lib strip hash_key limiter settings on now email salt request s v)
  unfolding forgot_submitted
  submitted-Alike false now email salt request s w v clear clear' = (
    forgot_user_lem email salt request w clear ∙ sym (forgot_user_lem email salt request v clear'),
    refl,
  )
  submitted-Alike true now email salt request s w v clear clear' =
      let checked =
        limiter "forgot_ip" request.info.ip_rate_limit_key
          (record { max_count = settings.rate_limit_forgot_per_ip_per_min; per_seconds = 60 }) now
          s in
      ip_checked-Alike now email salt request checked.0 checked.1 w v clear clear'

  form-Alike :
      (now : Time) (salt : String) (request : AccountRequest) (form : Option String) (s : Store)
      (w v : World)
      → Unambiguous request.tenant.id w
      → Unambiguous request.tenant.id v
      → Alike
          (forgot_form lib strip hash_key limiter settings now salt request form s w)
          (forgot_form lib strip hash_key limiter settings now salt request form s v)
  unfolding forgot_form
  form-Alike now salt request none s w v clear clear' = (refl, refl)
  form-Alike now salt request (some email) s w v clear clear' =
      submitted-Alike settings.rate_limit_enabled now email salt request s w v clear clear'

  -- The answer of /forgot and the state of the rate limits after it do not depend on the accounts: they
  -- are equal for any two states of the database, where in each no two users of the tenant share an
  -- address up to case.
  pub forgot-Alike :
      (now : Time) (salt : String) (request : AccountRequest) (s : Store) (w v : World)
      → Unambiguous request.tenant.id w
      → Unambiguous request.tenant.id v
      → Alike
          (forgot lib strip hash_key limiter settings now salt request s w)
          (forgot lib strip hash_key limiter settings now salt request s v)
  unfolding forgot
  forgot-Alike now salt request s w v = form-Alike now salt request request.form s w v
