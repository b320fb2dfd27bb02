-- ===== src/BreachedPasswords/Tests.antt =====
-- A range API that is down.
use fief.Samples.{world}
use fief.Prelude.{pos, reaches, ℕ, true, ◌∷◌, none, [], ◌≡◌, some, refl}
use fief.BreachedPasswords.Threshold.{outage, is_breached-outage}
use fief.BreachedPasswords.{
  BreachSettings, Corpus, is_breached, cache_miss, threshold, response, fail_open,
}

abbrev down : Corpus ℕ
down = record {
  sha1 = λ password. (1 ∷ [], 2 ∷ []);
  upper = λ s. s;
  int = λ s. some (pos 3);
  unparseable = λ l. "unparseable";
  non_int = λ l. "non-int";
  str = λ n. "500";
  get_cached = λ prefix s. cache_miss;
  set_cached = λ prefix counts s. s;
  get_range = λ prefix. response 500 [];
}

abbrev breach_settings : BreachSettings
breach_settings = record {
  breached_password_check_enabled = true;
  breached_password_default_threshold = pos 1;
}

is_breached-outage_example : is_breached down breach_settings "secret" none 0 world ≡ (
  reaches 0 (threshold down breach_settings none),
  0,
  fail_open down "hibp_non_2xx" "500" world,
)
unfolding outage
is_breached-outage_example =
    is_breached-outage down breach_settings "secret" none "hibp_non_2xx" "500" 0 world refl refl
      refl
