-- ===== src/BreachedPasswords/Threshold.antt =====
-- The answer of BreachedPasswordChecker.is_breached when the range API fails and when it is asked twice:
-- fief/services/security/breached_passwords.py.
use fief.Models.{World, Tenant}
use fief.BreachedPasswords.{
  Counts, Corpus, parsed_body, is_breached, fetched, Fetched, transport_error, fetch_prefix,
  from_cache, fail_open, response, count_of, BreachSettings, parse_body, cache_miss, cached,
  threshold,
}
use fief.Prelude.{
  reaches, true, false, Option, some, none, if◌then◌else◌, leb, ltb, ◌&&◌, List, ℕ, ◌≡◌, refl,
  String, [], arith, ◌==◌, Result, ok, err,
}

abbrev malformed : Result String Counts → Option (String × String)
malformed (err e) = some ("malformed_body", e)
malformed (ok counts) = none

-- what counts as a failure of the range API, with the reason and the class that are logged
unfoldable pub outage : {Store : Type 0} → Corpus Store → Fetched → Option (String × String)
outage corpus (transport_error exc) = some ("transport_error", exc)
outage corpus (response status lines) =
    let body = malformed (parse_body corpus lines) in
    if status == 429
    then some ("hibp_rate_limited", "429")
    else if leb 200 status && ltb status 300
    then body
    else some ("hibp_non_2xx", corpus.str status)

module _ {Store : Type 0} (corpus : Corpus Store) where
  parsed_body-malformed :
      (prefix : List ℕ) (c : Result String Counts) (reason exc : String) (s : Store) (w : World)
      → malformed c ≡ some (reason, exc)
      → parsed_body corpus prefix c s w ≡ ([], s, fail_open corpus reason exc w)
  unfolding parsed_body
  parsed_body-malformed prefix (err e) reason exc s w h = ground arith
  parsed_body-malformed prefix (ok c) reason exc s w h = cc

  fetched-outage :
      (prefix : List ℕ) (f : Fetched) (reason exc : String) (s : Store) (w : World)
      → outage corpus f ≡ some (reason, exc)
      → fetched corpus prefix f s w ≡ ([], s, fail_open corpus reason exc w)
  unfolding fetched outage
  fetched-outage prefix (transport_error e) reason exc s w h = ground arith
  fetched-outage prefix (response status lines) reason exc s w h =
      ground (arith, parsed_body-malformed prefix (parse_body corpus lines) reason exc s w)

  -- Where the check is enabled, the cache misses and the range API fails, by an error of the
  -- transport, the status 429, any other status outside 200 to 299 or a body that does not parse,
  -- `is_breached` caches nothing and writes one line to the audit log with that failure's reason.
  -- Its answer is that the password is not breached exactly where the threshold is above zero.
  pub is_breached-outage :
      (settings : BreachSettings) (password : String) (tenant : Option Tenant) (reason exc : String)
      (s : Store) (w : World)
      → settings.breached_password_check_enabled ≡ true
      → corpus.get_cached (corpus.sha1 password).0 s ≡ cache_miss
      → outage corpus (corpus.get_range (corpus.sha1 password).0) ≡ some (reason, exc)
      → is_breached corpus settings password tenant s w
        ≡ (reaches 0 (threshold corpus settings tenant), s, fail_open corpus reason exc w)
  unfolding is_breached fetch_prefix from_cache count_of
  is_breached-outage settings password tenant reason exc s w enabled miss fails =
      let prefix = (corpus.sha1 password).0 in
      let none_counted = fetched-outage prefix (corpus.get_range prefix) reason exc s w fails in
      rw (enabled, miss, none_counted) refl

  -- Where the check is enabled, the cache misses, the range API answers with a status from 200 to 299
  -- and a body that parses to `counts`, and a row just written to the cache is read back, `is_breached`
  -- compares the threshold with the count of the suffix, and a second check of the same password gives
  -- the same answer, whatever the world, and changes neither the cache nor the audit log.
  pub is_breached-repeated :
      (settings : BreachSettings) (password : String) (tenant : Option Tenant) (status : ℕ)
      (lines : List (List ℕ)) (counts : Counts) (s : Store) (w later : World)
      → settings.breached_password_check_enabled ≡ true
      → corpus.get_cached (corpus.sha1 password).0 s ≡ cache_miss
      → corpus.get_range (corpus.sha1 password).0 ≡ response status lines
      → (leb 200 status && ltb status 300) ≡ true
      → parse_body corpus lines ≡ ok counts
      → corpus.get_cached
          (corpus.sha1 password).0
          (corpus.set_cached (corpus.sha1 password).0 counts s)
        ≡ cached counts
      → let kept = corpus.set_cached (corpus.sha1 password).0 counts s in
        let answer =
          reaches (count_of (corpus.sha1 password).1 counts) (threshold corpus settings tenant) in
        (is_breached corpus settings password tenant s w ≡ (answer, kept, w))
        × (is_breached corpus settings password tenant kept later ≡ (answer, kept, later))
  unfolding is_breached fetch_prefix from_cache fetched parsed_body
  is_breached-repeated settings password tenant status lines counts s w later enabled miss range
        good body stored =
      (
        rw (enabled, miss, range, not_limited status good, good, body) refl,
        rw (enabled, stored) refl,
      )
    where
      not_limited :
          (status : ℕ) → (leb 200 status && ltb status 300) ≡ true → (status == 429) ≡ false
      not_limited status h = ground arith
