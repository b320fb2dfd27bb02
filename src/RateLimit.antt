-- ===== src/RateLimit.antt =====
-- The sliding-window rate limiter: fief/services/security/rate_limiter.py. Redis is the interface
-- `SortedSets`. `time.time()` is counted in microseconds, as a datetime; it is taken to be at least
-- the length of the window, so that the cutoff is not negative.
pub mod Window
mod Tests
use fief.Prelude.{
  ℕ, List, String, ◌-◌, ◌∷◌, Option, Bool, if◌then◌else◌, some, ltb, str_eq, leb, ◌≡◌, max, ◌&&◌,
  delete, [], length, ◌+◌, none, ◌/◌,
}
use fief.Models.{Time, seconds}

pub record RateLimitWindow : Type 0 where
  pub max_count : ℕ
  pub per_seconds : ℕ

-- What a call of `check` ends with: it returns the count, it raises `RateLimitExceeded` with its
-- `retry_after_seconds`, or a `RedisError` leaves it.
pub data Verdict : Type 0 where
  allowed : ℕ → Verdict
  exceeded : ℕ → Verdict
  redis_error : Verdict

-- How Redis answers during one call. The pipeline is one transaction: when it fails, either none of its
-- commands have run, or all of them have and the reply is lost.
pub data Health : Type 0 where
  healthy pipeline_fails reply_lost zrange_fails : Health

-- a member of a sorted set, with its score
abbrev pub Entry : Type 0
Entry = String × Time

abbrev pub in_range : Time → Time → Entry → Bool
in_range lo hi (_, score) = leb lo score && leb score hi

abbrev pub is_member : String → Entry → Bool
is_member m (m', _) = str_eq m' m

-- by ascending score, after the entries with the same score
unfoldable pub insert_by_score : Entry → List Entry → List Entry
insert_by_score (m, t) [] = (m, t) ∷ []
insert_by_score (m, t) ((m', t') ∷ l) =
    let rest = insert_by_score (m, t) l in
    if ltb t t' then (m, t) ∷ (m', t') ∷ l else (m', t') ∷ rest

-- The sorted-set commands of Redis, with what its documentation says of them: `entries` is what
-- ZRANGE key 0 -1 WITHSCORES shows, ascending in the score. EXPIRE removes nothing when it is sent.
pub record SortedSets : Type 1 where
  pub Store : Type 0
  pub entries : Store → String → List Entry
  pub zremrangebyscore : String → Time → Time → Store → Store
  pub zadd : String → String → Time → Store → Store
  pub zcard : String → Store → ℕ
  pub expire : String → ℕ → Store → Store
  pub zrange_first : String → Store → Option Entry
  pub entries-zremrangebyscore :
      (k : String) (lo hi : Time) (s : Store)
      → entries (zremrangebyscore k lo hi s) k ≡ delete (in_range lo hi) (entries s k)
  pub entries-zadd :
      (k m : String) (t : Time) (s : Store)
      → entries (zadd k m t s) k ≡ insert_by_score (m, t) (delete (is_member m) (entries s k))
  pub zcard_lem : (k : String) (s : Store) → zcard k s ≡ length (entries s k)
  pub entries-expire : (k : String) (n : ℕ) (s : Store) → entries (expire k n s) k ≡ entries s k
  pub zrange_first_nil : (k : String) (s : Store) → entries s k ≡ [] → zrange_first k s ≡ none
  pub zrange_first_cons :
      (k : String) (s : Store) {e : Entry} {l : List Entry}
      → entries s k ≡ e ∷ l
      → zrange_first k s ≡ some e

-- max(1, int((oldest_score + window.per_seconds) - now)), or the whole window if nothing is there
unfoldable pub retry_after : ℕ → Time → Option Entry → ℕ
retry_after per_seconds now none = per_seconds
retry_after per_seconds now (some (_, oldest_score)) =
    max 1 ((oldest_score + seconds per_seconds - now) / 1000000)

module _ (redis : SortedSets) where
  open redis use {Store, zremrangebyscore, zadd, zcard, expire, zrange_first}

  -- the commands of the MULTI/EXEC pipeline, with the reply of ZCARD
  unfoldable pub pipeline : String → String → RateLimitWindow → Time → Store → ℕ × Store
  pipeline key member window now s =
      let cutoff = now - seconds window.per_seconds in
      let s1 = zadd key member now (zremrangebyscore key 0 cutoff s) in
      (zcard key s1, expire key window.per_seconds s1)

  decide : Health → RateLimitWindow → Time → String → (Store → Store) → ℕ → Store → Verdict × Store
  decide zrange_fails window now key others count s =
      if ltb window.max_count count then (redis_error, others s) else (allowed count, s)
  decide _ window now key others count s =
      if ltb window.max_count count
      then (exceeded (retry_after window.per_seconds now (zrange_first key (others s))), others s)
      else (allowed count, s)

  -- `key` is the bucket's key, `member` the fresh UUID; `others` is what other clients do to the
  -- store between the pipeline and the ZRANGE.
  unfoldable pub check :
      Health → (Store → Store) → String → RateLimitWindow → String → Time → Store → Verdict × Store
  unfolding pipeline decide
  check pipeline_fails others key window member now s = (allowed 0, s)
  check reply_lost others key window member now s =
      let (count, s') = pipeline key member window now s in (allowed 0, s')
  check health others key window member now s =
      let (count, s') = pipeline key member window now s in
      decide health window now key others count s'
