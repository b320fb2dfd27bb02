-- ===== src/RateLimit/Window.antt =====
-- How many calls of `RateLimiter.check` on one bucket can pass within its window.
use fief.Models.{Time, seconds}
use fief.Prelude.{
  exists, count, String, List, delete, Bool, ℕ, ◌<◌, leb, ◌≡◌, ◌≤◌, ◌∷◌, [], All, false, arith, ◌+◌,
  length, refl, if◌then◌else◌, max, ◌-◌, ◌∙◌, ap,
}
use fief.RateLimit.{
  SortedSets, insert_by_score, Entry, RateLimitWindow, in_range, allowed, healthy, pipeline,
  Verdict, is_member, check,
}

-- how many entries have a score of `t0` or later
abbrev pub count_since : Time → List Entry → ℕ
count_since t0 = count (λ e. leb t0 e.1)

count-insert_by_score :
    (p : Entry → Bool) (e : Entry) (l : List Entry)
    → count p (insert_by_score e l) ≡ count p l + (if p e then 1 else 0)
unfolding count insert_by_score
count-insert_by_score p (m, t) [] = ground arith
count-insert_by_score p (m, t) ((m', t') ∷ l) = ground (arith, count-insert_by_score p (m, t) l)

count-le-length : (p : Entry → Bool) (l : List Entry) → count p l ≤ length l
unfolding count
count-le-length p [] = omega arith
count-le-length p (e ∷ l) = ground (arith, count-le-length p l)

count-delete_old :
    (t0 cutoff : Time) (l : List Entry)
    → cutoff < t0
    → count_since t0 (delete (in_range 0 cutoff) l) ≡ count_since t0 l
unfolding count delete
count-delete_old t0 cutoff [] h = refl
count-delete_old t0 cutoff ((m, t) ∷ l) h = ground (arith, count-delete_old t0 cutoff l h)

delete_absent : (p : Entry → Bool) (l : List Entry) → exists p l ≡ false → delete p l ≡ l
unfolding exists delete
delete_absent p [] h = refl
delete_absent p (e ∷ l) h = ground (arith, delete_absent p l)

exists-delete :
    (p q : Entry → Bool) (l : List Entry) → exists p l ≡ false → exists p (delete q l) ≡ false
unfolding exists delete
exists-delete p q [] h = refl
exists-delete p q (e ∷ l) h = ground (arith, exists-delete p q l)

module _ (redis : SortedSets) (key : String) (window : RateLimitWindow) where
  open redis use {Store, entries}

  abbrev pub undisturbed : Store → Store
  undisturbed s = s

  abbrev pub passed : Verdict → ℕ
  passed (allowed n) = 1
  passed _ = 0

  -- The calls at the given times with the given members, one after the other: how many return.
  pub passes : List (Time × String) → Store → ℕ
  passes [] s = 0
  passes ((now, member) ∷ l) s =
      let (v, s') = check redis healthy undisturbed key window member now s in
      passed v + passes l s'

  -- every member is new to the bucket when it is added
  abbrev pub FreshMembers : List (Time × String) → Store → Type 0
  FreshMembers [] s = Unit
  FreshMembers ((now, member) ∷ l) s =
      (exists (is_member member) (entries s key) ≡ false)
      × FreshMembers l (check redis healthy undisturbed key window member now s).1

  -- all times lie in one window from `t0` on
  abbrev pub WithinWindow : Time → List (Time × String) → Type 0
  WithinWindow t0 = All (λ c.
      (t0 ≤ c.0) × (c.0 < t0 + seconds window.per_seconds) × (seconds window.per_seconds ≤ c.0))

  pipeline-count_since :
      (t0 now : Time) (member : String) (s : Store)
      → t0 ≤ now
      → now < t0 + seconds window.per_seconds
      → seconds window.per_seconds ≤ now
      → exists (is_member member) (entries s key) ≡ false
      → let (n, s') = pipeline redis key member window now s in
        (count_since t0 (entries s' key) ≡ count_since t0 (entries s key) + 1)
        × (count_since t0 (entries s' key) ≤ n)
  unfolding pipeline
  pipeline-count_since t0 now member s lo hi pos fresh =
      let cutoff = now - seconds window.per_seconds in
      let kept = delete (in_range 0 cutoff) (entries s key) in
      let s0 = redis.zremrangebyscore key 0 cutoff s in
      let s1 = redis.zadd key member now s0 in
      let evicted : entries s0 key ≡ kept = redis.entries-zremrangebyscore key 0 cutoff s in
      let new : delete (is_member member) kept ≡ kept =
        delete_absent (is_member member) kept
          (exists-delete (is_member member) (in_range 0 cutoff) (entries s key) fresh) in
      let added : entries s1 key ≡ insert_by_score (member, now) kept =
        redis.entries-zadd key member now s0
        ∙ ap (λ (l : List Entry). insert_by_score (member, now) (delete (is_member member) l))
            evicted
        ∙ ap (insert_by_score (member, now)) new in
      let rearmed = redis.entries-expire key window.per_seconds s1 in
      (
        rw (rearmed, added)
            (ground (
              arith,
              count-insert_by_score (λ e. leb t0 e.1) (member, now) kept,
              count-delete_old t0 cutoff (entries s key),
            )),
        rw (rearmed, redis.zcard_lem key s1) (count-le-length _ (entries s1 key)),
      )

  -- the one call, which counts whether it passes or not
  passed-le :
      (t0 now : Time) (member : String) (s : Store)
      → (count_since t0 (entries (pipeline redis key member window now s).1 key)
          ≡ count_since t0 (entries s key) + 1)
        × (count_since t0 (entries (pipeline redis key member window now s).1 key)
            ≤ (pipeline redis key member window now s).0)
      → let (v, s') = check redis healthy undisturbed key window member now s in
        (count_since t0 (entries s' key) ≡ count_since t0 (entries s key) + 1)
        × (passed v + count_since t0 (entries s key)
            ≤ max window.max_count (count_since t0 (entries s key)))
        × (passed v ≤ 1)
  unfolding check
  passed-le t0 now member s known = ground arith

  passes-le :
      (t0 : Time) (l : List (Time × String)) (s : Store)
      → WithinWindow t0 l
      → FreshMembers l s
      → passes l s ≤ window.max_count - count_since t0 (entries s key)
  unfolding passes
  passes-le t0 [] s h f = omega arith
  passes-le t0 ((now, member) ∷ l) s h f =
      let s' = (check redis healthy undisturbed key window member now s).1 in
      let known = pipeline-count_since t0 now member s h.0.0 h.0.1 h.0.2 f.0 in
      let ih = passes-le t0 l s' h.1 f.1 in
      let step = passed-le t0 now member s known in omega arith

-- The limit holds: of any calls on one bucket within one window, whatever their order, at most
-- `max_count` less the calls already counted in the window return; calls that are refused count too.
-- The calls meet a healthy Redis and no other client, and their UUIDs are new to the bucket.
pub passes-le-max_count :
    (redis : SortedSets) (key : String) (window : RateLimitWindow) (t0 : Time)
    (l : List (Time × String)) (s : redis.Store)
    → WithinWindow redis key window t0 l
    → FreshMembers redis key window l s
    → passes redis key window l s ≤ window.max_count - count_since t0 (redis.entries s key)
passes-le-max_count redis key window t0 l s h f = passes-le redis key window t0 l s h f
