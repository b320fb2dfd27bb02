-- ===== src/RateLimit/Tests.antt =====
-- The rate limiter on a store of sorted sets held in memory.
use fief.RateLimit.Window.{passes, count_since, passes-le-max_count}
use fief.Prelude.{
  String, List, exists, Option, delete, ◌≡◌, [], if◌then◌else◌, none, arith, str_eq, ◌∷◌, eq_iff,
  ◌≤◌, length, some, ◌-◌, ap, refl,
}
use fief.RateLimit.{
  check, SortedSets, RateLimitWindow, pipeline, Entry, insert_by_score, in_range, is_member,
}

-- one sorted set for each key
abbrev change : String → (List Entry → List Entry) → (String → List Entry) → String → List Entry
change k f s k' = if str_eq k' k then f (s k') else s k'

change_self :
    (k : String) (f : List Entry → List Entry) (s : String → List Entry) → change k f s k ≡ f (s k)
change_self k f s = ground (arith, eq_iff k k)

abbrev head : List Entry → Option Entry
head [] = none
head (e ∷ l) = some e

abbrev memory : SortedSets
memory = record {
  Store = String → List Entry;
  entries = λ s k. s k;
  zremrangebyscore = λ k lo hi s. change k (delete (in_range lo hi)) s;
  zadd = λ k m t s. change k (λ l. insert_by_score (m, t) (delete (is_member m) l)) s;
  zcard = λ k s. length (s k);
  expire = λ k n s. s;
  zrange_first = λ k s. head (s k);
  entries-zremrangebyscore = λ k lo hi s. change_self k (delete (in_range lo hi)) s;
  entries-zadd = λ k m t s. change_self k (λ l. insert_by_score (m, t) (delete (is_member m) l)) s;
  zcard_lem = λ k s. refl;
  entries-expire = λ k n s. refl;
  zrange_first_nil = λ k s e. ap head e;
  zrange_first_cons = λ k s e. ap head e;
}

abbrev window : RateLimitWindow
window = record { max_count = 1; per_seconds = 1 }

abbrev same_store : (String → List Entry) → String → List Entry
same_store s = s

abbrev no_entries : String → List Entry
no_entries k = []

passes-le-max_count_example :
    passes memory "k" window ((5000000, "a") ∷ (5000001, "b") ∷ []) no_entries
    ≤ window.max_count - count_since 5000000 (memory.entries no_entries "k")
unfolding exists check pipeline insert_by_score delete
passes-le-max_count_example =
    passes-le-max_count memory "k" window 5000000 ((5000000, "a") ∷ (5000001, "b") ∷ []) no_entries
      ((omega arith, omega arith, omega arith), ((omega arith, omega arith, omega arith), tt))
      (refl, (refl, tt))
