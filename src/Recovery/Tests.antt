-- ===== src/Recovery/Tests.antt =====
-- Recovery codes on concrete rows.
use fief.Recovery.Generate.{consume-generate_for}
use fief.Samples.{hasher, world}
use fief.Recovery.Consume.{accepted, unused, accepted-le-unused}
use fief.Prelude.{List, ℕ, suc, ◌∷◌, exists, [], ◌≤◌, ◌≡◌, delete, true, refl}
use fief.Recovery.{
  all_in, generate_for, generate_loop, codes, contains, normalize, format_code, strip_left, consume,
  strip_right, is_well_formed, same_code,
}

accepted-le-unused_example :
    accepted hasher 1 ((7, codes "abcd-efgh") ∷ (8, codes "abcd-efgh") ∷ []) world ≤ unused 1 world
accepted-le-unused_example =
    accepted-le-unused hasher 1 ((7, codes "abcd-efgh") ∷ (8, codes "abcd-efgh") ∷ []) world

abbrev draw : ℕ → List ℕ
draw n = format_code (codes "ABCD") (codes "ABCD")

consume-generate_for_example :
    (consume hasher 7 1
      (format_code (codes "ABCD") (codes "ABCD"))
      (generate_for hasher draw suc 1 world).1).0
    ≡ true
unfolding generate_for generate_loop normalize strip_left strip_right is_well_formed all_in contains
    exists delete same_code
consume-generate_for_example =
    consume-generate_for hasher draw suc 1 world 7 (format_code (codes "ABCD") (codes "ABCD")) [] []
      refl refl refl
