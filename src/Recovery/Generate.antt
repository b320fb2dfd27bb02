-- ===== src/Recovery/Generate.antt =====
-- What `RecoveryCodeService.generate_for` leaves in the database.
use fief.Recovery.Consume.{consume_lem}
use fief.Models.{UserMfaRecoveryCode, World, Time, audit_logger}
use fief.Prelude.{
  ℕ, List, String, select, ◌++◌, length, ◌∷◌, ◌≡◌, map, ◌≤◌, ◌+◌, [], select-append, arith, ==_refl,
  suc, Bool-cases, exists, inl, inr, zero, select_one, delete, some, ◌==◌, true, refl, ◌*◌, is_some,
  ap, ◌∙◌, length-append,
}
use fief.Recovery.{
  Hasher, generate_loop, normalize, is_unused, new_row, same_code, generate_for, list_unused,
  num_codes, is_well_formed, consume, matches,
}
use mathlib.Core.List.{map-append, reverse, reverse-cons}

length-reverse {ℓ} : {A : Type ℓ} (xs : List A) → length (reverse xs) ≡ length xs
length-reverse [] = refl
length-reverse (x ∷ xs) =
    rw reverse-cons (omega (arith, length-append (reverse xs) (x ∷ []), length-reverse xs))

length-reverse-le {ℓ} : {A : Type ℓ} (xs : List A) {n : ℕ} → length xs ≤ n → length (reverse xs) ≤ n
length-reverse-le xs h = omega (arith, length-reverse xs)

module _ (bcrypt : Hasher) (draw : ℕ → List ℕ) (row_id : ℕ → ℕ) (u : ℕ) where
  abbrev hashes : List UserMfaRecoveryCode → List String
  hashes rows = map (λ c. c.code_hash) (select (is_unused u) rows)

  abbrev hash_all : List (List ℕ) → List String
  hash_all = map (λ c. bcrypt.hash (normalize c))

  -- the unused rows of the user are those of the codes so far, and there is room for the rest
  abbrev Tracks : List (List ℕ) → List UserMfaRecoveryCode → Type 0
  Tracks seen rows = hashes rows ≡ hash_all (reverse seen)

  hashes-new_row :
      (id : ℕ) (c : List ℕ) (rows : List UserMfaRecoveryCode)
      → hashes (rows ++ new_row bcrypt id u c ∷ []) ≡ hashes rows ++ bcrypt.hash (normalize c) ∷ []
  unfolding select
  hashes-new_row id c rows = rw (select-append, map-append) (ground (arith, ==_refl u))

  Tracks-keep :
      (id : ℕ) (c : List ℕ) (seen : List (List ℕ)) (rows : List UserMfaRecoveryCode)
      → Tracks seen rows
      → Tracks (c ∷ seen) (rows ++ new_row bcrypt id u c ∷ [])
  Tracks-keep id c seen rows h = rw (hashes-new_row, reverse-cons, map-append, h)

  generate_loop-Tracks :
      (attempts missing : ℕ) (seen : List (List ℕ)) (rows : List UserMfaRecoveryCode)
      → Tracks seen rows
      → let (seen', rows') = generate_loop bcrypt draw row_id u attempts missing seen rows in
        Tracks seen' rows' × (length seen' ≤ length seen + missing)
  unfolding generate_loop
  generate_loop-Tracks zero missing seen rows h = (h, omega arith)
  generate_loop-Tracks (suc attempts) zero seen rows h = (h, omega arith)
  generate_loop-Tracks (suc attempts) (suc missing) seen rows h =
      elim (Bool-cases (exists (same_code (draw attempts)) seen)) [
        | inl old ↦ rw old (generate_loop-Tracks attempts (suc missing) seen rows h)
        | inr new ↦
            let c = draw attempts in
            let ih =
              generate_loop-Tracks attempts missing (c ∷ seen)
                (rows ++ new_row bcrypt (row_id attempts) u c ∷ [])
                (Tracks-keep (row_id attempts) c seen rows h) in
            rw new (ih.0, omega (arith, ih.1))
      ]

  select_unused-delete :
      (rows : List UserMfaRecoveryCode)
      → select (is_unused u) (delete (λ c. c.user_id == u) rows) ≡ []
  unfolding select delete
  select_unused-delete [] = refl
  select_unused-delete (c ∷ rows) = ground (arith, select_unused-delete rows)

  generate_for-hashes :
      (w : World)
      → let (shown, w') = generate_for bcrypt draw row_id u w in
        (hashes w'.recovery_codes ≡ hash_all shown) × (length shown ≤ num_codes)
  unfolding generate_for audit_logger
  generate_for-hashes w =
      let kept = delete (λ c. c.user_id == u) w.recovery_codes in
      let ih =
        generate_loop-Tracks (num_codes * 5) num_codes [] kept
          (ap (map (λ c. c.code_hash)) (select_unused-delete w.recovery_codes)) in
      (ih.0, length-reverse-le _ ih.1)

  -- a row with the hash of a code is found when that code is typed
  match_at :
      (c : List ℕ) (rows : List UserMfaRecoveryCode) (before after : List (List ℕ))
      → bcrypt.verify (normalize c) (bcrypt.hash (normalize c)) ≡ some true
      → map (λ r. r.code_hash) rows ≡ hash_all (before ++ c ∷ after)
      → is_some (select_one (matches bcrypt (normalize c)) rows) ≡ true
  unfolding select_one
  match_at c [] [] after v e = cc
  match_at c [] (b ∷ before) after v e = cc
  match_at c (r ∷ rows) [] after v e = ground arith
  match_at c (r ∷ rows) (b ∷ before) after v e = ground (arith, match_at c rows before after)

-- Generating codes replaces the user's set: afterwards the unused codes of the user are those that
-- were returned, one hash for each in the same order, at most ten; so no code of an earlier set is
-- left. This holds whatever codes are drawn, also where draws repeat.
pub generate_for_lem :
    (bcrypt : Hasher) (draw : ℕ → List ℕ) (row_id : ℕ → ℕ) (u : ℕ) (w : World)
    → let (shown, w') = generate_for bcrypt draw row_id u w in
      (map (λ c. c.code_hash) (list_unused u w') ≡ map (λ c. bcrypt.hash (normalize c)) shown)
      × (length shown ≤ num_codes)
generate_for_lem = generate_for-hashes

-- Each code that was shown is accepted: if the code stands anywhere in the returned list, is well
-- formed once normalised, and bcrypt verifies what it hashed, then typing it is accepted.
pub consume-generate_for :
    (bcrypt : Hasher) (draw : ℕ → List ℕ) (row_id : ℕ → ℕ) (u : ℕ) (w : World) (now : Time)
    (c : List ℕ) (before after : List (List ℕ))
    → bcrypt.verify (normalize c) (bcrypt.hash (normalize c)) ≡ some true
    → is_well_formed (normalize c) ≡ true
    → (generate_for bcrypt draw row_id u w).0 ≡ before ++ c ∷ after
    → (consume bcrypt now u c (generate_for bcrypt draw row_id u w).1).0 ≡ true
consume-generate_for bcrypt draw row_id u w now c before after v f e =
    let w' = (generate_for bcrypt draw row_id u w).1 in
    let same = (generate_for-hashes bcrypt draw row_id u w).0 in
    (consume_lem bcrypt now u c w').0
    ∙ rw f (
        match_at bcrypt draw row_id u c (list_unused u w') before after v
          (same ∙ ap (map (λ c. bcrypt.hash (normalize c))) e))
