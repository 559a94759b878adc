-- ===== src/Browser/Attempts/Counts.antt =====
-- The rows of a map, counted by a test: what a write and a delete do to the count.
use agentnexus.Base.{
  ℕ, ◌+◌, String, Bool, true, false, none, some, [], ◌∷◌, ◌≡◌, refl, arith, Bool-cases, inl, inr,
  ◌=ₛ◌, if◌then◌else◌, Dict, lookup, insert, delete, lookup-insert, lookup-delete, eq_iff, subst,
  ap,
}

module _ {ℓ} {V : Type ℓ} where
  abbrev pub tally : (V → Bool) → Dict V → ℕ
  tally test [] = 0
  tally test (row ∷ rows) = (if test row.1 then 1 else 0) + tally test rows

  -- No key stands twice.
  abbrev pub IsUnique : Dict V → Type ℓ
  IsUnique [] = Unit
  IsUnique (row ∷ rows) = (lookup row.0 rows ≡ none) × IsUnique rows

  missing_rest :
      (key : String) (row : String × V) (rows : Dict V)
      → lookup key (row ∷ rows) ≡ none
      → ((row.0 =ₛ key) ≡ false) × (lookup key rows ≡ none)
  unfolding lookup
  missing_rest key row rows h = ground arith

  pub tally-insert :
      (test : V → Bool) (key : String) (v : V) (m : Dict V)
      → lookup key m ≡ none
      → tally test (insert key v m) ≡ tally test m + (if test v then 1 else 0)
  unfolding insert
  tally-insert test key v [] h = omega arith
  tally-insert test key v (row ∷ rows) h =
      let (other, rest) = missing_rest key row rows h in
      rw other (omega (arith, tally-insert test key v rows rest))

  pub insert-IsUnique :
      (key : String) (v : V) (m : Dict V)
      → lookup key m ≡ none
      → IsUnique m
      → IsUnique (insert key v m)
  unfolding insert lookup
  insert-IsUnique key v [] h u = (refl, tt)
  insert-IsUnique key v (row ∷ rows) h u =
      let (other, rest) = missing_rest key row rows h in
      rw other (
        rw (lookup-insert key row.0 v rows)
            (ground (arith, u.0, eq_iff key row.0, eq_iff row.0 key)),
        insert-IsUnique key v rows rest u.1,
      )

  delete_missing : (key : String) (m : Dict V) → lookup key m ≡ none → delete key m ≡ m
  unfolding delete
  delete_missing key [] h = refl
  delete_missing key (row ∷ rows) h =
      let (other, rest) = missing_rest key row rows h in
      rw other (ap (λ r. row ∷ r) (delete_missing key rows rest))

  found_head :
      (key : String) (v : V) (row : String × V) (rows : Dict V)
      → (row.0 =ₛ key) ≡ true
      → lookup key (row ∷ rows) ≡ some v
      → row.1 ≡ v
  unfolding lookup
  found_head key v row rows eq h = ground arith

  found_tail :
      (key : String) (v : V) (row : String × V) (rows : Dict V)
      → (row.0 =ₛ key) ≡ false
      → lookup key (row ∷ rows) ≡ some v
      → lookup key rows ≡ some v
  unfolding lookup
  found_tail key v row rows ne h = ground arith

  pub tally-delete :
      (test : V → Bool) (key : String) (v : V) (m : Dict V)
      → IsUnique m
      → lookup key m ≡ some v
      → tally test (delete key m) + (if test v then 1 else 0) ≡ tally test m
  unfolding delete lookup
  tally-delete test key v [] u h = cc h
  tally-delete test key v (row ∷ rows) u h = elim (Bool-cases (row.0 =ₛ key)) [
    | inl eq ↦
        let same : row.0 ≡ key = (eq_iff _ _).0 eq in
        let gone : delete key rows ≡ rows =
          delete_missing key rows (subst (λ k. lookup k rows ≡ none) same u.0) in
        let mine : row.1 ≡ v = found_head key v row rows eq h in rw (eq, gone, mine) (omega arith)
    | inr ne ↦
        rw ne (omega (arith, tally-delete test key v rows u.1 (found_tail key v row rows ne h)))
  ]

  pub delete-IsUnique : (key : String) (m : Dict V) → IsUnique m → IsUnique (delete key m)
  unfolding delete
  delete-IsUnique key [] u = tt
  delete-IsUnique key (row ∷ rows) u = elim (Bool-cases (row.0 =ₛ key)) [
    | inl eq ↦ rw eq (delete-IsUnique key rows u.1)
    | inr ne ↦
        rw ne
          (rw (lookup-delete key row.0 rows) (ground (arith, u.0)), delete-IsUnique key rows u.1)
  ]
