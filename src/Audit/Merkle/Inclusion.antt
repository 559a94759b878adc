-- ===== src/Audit/Merkle/Inclusion.antt =====
-- merkle.go: a proof that `MerkleProof` builds is one that `VerifyMerkleProof` accepts.
use agentnexus.Base.{
  ℕ, zero, suc, ◌+◌, ◌-◌, ◌/◌, ◌≤◌, ◌<◌, String, true, false, some, List, [], ◌∷◌, ◌++◌, ◌≡◌, refl,
  sym, ◌∙◌, ap, arith, length, get_elem?, leb, str_eq_refl,
}
use agentnexus.Errors.{ok}
use agentnexus.Audit.Merkle.{
  MerkleSibling, MerkleWitness, elem_at, leaf_digest, leaves, next_level, top_level, merkle_root,
  sibling_of, sibling_path, merkle_proof, combine, ascend, verify_merkle_proof,
}

module _ (sha256_hex : String → String) where
  length-next_level :
      (level : List String) → length (next_level sha256_hex level) ≡ (length level + 1) / 2
  unfolding next_level
  length-next_level [] = omega arith
  length-next_level (x ∷ []) = omega arith
  length-next_level (x ∷ y ∷ level) = omega (arith, length-next_level level)

  ascend-append :
      (x : String) (ss ts : List MerkleSibling)
      → ascend sha256_hex x (ss ++ ts) ≡ ascend sha256_hex (ascend sha256_hex x ss) ts
  unfolding ascend
  ascend-append x [] ts = refl
  ascend-append x (s ∷ ss) ts = ascend-append (combine sha256_hex x s) ss ts

  length-leaves : (values : List String) → length (leaves sha256_hex values) ≡ length values
  unfolding leaves
  length-leaves [] = refl
  length-leaves (v ∷ values) = omega (arith, length-leaves values)

  elem_at-leaves :
      (values : List String) (i : ℕ) (v : String)
      → get_elem? values i ≡ some v
      → elem_at (leaves sha256_hex values) i ≡ leaf_digest sha256_hex v
  unfolding leaves
  elem_at-leaves [] i v h = cc h
  elem_at-leaves (u ∷ values) zero v h = cc h
  elem_at-leaves (u ∷ values) (suc i) v h = elem_at-leaves values i v h

  elem_at-later :
      (x y : String) (level : List String) (i j : ℕ)
      → j ≡ suc (suc i)
      → elem_at (x ∷ y ∷ level) j ≡ elem_at level i
  elem_at-later x y level i j e = rw e refl

  sibling_of-later :
      (x y : String) (level : List String) (pos : ℕ)
      → pos < length level
      → sibling_of sha256_hex (suc (suc pos)) (x ∷ y ∷ level) ≡ sibling_of sha256_hex pos level
  unfolding sibling_of
  sibling_of-later x y level zero h =
      ground (arith, elem_at-later x y level (zero + 1) (suc (suc zero) + 1) (omega arith))
  sibling_of-later x y level (suc pos) h = ground (
    arith,
    elem_at-later x y level (suc pos + 1) (suc (suc (suc pos)) + 1) (omega arith),
    elem_at-later x y level (suc pos - 1) (suc (suc (suc pos)) - 1) (omega arith),
  )

  half_later : (pos : ℕ) → suc (suc pos) / 2 ≡ suc (pos / 2)
  half_later pos = omega arith

  -- one round: the parent of a position is its digest combined with the recorded sibling
  elem_at-next_level :
      (level : List String) (pos : ℕ)
      → pos < length level
      → elem_at (next_level sha256_hex level) (pos / 2)
        ≡ ascend sha256_hex (elem_at level pos) (sibling_of sha256_hex pos level)
  unfolding next_level ascend sibling_of
  elem_at-next_level [] pos h = absurd (omega arith)
  elem_at-next_level (x ∷ []) zero h = ground arith
  elem_at-next_level (x ∷ []) (suc pos) h = absurd (omega arith)
  elem_at-next_level (x ∷ y ∷ level) zero h = ground arith
  elem_at-next_level (x ∷ y ∷ level) (suc zero) h = ground arith
  elem_at-next_level (x ∷ y ∷ level) (suc (suc pos)) h =
      rw (half_later pos, sibling_of-later x y level pos (omega arith))
        (elem_at-next_level level pos (omega arith))

  -- the digest at a position, combined along its path, is the one that the rounds end in
  ascend-sibling_path :
      (rounds : ℕ) (level : List String) (pos : ℕ)
      → pos < length level
      → length level ≤ rounds
      → elem_at (top_level sha256_hex rounds level) 0
        ≡ ascend sha256_hex (elem_at level pos) (sibling_path sha256_hex rounds level pos)
  unfolding top_level sibling_path ascend
  ascend-sibling_path zero level pos h enough = absurd (omega arith)
  ascend-sibling_path (suc rounds) [] pos h enough = absurd (omega arith)
  ascend-sibling_path (suc rounds) (x ∷ []) zero h enough = refl
  ascend-sibling_path (suc rounds) (x ∷ []) (suc pos) h enough = absurd (omega arith)
  ascend-sibling_path (suc rounds) (x ∷ y ∷ level) pos h enough =
      let up = next_level sha256_hex (x ∷ y ∷ level) in
      let here = sibling_of sha256_hex pos (x ∷ y ∷ level) in
      let shorter : length up ≡ (length level + 3) / 2 =
        length-next_level (x ∷ y ∷ level) ∙ ap (λ n. n / 2) (omega arith) in
      let rest = sibling_path sha256_hex rounds up (pos / 2) in
      let above : elem_at (top_level sha256_hex rounds up) 0
          ≡ ascend sha256_hex (elem_at up (pos / 2)) rest =
        ascend-sibling_path rounds up (pos / 2) (omega arith) (omega arith) in
      above
      ∙ ap (λ x'. ascend sha256_hex x' rest) (elem_at-next_level (x ∷ y ∷ level) pos h)
      ∙ sym (ascend-append (elem_at (x ∷ y ∷ level) pos) here rest)

  single :
      (rounds : ℕ) (level : List String)
      → 0 < length level
      → length level ≤ rounds
      → length (top_level sha256_hex rounds level) ≡ 1
  unfolding top_level
  single zero level some_leaf enough = absurd (omega arith)
  single (suc rounds) [] some_leaf enough = absurd (omega arith)
  single (suc rounds) (x ∷ []) some_leaf enough = omega arith
  single (suc rounds) (x ∷ y ∷ level) some_leaf enough =
      single rounds (next_level sha256_hex (x ∷ y ∷ level))
        (omega (arith, length-next_level (x ∷ y ∷ level)))
        (omega (arith, length-next_level (x ∷ y ∷ level)))

  below :
      (values : List String) (i : ℕ) (v : String) → get_elem? values i ≡ some v → i < length values
  below [] i v h = cc h
  below (u ∷ values) zero v h = omega arith
  below (u ∷ values) (suc i) v h = omega (arith, below values i v h)

  within : (n i : ℕ) → i < n → leb n i ≡ false
  within n i h = ground arith

  -- Every event hash of a batch has an inclusion proof: `MerkleRoot` gives a root, its rounds end
  -- in a single digest, `MerkleProof` at the hash's index gives a witness, and
  -- `VerifyMerkleProof` accepts the hash with that witness against that root.
  pub merkle_proof-verifies :
      (hashes : List String) (index : ℕ) (value : String)
      → get_elem? hashes index ≡ some value
      → (root : String) × (witness : MerkleWitness) × (merkle_root sha256_hex hashes ≡ ok root)
        × (length (top_level sha256_hex (length hashes) (leaves sha256_hex hashes)) ≡ 1)
        × (merkle_proof sha256_hex hashes index ≡ ok witness)
        × (verify_merkle_proof sha256_hex value root witness ≡ true)
  unfolding merkle_root merkle_proof verify_merkle_proof
  merkle_proof-verifies [] index value h = cc h
  merkle_proof-verifies (u ∷ hashes) index value h =
      let level = leaves sha256_hex (u ∷ hashes) in
      let size = length-leaves (u ∷ hashes) in
      let inside : index < length (u ∷ hashes) = below (u ∷ hashes) index value h in
      let path = sibling_path sha256_hex (length level) level index in
      let climbs : elem_at (top_level sha256_hex (length level) level) 0
          ≡ ascend sha256_hex (leaf_digest sha256_hex value) path =
        ascend-sibling_path (length level) level index (omega arith) (omega arith)
        ∙ ap (λ x. ascend sha256_hex x path) (elem_at-leaves (u ∷ hashes) index value h) in
      (
        elem_at (top_level sha256_hex (length level) level) 0,
        record { leaf_index = index; siblings = path },
        refl,
        single (length (u ∷ hashes)) level (omega arith) (omega arith),
        rw (within (length (u ∷ hashes)) index inside) refl,
        rw (sym climbs) (str_eq_refl _),
      )
