-- ===== src/Audit/Merkle.antt =====
-- sdk/go/audit/merkle.go: the root of a batch of event hashes, the inclusion proof of one of
-- them, and its check. The hexadecimal SHA-256 of a text's bytes is a parameter.
pub mod Inclusion
use Prim.Native.String
use agentnexus.Base.{
  ℕ, zero, suc, ◌+◌, ◌-◌, ◌/◌, ◌%◌, String, Bool, true, false, Option, none, some, List, [], ◌∷◌,
  ◌++◌, ltb, leb, ◌==◌, ◌=ₛ◌, length, get_elem?, if◌then◌else◌,
}
use agentnexus.Errors.{Err, plain, Result, ok, err}

pub record MerkleSibling : Type 0 where
  pub hash : String
  pub right : Bool

pub record MerkleWitness : Type 0 where
  pub leaf_index : ℕ
  pub siblings : List MerkleSibling

-- `level[i]`; out of range, where Go panics, it is the empty text
abbrev pub elem_at : List String → ℕ → String
elem_at level i = elem_or (get_elem? level i)
  where
    elem_or : Option String → String
    elem_or none = ""
    elem_or (some x) = x

module _ (sha256_hex : String → String) where
  -- `leafDigest` and `nodeDigest`, under their domain prefixes
  unfoldable pub leaf_digest : String → String
  leaf_digest value = String.◌++◌ "sha256:" (sha256_hex (String.◌++◌ "\0" value))

  unfoldable pub node_digest : String → String → String
  node_digest left right =
      String.◌++◌ "sha256:" (sha256_hex (String.◌++◌ "\u{1}" (String.◌++◌ left right)))

  -- the loop that makes the leaves
  unfoldable pub leaves : List String → List String
  leaves [] = []
  leaves (value ∷ values) = leaf_digest value ∷ leaves values

  -- the inner loop over one level: an odd tail is promoted as it is
  unfoldable pub next_level : List String → List String
  next_level [] = []
  next_level (x ∷ []) = x ∷ []
  next_level (x ∷ y ∷ level) = node_digest x y ∷ next_level level

  -- the outer loop of `MerkleRoot`; a level of n digests takes at most n rounds
  unfoldable pub top_level : ℕ → List String → List String
  top_level zero level = level
  top_level (suc rounds) [] = []
  top_level (suc rounds) (x ∷ []) = x ∷ []
  top_level (suc rounds) (x ∷ y ∷ level) = top_level rounds (next_level (x ∷ y ∷ level))

  -- `MerkleRoot`
  unfoldable pub merkle_root : List String → Result String
  merkle_root [] = err (plain "merkle root over an empty batch")
  merkle_root (value ∷ values) =
      let level = leaves (value ∷ values) in ok (elem_at (top_level (length level) level) 0)

  -- the sibling that one round of `MerkleProof` records, if the position is not promoted
  unfoldable pub sibling_of : ℕ → List String → List MerkleSibling
  sibling_of pos level =
      if pos % 2 == 0
      then (if ltb (pos + 1) (length level)
          then record { hash = elem_at level (pos + 1); right = true } ∷ []
          else [])
      else record { hash = elem_at level (pos - 1); right = false } ∷ []

  -- the outer loop of `MerkleProof`
  unfoldable pub sibling_path : ℕ → List String → ℕ → List MerkleSibling
  sibling_path zero level pos = []
  sibling_path (suc rounds) [] pos = []
  sibling_path (suc rounds) (x ∷ []) pos = []
  sibling_path (suc rounds) (x ∷ y ∷ level) pos =
      sibling_of pos (x ∷ y ∷ level) ++ sibling_path rounds (next_level (x ∷ y ∷ level)) (pos / 2)

  -- `MerkleProof`; a negative index is out of range as well
  unfoldable pub merkle_proof : List String → ℕ → Result MerkleWitness
  merkle_proof event_hashes index =
      if leb (length event_hashes) index
      then err (plain "merkle proof index out of range")
      else let level = leaves event_hashes in
        ok (record { leaf_index = index; siblings = sibling_path (length level) level index })

  -- one round of the loop of `VerifyMerkleProof`
  abbrev pub combine : String → MerkleSibling → String
  combine running s = if s.right then node_digest running s.hash else node_digest s.hash running

  unfoldable pub ascend : String → List MerkleSibling → String
  ascend running [] = running
  ascend running (s ∷ siblings) = ascend (combine running s) siblings

  -- `VerifyMerkleProof`
  unfoldable pub verify_merkle_proof : String → String → MerkleWitness → Bool
  verify_merkle_proof leaf_value root witness =
      ascend (leaf_digest leaf_value) witness.siblings =ₛ root
