-- ===== src/Tests/Trail.antt =====
-- A batch of three event hashes, and the inclusion proof of its last one.
use agentnexus.Base.{String, true, List, [], ◌∷◌, ◌≡◌, refl, length}
use agentnexus.Errors.{ok}
use agentnexus.Audit.Merkle.{
  MerkleWitness, leaves, top_level, merkle_root, merkle_proof, verify_merkle_proof,
}
use agentnexus.Audit.Merkle.Inclusion.{merkle_proof-verifies}

-- a digest that keeps its text, so that the proof can be read
abbrev shown : String → String
shown text = text

abbrev batch : List String
batch = "event-1" ∷ "event-2" ∷ "event-3" ∷ []

merkle_proof-verifies_example :
    (root : String) × (witness : MerkleWitness) × (merkle_root shown batch ≡ ok root)
    × (length (top_level shown (length batch) (leaves shown batch)) ≡ 1)
    × (merkle_proof shown batch 2 ≡ ok witness)
    × (verify_merkle_proof shown "event-3" root witness ≡ true)
merkle_proof-verifies_example = merkle_proof-verifies shown batch 2 "event-3" refl
