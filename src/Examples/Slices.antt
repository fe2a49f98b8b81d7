-- ===== src/Examples/Slices.antt =====
-- The theorem on chunks at a slice of three.
use awslib.Prelude.{ℕ, ◌≤◌, ◌≡◌, some, List, [], ◌∷◌, length, All, arith}
use awslib.Service.{chunk_slice}
use awslib.Service.Chunks.{joined, chunk_slice_split}

chunk_slice_split_example :
    (chunks : List (List ℕ)) × (chunk_slice 3 (7 ∷ (8 ∷ (9 ∷ []))) 2 ≡ some chunks)
    × (joined chunks ≡ 7 ∷ (8 ∷ (9 ∷ [])))
    × All (λ c. length c ≤ 2) chunks
chunk_slice_split_example = chunk_slice_split (7 ∷ (8 ∷ (9 ∷ []))) 2 3 (omega arith) (omega arith)
