-- ===== src/Service/Chunks.antt =====
-- The chunks of a slice are the slice, in pieces.
use awslib.Prelude.{
  ℕ, zero, suc, ◌+◌, ◌-◌, ◌≤◌, ◌≡◌, refl, sym, ◌∙◌, ap, some, List, [], ◌∷◌, ◌++◌, length, drop,
  ltb, All, take-append-drop, length-take, arith, Bool-cases, inl, inr,
}
use awslib.Service.{between, turn, chunk_from, chunk_slice}

module _ {T : Type 0} where
  abbrev pub joined : List (List T) → List T
  joined [] = []
  joined (c ∷ chunks) = c ++ joined chunks

  drop_all : (n : ℕ) (xs : List T) → length xs ≤ n → drop n xs ≡ []
  drop_all zero [] room = refl
  drop_all zero (x ∷ xs) room = absurd (omega arith)
  drop_all (suc n) [] room = refl
  drop_all (suc n) (x ∷ xs) room = drop_all n xs (omega arith)

  -- What the loop owes from an index on.
  abbrev pub IsSplit : List T → ℕ → ℕ → List (List T) → Type 0
  IsSplit slice chunk_size i chunks =
      (joined chunks ≡ drop i slice) × All (λ c. length c ≤ chunk_size) chunks

  drop_nil : (n : ℕ) → Path (List T) (drop n []) []
  drop_nil zero = refl
  drop_nil (suc n) = refl

  drop_same : (m n : ℕ) (xs : List T) → m ≡ n → drop m xs ≡ drop n xs
  drop_same m n xs e = ap (λ k. drop k xs) e

  drop-drop : (n i : ℕ) (xs : List T) → drop n (drop i xs) ≡ drop (i + n) xs
  drop-drop n zero xs = drop_same n (0 + n) xs (omega arith)
  drop-drop n (suc i) [] = drop_nil n ∙ sym (drop_nil (suc i + n))
  drop-drop n (suc i) (x ∷ xs) =
      drop-drop n i xs ∙ drop_same (suc (i + n)) (suc i + n) (x ∷ xs) (omega arith)

  -- the chunk at an index, and what is left
  between_rest :
      (i end : ℕ) (slice : List T) → i ≤ end → between i end slice ++ drop end slice ≡ drop i slice
  between_rest i end slice room =
      ap (λ t. between i end slice ++ t)
        (sym (drop-drop (end - i) i slice ∙ drop_same (i + (end - i)) end slice (omega arith)))
      ∙ take-append-drop (end - i) (drop i slice)

  length-between : (i end : ℕ) (slice : List T) → length (between i end slice) ≤ end - i
  length-between i end slice = omega (arith, length-take (end - i) (drop i slice))

  chunk_from-IsSplit :
      (fuel : ℕ) (slice : List T) (chunk_size i : ℕ)
      → 1 ≤ chunk_size
      → length slice ≤ fuel + i
      → (chunks : List (List T)) × (chunk_from fuel slice chunk_size i ≡ some chunks)
        × IsSplit slice chunk_size i chunks
  unfolding chunk_from turn
  chunk_from-IsSplit zero slice chunk_size i some_size room =
      ([], ground arith, (sym (drop_all i slice (omega arith)), tt))
  chunk_from-IsSplit (suc fuel) slice chunk_size i some_size room =
      elim (Bool-cases (ltb i (length slice))) [
        | inr done ↦ ([], rw (done, turn), (sym (drop_all i slice (ground arith)), tt))
        | inl more ↦
            let (chunks, e, split) =
              chunk_from-IsSplit fuel slice chunk_size (i + chunk_size) some_size (omega arith) in
            elim (Bool-cases (ltb (length slice) (i + chunk_size))) [
              | inl clipped ↦ (
                between i (length slice) slice ∷ chunks,
                ap (turn slice chunk_size i) e ∙ rw (more, clipped, turn),
                (
                  ap (λ t. between i (length slice) slice ++ t)
                        (split.0
                          ∙ drop_all (i + chunk_size) slice (ground arith)
                          ∙ sym (drop_all (length slice) slice (omega arith)))
                      ∙ between_rest i (length slice) slice (ground arith),
                  (ground (arith, length-between i (length slice) slice), split.1),
                ),
              )
              | inr fits ↦ (
                between i (i + chunk_size) slice ∷ chunks,
                ap (turn slice chunk_size i) e ∙ rw (more, fits, turn),
                (
                  ap (λ t. between i (i + chunk_size) slice ++ t) split.0
                      ∙ between_rest i (i + chunk_size) slice (omega arith),
                  (omega (arith, length-between i (i + chunk_size) slice), split.1),
                ),
              )
            ]
      ]

  -- With a chunk size of at least one, the loop ends, within as many turns as the slice is long;
  -- the chunks are the slice, cut up in its order, and none is longer than the size.
  pub chunk_slice_split :
      (slice : List T) (chunk_size fuel : ℕ)
      → 1 ≤ chunk_size
      → length slice ≤ fuel
      → (chunks : List (List T)) × (chunk_slice fuel slice chunk_size ≡ some chunks)
        × (joined chunks ≡ slice)
        × All (λ c. length c ≤ chunk_size) chunks
  unfolding chunk_slice
  chunk_slice_split slice chunk_size fuel some_size room =
      let (chunks, e, split) = chunk_from-IsSplit fuel slice chunk_size 0 some_size (omega arith) in
      (chunks, e, split.0, split.1)
