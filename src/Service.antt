-- ===== src/Service.antt =====
-- service/helper.go: splitting a slice into chunks. The two functions of the file differ in the
-- type of the elements only.
pub mod Chunks
pub mod Cfg
pub mod Channels
pub mod Tags
use awslib.Prelude.{
  ℕ, zero, suc, ◌+◌, ◌-◌, Option, none, some, List, [], ◌∷◌, length, take, drop, ltb, if◌then◌else◌,
}

module _ {ℓ} {T : Type ℓ} where
  -- slice[i:end]
  abbrev pub between : ℕ → ℕ → List T → List T
  between i end slice = take (end - i) (drop i slice)

  abbrev pub and_then : List T → Option (List (List T)) → Option (List (List T))
  and_then chunk none = none
  and_then chunk (some chunks) = some (chunk ∷ chunks)

  -- one turn of the loop, of the turns after it
  unfoldable pub turn : List T → ℕ → ℕ → Option (List (List T)) → Option (List (List T))
  turn slice chunk_size i rest =
      let end = if ltb (length slice) (i + chunk_size) then length slice else i + chunk_size in
      if ltb i (length slice) then and_then (between i end slice) rest else some []

  -- The loop at index i, for at most so many turns; `none` is for a loop that has not ended by then.
  unfoldable pub chunk_from : ℕ → List T → ℕ → ℕ → Option (List (List T))
  chunk_from zero slice chunk_size i = if ltb i (length slice) then none else some []
  chunk_from (suc fuel) slice chunk_size i =
      turn slice chunk_size i (chunk_from fuel slice chunk_size (i + chunk_size))

  unfoldable pub chunk_slice : ℕ → List T → ℕ → Option (List (List T))
  chunk_slice fuel slice chunk_size = chunk_from fuel slice chunk_size 0
