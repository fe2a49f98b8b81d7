-- ===== src/Cache/Key/Params.antt =====
-- cache/key.go, Key. The fuel bounds the pointers that a walk follows in a row.
use Prim.Native.String.{◌++◌ as concat}
use awslib.Cache.Key.{Value, Strconv}
use awslib.Cache.Key.Alike.{Alike, AreAlike}
use awslib.Cache.Key.Canonical.{Heap, both, write_canonical}
use awslib.Cache.Key.Ends.{IsWritten, both-IsWritten, unseen_le_length, write_canonical-IsWritten}
use awslib.Cache.Key.Hash.{fnv64a, padded, hex_text}
use awslib.Cache.Key.Moved.{moved, moved_heap, write_canonical-moved}
use awslib.Cache.Key.Shuffled.{write_canonical-Alike}
use awslib.Prelude.{
  ℕ, suc, ◌<◌, String, ◌≡◌, refl, ap, Bool, true, false, Option, none, some, List, [], ◌∷◌, ◌++◌,
  length, map, arith, if◌then◌else◌,
}
use awslib.Strings.{codes}

-- the suffix of a key, of the text of the parameters
abbrev pub suffix : List ℕ → String
suffix bytes = hex_text (padded (fnv64a bytes))

abbrev pub suffixed : String → Option (List ℕ) → Option String
suffixed method none = none
suffixed method (some bytes) = some (concat method (concat "-" (suffix bytes)))

module _ (s : Strconv) (heap : Heap) (fuel : ℕ) where
  -- the loop over the parameters; the Boolean is for the first turn, which writes no comma
  unfoldable pub write_params : Bool → List Value → Option (List ℕ)
  write_params first [] = some []
  write_params first (p ∷ params) =
      both (λ t rest. (if first then [] else codes ",") ++ (t ++ rest))
        (write_canonical s heap fuel 0 [] p) (write_params false params)

  unfoldable pub key : String → List Value → Option String
  key method [] = some method
  key method (p ∷ params) = suffixed method (write_params true (p ∷ params))

  write_params-IsWritten :
      length heap < fuel
      → (first : Bool) (params : List Value) → IsWritten (write_params first params)
  unfolding write_params
  write_params-IsWritten room first [] = ([], refl)
  write_params-IsWritten room first (p ∷ params) =
      both-IsWritten _ _ _
        (write_canonical-IsWritten s heap fuel 0 [] p (omega (arith, unseen_le_length heap [])))
        (write_params-IsWritten room false params)

  -- Key answers: where the walk may follow more pointers in a row than the heap has values, the
  -- method and the parameters have a key, even if the parameters point back to themselves.
  pub key-IsWritten :
      length heap < fuel → (method : String) (params : List Value) → IsWritten (key method params)
  unfolding key
  key-IsWritten room method [] = (method, refl)
  key-IsWritten room method (p ∷ params) =
      let (t, e) = write_params-IsWritten room true (p ∷ params) in (_, ap (suffixed method) e)

write_params-moved :
    (f : ℕ → ℕ) (inj : (a b : ℕ) → f a ≡ f b → a ≡ b) (s : Strconv) (heap : Heap) (fuel : ℕ)
    (first : Bool) (params : List Value)
    → write_params s (moved_heap f heap) fuel first (map (moved f) params)
      ≡ write_params s heap fuel first params
unfolding write_params
write_params-moved f inj s heap fuel first [] = refl
write_params-moved f inj s heap fuel first (p ∷ params) = λ i.
    both (λ t rest. (if first then [] else codes ",") ++ (t ++ rest))
      (write_canonical-moved f inj s heap fuel 0 [] p i)
      (write_params-moved f inj s heap fuel false params i)

-- A key does not show where the parameters are in memory: moving every address, different ones to
-- different places, leaves it.
pub key-moved :
    (f : ℕ → ℕ) (inj : (a b : ℕ) → f a ≡ f b → a ≡ b) (s : Strconv) (heap : Heap) (fuel : ℕ)
    (method : String) (params : List Value)
    → key s (moved_heap f heap) fuel method (map (moved f) params) ≡ key s heap fuel method params
unfolding key
key-moved f inj s heap fuel method [] = refl
key-moved f inj s heap fuel method (p ∷ params) =
    ap (suffixed method) (write_params-moved f inj s heap fuel true (p ∷ params))

-- the same parameters, up to the order of the entries of maps
pub data AlikeParams : List Value → List Value → Type 0 where
  params_end : AlikeParams [] []
  params_next :
      (v w : Value) (vs ws : List Value)
      → Alike v w
      → AlikeParams vs ws
      → AlikeParams (v ∷ vs) (w ∷ ws)

write_params-Alike :
    (s : Strconv) (heap heap' : Heap) (fuel : ℕ)
    → AreAlike heap heap'
    → (first : Bool) (params params' : List Value) → AlikeParams params params'
    → write_params s heap fuel first params ≡ write_params s heap' fuel first params'
unfolding write_params
write_params-Alike s heap heap' fuel heaps first _ _ params_end = refl
write_params-Alike s heap heap' fuel heaps first _ _ (params_next v w vs ws h hs) = λ i.
    both (λ t rest. (if first then [] else codes ",") ++ (t ++ rest))
      (write_canonical-Alike s heap heap' heaps fuel 0 [] v w h i)
      (write_params-Alike s heap heap' fuel heaps false vs ws hs i)

-- The order in which maps give their entries, in the parameters or behind their pointers, does not
-- show in a key.
pub key-Alike :
    (s : Strconv) (heap heap' : Heap) (fuel : ℕ)
    → AreAlike heap heap'
    → (method : String) (params params' : List Value) → AlikeParams params params'
    → key s heap fuel method params ≡ key s heap' fuel method params'
unfolding key
key-Alike s heap heap' fuel heaps method _ _ params_end = refl
key-Alike s heap heap' fuel heaps method _ _ (params_next v w vs ws h hs) =
    ap (suffixed method)
      (write_params-Alike s heap heap' fuel heaps true _ _ (params_next v w vs ws h hs))

abbrev written_or_empty : Option String → String
written_or_empty none = ""
written_or_empty (some k) = k

-- Key, with fuel for every value of the heap
unfoldable pub key_at : Strconv → Heap → String → List Value → String
key_at s heap method params = written_or_empty (key s heap (suc (length heap)) method params)

pub key_at-none : (s : Strconv) (heap : Heap) (method : String) → key_at s heap method [] ≡ method
unfolding key_at key
key_at-none s heap method = refl
