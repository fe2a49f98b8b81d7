-- ===== src/Gocollection.antt =====
-- github.com/imunhatep/gocollection, the module's slices and dictionaries, as an interface: the
-- operations that the library calls, each with what its documentation says of it.
use awslib.Dict
use awslib.Dict.{Dict}
use awslib.Prelude.{
  String, ◌≡◌, refl, Bool, false, ◌||◌, Option, none, some, List, [], ◌∷◌, ◌==◌, keep, is_some,
  string_eq, arith, ==_iff,
}
use mathlib.Core.List.{Perm}
use mathlib.Core.List.Perm

-- slices.Contains, of Go's own library
abbrev pub elem : String → List String → Bool
elem x [] = false
elem x (y ∷ ys) = y == x || elem x ys

abbrev pub first {ℓ} : {A : Type ℓ} → List A → Option A
first [] = none
first (x ∷ xs) = some x

pub record Gocollection : Type 1 where
  -- slice.Contains, slice.Filter, slice.FilterNot, slice.Map, slice.Head, slice.Find
  pub contains : List String → String → Bool
  pub contains_elem : (xs : List String) (x : String) → contains xs x ≡ elem x xs
  pub filter : {A : Type 0} → List A → (A → Bool) → List A
  pub filter_keep : {A : Type 0} (xs : List A) (p : A → Bool) → filter xs p ≡ keep p xs
  pub find : {A : Type 0} → List A → (A → Bool) → Option A
  pub find_first : {A : Type 0} (xs : List A) (p : A → Bool) → find xs p ≡ first (keep p xs)
  pub head : {A : Type 0} → List A → Option A
  pub head_first : {A : Type 0} (xs : List A) → head xs ≡ first xs
  -- dict.Keys, dict.Values: in an order of their own
  pub keys : {V : Type 0} → Dict String V → List String
  pub keys_elem :
      {V : Type 0} (m : Dict String V) (k : String) → elem k (keys m) ≡ is_some (Dict.lookup k m)
  pub values : {V : Type 0} → Dict String V → List V
  pub values_perm : {V : Type 0} (m : Dict String V) → Perm (values m) (Dict.values m)

pub elem-keys :
    {V : Type 0} (m : Dict String V) (k : String) → elem k (Dict.keys m) ≡ is_some (Dict.lookup k m)
unfolding Dict.keys Dict.lookup
elem-keys [] k = refl
elem-keys ((j, v) ∷ m) k = ground (arith, ==_iff j k, elem-keys m k)

-- The interface can be met.
abbrev pub plain : Gocollection
plain = record {
  contains = λ xs x. elem x xs;
  contains_elem = λ xs x. refl;
  filter = λ xs p. keep p xs;
  filter_keep = λ xs p. refl;
  find = λ xs p. first (keep p xs);
  find_first = λ xs p. refl;
  head = λ xs. first xs;
  head_first = λ xs. refl;
  keys = λ m. Dict.keys m;
  keys_elem = λ m k. elem-keys m k;
  values = λ m. Dict.values m;
  values_perm = λ m. Perm.refl (Dict.values m);
}
