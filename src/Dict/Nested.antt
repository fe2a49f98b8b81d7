-- ===== src/Dict/Nested.antt =====
-- Go's maps of maps, map[K]map[L]V, with the inner map made on the first write.
use awslib.Dict
use awslib.Dict.{Dict}
use awslib.Dict.Laws.{lookup-insert, lookup-delete}
use awslib.Prelude.{
  ◌≡◌, refl, Option, none, some, [], arith, Eq, ==_iff, ◌==◌, ◌&&◌, if◌then◌else◌, Option-cases,
  inl, inr,
}

module _ {ℓ} {L V : Type ℓ} where
  abbrev pub lookup_in : ⦃f : Eq L⦄ → L → Option (Dict L V) → Option V
  lookup_in l none = none
  lookup_in l (some inner) = Dict.lookup l inner

  abbrev pub inner_of : Option (Dict L V) → Dict L V
  inner_of none = []
  inner_of (some inner) = inner

  lookup-inner_of :
      ⦃f : Eq L⦄ (l : L) (o : Option (Dict L V)) → Dict.lookup l (inner_of o) ≡ lookup_in l o
  unfolding Dict.lookup
  lookup-inner_of l none = refl
  lookup-inner_of l (some inner) = refl

module _ {ℓ} {K L V : Type ℓ} ⦃e : Eq K⦄ ⦃f : Eq L⦄ where
  -- inner, ok := m[k]; v, ok := inner[l]
  unfoldable pub lookup : K → L → Dict K (Dict L V) → Option V
  lookup k l m = lookup_in l (Dict.lookup k m)

  -- if _, ok := m[k]; !ok { m[k] = map[L]V{} }; m[k][l] = v
  unfoldable pub insert : K → L → V → Dict K (Dict L V) → Dict K (Dict L V)
  insert k l v m = Dict.insert k (Dict.insert l v (inner_of (Dict.lookup k m))) m

  -- if inner, ok := m[k]; ok { delete(inner, l) }
  unfoldable pub delete : K → L → Dict K (Dict L V) → Dict K (Dict L V)
  delete k l m = elim (Dict.lookup k m) [
    | none ↦ m
    | some inner ↦ Dict.insert k (Dict.delete l inner) m
  ]

  pub lookup-insert_pair :
      (k k' : K) (l l' : L) (v : V) (m : Dict K (Dict L V))
      → lookup k' l' (insert k l v m) ≡ (if k == k' && l == l' then some v else lookup k' l' m)
  unfolding lookup insert
  lookup-insert_pair k k' l l' v m =
      rw (lookup-insert k k' (Dict.insert l v (inner_of (Dict.lookup k m))) m) (
        ground (
          arith,
          ==_iff k k',
          lookup-insert l l' v (inner_of (Dict.lookup k m)),
          lookup-inner_of l' (Dict.lookup k m),
        ))

  pub lookup-delete_pair :
      (k k' : K) (l l' : L) (m : Dict K (Dict L V))
      → lookup k' l' (delete k l m) ≡ (if k == k' && l == l' then none else lookup k' l' m)
  unfolding lookup delete
  lookup-delete_pair k k' l l' m = elim (Option-cases (Dict.lookup k m)) [
    | inl absent ↦ ground (arith, ==_iff k k')
    | inr (inner, present) ↦
        rw (present, delete)
          (rw (lookup-insert k k' (Dict.delete l inner) m)
            (ground (arith, ==_iff k k', lookup-delete l l' inner)))
  ]
