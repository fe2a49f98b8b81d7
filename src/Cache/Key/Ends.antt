-- ===== src/Cache/Key/Ends.antt =====
-- The walk ends, on structures that point back to themselves too.
use awslib.Cache.Key.{
  Value, Shape, Fields, Items, Entries, invalid, value, nil_pointer, pointer, nil_interface,
  interface, struct, nil_slice, slice, array, nil_map, map_of, text, boolean, int, uint, float,
  complex, other, no_fields, field, no_items, item, no_entries, entry, Strconv,
}
use awslib.Cache.Key.Canonical.{
  write_shape, write_fields, write_list, write_entries, Heap, key_max_depth, elem_of, target,
  is_seen, and_then, both, mapped, write_self_described, write, write_canonical,
}
use awslib.Strings.{codes}
use awslib.Prelude.{
  ◌&&◌, ℕ, zero, suc, ◌+◌, ◌≤◌, ◌<◌, ◌≡◌, refl, ◌∙◌, ap, Bool, true, false, Option, none, some,
  List, [], ◌∷◌, eqb, ltb, length, nat_eq, arith, Option-cases, Bool-cases, inl, inr, if◌then◌else◌,
}

-- The walk has a text.
abbrev pub IsWritten : {A : Type 0} → Option A → Type 0
IsWritten {A = A} o = (t : A) × (o ≡ some t)

pub both-IsWritten :
    {A B C : Type 0} (f : A → B → C) (a : Option A) (b : Option B)
    → IsWritten a
    → IsWritten b
    → IsWritten (both f a b)
both-IsWritten f a b (x, e) (y, h) = (f x y, λ i. both f (e i) (h i))

and_then-IsWritten :
    (f : List ℕ → List ℕ) (o : Option (List ℕ)) → IsWritten o → IsWritten (and_then o f)
and_then-IsWritten f o (t, e) = (f t, ap (λ x. and_then x f) e)

module _ (s : Strconv) (heap : Heap) (follow : ℕ → List ℕ → Value → Option (List ℕ)) (seen : List ℕ)
    (each : (depth addr type : ℕ)
      → is_seen addr seen ≡ false
      → IsWritten (follow depth (addr ∷ seen) (elem_of (target addr type heap)))) where
  mutual
    unfolding write

    write-IsWritten : (depth : ℕ) (v : Value) → IsWritten (write s heap follow depth seen v)
    write-IsWritten depth invalid = (_, refl)
    write-IsWritten depth (value d shape) = elim (Bool-cases (ltb key_max_depth depth)) [
      | inl deep ↦ (codes "...", rw (deep, write))
      | inr shallow ↦ elim (Option-cases (write_self_described d shape)) [
        | inl plain ↦
            let (t, e) = write_shape-IsWritten depth shape in (t, rw (shallow, plain, write) e)
        | inr (t, described) ↦ (t, rw (shallow, described, write))
      ]
    ]

    write_shape-IsWritten :
        (depth : ℕ) (shape : Shape) → IsWritten (write_shape s heap follow depth seen shape)
    write_shape-IsWritten depth nil_pointer = (_, refl)
    write_shape-IsWritten depth (pointer addr type) = elim (Bool-cases (is_seen addr seen)) [
      | inl cycle ↦ (codes "<cycle>", rw (cycle, write_shape))
      | inr fresh ↦ let (t, e) = each depth addr type fresh in (t, rw (fresh, write_shape) e)
    ]
    write_shape-IsWritten depth nil_interface = (_, refl)
    write_shape-IsWritten depth (interface v) = write-IsWritten depth v
    write_shape-IsWritten depth (struct name fields) =
        and_then-IsWritten _ _ (write_fields-IsWritten depth true fields)
    write_shape-IsWritten depth nil_slice = (_, refl)
    write_shape-IsWritten depth (slice items) =
        and_then-IsWritten _ _ (write_list-IsWritten depth true items)
    write_shape-IsWritten depth (array items) =
        and_then-IsWritten _ _ (write_list-IsWritten depth true items)
    write_shape-IsWritten depth nil_map = (_, refl)
    write_shape-IsWritten depth (map_of entries) =
        let (t, e) = write_entries-IsWritten depth entries in (_, ap mapped e)
    write_shape-IsWritten depth (text t) = (_, refl)
    write_shape-IsWritten depth (boolean b) = (_, refl)
    write_shape-IsWritten depth (int n) = (_, refl)
    write_shape-IsWritten depth (uint n) = (_, refl)
    write_shape-IsWritten depth (float bits) = (_, refl)
    write_shape-IsWritten depth (complex re im) = (_, refl)
    write_shape-IsWritten depth (other type_name) = (_, refl)

    write_fields-IsWritten :
        (depth : ℕ) (first : Bool) (fields : Fields)
        → IsWritten (write_fields s heap follow depth seen first fields)
    write_fields-IsWritten depth first no_fields = (_, refl)
    write_fields-IsWritten depth first (field name v fields) =
        both-IsWritten _ _ _ (write-IsWritten (depth + 1) v)
          (write_fields-IsWritten depth false fields)

    write_list-IsWritten :
        (depth : ℕ) (first : Bool) (items : Items)
        → IsWritten (write_list s heap follow depth seen first items)
    write_list-IsWritten depth first no_items = (_, refl)
    write_list-IsWritten depth first (item v items) =
        both-IsWritten _ _ _ (write-IsWritten (depth + 1) v)
          (write_list-IsWritten depth false items)

    write_entries-IsWritten :
        (depth : ℕ) (entries : Entries) → IsWritten (write_entries s heap follow depth seen entries)
    write_entries-IsWritten depth no_entries = (_, refl)
    write_entries-IsWritten depth (entry k v entries) =
        both-IsWritten _ _ _
          (both-IsWritten _ _ _ (write-IsWritten (depth + 1) k) (write-IsWritten (depth + 1) v))
          (write_entries-IsWritten depth entries)

-- the values of the heap whose addresses are not on the path
abbrev pub unseen : Heap → List ℕ → ℕ
unseen [] seen = 0
unseen (((addr, type), v) ∷ heap) seen = (if is_seen addr seen then 0 else 1) + unseen heap seen

unseen-cons_le : (a : ℕ) (heap : Heap) (seen : List ℕ) → unseen heap (a ∷ seen) ≤ unseen heap seen
unseen-cons_le a [] seen = omega arith
unseen-cons_le a (((k, t), v) ∷ heap) seen = ground (arith, unseen-cons_le a heap seen)

none_is_some : (v : Value) → Path (Option Value) none (some v) → ⊥
none_is_some v e = cc

unseen-cons_lt :
    (a type : ℕ) (heap : Heap) (seen : List ℕ) (v : Value)
    → is_seen a seen ≡ false
    → target a type heap ≡ some v
    → unseen heap (a ∷ seen) < unseen heap seen
unseen-cons_lt a type [] seen v fresh e = absurd (none_is_some v e)
unseen-cons_lt a type (((k, t), w) ∷ heap) seen v fresh e =
    elim (Bool-cases (eqb k a && eqb t type)) [
      | inl same ↦
          let at : k ≡ a = ground arith in
          ground (arith, unseen-cons_le a heap seen, ap (λ b. is_seen b seen) at)
      | inr apart ↦ ground (arith, unseen-cons_lt a type heap seen v fresh (rw apart at e))
    ]

pub unseen_le_length : (heap : Heap) (seen : List ℕ) → unseen heap seen ≤ length heap
unseen_le_length [] seen = omega arith
unseen_le_length (((k, t), v) ∷ heap) seen = ground (arith, unseen_le_length heap seen)

module _ (s : Strconv) (heap : Heap) where
  write_canonical-invalid :
      (fuel depth : ℕ) (seen : List ℕ)
      → write_canonical s heap fuel depth seen invalid ≡ some (codes "nil")
  unfolding write_canonical write
  write_canonical-invalid zero depth seen = refl
  write_canonical-invalid (suc fuel) depth seen = refl

  pub write_canonical-IsWritten :
      (fuel depth : ℕ) (seen : List ℕ) (v : Value)
      → unseen heap seen < fuel
      → IsWritten (write_canonical s heap fuel depth seen v)
  unfolding write_canonical
  write_canonical-IsWritten zero depth seen v room = absurd (omega arith)
  write_canonical-IsWritten (suc fuel) depth seen v room =
      write-IsWritten s heap (write_canonical s heap fuel) seen
        (λ depth' addr type fresh. elim (Option-cases (target addr type heap)) [
          | inl dangling ↦ (
            codes "nil",
            ap (λ o. write_canonical s heap fuel depth' (addr ∷ seen) (elem_of o)) dangling
                ∙ write_canonical-invalid fuel depth' (addr ∷ seen),
          )
          | inr (w, held) ↦
              write_canonical-IsWritten fuel depth' (addr ∷ seen) (elem_of (target addr type heap))
                (omega (arith, room, unseen-cons_lt addr type heap seen w fresh held))
        ])
        depth v
