-- ===== src/Cache/Key/Moved.antt =====
-- The text does not show where the values are in memory.
use awslib.Cache.Key.{
  Described, Value, Shape, Fields, Items, Entries, invalid, value, nil_pointer, pointer,
  nil_interface, interface, struct, nil_slice, slice, array, nil_map, map_of, text, boolean, int,
  uint, float, complex, other, no_fields, field, no_items, item, no_entries, entry, Strconv,
}
use awslib.Cache.Key.Canonical.{
  Heap, key_max_depth, elem_of, target, is_seen, and_then, both, mapped, entry_text,
  write_self_described, write, write_shape, write_fields, write_list, write_entries,
  write_canonical,
}
use awslib.Prelude.{
  ℕ, zero, suc, ◌+◌, ◌≡◌, refl, ◌∙◌, ap, Bool, true, false, ◌&&◌, ◌||◌, Option, none, some, List,
  [], ◌∷◌, ◌++◌, map, eqb, ltb, nat_eq, arith, Bool-cases, inl, inr, if◌then◌else◌,
}
use awslib.Strings.{codes}

module _ (f : ℕ → ℕ) where
  -- the same structure, with every address elsewhere
  abbrev mutual
    pub moved : Value → Value
    moved invalid = invalid
    moved (value d shape) = value d (moved_shape shape)

    pub moved_shape : Shape → Shape
    moved_shape nil_pointer = nil_pointer
    moved_shape (pointer addr type) = pointer (f addr) type
    moved_shape nil_interface = nil_interface
    moved_shape (interface v) = interface (moved v)
    moved_shape (struct name fields) = struct name (moved_fields fields)
    moved_shape nil_slice = nil_slice
    moved_shape (slice items) = slice (moved_items items)
    moved_shape (array items) = array (moved_items items)
    moved_shape nil_map = nil_map
    moved_shape (map_of entries) = map_of (moved_entries entries)
    moved_shape (text t) = text t
    moved_shape (boolean b) = boolean b
    moved_shape (int n) = int n
    moved_shape (uint n) = uint n
    moved_shape (float bits) = float bits
    moved_shape (complex re im) = complex re im
    moved_shape (other type_name) = other type_name

    pub moved_fields : Fields → Fields
    moved_fields no_fields = no_fields
    moved_fields (field name v fields) = field name (moved v) (moved_fields fields)

    pub moved_items : Items → Items
    moved_items no_items = no_items
    moved_items (item v items) = item (moved v) (moved_items items)

    pub moved_entries : Entries → Entries
    moved_entries no_entries = no_entries
    moved_entries (entry k v entries) = entry (moved k) (moved v) (moved_entries entries)

  abbrev pub moved_heap : Heap → Heap
  moved_heap [] = []
  moved_heap (((addr, type), v) ∷ heap) = ((f addr, type), moved v) ∷ moved_heap heap

  write_self_described-moved_shape :
      (d : Described) (shape : Shape)
      → write_self_described d (moved_shape shape) ≡ write_self_described d shape
  unfolding write_self_described
  write_self_described-moved_shape d nil_pointer = refl
  write_self_described-moved_shape d (pointer addr type) = refl
  write_self_described-moved_shape d nil_interface = refl
  write_self_described-moved_shape d (interface v) = refl
  write_self_described-moved_shape d (struct name _) = refl
  write_self_described-moved_shape d nil_slice = refl
  write_self_described-moved_shape d (slice items) = refl
  write_self_described-moved_shape d (array items) = refl
  write_self_described-moved_shape d nil_map = refl
  write_self_described-moved_shape d (map_of _) = refl
  write_self_described-moved_shape d (text t) = refl
  write_self_described-moved_shape d (boolean b) = refl
  write_self_described-moved_shape d (int n) = refl
  write_self_described-moved_shape d (uint n) = refl
  write_self_described-moved_shape d (float bits) = refl
  write_self_described-moved_shape d (complex re im) = refl
  write_self_described-moved_shape d (other type_name) = refl

  module _ (inj : (a b : ℕ) → f a ≡ f b → a ≡ b) where
    eqb-moved : (a b : ℕ) → eqb (f a) (f b) ≡ eqb a b
    eqb-moved a b = elim (Bool-cases (eqb a b)) [
      | inl same ↦ let at : a ≡ b = ground arith in ground (arith, ap f at)
      | inr apart ↦ ground (arith, inj a b)
    ]

    is_seen-moved : (a : ℕ) (seen : List ℕ) → is_seen (f a) (map f seen) ≡ is_seen a seen
    is_seen-moved a [] = refl
    is_seen-moved a (b ∷ seen) = λ i. eqb-moved a b i || is_seen-moved a seen i

    chosen :
        (same : Bool) (v : Value) (o o' : Option Value)
        → elem_of o' ≡ moved (elem_of o)
        → elem_of (if same then some (moved v) else o')
          ≡ moved (elem_of (if same then some v else o))
    chosen true v o o' e = refl
    chosen false v o o' e = e

    elem_of-moved :
        (a type : ℕ) (heap : Heap)
        → elem_of (target (f a) type (moved_heap heap)) ≡ moved (elem_of (target a type heap))
    elem_of-moved a type [] = refl
    elem_of-moved a type (((b, t), v) ∷ heap) =
        ap
          (λ same.
            elem_of
              (if same && eqb t type then some (moved v) else target (f a) type (moved_heap heap)))
          (eqb-moved b a)
        ∙ chosen (eqb b a && eqb t type) v (target a type heap)
            (target (f a) type (moved_heap heap)) (elem_of-moved a type heap)

    module _ (s : Strconv) (heap : Heap) (follow follow' : ℕ → List ℕ → Value → Option (List ℕ))
        (seen : List ℕ)
        (each : (depth addr type : ℕ)
          → follow' depth (f addr ∷ map f seen) (moved (elem_of (target addr type heap)))
            ≡ follow depth (addr ∷ seen) (elem_of (target addr type heap))) where
      mutual
        unfolding write

        write-moved :
            (depth : ℕ) (v : Value)
            → write s (moved_heap heap) follow' depth (map f seen) (moved v)
              ≡ write s heap follow depth seen v
        write-moved depth invalid = refl
        write-moved depth (value d shape) = λ i.
            if ltb key_max_depth depth
            then some (codes "...")
            else (elim (write_self_described-moved_shape d shape i) [
              | some t ↦ some t
              | none ↦ write_shape-moved depth shape i
            ])

        write_shape-moved :
            (depth : ℕ) (shape : Shape)
            → write_shape s (moved_heap heap) follow' depth (map f seen) (moved_shape shape)
              ≡ write_shape s heap follow depth seen shape
        write_shape-moved depth nil_pointer = refl
        write_shape-moved depth (pointer addr type) = λ i.
            if is_seen-moved addr seen i
            then some (codes "<cycle>")
            else (ap (follow' depth (f addr ∷ map f seen)) (elem_of-moved addr type heap)
                  ∙ each depth addr type)
                i
        write_shape-moved depth nil_interface = refl
        write_shape-moved depth (interface v) = write-moved depth v
        write_shape-moved depth (struct name fields) =
            ap (λ o. and_then o (λ t. name ++ (codes "{" ++ (t ++ codes "}"))))
              (write_fields-moved depth true fields)
        write_shape-moved depth nil_slice = refl
        write_shape-moved depth (slice items) =
            ap (λ o. and_then o (λ t. codes "[" ++ (t ++ codes "]")))
              (write_list-moved depth true items)
        write_shape-moved depth (array items) =
            ap (λ o. and_then o (λ t. codes "[" ++ (t ++ codes "]")))
              (write_list-moved depth true items)
        write_shape-moved depth nil_map = refl
        write_shape-moved depth (map_of entries) = ap mapped (write_entries-moved depth entries)
        write_shape-moved depth (text t) = refl
        write_shape-moved depth (boolean b) = refl
        write_shape-moved depth (int n) = refl
        write_shape-moved depth (uint n) = refl
        write_shape-moved depth (float bits) = refl
        write_shape-moved depth (complex re im) = refl
        write_shape-moved depth (other type_name) = refl

        write_fields-moved :
            (depth : ℕ) (first : Bool) (fields : Fields)
            → write_fields s
                (moved_heap heap)
                follow'
                depth
                (map f seen)
                first
                (moved_fields fields)
              ≡ write_fields s heap follow depth seen first fields
        write_fields-moved depth first no_fields = refl
        write_fields-moved depth first (field name v fields) = λ i.
            both
              (λ t rest. (if first then [] else codes ",") ++ (name ++ (codes ":" ++ (t ++ rest))))
              (write-moved (depth + 1) v i) (write_fields-moved depth false fields i)

        write_list-moved :
            (depth : ℕ) (first : Bool) (items : Items)
            → write_list s (moved_heap heap) follow' depth (map f seen) first (moved_items items)
              ≡ write_list s heap follow depth seen first items
        write_list-moved depth first no_items = refl
        write_list-moved depth first (item v items) = λ i.
            both (λ t rest. (if first then [] else codes ",") ++ (t ++ rest))
              (write-moved (depth + 1) v i) (write_list-moved depth false items i)

        write_entries-moved :
            (depth : ℕ) (entries : Entries)
            → write_entries s (moved_heap heap) follow' depth (map f seen) (moved_entries entries)
              ≡ write_entries s heap follow depth seen entries
        write_entries-moved depth no_entries = refl
        write_entries-moved depth (entry k v entries) = λ i.
            both ◌∷◌ (both entry_text (write-moved (depth + 1) k i) (write-moved (depth + 1) v i))
              (write_entries-moved depth entries i)

    pub write_canonical-moved :
        (s : Strconv) (heap : Heap) (fuel depth : ℕ) (seen : List ℕ) (v : Value)
        → write_canonical s (moved_heap heap) fuel depth (map f seen) (moved v)
          ≡ write_canonical s heap fuel depth seen v
    unfolding write_canonical
    write_canonical-moved s heap zero depth seen v =
        write-moved s heap (λ depth' seen' w. none) (λ depth' seen' w. none) seen
          (λ depth' addr type. refl) depth v
    write_canonical-moved s heap (suc fuel) depth seen v =
        write-moved s heap (write_canonical s heap fuel) (write_canonical s (moved_heap heap) fuel)
          seen
          (λ depth' addr type.
            write_canonical-moved s heap fuel depth' (addr ∷ seen)
              (elem_of (target addr type heap)))
          depth v
