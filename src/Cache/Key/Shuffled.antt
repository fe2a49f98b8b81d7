-- ===== src/Cache/Key/Shuffled.antt =====
-- The text does not show the order in which a map gives its entries.
use awslib.Cache.Key.{
  Described, Value, Shape, Fields, Items, Entries, invalid, value, nil_pointer, pointer,
  nil_interface, interface, struct, nil_slice, slice, array, nil_map, map_of, text, boolean, int,
  uint, float, complex, other, no_fields, field, no_items, item, no_entries, entry, Strconv,
}
use awslib.Cache.Key.Alike.{
  Alike, AlikeShapes, AlikeFields, AlikeItems, AlikeEntries, AreAlike, no_value, values, same,
  interfaces, structs, slices, arrays, maps, fields_end, fields_next, items_end, items_next,
  entries_end, entries_next, entries_swap, entries_trans,
}
use awslib.Cache.Key.Canonical.{
  Heap, location_or, hashed_or, marshalled, key_max_depth, elem_of, target, is_seen, is_nil,
  and_then, both, mapped, entry_text, write_self_described, write, write_shape, write_fields,
  write_list, write_entries, write_canonical,
}
use awslib.Cache.Key.Text.{insert, sort, join, insert_comm}
use awslib.Prelude.{
  ℕ, zero, suc, ◌+◌, ◌≡◌, refl, sym, ◌∙◌, ap, Bool, true, false, Option, none, some, List, [], ◌∷◌,
  ◌++◌, ltb, nat_eq, if◌then◌else◌,
}
use awslib.Strings.{codes}

abbrev sorted : Option (List (List ℕ)) → Option (List (List ℕ))
sorted none = none
sorted (some texts) = some (sort texts)

abbrev braced : Option (List (List ℕ)) → Option (List ℕ)
braced none = none
braced (some texts) = some (codes "{" ++ (join (codes ",") texts ++ codes "}"))

mapped-sorted : (o : Option (List (List ℕ))) → mapped o ≡ braced (sorted o)
mapped-sorted none = refl
mapped-sorted (some texts) = refl

sorted-both :
    (t : Option (List ℕ)) (o : Option (List (List ℕ)))
    → sorted (both ◌∷◌ t o) ≡ both insert t (sorted o)
unfolding sort
sorted-both none none = refl
sorted-both none (some texts) = refl
sorted-both (some t) none = refl
sorted-both (some t) (some texts) = refl

both-insert_comm :
    (s t : Option (List ℕ)) (o : Option (List (List ℕ)))
    → both insert s (both insert t o) ≡ both insert t (both insert s o)
both-insert_comm none none none = refl
both-insert_comm none none (some _) = refl
both-insert_comm none (some t) none = refl
both-insert_comm none (some t) (some _) = refl
both-insert_comm (some s) none none = refl
both-insert_comm (some s) none (some _) = refl
both-insert_comm (some s) (some t) none = refl
both-insert_comm (some s) (some t) (some texts) = ap some (insert_comm s t texts)

is_nil-AlikeShapes : (s t : Shape) → AlikeShapes s t → is_nil s ≡ is_nil t
is_nil-AlikeShapes s t (same _) = refl
is_nil-AlikeShapes s t (interfaces v w h) = refl
is_nil-AlikeShapes s t (structs name fs gs h) = refl
is_nil-AlikeShapes s t (slices xs ys h) = refl
is_nil-AlikeShapes s t (arrays xs ys h) = refl
is_nil-AlikeShapes s t (maps es fs h) = refl

write_self_described-AlikeShapes :
    (d : Described) (s t : Shape)
    → AlikeShapes s t
    → write_self_described d s ≡ write_self_described d t
unfolding write_self_described
write_self_described-AlikeShapes d s t h = λ i. location_or d.location (
    if d.can_interface
    then (if is_nil-AlikeShapes s t h i then none else hashed_or d.hash (marshalled d.marshal_text))
    else none)

module _ (s : Strconv) (heap heap' : Heap) (follow follow' : ℕ → List ℕ → Value → Option (List ℕ))
    (seen : List ℕ)
    (each : (depth addr type : ℕ)
      → follow depth (addr ∷ seen) (elem_of (target addr type heap))
        ≡ follow' depth (addr ∷ seen) (elem_of (target addr type heap'))) where
  mutual
    unfolding write

    same_value :
        (depth : ℕ) (v : Value)
        → write s heap follow depth seen v ≡ write s heap' follow' depth seen v
    same_value depth invalid = refl
    same_value depth (value d shape) = λ i.
        if ltb key_max_depth depth
        then some (codes "...")
        else (elim (write_self_described d shape) [
          | some t ↦ some t
          | none ↦ same_shape depth shape i
        ])

    same_shape :
        (depth : ℕ) (shape : Shape)
        → write_shape s heap follow depth seen shape ≡ write_shape s heap' follow' depth seen shape
    same_shape depth nil_pointer = refl
    same_shape depth (pointer addr type) =
        λ i. if is_seen addr seen then some (codes "<cycle>") else each depth addr type i
    same_shape depth nil_interface = refl
    same_shape depth (interface v) = same_value depth v
    same_shape depth (struct name fields) =
        ap (λ o. and_then o (λ t. name ++ (codes "{" ++ (t ++ codes "}"))))
          (same_fields depth true fields)
    same_shape depth nil_slice = refl
    same_shape depth (slice items) =
        ap (λ o. and_then o (λ t. codes "[" ++ (t ++ codes "]"))) (same_items depth true items)
    same_shape depth (array items) =
        ap (λ o. and_then o (λ t. codes "[" ++ (t ++ codes "]"))) (same_items depth true items)
    same_shape depth nil_map = refl
    same_shape depth (map_of entries) = ap mapped (same_entries depth entries)
    same_shape depth (text t) = refl
    same_shape depth (boolean b) = refl
    same_shape depth (int n) = refl
    same_shape depth (uint n) = refl
    same_shape depth (float bits) = refl
    same_shape depth (complex re im) = refl
    same_shape depth (other type_name) = refl

    same_fields :
        (depth : ℕ) (first : Bool) (fields : Fields)
        → write_fields s heap follow depth seen first fields
          ≡ write_fields s heap' follow' depth seen first fields
    same_fields depth first no_fields = refl
    same_fields depth first (field name v fields) = λ i.
        both (λ t rest. (if first then [] else codes ",") ++ (name ++ (codes ":" ++ (t ++ rest))))
          (same_value (depth + 1) v i) (same_fields depth false fields i)

    same_items :
        (depth : ℕ) (first : Bool) (items : Items)
        → write_list s heap follow depth seen first items
          ≡ write_list s heap' follow' depth seen first items
    same_items depth first no_items = refl
    same_items depth first (item v items) = λ i.
        both (λ t rest. (if first then [] else codes ",") ++ (t ++ rest))
          (same_value (depth + 1) v i) (same_items depth false items i)

    same_entries :
        (depth : ℕ) (entries : Entries)
        → write_entries s heap follow depth seen entries
          ≡ write_entries s heap' follow' depth seen entries
    same_entries depth no_entries = refl
    same_entries depth (entry k v entries) = λ i.
        both ◌∷◌ (both entry_text (same_value (depth + 1) k i) (same_value (depth + 1) v i))
          (same_entries depth entries i)

  -- the texts of an entry
  abbrev pair_text : ℕ → Value → Value → Option (List ℕ)
  pair_text depth k v =
      both entry_text (write s heap follow (depth + 1) seen k)
        (write s heap follow (depth + 1) seen v)

  mutual
    unfolding write

    alike_values :
        (depth : ℕ) (v w : Value)
        → Alike v w
        → write s heap follow depth seen v ≡ write s heap' follow' depth seen w
    alike_values depth v w no_value = refl
    alike_values depth v w (values d a b h) = λ i.
        if ltb key_max_depth depth
        then some (codes "...")
        else (elim (write_self_described-AlikeShapes d a b h i) [
          | some t ↦ some t
          | none ↦ alike_shapes depth a b h i
        ])

    alike_shapes :
        (depth : ℕ) (a b : Shape)
        → AlikeShapes a b
        → write_shape s heap follow depth seen a ≡ write_shape s heap' follow' depth seen b
    alike_shapes depth a b (same _) = same_shape depth a
    alike_shapes depth a b (interfaces v w h) = alike_values depth v w h
    alike_shapes depth a b (structs name fs gs h) =
        ap (λ o. and_then o (λ t. name ++ (codes "{" ++ (t ++ codes "}"))))
          (alike_fields depth true fs gs h)
    alike_shapes depth a b (slices xs ys h) =
        ap (λ o. and_then o (λ t. codes "[" ++ (t ++ codes "]"))) (alike_items depth true xs ys h)
    alike_shapes depth a b (arrays xs ys h) =
        ap (λ o. and_then o (λ t. codes "[" ++ (t ++ codes "]"))) (alike_items depth true xs ys h)
    alike_shapes depth a b (maps es fs h) =
        mapped-sorted (write_entries s heap follow depth seen es)
        ∙ (ap braced (alike_entries depth es fs h)
            ∙ sym (mapped-sorted (write_entries s heap' follow' depth seen fs)))

    alike_fields :
        (depth : ℕ) (first : Bool) (fs gs : Fields)
        → AlikeFields fs gs
        → write_fields s heap follow depth seen first fs
          ≡ write_fields s heap' follow' depth seen first gs
    alike_fields depth first fs gs fields_end = refl
    alike_fields depth first fs gs (fields_next name v w fs' gs' h rest) = λ i.
        both (λ t rest. (if first then [] else codes ",") ++ (name ++ (codes ":" ++ (t ++ rest))))
          (alike_values (depth + 1) v w h i) (alike_fields depth false fs' gs' rest i)

    alike_items :
        (depth : ℕ) (first : Bool) (xs ys : Items)
        → AlikeItems xs ys
        → write_list s heap follow depth seen first xs
          ≡ write_list s heap' follow' depth seen first ys
    alike_items depth first xs ys items_end = refl
    alike_items depth first xs ys (items_next v w xs' ys' h rest) = λ i.
        both (λ t rest. (if first then [] else codes ",") ++ (t ++ rest))
          (alike_values (depth + 1) v w h i) (alike_items depth false xs' ys' rest i)

    alike_entries :
        (depth : ℕ) (es fs : Entries)
        → AlikeEntries es fs
        → sorted (write_entries s heap follow depth seen es)
          ≡ sorted (write_entries s heap' follow' depth seen fs)
    alike_entries depth es fs entries_end = refl
    alike_entries depth es fs (entries_next k l v w es' fs' h h' rest) =
        sorted-both _ _
        ∙ ((λ i.
              both insert
                (both entry_text (alike_values (depth + 1) k l h i)
                  (alike_values (depth + 1) v w h' i))
                (alike_entries depth es' fs' rest i))
            ∙ sym (sorted-both _ _))
    alike_entries depth es fs (entries_swap k l v w es') =
        let p = pair_text depth k v in
        let q = pair_text depth l w in
        let ts = write_entries s heap follow depth seen es' in
        sorted-both p (both ◌∷◌ q ts)
        ∙ (ap (both insert p) (sorted-both q ts)
            ∙ (both-insert_comm p q (sorted ts)
                ∙ (sym (sorted-both q (both ◌∷◌ p ts) ∙ ap (both insert q) (sorted-both p ts))
                    ∙ ap sorted (same_entries depth (entry l w (entry k v es'))))))
    alike_entries depth es fs (entries_trans _ gs _ h h') =
        alike_entries depth es gs h
        ∙ (sym (ap sorted (same_entries depth gs)) ∙ alike_entries depth gs fs h')

pub write_canonical-Alike :
    (s : Strconv) (heap heap' : Heap)
    → AreAlike heap heap'
    → (fuel depth : ℕ) (seen : List ℕ) (v w : Value) → Alike v w
    → write_canonical s heap fuel depth seen v ≡ write_canonical s heap' fuel depth seen w
unfolding write_canonical
write_canonical-Alike s heap heap' heaps zero depth seen v w h =
    alike_values s heap heap' (λ depth' seen' x. none) (λ depth' seen' x. none) seen
      (λ depth' addr type. refl) depth v w h
write_canonical-Alike s heap heap' heaps (suc fuel) depth seen v w h =
    alike_values s heap heap' (write_canonical s heap fuel) (write_canonical s heap' fuel) seen
      (λ depth' addr type.
        write_canonical-Alike s heap heap' heaps fuel depth' (addr ∷ seen) _ _ (heaps addr type))
      depth v w h
