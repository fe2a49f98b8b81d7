-- ===== src/Cache/Key/Alike.antt =====
-- Parameters that differ only in the order in which their maps give their entries.
use awslib.Cache.Key.{
  Described, Value, Shape, Fields, Items, Entries, invalid, value, interface, struct, slice, array,
  map_of, no_fields, field, no_items, item, no_entries, entry,
}
use awslib.Cache.Key.Canonical.{Heap, elem_of, target}
use awslib.Prelude.{ℕ, List, nat_eq}

-- Two values that differ only in the order of the entries of maps, at any place in them.
mutual
  pub data Alike : Value → Value → Type 0 where
    no_value : Alike invalid invalid
    values : (d : Described) (s t : Shape) → AlikeShapes s t → Alike (value d s) (value d t)

  pub data AlikeShapes : Shape → Shape → Type 0 where
    same : (s : Shape) → AlikeShapes s s
    interfaces : (v w : Value) → Alike v w → AlikeShapes (interface v) (interface w)
    structs :
        (name : List ℕ) (fs gs : Fields)
        → AlikeFields fs gs
        → AlikeShapes (struct name fs) (struct name gs)
    slices : (xs ys : Items) → AlikeItems xs ys → AlikeShapes (slice xs) (slice ys)
    arrays : (xs ys : Items) → AlikeItems xs ys → AlikeShapes (array xs) (array ys)
    maps : (es fs : Entries) → AlikeEntries es fs → AlikeShapes (map_of es) (map_of fs)

  pub data AlikeFields : Fields → Fields → Type 0 where
    fields_end : AlikeFields no_fields no_fields
    fields_next :
        (name : List ℕ) (v w : Value) (fs gs : Fields)
        → Alike v w
        → AlikeFields fs gs
        → AlikeFields (field name v fs) (field name w gs)

  pub data AlikeItems : Items → Items → Type 0 where
    items_end : AlikeItems no_items no_items
    items_next :
        (v w : Value) (xs ys : Items)
        → Alike v w
        → AlikeItems xs ys
        → AlikeItems (item v xs) (item w ys)

  -- the same entries, in any order
  pub data AlikeEntries : Entries → Entries → Type 0 where
    entries_end : AlikeEntries no_entries no_entries
    entries_next :
        (k l v w : Value) (es fs : Entries)
        → Alike k l
        → Alike v w
        → AlikeEntries es fs
        → AlikeEntries (entry k v es) (entry l w fs)
    entries_swap :
        (k l v w : Value) (es : Entries)
        → AlikeEntries (entry k v (entry l w es)) (entry l w (entry k v es))
    entries_trans :
        (es fs gs : Entries) → AlikeEntries es fs → AlikeEntries fs gs → AlikeEntries es gs

-- Two heaps with alike values at every address, for every type.
abbrev pub AreAlike : Heap → Heap → Type 0
AreAlike heap heap' =
    (addr type : ℕ) → Alike (elem_of (target addr type heap)) (elem_of (target addr type heap'))
