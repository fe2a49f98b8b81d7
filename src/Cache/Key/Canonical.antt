-- ===== src/Cache/Key/Canonical.antt =====
-- cache/key.go: writeCanonical and the functions around it. The builder's text is the result; a
-- pointer is followed into a heap, and `none` is for a walk that follows more pointers in a row than
-- the fuel allows.
use awslib.Cache.Key.{
  Described, Value, Shape, Fields, Items, Entries, invalid, value, nil_pointer, pointer,
  nil_interface, interface, struct, nil_slice, slice, array, nil_map, map_of, text, boolean, int,
  uint, float, complex, other, no_fields, field, no_items, item, no_entries, entry, Strconv,
}
use awslib.Cache.Key.Text.{format_uint, format_int, format_bool, sort, join}
use awslib.Errors.{Result, ok, fail}
use awslib.Prelude.{
  ◌&&◌, ℕ, zero, suc, ◌+◌, Bool, true, false, Option, none, some, List, [], ◌∷◌, ◌++◌, any, eqb,
  ltb, nat_eq, if◌then◌else◌,
}
use awslib.Strings.{codes}

abbrev pub key_max_depth : ℕ
key_max_depth = 12

-- What the pointers point to, by address and type. A pointer that is not nil points to something.
abbrev pub Heap : Type 0
Heap = List ((ℕ × ℕ) × Value)

abbrev pub target : (addr type : ℕ) → Heap → Option Value
target addr type [] = none
target addr type (((a, t), v) ∷ heap) =
    if eqb a addr && eqb t type then some v else target addr type heap

abbrev pub elem_of : Option Value → Value
elem_of none = invalid
elem_of (some v) = v

abbrev pub is_nil : Shape → Bool
is_nil nil_pointer = true
is_nil nil_interface = true
is_nil _ = false

abbrev pub marshalled : Option (Result (List ℕ)) → Option (List ℕ)
marshalled none = none
marshalled (some (ok t)) = some t
marshalled (some (fail e)) = none

abbrev pub hashed_or : Option (List ℕ) → Option (List ℕ) → Option (List ℕ)
hashed_or none t = t
hashed_or (some h) t = some h

abbrev pub location_or : Option (List ℕ) → Option (List ℕ) → Option (List ℕ)
location_or none t = t
location_or (some name) t = some (codes "Location(" ++ (name ++ codes ")"))

-- writeSelfDescribed: the text, if it rendered the value
unfoldable pub write_self_described : Described → Shape → Option (List ℕ)
write_self_described d shape = location_or d.location (
    if d.can_interface
    then (if is_nil shape then none else hashed_or d.hash (marshalled d.marshal_text))
    else none)

-- The address is on the path.
abbrev pub is_seen : ℕ → List ℕ → Bool
is_seen addr seen = any (eqb addr) seen

-- a text, and a text after it
abbrev pub and_then : Option (List ℕ) → (List ℕ → List ℕ) → Option (List ℕ)
and_then none f = none
and_then (some t) f = some (f t)

abbrev pub both : {A B C : Type 0} → (A → B → C) → Option A → Option B → Option C
both f none b = none
both f (some a) none = none
both f (some a) (some b) = some (f a b)

abbrev pub entry_text : List ℕ → List ℕ → List ℕ
entry_text key elem = key ++ (codes ":" ++ elem)

-- the text of a map, of the texts of its entries
abbrev pub map_text : List (List ℕ) → List ℕ
map_text entries = codes "{" ++ (join (codes ",") (sort entries) ++ codes "}")

abbrev pub mapped : Option (List (List ℕ)) → Option (List ℕ)
mapped none = none
mapped (some entries) = some (map_text entries)

-- The walk, with what it does at the target of a pointer.
module _ (s : Strconv) (heap : Heap) (follow : ℕ → List ℕ → Value → Option (List ℕ)) where
  unfoldable mutual
    pub write : ℕ → List ℕ → Value → Option (List ℕ)
    write depth seen invalid = some (codes "nil")
    write depth seen (value d shape) =
        let walked = write_shape depth seen shape in
        if ltb key_max_depth depth
        then some (codes "...")
        else (elim (write_self_described d shape) [ some t ↦ some t | none ↦ walked ])

    pub write_shape : ℕ → List ℕ → Shape → Option (List ℕ)
    write_shape depth seen nil_pointer = some (codes "nil")
    write_shape depth seen (pointer addr type) =
        if is_seen addr seen
        then some (codes "<cycle>")
        else follow depth (addr ∷ seen) (elem_of (target addr type heap))
    write_shape depth seen nil_interface = some (codes "nil")
    write_shape depth seen (interface v) = write depth seen v
    write_shape depth seen (struct name fields) =
        and_then (write_fields depth seen true fields)
          (λ t. name ++ (codes "{" ++ (t ++ codes "}")))
    write_shape depth seen nil_slice = some (codes "nil")
    write_shape depth seen (slice items) =
        and_then (write_list depth seen true items) (λ t. codes "[" ++ (t ++ codes "]"))
    write_shape depth seen (array items) =
        and_then (write_list depth seen true items) (λ t. codes "[" ++ (t ++ codes "]"))
    write_shape depth seen nil_map = some (codes "nil")
    write_shape depth seen (map_of entries) = mapped (write_entries depth seen entries)
    write_shape depth seen (text t) = some (s.quote t)
    write_shape depth seen (boolean b) = some (format_bool b)
    write_shape depth seen (int n) = some (format_int n)
    write_shape depth seen (uint n) = some (format_uint n)
    write_shape depth seen (float bits) = some (s.format_float bits)
    write_shape depth seen (complex re im) = some (s.format_complex re im)
    write_shape depth seen (other type_name) = some type_name

    -- the loops; the Boolean is for the first turn, which writes no comma
    pub write_fields : ℕ → List ℕ → Bool → Fields → Option (List ℕ)
    write_fields depth seen first no_fields = some []
    write_fields depth seen first (field name v fields) =
        both (λ t rest. (if first then [] else codes ",") ++ (name ++ (codes ":" ++ (t ++ rest))))
          (write (depth + 1) seen v) (write_fields depth seen false fields)

    pub write_list : ℕ → List ℕ → Bool → Items → Option (List ℕ)
    write_list depth seen first no_items = some []
    write_list depth seen first (item v items) =
        both (λ t rest. (if first then [] else codes ",") ++ (t ++ rest)) (write (depth + 1) seen v)
          (write_list depth seen false items)

    -- the texts of the entries of a map, before they are sorted
    pub write_entries : ℕ → List ℕ → Entries → Option (List (List ℕ))
    write_entries depth seen no_entries = some []
    write_entries depth seen (entry k v entries) =
        both ◌∷◌ (both entry_text (write (depth + 1) seen k) (write (depth + 1) seen v))
          (write_entries depth seen entries)

-- writeCanonical
module _ (s : Strconv) (heap : Heap) where
  unfoldable pub write_canonical : ℕ → ℕ → List ℕ → Value → Option (List ℕ)
  write_canonical zero = write s heap (λ depth seen v. none)
  write_canonical (suc fuel) = write s heap (write_canonical fuel)
