-- ===== src/Examples/Keys.antt =====
-- Runs of cache/key.go on small parameters.
use awslib.Cache.Key.{
  Described, Value, Entries, invalid, value, pointer, struct, slice, map_of, text, int, no_fields,
  field, no_items, item, no_entries, entry, Strconv,
}
use awslib.Cache.Key.Alike.{AreAlike, no_value, values, maps, entries_swap}
use awslib.Cache.Key.Canonical.{Heap, write, write_self_described, write_canonical}
use awslib.Cache.Key.Ends.{IsWritten}
use awslib.Cache.Key.Hash.{sum64a, nibbles, padded}
use awslib.Cache.Key.Methods.{key_method}
use awslib.Cache.Key.Moved.{moved, moved_heap}
use awslib.Cache.Key.Params.{
  write_params, key, key-IsWritten, key-moved, key-Alike, params_end, params_next,
}
use awslib.Cache.Key.Text.{sort, join, insert}
use awslib.Dict
use awslib.Strings.{codes}
use awslib.Prelude.Int.{pos}
use awslib.Prelude.{
  ℕ, suc, String, ◌≡◌, ◌≢◌, refl, ap, ◌==◌, string_eq, true, none, some, [], ◌∷◌, ◌++◌, map, arith,
}

abbrev plain : Described
plain = record { location = none; can_interface = true; hash = none; marshal_text = none }

abbrev pub strconv : Strconv
strconv = record {
  quote = λ t. codes "'" ++ (t ++ codes "'");
  format_float = λ bits. codes "0";
  format_complex = λ re im. codes "(0+0i)";
}

abbrev number : ℕ → Value
number n = value plain (int (pos n))

abbrev word : String → Value
word w = value plain (text (codes w))

-- a node at address 1 that points to itself
abbrev ring : Heap
ring =
    (
      (1, 5),
      value plain
          (struct (codes "Node") (field (codes "Next") (value plain (pointer 1 5)) no_fields)),
    )
    ∷ []

abbrev node : Value
node = value plain (pointer 1 5)

abbrev tags : Entries
tags = entry (word "a") (number 1) (entry (word "b") (number 2) no_entries)

abbrev tags_swapped : Entries
tags_swapped = entry (word "b") (number 2) (entry (word "a") (number 1) no_entries)

ring_text : write_params strconv ring 3 true (node ∷ []) ≡ some (codes "Node{Next:<cycle>}")
unfolding write_params write write_self_described write_canonical Dict.lookup
ring_text = refl

-- A struct at address 1, with its first field, a number, at the same address.
abbrev shared : Heap
shared =
    (
      (1, 5),
      value plain (
          struct (codes "Pair") (
            field (codes "A") (number 7)
              (field (codes "B") (value plain (pointer 1 6)) no_fields))),
    )
    ∷ (((1, 6), number 7) ∷ [])

-- The pointer to the field counts as one that was seen, whatever its type.
shared_text : write_params strconv shared 3 true (node ∷ []) ≡ some (codes "Pair{A:7,B:<cycle>}")
unfolding write_params write write_self_described write_canonical
shared_text = refl

tags_text :
    write_params strconv [] 1 true (value plain (map_of tags_swapped) ∷ (number 7 ∷ []))
    ≡ some (codes "{'a':1,'b':2},7")
unfolding write_params write write_self_described write_canonical sort insert join
    awslib.Cache.Key.Text.before
tags_text = refl

key-IsWritten_example : IsWritten (key strconv ring 2 "List" (node ∷ []))
key-IsWritten_example = key-IsWritten strconv ring 2 (omega arith) "List" (node ∷ [])

suc_inj : (a b : ℕ) → suc a ≡ suc b → a ≡ b
suc_inj a b e = omega (arith, e)

key-moved_example :
    key strconv (moved_heap suc ring) 2 "List" (map (moved suc) (node ∷ []))
    ≡ key strconv ring 2 "List" (node ∷ [])
key-moved_example = key-moved suc suc_inj strconv ring 2 "List" (node ∷ [])

none_alike : AreAlike [] []
none_alike addr type = no_value

key-Alike_example :
    key strconv [] 1 "List" (value plain (map_of tags) ∷ [])
    ≡ key strconv [] 1 "List" (value plain (map_of tags_swapped) ∷ [])
key-Alike_example =
    key-Alike strconv [] [] 1 none_alike "List" (value plain (map_of tags) ∷ [])
      (value plain (map_of tags_swapped) ∷ [])
      (params_next (value plain (map_of tags)) (value plain (map_of tags_swapped)) [] []
        (values plain (map_of tags) (map_of tags_swapped) (
          maps tags tags_swapped
            (entries_swap (word "a") (word "b") (number 1) (number 2) no_entries)))
        params_end)

list_key : key strconv [] 1 "List" (number 1 ∷ []) ≡ some "List-af63ac4c86019afc"
unfolding key write_params write write_self_described write_canonical nibbles padded sum64a
list_key = refl

get_key : key strconv [] 1 "Get" (number 1 ∷ []) ≡ some "Get-af63ac4c86019afc"
unfolding key write_params write write_self_described write_canonical nibbles padded sum64a
get_key = refl

list_apart : ◌≢◌ {A = String} "List" "Get"
list_apart e = cc (ap (λ s. s == "Get") e)

key_method_example : ◌≢◌ {A = String} "List-af63ac4c86019afc" "Get-af63ac4c86019afc"
key_method_example =
    key_method strconv [] [] 1 1 "List" "Get" (number 1 ∷ []) (number 1 ∷ [])
      "List-af63ac4c86019afc" "Get-af63ac4c86019afc" refl refl list_key get_key list_apart
