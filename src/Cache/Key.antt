-- ===== src/Cache/Key.antt =====
-- cache/key.go: the key of a method and its parameters. A text that is only hashed is the list of
-- its bytes. A parameter is what `reflect` shows of it: the types' own methods, and strconv's
-- renderings of quoted texts and floating-point numbers, are given with the value or as a parameter.
pub mod Text
pub mod Hash
pub mod Canonical
pub mod Ends
pub mod Moved
pub mod Alike
pub mod Shuffled
pub mod Params
pub mod Methods
use awslib.Errors.{Error, Result, ok, fail}
use awslib.Prelude.{ℕ, String, Bool, Option, List}
use awslib.Prelude.Int.{ℤ}

-- What writeSelfDescribed asks of a value: the name of a time.Location, whether it may be turned
-- into an interface, the answer of Hash if the type has one, and that of MarshalText.
pub record Described : Type 0 where
  pub location : Option (List ℕ)
  pub can_interface : Bool
  pub hash : Option (List ℕ)
  pub marshal_text : Option (Result (List ℕ))

-- reflect.Value, by its Kind. A pointer is its address and a number of its type: pointers of
-- different types may have one address, as those to a struct and to its first field have. Slices and
-- maps are finite here; one that holds itself, which the depth limit cuts, is left out.
mutual
  pub data Value : Type 0 where
    invalid : Value
    value : Described → Shape → Value

  pub data Shape : Type 0 where
    nil_pointer : Shape
    pointer : (addr type : ℕ) → Shape
    nil_interface : Shape
    interface : Value → Shape
    struct : (name : List ℕ) → Fields → Shape
    nil_slice : Shape
    slice : Items → Shape
    array : Items → Shape
    nil_map : Shape
    map_of : Entries → Shape
    text : List ℕ → Shape
    boolean : Bool → Shape
    int : ℤ → Shape
    uint : ℕ → Shape
    float : (bits : ℕ) → Shape
    complex : (real imaginary : ℕ) → Shape
    other : (type_name : List ℕ) → Shape

  pub data Fields : Type 0 where
    no_fields : Fields
    field : (name : List ℕ) → Value → Fields → Fields

  pub data Items : Type 0 where
    no_items : Items
    item : Value → Items → Items

  -- in the order in which MapRange gives them
  pub data Entries : Type 0 where
    no_entries : Entries
    entry : Value → Value → Entries → Entries

-- strconv.Quote, FormatFloat and FormatComplex
pub record Strconv : Type 0 where
  pub quote : List ℕ → List ℕ
  pub format_float : ℕ → List ℕ
  pub format_complex : ℕ → ℕ → List ℕ
