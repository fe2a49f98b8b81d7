-- ===== src/Cache/Key/Hash.antt =====
-- cache/key.go, Key: the FNV-64a hash of the parameters' text, and how "%016x" prints it.
use Prim.Native.Nat.{bit_xor}
use Prim.Native.String.{char_at}
use awslib.Prelude.{
  ℕ, zero, suc, ◌-◌, ◌*◌, ◌/◌, ◌%◌, ◌^◌, String, List, [], ◌∷◌, ◌++◌, length, ltb, if◌then◌else◌,
}

abbrev pub offset64 : ℕ
offset64 = 14695981039346656037

abbrev pub prime64 : ℕ
prime64 = 1099511628211

-- hash/fnv, New64a: a uint64 for every byte
unfoldable pub sum64a : ℕ → List ℕ → ℕ
sum64a h [] = h
sum64a h (b ∷ bytes) = sum64a ((bit_xor h b * prime64) % 2 ^ 64) bytes

abbrev pub fnv64a : List ℕ → ℕ
fnv64a = sum64a offset64

-- the hexadecimal digits of a number, the fuel bounding them
unfoldable pub nibbles : ℕ → ℕ → List ℕ → List ℕ
nibbles zero n rest = rest
nibbles (suc fuel) n rest =
    let more = nibbles fuel (n / 16) ((n % 16) ∷ rest) in if ltb n 16 then n ∷ rest else more

abbrev pub zeros : ℕ → List ℕ
zeros zero = []
zeros (suc n) = 0 ∷ zeros n

-- the digits of "%016x"
unfoldable pub padded : ℕ → List ℕ
padded n = let ds = nibbles (suc n) n [] in zeros (16 - length ds) ++ ds

abbrev pub hex_text : List ℕ → String
hex_text [] = String.[]
hex_text (d ∷ ds) = String.◌∷◌ (char_at "0123456789abcdef" d) (hex_text ds)
