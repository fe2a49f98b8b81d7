-- ===== src/Examples/Caches.antt =====
-- The theorems on the cache at a cache of one file handler.
use awslib.Cache.{DataCache, read, read_from, write, write_to, get_key, with_namespace}
use awslib.Dict
use awslib.Dict.{Dict}
use mathlib.Core.Bool.{false≢true}
use text.Mathlib.TextEquality.{eq_iff}
use awslib.Cache.Handlers.File
use awslib.Cache.Handlers.File.{InFile, in_file, in_file_faithful}
use awslib.Cache.Handlers.Memory
use awslib.Cache.Handlers.Memory.{InMemory, in_memory, in_memory_faithful}
use awslib.Cache.Keys.{with_cache, account_namespace, SplitsKeys, with_cache_other}
use awslib.Cache.Reads.{Holds, write_read, write_read_other}
use awslib.Cache.Repository.{cached_call, cached_call_again}
use awslib.Examples.Stores.{map_cache, byte_gob, Disk, disk}
use awslib.Errors.{Error}
use awslib.Gocollection.{plain}
use awslib.Prelude.Int.{pos}
use awslib.Prelude.{
  ℕ, suc, String, ◌≡◌, ◌≢◌, refl, Option, none, some, List, arith, ==_iff, [], ◌∷◌, string_eq,
}

abbrev files : InFile Disk
files = record { cache_dir = "/tmp"; ttl = pos 60; files = [] }

abbrev one_file : DataCache (InFile Disk)
one_file = record { namespace = "123:eu-west-1"; handlers = files ∷ [] }

one_file_some : one_file.handlers ≢ []
one_file_some e = cc

written : (write (in_file disk byte_gob) plain one_file 100 "ListVpcs" 7).0 ≡ none
unfolding write write_to get_key in_file File.write File.get_file_path Dict.lookup Dict.insert
written = refl

write_read_example :
    read
      (in_file disk byte_gob)
      (write (in_file disk byte_gob) plain one_file 100 "ListVpcs" 7).1
      150
      "ListVpcs"
    ≡ some 7
unfolding write write_to get_key in_file File.write File.get_file_path Dict.lookup Dict.insert
    in_file_faithful
write_read_example =
    write_read (in_file disk byte_gob) (in_file_faithful disk byte_gob) plain one_file 100 150
      "ListVpcs" 7 one_file_some refl (refl, tt)

write_read_other_example :
    Holds
      (in_file disk byte_gob)
      (in_file_faithful disk byte_gob)
      150
      "123:eu-west-1:ListVpcs"
      7
      (write (in_file disk byte_gob) plain one_file 100 "ListVpcs" 7).1.handlers
unfolding write write_to get_key in_file File.write File.read File.is_expired File.get_file_path
    Dict.lookup Dict.insert in_file_faithful read read_from
write_read_other_example =
    write_read_other (in_file disk byte_gob) (in_file_faithful disk byte_gob) plain
      (write (in_file disk byte_gob) plain one_file 100 "ListVpcs" 7).1 120 150 "ListEips"
      "ListVpcs" 8 7 (refl, tt) refl

-- a memory that has an entry of the account 456
abbrev memories : DataCache (InMemory (Dict String (List ℕ)))
memories = record {
  namespace = "";
  handlers = record { cache = ("456:eu-west-1:ListVpcs", 7 ∷ []) ∷ [] } ∷ [];
}

in_memory_faithful-SplitsKeys :
    (h : InMemory (Dict String (List ℕ)))
    → SplitsKeys (in_memory map_cache byte_gob) (in_memory_faithful map_cache byte_gob) h
unfolding in_memory_faithful
in_memory_faithful-SplitsKeys h k k' other = ground (arith, ==_iff k k')

with_cache_other_example :
    Holds
      (in_memory map_cache byte_gob)
      (in_memory_faithful map_cache byte_gob)
      150
      (get_key (with_cache "456" "eu-west-1" memories) "ListVpcs")
      7
      memories.handlers
unfolding write write_to get_key with_cache account_namespace with_namespace in_memory Memory.write
    Memory.read Dict.lookup Dict.insert read read_from
with_cache_other_example =
    with_cache_other (in_memory map_cache byte_gob) (in_memory_faithful map_cache byte_gob) plain
      memories 100 150 "123" "456" "eu-west-1" "eu-west-1" "ListVpcs" "ListVpcs" 8 7 refl refl refl
      refl (λ e. false≢true ((eq_iff "123" "456").1 e.0))
      (
        in_memory_faithful-SplitsKeys (record { cache = ("456:eu-west-1:ListVpcs", 7 ∷ []) ∷ [] }),
        tt,
      )
      refl

-- A repository that counts its calls.
abbrev counting : ℕ → (ℕ × Option Error) × ℕ
counting calls = ((7, none), suc calls)

cached_call_again_example :
    (c' : DataCache (InFile Disk)) × (cached_call
        (in_file disk byte_gob)
        plain
        one_file
        90
        100
        "ListVpcs"
        counting
        0
      ≡ ((7, none), c', 1))
    × ((t : ℕ)
        → cached_call (in_file disk byte_gob) plain c' 150 160 "ListVpcs" counting t
          ≡ ((7, none), c', t))
unfolding write write_to get_key in_file File.write File.read File.is_expired File.get_file_path
    Dict.lookup Dict.insert in_file_faithful read read_from
cached_call_again_example =
    cached_call_again (in_file disk byte_gob) plain (in_file_faithful disk byte_gob) one_file 90 100
      150 160 "ListVpcs" counting 0 1 7 one_file_some refl refl refl (refl, tt)
