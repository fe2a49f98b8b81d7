-- ===== src/Cache/Handlers.antt =====
-- cache/handlers: the two stores. encoding/gob, bigcache and the operating system's files are
-- interfaces, each with what its documentation says of it. A decode that fails leaves its argument
-- as it was here; the locks and the logs are left out.
pub mod Memory
pub mod File
use awslib.Errors.{Error, Result, ok, fail}
use awslib.Prelude.{
  ℕ, String, ◌≡◌, ◌≢◌, Bool, true, false, Option, none, some, List, ◌++◌, drop, length,
}

-- encoding/gob: a decoder stops at the end of the value, and gives back a value that survives the
-- trip. Not every value does: a field with the zero value is not sent, so a pointer to it is nil
-- afterwards.
pub record Gob (D : Type 0) : Type 0 where
  pub encode : D → Result (List ℕ)
  pub decode : List ℕ → Option D
  pub survives : D → Bool
  pub decode-encode :
      (d : D) (bytes rest : List ℕ)
      → survives d ≡ true
      → encode d ≡ ok bytes
      → decode (bytes ++ rest) ≡ some d

-- bigcache.BigCache: an entry is served while its life lasts, and a set never makes a value appear
-- under another key, though it may evict one.
pub record BigCache (B : Type 0) : Type 0 where
  pub get : B → ℕ → String → Option (List ℕ)
  pub set : B → ℕ → String → List ℕ → Option Error × B
  pub lives : B → ℕ → ℕ → Bool
  pub get-set :
      (b b' : B) (now later : ℕ) (name : String) (bytes : List ℕ)
      → set b now name bytes ≡ (none, b')
      → lives b' now later ≡ true
      → get b' later name ≡ some bytes
  pub get-set_other :
      (b : B) (now later : ℕ) (name other : String) (bytes kept : List ℕ)
      → name ≢ other
      → get (set b now name bytes).1 later other ≡ some kept
      → get b later other ≡ some kept

-- Files: `open_file` is os.OpenFile with O_CREATE|O_WRONLY, which leaves an existing content in
-- place, and `store` the writes of the encoder from the start of the file it opened.
pub record FileSystem (F : Type 0) : Type 0 where
  pub stat : F → String → Option ℕ
  pub contents : F → String → Option (List ℕ)
  pub open_file : F → ℕ → String → Option Error × F
  pub store : F → ℕ → String → List ℕ → Option Error × F
  -- the two paths are of different files
  pub apart : String → String → Bool
  pub stat-store :
      (f f' : F) (now : ℕ) (path : String) (bytes : List ℕ)
      → store f now path bytes ≡ (none, f')
      → stat f' path ≡ some now
  pub contents-store :
      (f f' : F) (now : ℕ) (path : String) (bytes : List ℕ)
      → store f now path bytes ≡ (none, f')
      → (rest : List ℕ) × (contents f' path ≡ some (bytes ++ rest))
  pub store_other :
      (f : F) (now : ℕ) (path other : String) (bytes : List ℕ)
      → apart path other ≡ true
      → (stat (store f now path bytes).1 other ≡ stat f other)
        × (contents (store f now path bytes).1 other ≡ contents f other)
  pub open_file_other :
      (f : F) (now : ℕ) (path other : String)
      → apart path other ≡ true
      → (stat (open_file f now path).1 other ≡ stat f other)
        × (contents (open_file f now path).1 other ≡ contents f other)
