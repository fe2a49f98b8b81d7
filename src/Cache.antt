-- ===== src/Cache.antt =====
-- cache/datacache.go: a cache is a namespace over a list of handlers, asked in turn. The handlers
-- are shared by every copy of the cache, so an operation hands them on. Metrics are left out.
pub mod Reads
pub mod Key
pub mod Keys
pub mod Handlers
pub mod Repository
use Prim.Native.String.{◌++◌ as concat}
use awslib.Errors.{Error}
use awslib.Gocollection.{Gocollection}
use awslib.Prelude.{ℕ, String, Option, none, some, List, [], ◌∷◌, ◌++◌}

-- HandlerInterface: `Read` fills its argument and answers true, or answers false; the number is
-- the clock at the call.
pub record HandlerInterface (H D : Type 0) : Type 0 where
  pub kind : H → String
  pub read : H → ℕ → String → Option D
  pub write : H → ℕ → String → D → Option Error × H

pub record DataCache (H : Type 0) : Type 0 where
  pub namespace : String
  pub handlers : List H

abbrev pub new_data_cache : (H : Type 0) → DataCache H
new_data_cache H = record { namespace = ""; handlers = [] }

module _ {H : Type 0} where
  unfoldable pub with_namespace : String → DataCache H → DataCache H
  with_namespace namespace c = record { namespace = namespace; handlers = c.handlers }

  unfoldable pub with_handlers : List H → DataCache H → DataCache H
  with_handlers handlers c = record { namespace = c.namespace; handlers = c.handlers ++ handlers }

  unfoldable pub get_key : DataCache H → String → String
  get_key c name = concat c.namespace (concat ":" name)

module _ {H D : Type 0} (i : HandlerInterface H D) where
  -- the loop of Read
  unfoldable pub read_from : ℕ → String → List H → Option D
  read_from now key [] = none
  read_from now key (h ∷ handlers) = elim (i.read h now key) [
    | some data_read ↦ some data_read
    | none ↦ read_from now key handlers
  ]

  unfoldable pub read : DataCache H → ℕ → String → Option D
  read c now name = read_from now (get_key c name) c.handlers

  abbrev pub note_error : Option Error → List Error → List Error
  note_error none errors = errors
  note_error (some e) errors = e ∷ errors

  -- the loop of Write: every handler is written, whatever the others answer
  unfoldable pub write_to : ℕ → String → D → List H → List Error × List H
  write_to now key d [] = ([], [])
  write_to now key d (h ∷ handlers) =
      let (e, h') = i.write h now key d in
      let (errors, rest) = write_to now key d handlers in (note_error e errors, h' ∷ rest)

  unfoldable pub write : Gocollection → DataCache H → ℕ → String → D → Option Error × DataCache H
  write g c now name d =
      let (errors, handlers) = write_to now (get_key c name) d c.handlers in
      (g.head errors, record c { handlers = handlers })
