-- ===== src/Examples/Stores.antt =====
-- Stores that meet the interfaces of cache/handlers: numbers as values, encoded as one byte, and
-- maps for bigcache and the file system.
use awslib.Cache.Handlers.{Gob, BigCache, FileSystem}
use awslib.Dict
use awslib.Dict.{Dict}
use awslib.Dict.Laws.{lookup-insert}
use awslib.Errors.{Result, ok}
use awslib.Prelude.{
  ℕ, String, ◌≡◌, ◌≢◌, refl, sym, ◌∙◌, ap, Bool, true, not, Option, none, some, List, [], ◌∷◌, ◌++◌,
  drop, length, ◌==◌, string_eq, ==_iff, ==_refl, if◌then◌else◌, arith, Bool-cases, inl, inr,
}

abbrev pub decode_byte : List ℕ → Option ℕ
decode_byte [] = none
decode_byte (b ∷ rest) = some b

ok_bytes : (a b : List ℕ) → Path (Result (List ℕ)) (ok a) (ok b) → a ≡ b
ok_bytes a b e = cc

pub encoded_byte :
    (d : ℕ) (bytes rest : List ℕ)
    → Path Bool true true
    → Path (Result (List ℕ)) (ok (d ∷ [])) (ok bytes)
    → decode_byte (bytes ++ rest) ≡ some d
encoded_byte d bytes rest back e =
    ap (λ b. decode_byte (b ++ rest)) (sym (ok_bytes (d ∷ []) bytes e))

abbrev pub byte_gob : Gob ℕ
byte_gob = record {
  encode = λ d. ok (d ∷ []);
  decode = decode_byte;
  survives = λ d. true;
  decode-encode = encoded_byte;
}

if_refl : {A : Type 0} (k : String) (a b : A) → (if k == k then a else b) ≡ a
if_refl k a b = ap (λ t. if t then a else b) (==_refl k)

if_other : {A : Type 0} (k j : String) (a b : A) → k ≢ j → (if k == j then a else b) ≡ b
if_other k j a b apart = elim (Bool-cases (k == j)) [
  | inl same ↦ absurd (apart ((==_iff k j).0 same))
  | inr other ↦ ap (λ t. if t then a else b) other
]

pub same_lookup :
    {V : Type 0} (k : String) (v : V) (m : Dict String V)
    → Dict.lookup k (Dict.insert k v m) ≡ some v
same_lookup k v m = lookup-insert k k v m ∙ if_refl k (some v) (Dict.lookup k m)

pub other_lookup :
    {V : Type 0} (k j : String) (v : V) (m : Dict String V)
    → k ≢ j
    → Dict.lookup j (Dict.insert k v m) ≡ Dict.lookup j m
other_lookup k j v m apart = lookup-insert k j v m ∙ if_other k j (some v) (Dict.lookup j m) apart

-- The map never evicts an entry.
abbrev pub map_cache : BigCache (Dict String (List ℕ))
map_cache = record {
  get = λ b now name. Dict.lookup name b;
  set = λ b now name bytes. (none, Dict.insert name bytes b);
  lives = λ b now later. true;
  get-set = λ b b' now later name bytes e lives.
      ap (λ r. Dict.lookup name r.1) (sym e) ∙ same_lookup name bytes b;
  get-set_other =
      λ b now later name other bytes kept apart e. sym (other_lookup name other bytes b apart) ∙ e;
}

-- A file is the instant of its last change and its content.
abbrev pub Disk : Type 0
Disk = Dict String (ℕ × List ℕ)

abbrev pub instant : Option (ℕ × List ℕ) → Option ℕ
instant none = none
instant (some file) = some file.0

abbrev pub content : Option (ℕ × List ℕ) → Option (List ℕ)
content none = none
content (some file) = some file.1

abbrev pub tail_of : List ℕ → Option (ℕ × List ℕ) → List ℕ
tail_of bytes none = []
tail_of bytes (some file) = drop (length bytes) file.1

abbrev pub created : String → ℕ → Disk → Option (ℕ × List ℕ) → Disk
created path now f none = Dict.insert path (now, []) f
created path now f (some file) = f

pub created_other :
    (f : Disk) (now : ℕ) (path other : String) (file : Option (ℕ × List ℕ))
    → path ≢ other
    → Dict.lookup other (created path now f file) ≡ Dict.lookup other f
created_other f now path other none apart = other_lookup path other (now, []) f apart
created_other f now path other (some file) apart = refl

pub not_same : (a b : String) → not (a == b) ≡ true → a ≢ b
not_same a b apart same = absurd (ground (arith, ==_iff a b))

abbrev pub disk : FileSystem Disk
disk = record {
  stat = λ f path. instant (Dict.lookup path f);
  contents = λ f path. content (Dict.lookup path f);
  open_file = λ f now path. (none, created path now f (Dict.lookup path f));
  store = λ f now path bytes.
      (none, Dict.insert path (now, bytes ++ tail_of bytes (Dict.lookup path f)) f);
  apart = λ path other. not (path == other);
  stat-store = λ f f' now path bytes e.
      ap (λ r. instant (Dict.lookup path r.1)) (sym e)
      ∙ ap instant (same_lookup path (now, bytes ++ tail_of bytes (Dict.lookup path f)) f);
  contents-store = λ f f' now path bytes e. (
    tail_of bytes (Dict.lookup path f),
    ap (λ r. content (Dict.lookup path r.1)) (sym e)
        ∙ ap content (same_lookup path (now, bytes ++ tail_of bytes (Dict.lookup path f)) f),
  );
  store_other = λ f now path other bytes apart.
      let e =
        other_lookup path other (now, bytes ++ tail_of bytes (Dict.lookup path f)) f
          (not_same path other apart) in
      (ap instant e, ap content e);
  open_file_other = λ f now path other apart.
      let e = created_other f now path other (Dict.lookup path f) (not_same path other apart) in
      (ap instant e, ap content e);
}
