-- ===== src/Cache/Handlers/File.antt =====
-- cache/handlers/file.go, and that a cache over it serves what was written.
use Prim.Native.String.{◌++◌ as concat}
use awslib.Cache.{HandlerInterface}
use awslib.Cache.Handlers.{Gob, FileSystem}
use awslib.Cache.Reads.{IsFaithful}
use awslib.Errors.{Error, Result, ok, fail, Result-cases}
use awslib.Prelude.Int.{ℤ, sub_ℕ, ltb_ℤ}
use awslib.Prelude.{
  ℕ, String, ◌≡◌, refl, sym, ◌∙◌, ap, Bool, true, false, ◌&&◌, not, arith, Option, none, some, List,
  string_eq, inl, inr, Option-cases, if◌then◌else◌,
}

-- The files are the operating system's.
pub record InFile (F : Type 0) : Type 0 where
  pub cache_dir : String
  pub ttl : ℤ
  pub files : F

module _ {F D : Type 0} (fs : FileSystem F) (g : Gob D) where
  -- getFilePath
  unfoldable pub get_file_path : InFile F → String → String
  get_file_path h name = concat h.cache_dir (concat "/aws." (concat name ".gob"))

  abbrev pub older : ℤ → ℕ → Option ℕ → Bool
  older ttl now none = true
  older ttl now (some modified) = ltb_ℤ ttl (sub_ℕ now modified)

  -- isExpired
  unfoldable pub is_expired : InFile F → ℕ → String → Bool
  is_expired h now name = older h.ttl now (fs.stat h.files (get_file_path h name))

  abbrev pub decoded : Option (List ℕ) → Option D
  decoded none = none
  decoded (some bytes) = g.decode bytes

  unfoldable pub read : InFile F → ℕ → String → Option D
  read h now name =
      if is_expired h now name then none else decoded (fs.contents h.files (get_file_path h name))

  abbrev pub encoded : InFile F → ℕ → String → Result (List ℕ) → Option Error × InFile F
  encoded h now name (fail e) = (some e, h)
  encoded h now name (ok bytes) =
      let (e, files) = fs.store h.files now (get_file_path h name) bytes in
      (e, record h { files = files })

  abbrev pub opened : InFile F → ℕ → String → D → Option Error → Option Error × InFile F
  opened h now name d (some e) = (some e, h)
  opened h now name d none = encoded h now name (g.encode d)

  unfoldable pub write : InFile F → ℕ → String → D → Option Error × InFile F
  write h now name d =
      let (e, files) = fs.open_file h.files now (get_file_path h name) in
      opened (record h { files = files }) now name d e

  unfoldable pub in_file : HandlerInterface (InFile F) D
  in_file = record { kind = λ h. "file"; read = read; write = write }

  decoded_store :
      (f f' : F) (now : ℕ) (path : String) (d : D) (bytes : List ℕ)
      → g.survives d ≡ true
      → g.encode d ≡ ok bytes
      → fs.store f now path bytes ≡ (none, f')
      → decoded (fs.contents f' path) ≡ some d
  decoded_store f f' now path d bytes back fits stored =
      let (rest, e) = fs.contents-store f f' now path bytes stored in
      ap decoded e ∙ g.decode-encode d bytes rest back fits

  not-true : (b : Bool) → not b ≡ true → b ≡ false
  not-true true e = cc
  not-true false e = refl

  no_error : (e : Error) → Path (Option Error) (some e) none → ⊥
  no_error e same = cc

  -- A write that answers no error has stored the encoded value at the instant of the write.
  write_stored :
      (h h' : InFile F) (now : ℕ) (name : String) (d : D)
      → write h now name d ≡ (none, h')
      → (f : F) × (bytes : List ℕ) × (g.encode d ≡ ok bytes)
        × (fs.store f now (get_file_path h name) bytes ≡ (none, h'.files))
        × (h'.ttl ≡ h.ttl)
        × (get_file_path h' name ≡ get_file_path h name)
  unfolding write get_file_path
  write_stored h h' now name d okay =
      let path = get_file_path h name in
      let f = (fs.open_file h.files now path).1 in
      elim (Option-cases (fs.open_file h.files now path).0) [
        | inr (e, bad) ↦ absurd (no_error e (ap (λ r. r.0) (rw (bad, write) at okay)))
        | inl opens ↦ elim (Result-cases (g.encode d)) [
          | inr (e, bad) ↦ absurd (no_error e (ap (λ r. r.0) (rw (opens, bad, write) at okay)))
          | inl (bytes, fits) ↦
              let wrote = rw (opens, fits, write) at okay in
              (
                f,
                bytes,
                fits,
                (λ i. ((wrote i).0, (wrote i).1.files)),
                sym (ap (λ r. r.1.ttl) wrote),
                sym (ap (λ r. get_file_path r.1 name) wrote),
              )
        ]
      ]

  pub read-write :
      (h h' : InFile F) (now later : ℕ) (key : String) (d : D)
      → write h now key d ≡ (none, h')
      → (g.survives d && not (ltb_ℤ h'.ttl (sub_ℕ later now))) ≡ true
      → read h' later key ≡ some d
  unfolding read is_expired
  read-write h h' now later key d okay lasts =
      let back : g.survives d ≡ true = ground arith in
      let fresh : not (ltb_ℤ h'.ttl (sub_ℕ later now)) ≡ true = ground arith in
      let (f, bytes, fits, stored, ttl, path) = write_stored h h' now key d okay in
      let modified =
        ap (fs.stat h'.files) path
        ∙ fs.stat-store f h'.files now (get_file_path h key) bytes stored in
      rw (modified, not-true (ltb_ℤ h'.ttl (sub_ℕ later now)) fresh, read, is_expired)
        (ap (λ p. decoded (fs.contents h'.files p)) path
          ∙ decoded_store f h'.files now (get_file_path h key) d bytes back fits stored)

  pub read-write_other :
      (h : InFile F) (now later : ℕ) (key other : String) (d : D)
      → fs.apart (get_file_path h key) (get_file_path h other) ≡ true
      → read (write h now key d).1 later other ≡ read h later other
  unfolding read is_expired write get_file_path
  read-write_other h now later key other d apart =
      let path = get_file_path h key in
      let f = (fs.open_file h.files now path).1 in
      let (modified, held) = fs.open_file_other h.files now path (get_file_path h other) apart in
      elim (Option-cases (fs.open_file h.files now path).0) [
        | inr (e, bad) ↦ rw (bad, write, modified, held)
        | inl opens ↦ elim (Result-cases (g.encode d)) [
          | inr (e, bad) ↦ rw (opens, bad, write, modified, held)
          | inl (bytes, fits) ↦
              let (modified', held') =
                fs.store_other f now path (get_file_path h other) bytes apart in
              rw (opens, fits, write, modified', held', modified, held)
        ]
      ]

  unfoldable pub in_file_faithful : IsFaithful in_file
  unfolding in_file
  in_file_faithful = record {
    lasts = λ h now later d. g.survives d && not (ltb_ℤ h.ttl (sub_ℕ later now));
    read_write = read-write;
    apart = λ h key other. fs.apart (get_file_path h key) (get_file_path h other);
    read_other = λ h now later key other d d' apart kept.
        sym (read-write_other h now later key other d apart) ∙ kept;
  }
