-- ===== src/Cache/Handlers/Memory.antt =====
-- cache/handlers/memory.go, and that a cache over it serves what was written.
use awslib.Cache.{HandlerInterface}
use awslib.Cache.Handlers.{Gob, BigCache}
use awslib.Cache.Reads.{IsFaithful}
use awslib.Errors.{Error, Result, ok, fail, Result-cases}
use awslib.Prelude.{
  ℕ, String, ◌≡◌, refl, sym, ◌∙◌, ap, true, ◌&&◌, not, Option, none, some, List, [], ◌==◌,
  string_eq, arith, ==_iff, inl, inr, append_nil,
}

pub record InMemory (B : Type 0) : Type 0 where
  pub cache : B

module _ {B D : Type 0} (b : BigCache B) (g : Gob D) where
  abbrev pub decoded : Option (List ℕ) → Option D
  decoded none = none
  decoded (some bytes) = g.decode bytes

  unfoldable pub read : InMemory B → ℕ → String → Option D
  read h now name = decoded (b.get h.cache now name)

  abbrev pub write_encoded : InMemory B → ℕ → String → Result (List ℕ) → Option Error × InMemory B
  write_encoded h now name (fail e) = (some e, h)
  write_encoded h now name (ok bytes) =
      let (e, cache) = b.set h.cache now name bytes in (e, record { cache = cache })

  unfoldable pub write : InMemory B → ℕ → String → D → Option Error × InMemory B
  write h now name d = write_encoded h now name (g.encode d)

  unfoldable pub in_memory : HandlerInterface (InMemory B) D
  in_memory = record { kind = λ h. "memory"; read = read; write = write }

  decoded-encode :
      (d : D) (bytes : List ℕ)
      → g.survives d ≡ true
      → g.encode d ≡ ok bytes
      → g.decode bytes ≡ some d
  decoded-encode d bytes back encoded =
      ap g.decode (sym (append_nil bytes)) ∙ g.decode-encode d bytes [] back encoded

  decoded-some :
      (o : Option (List ℕ)) (d : D)
      → decoded o ≡ some d
      → (bytes : List ℕ) × (o ≡ some bytes) × (g.decode bytes ≡ some d)
  decoded-some none d e = cc
  decoded-some (some bytes) d e = (bytes, refl, e)

  no_error : (e : Error) → Path (Option Error) (some e) none → ⊥
  no_error e same = cc

  pub read-write :
      (h h' : InMemory B) (now later : ℕ) (key : String) (d : D)
      → write h now key d ≡ (none, h')
      → (g.survives d && b.lives h'.cache now later) ≡ true
      → read h' later key ≡ some d
  unfolding read write
  read-write h h' now later key d okay lasts =
      let back : g.survives d ≡ true = ground arith in
      let lives : b.lives h'.cache now later ≡ true = ground arith in
      elim (Result-cases (g.encode d)) [
        | inl (bytes, encoded) ↦
            let wrote = rw (encoded, write) at okay in
            let served =
              b.get-set h.cache h'.cache now later key bytes (λ i. ((wrote i).0, (wrote i).1.cache))
                lives in
            ap decoded served ∙ decoded-encode d bytes back encoded
        | inr (e, bad) ↦ absurd (no_error e (ap (λ r. r.0) (rw (bad, write) at okay)))
      ]

  pub read-write_other :
      (h : InMemory B) (now later : ℕ) (key other : String) (d d' : D)
      → not (key == other) ≡ true
      → read (write h now key d).1 later other ≡ some d'
      → read h later other ≡ some d'
  unfolding read write
  read-write_other h now later key other d d' apart kept = elim (Result-cases (g.encode d)) [
    | inl (bytes, encoded) ↦
        let (here, found, is_d') =
          decoded-some (b.get (b.set h.cache now key bytes).1 later other) d'
            (rw (encoded, write) at kept) in
        ap decoded (
          b.get-set_other h.cache now later key other bytes here
            (λ same. absurd (ground (arith, ==_iff key other))) found)
        ∙ is_d'
    | inr (e, bad) ↦ rw (bad, write) at kept
  ]

  unfoldable pub in_memory_faithful : IsFaithful in_memory
  unfolding in_memory
  in_memory_faithful = record {
    lasts = λ h now later d. g.survives d && b.lives h.cache now later;
    read_write = read-write;
    apart = λ h key other. not (key == other);
    read_other = read-write_other;
  }
