-- ===== src/Cache/Reads.antt =====
-- What a read finds after a write, for handlers that serve what was written.

use awslib.Cache.{HandlerInterface, DataCache, get_key, read_from, write_to, read, write}
use awslib.Gocollection.{Gocollection, first}
use awslib.Prelude.{
  ℕ, String, ◌≡◌, ◌≢◌, refl, sym, ◌∙◌, Bool, true, none, some, List, [], ◌∷◌, arith, All,
  Option-cases, inl, inr, ◌⊎◌,
}

-- A handler serves a value, if it can give back the value at all, from the write until it lapses, and a write under one key makes no value
-- appear under another key that it keeps apart.
pub record IsFaithful {H D : Type 0} (i : HandlerInterface H D) : Type 0 where
  pub lasts : H → (now later : ℕ) → D → Bool
  pub read_write :
      (h h' : H) (now later : ℕ) (key : String) (d : D)
      → i.write h now key d ≡ (none, h')
      → lasts h' now later d ≡ true
      → i.read h' later key ≡ some d
  pub apart : H → String → String → Bool
  pub read_other :
      (h : H) (now later : ℕ) (key other : String) (d d' : D)
      → apart h key other ≡ true
      → i.read (i.write h now key d).1 later other ≡ some d'
      → i.read h later other ≡ some d'

module _ {H D : Type 0} (i : HandlerInterface H D) (f : IsFaithful i) where
  -- Some handler holds this value.
  abbrev pub Holds : ℕ → String → D → List H → Type 0
  Holds now key d [] = ⊥
  Holds now key d (h ∷ handlers) = (i.read h now key ≡ some d) ⊎ Holds now key d handlers

  write_to-All :
      (now later : ℕ) (key : String) (d : D) (handlers : List H)
      → (write_to i now key d handlers).0 ≡ []
      → All (λ h. f.lasts h now later d ≡ true) (write_to i now key d handlers).1
      → All (λ h. i.read h later key ≡ some d) (write_to i now key d handlers).1
  unfolding write_to
  write_to-All now later key d [] clean fresh = tt
  write_to-All now later key d (h ∷ handlers) clean fresh =
      elim (Option-cases (i.write h now key d).0) [
        | inl okay ↦ (
          f.read_write h (i.write h now key d).1 now later key d
              (λ j. (okay j, (i.write h now key d).1)) fresh.0,
          write_to-All now later key d handlers (ground arith) fresh.1,
        )
        | inr (e, bad) ↦ absurd (ground arith)
      ]

  read_from_all :
      (now : ℕ) (key : String) (d : D) (h : H) (handlers : List H)
      → i.read h now key ≡ some d
      → read_from i now key (h ∷ handlers) ≡ some d
  unfolding read_from
  read_from_all now key d h handlers e = rw (e, read_from)

  pub read_from-Holds :
      (now : ℕ) (key : String) (d : D) (handlers : List H)
      → read_from i now key handlers ≡ some d
      → Holds now key d handlers
  unfolding read_from
  read_from-Holds now key d [] h = cc
  read_from-Holds now key d (x ∷ handlers) h = elim (Option-cases (i.read x now key)) [
    | inl miss ↦ inr (read_from-Holds now key d handlers (rw (miss, read_from) at h))
    | inr (v, hit) ↦ inl (hit ∙ (rw (hit, read_from) at h))
  ]

  -- A write through the handlers makes no value appear under another key.
  pub write_to-Holds :
      (now later : ℕ) (key other : String) (d d' : D) (handlers : List H)
      → All (λ h. f.apart h key other ≡ true) handlers
      → Holds later other d' (write_to i now key d handlers).1
      → Holds later other d' handlers
  unfolding write_to
  write_to-Holds now later key other d d' [] apart held = held
  write_to-Holds now later key other d d' (h ∷ handlers) apart (inl here) =
      inl (f.read_other h now later key other d d' apart.0 here)
  write_to-Holds now later key other d d' (h ∷ handlers) apart (inr there) =
      inr (write_to-Holds now later key other d d' handlers apart.1 there)

  first-none : {A : Type 0} → (xs : List A) → first xs ≡ none → xs ≡ []
  first-none [] e = refl
  first-none (x ∷ xs) e = cc

  read_written :
      (now later : ℕ) (key : String) (d : D) (handlers : List H)
      → handlers ≢ []
      → (write_to i now key d handlers).0 ≡ []
      → All (λ h. f.lasts h now later d ≡ true) (write_to i now key d handlers).1
      → read_from i later key (write_to i now key d handlers).1 ≡ some d
  unfolding write_to
  read_written now later key d [] some_handler clean fresh = absurd (some_handler refl)
  read_written now later key d (h ∷ handlers) some_handler clean fresh =
      read_from_all later key d (i.write h now key d).1 (write_to i now key d handlers).1
        (write_to-All now later key d (h ∷ handlers) clean fresh).0

  -- On a cache with a handler, a Write that answers no error is read back under the same name,
  -- at any later time up to which every written handler keeps the value.
  pub write_read :
      (g : Gocollection) (c : DataCache H) (now later : ℕ) (name : String) (d : D)
      → c.handlers ≢ []
      → (write i g c now name d).0 ≡ none
      → All (λ h. f.lasts h now later d ≡ true) ((write i g c now name d).1).handlers
      → read i (write i g c now name d).1 later name ≡ some d
  unfolding write read get_key
  write_read g c now later name d some_handler clean fresh =
      let key = get_key c name in
      read_written now later key d c.handlers some_handler
        (first-none (write_to i now key d c.handlers).0
          (sym (g.head_first (write_to i now key d c.handlers).0) ∙ clean))
        fresh

  -- A Write under one name leaves what is read under a name whose key the handlers keep apart: what a Read of it
  -- answers afterwards was held by a handler before.
  pub write_read_other :
      (g : Gocollection) (c : DataCache H) (now later : ℕ) (name other : String) (d d' : D)
      → All (λ h. f.apart h (get_key c name) (get_key c other) ≡ true) c.handlers
      → read i (write i g c now name d).1 later other ≡ some d'
      → Holds later (get_key c other) d' c.handlers
  unfolding write read get_key
  write_read_other g c now later name other d d' apart h =
      write_to-Holds now later (get_key c name) (get_key c other) d d' c.handlers apart (
        read_from-Holds later (get_key c other) d' (write_to i now (get_key c name) d c.handlers).1
          h)
