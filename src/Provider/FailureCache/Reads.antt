-- ===== src/Provider/FailureCache/Reads.antt =====
-- What `Err` answers for a pair, right after the calls that a client pool makes.
use awslib.Dict.Nested
use awslib.Dict.Nested.{lookup-insert_pair, lookup-delete_pair}
use awslib.Errors.{Error}
use awslib.Prelude.{
  ℕ, String, ◌≡◌, refl, true, none, some, arith, ==_refl, string_eq, Option-cases, Bool-cases, inl,
  inr,
}
use awslib.Provider.FailureCache.{FailureCache, credential_failure, lapsed, err, add}

module _ (account region : String) where
  -- Where `Err` has no failure to tell, none is left in the cache.
  pub err-none :
      (c : FailureCache) (now : ℕ)
      → (err (some c) now account region).1 ≡ none
      → (d : FailureCache) × (err (some c) now account region ≡ (some d, none))
        × (d.ttl ≡ c.ttl)
        × (Nested.lookup account region d.entries ≡ none)
  unfolding err
  err-none c now h = elim (Option-cases (Nested.lookup account region c.entries)) [
    | inl absent ↦ (c, rw (absent, err), refl, absent)
    | inr (entry, present) ↦ elim (Bool-cases (lapsed c.ttl now entry)) [
      | inl gone ↦ (
        record c { entries = Nested.delete account region c.entries },
        rw (present, err, gone),
        refl,
        rw (lookup-delete_pair, ==_refl account, ==_refl region) refl,
      )
      | inr here ↦ absurd (ground arith)
    ]
  ]

  err_absent :
      (c : FailureCache) (now : ℕ)
      → Nested.lookup account region c.entries ≡ none
      → err (some c) now account region ≡ (some c, none)
  unfolding err
  err_absent c now h = rw (h, err)

  -- A credential failure is not kept: the cache has nothing more to tell than before.
  pub err-add_credential :
      (c : FailureCache) (t now : ℕ) (e : Error)
      → credential_failure (some e) ≡ true
      → Nested.lookup account region c.entries ≡ none
      → err (add (some c) t account region (some e)) now account region ≡ (some c, none)
  unfolding add
  err-add_credential c t now e skip absent = rw skip (err_absent c now absent)
