-- ===== src/Provider/FailureCache/History.antt =====
-- The failure cache against the history of the calls made on it.
use mathlib.Core.List.{foldl}
use native.Mathlib.Nat.{le_trans}
use awslib.Dict
use awslib.Dict.Nested
use awslib.Dict.Nested.{lookup-insert_pair, lookup-delete_pair}
use awslib.Errors.{Error}
use awslib.Prelude.Int.{ℤ}
use awslib.Prelude.{
  ℕ, ◌≤◌, String, ◌≡◌, refl, ap, true, not, ◌&&◌, Option, none, some, List, [], ◌∷◌, arith, ==_iff,
  ◌==◌, Bool-cases, Option-cases, inl, inr, if◌then◌else◌, string_eq,
}
use awslib.Provider.FailureCache.{
  FailureEntry, FailureCache, credential_failure, lapsed, new_failure_cache, err, add, forget,
}

pub data Call : Type 0 where
  ask : String → String → Call
  report : String → String → Option Error → Call
  clear : String → String → Call

-- one call, at the instant when it is made
unfoldable pub step : Option FailureCache → ℕ × Call → Option FailureCache
step c (now, ask a r) = (err c now a r).0
step c (now, report a r e) = add c now a r e
step c (now, clear a r) = forget c a r

-- What the history says of one pair: the last failure reported and not cleared, credential
-- failures aside, however old.
unfoldable pub note : String → String → Option FailureEntry → ℕ × Call → Option FailureEntry
note a r old (now, ask b s) = old
note a r old (now, report b s none) = old
note a r old (now, report b s (some e)) =
    if b == a && s == r && not (credential_failure (some e))
    then some (record { err = e; at = now })
    else old
note a r old (now, clear b s) = if b == a && s == r then none else old

-- An entry counts while it has not lapsed.
abbrev pub fresh : ℤ → ℕ → Option FailureEntry → Option Error
fresh ttl now none = none
fresh ttl now (some entry) = if lapsed ttl now entry then none else some entry.err

-- The instants of the calls do not go backwards.
abbrev pub IsChronological : ℕ → List (ℕ × Call) → ℕ → Type 0
IsChronological start [] end = start ≤ end
IsChronological start ((now, call) ∷ calls) end = (start ≤ now) × IsChronological now calls end

-- From the instant `t` on, the cache and the note of one pair answer alike.
abbrev Agrees : ℤ → ℕ → String → String → FailureCache → Option FailureEntry → Type 0
Agrees ttl t a r c old =
    (now : ℕ) → t ≤ now → fresh ttl now (Nested.lookup a r c.entries) ≡ fresh ttl now old

lapsed_mono :
    (ttl : ℤ) (t now : ℕ) (entry : FailureEntry)
    → t ≤ now
    → lapsed ttl t entry ≡ true
    → lapsed ttl now entry ≡ true
lapsed_mono ttl t now entry le h = ground arith

module _ (a r : String) (c : FailureCache) (old : Option FailureEntry) (t : ℕ) where
  -- The answer of `err` at this instant, and the cache that it leaves.
  err-Agrees :
      (b s : String)
      → Agrees c.ttl t a r c old
      → (d : FailureCache) × (err (some c) t b s
          ≡ (some d, fresh c.ttl t (Nested.lookup b s c.entries)))
        × (d.ttl ≡ c.ttl)
        × Agrees c.ttl t a r d old
  unfolding err
  err-Agrees b s h = elim (Option-cases (Nested.lookup b s c.entries)) [
    | inl absent ↦ (c, rw (absent, err), refl, h)
    | inr (entry, present) ↦ elim (Bool-cases (lapsed c.ttl t entry)) [
      | inl gone ↦ (
        record c { entries = Nested.delete b s c.entries },
        rw (present, err, gone),
        refl,
        λ now le.
            rw (lookup-delete_pair b a s r c.entries)
              (ground (arith, h now le, lapsed_mono c.ttl t now entry, ==_iff b a, ==_iff s r)),
      )
      | inr here ↦ (c, rw (present, err, here), refl, h)
    ]
  ]

  add-Agrees :
      (b s : String) (e : Error)
      → Agrees c.ttl t a r c old
      → (d : FailureCache) × (add (some c) t b s (some e) ≡ some d)
        × (d.ttl ≡ c.ttl)
        × Agrees c.ttl t a r d (note a r old (t, report b s (some e)))
  unfolding add note
  add-Agrees b s e h = elim (Bool-cases (credential_failure (some e))) [
    | inl skip ↦ (c, rw skip, refl, λ now le. ground (arith, h now le))
    | inr kept ↦ (
      record c { entries = Nested.insert b s (record { err = e; at = t }) c.entries },
      rw kept,
      refl,
      λ now le.
          rw (kept, lookup-insert_pair b a s r (record { err = e; at = t }) c.entries)
            (ground (arith, h now le)),
    )
  ]

  forget-Agrees :
      (b s : String)
      → Agrees c.ttl t a r c old
      → Agrees c.ttl t a r
          (record c { entries = Nested.delete b s c.entries })
          (note a r old (t, clear b s))
  unfolding note
  forget-Agrees b s h now le = rw (lookup-delete_pair b a s r c.entries) (ground (arith, h now le))

  err_fresh :
      Agrees c.ttl t a r c old
      → (now : ℕ) → t ≤ now
      → (err (some c) now a r).1 ≡ fresh c.ttl now old
  unfolding err
  err_fresh h now le = ground (arith, h now le)

-- One call, whatever it is, keeps the agreement for every pair.
step-Agrees :
    (a r : String) (c : FailureCache) (old : Option FailureEntry) (t : ℕ) (call : Call)
    → Agrees c.ttl t a r c old
    → (d : FailureCache) × (step (some c) (t, call) ≡ some d)
      × (d.ttl ≡ c.ttl)
      × Agrees c.ttl t a r d (note a r old (t, call))
unfolding step note add forget
step-Agrees a r c old t (ask b s) h =
    let (d, same, ttl, agrees) = err-Agrees a r c old t b s h in
    (d, ap (λ (x : Option FailureCache × Option Error). x.0) same, ttl, agrees)
step-Agrees a r c old t (report b s none) h = (c, refl, refl, h)
step-Agrees a r c old t (report b s (some e)) h = add-Agrees a r c old t b s e h
step-Agrees a r c old t (clear b s) h = (
  record c { entries = Nested.delete b s c.entries },
  refl,
  refl,
  forget-Agrees a r c old t b s h,
)

run_from :
    (a r : String) (calls : List (ℕ × Call)) (c : FailureCache) (old : Option FailureEntry)
    (t now : ℕ)
    → IsChronological t calls now
    → Agrees c.ttl t a r c old
    → (err (foldl step (some c) calls) now a r).1 ≡ fresh c.ttl now (foldl (note a r) old calls)
run_from a r [] c old t now le h = err_fresh a r c old t h now le
run_from a r ((u, call) ∷ calls) c old t now (le, later) h =
    let (d, same, ttl, agrees) = step-Agrees a r c old u call (λ v uv. h v (le_trans le uv)) in
    rw (same, ← ttl) (run_from a r calls d (note a r old (u, call)) u now later (rw ttl agrees))

-- Whatever calls were made on a new cache, at instants that do not go backwards, the error that
-- `Err` then answers for a pair is the one that the history notes for this pair, while it is fresh:
-- the last failure added and not forgotten, credential failures aside. Reads change no answer.
pub err-history :
    (ttl : ℤ) (calls : List (ℕ × Call)) (now : ℕ) (a r : String)
    → IsChronological 0 calls now
    → (err (foldl step (some (new_failure_cache ttl)) calls) now a r).1
      ≡ fresh (new_failure_cache ttl).ttl now (foldl (note a r) none calls)
unfolding new_failure_cache Nested.lookup Dict.lookup
err-history ttl calls now a r h =
    run_from a r calls (new_failure_cache ttl) none 0 now h (λ v le. refl)
