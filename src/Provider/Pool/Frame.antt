-- ===== src/Provider/Pool/Frame.antt =====
-- What a GetClient leaves as it is: the client and the failure of every other pair of an account
-- and a region.
use awslib.Dict.Nested
use awslib.Dict.Nested.{lookup-insert_pair, lookup-delete_pair}
use awslib.Errors.{Error, Result, ok, fail}
use awslib.Prelude.{
  ℕ, String, ◌≡◌, refl, false, ◌&&◌, ◌==◌, Option, none, some, string_eq, Option-cases, Bool-cases,
  inl, inr,
}
use awslib.Prelude.Int.{ℤ}
use awslib.Provider.Client
use awslib.Provider.Client.{Aws}
use awslib.Provider.FailureCache
use awslib.Provider.FailureCache.{FailureCache, FailureEntry, credential_failure, lapsed, err, add}
use awslib.Provider.Pool.{Pooling, get_client, probe, remember, build_client, cached_client}
use awslib.Provider.Pool.Requests.{build_client_maps, get_client-probe, get_client_cached}

module _ (aws : Aws) (a r x y : String) (other : (x == a && y == r) ≡ false) where
  remember_pair :
      (answer : Result (Client.Client aws)) (s : Pooling aws)
      → cached_client aws (remember aws x y (answer, s)).1.pool a r ≡ cached_client aws s.pool a r
  unfolding remember cached_client
  remember_pair (fail e) s = refl
  remember_pair (ok client) s = rw (lookup-insert_pair x a y r client s.pool.clients, other) refl

  probe_pair :
      (answer : Option FailureCache × Option Error) (s : Pooling aws)
      → cached_client aws (probe aws x y answer s).1.pool a r ≡ cached_client aws s.pool a r
  unfolding probe cached_client
  probe_pair (failures, some e) s = refl
  probe_pair (failures, none) s =
      let s0 : Pooling aws = record s { pool = record s.pool { failures = failures } } in
      let b : Result (Client.Client aws) × Pooling aws = build_client aws x y s0 in
      rw (remember_pair b.0 b.1, (build_client_maps aws x y s0).0)

  -- a request changes no other pair of the client map
  pub get_client_pair :
      (s : Pooling aws)
      → cached_client aws (get_client aws x y s).1.pool a r ≡ cached_client aws s.pool a r
  get_client_pair s = elim (Option-cases (cached_client aws s.pool x y)) [
    | inl absent ↦ rw (get_client-probe aws x y s absent) (probe_pair _ s)
    | inr (c, present) ↦ rw (get_client_cached aws x y s c present) refl
  ]

-- The failure remembered for a pair, with the time for which it is.
abbrev pub Kept : String → String → ℤ → FailureEntry → Option FailureCache → Type 0
Kept a r ttl entry f =
    (d : FailureCache) × (f ≡ some d) × (d.ttl ≡ ttl) × (Nested.lookup a r d.entries ≡ some entry)

module _ (a r x y : String) (ttl : ℤ) (entry : FailureEntry)
    (other : (x == a && y == r) ≡ false) where
  err-Kept :
      (f : Option FailureCache) (now : ℕ)
      → Kept a r ttl entry f
      → Kept a r ttl entry (err f now x y).0
  unfolding err
  err-Kept f now (d, is, same, kept) = elim (Option-cases (Nested.lookup x y d.entries)) [
    | inl absent ↦ (d, rw (is, err, absent), same, kept)
    | inr (old, present) ↦ elim (Bool-cases (lapsed d.ttl now old)) [
      | inl gone ↦ (
        record d { entries = Nested.delete x y d.entries },
        rw (is, err, present, gone),
        same,
        rw (lookup-delete_pair x a y r d.entries, other) kept,
      )
      | inr here ↦ (d, rw (is, err, present, here), same, kept)
    ]
  ]

  add-Kept :
      (f : Option FailureCache) (now : ℕ) (e : Error)
      → Kept a r ttl entry f
      → Kept a r ttl entry (add f now x y (some e))
  unfolding add
  add-Kept f now e (d, is, same, kept) = elim (Bool-cases (credential_failure (some e))) [
    | inl skip ↦ (d, rw (is, add, skip), same, kept)
    | inr noted ↦ (
      record d { entries = Nested.insert x y (record { err = e; at = now }) d.entries },
      rw (is, add, noted),
      same,
      rw (lookup-insert_pair x a y r (record { err = e; at = now }) d.entries, other) kept,
    )
  ]

  forget-Kept :
      (f : Option FailureCache)
      → Kept a r ttl entry f
      → Kept a r ttl entry (FailureCache.forget f x y)
  unfolding FailureCache.forget
  forget-Kept f (d, is, same, kept) = (
    record d { entries = Nested.delete x y d.entries },
    rw (is, FailureCache.forget),
    same,
    rw (lookup-delete_pair x a y r d.entries, other) kept,
  )

  module _ (aws : Aws) where
    remember-Kept :
        (answer : Result (Client.Client aws)) (s : Pooling aws)
        → Kept a r ttl entry s.pool.failures
        → Kept a r ttl entry (remember aws x y (answer, s)).1.pool.failures
    unfolding remember
    remember-Kept (fail e) s kept = add-Kept s.pool.failures (aws.now s.world) e kept
    remember-Kept (ok client) s kept = forget-Kept s.pool.failures kept

    probe-Kept :
        (answer : Option FailureCache × Option Error) (s : Pooling aws)
        → Kept a r ttl entry answer.0
        → Kept a r ttl entry (probe aws x y answer s).1.pool.failures
    unfolding probe
    probe-Kept (failures, some e) s kept = kept
    probe-Kept (failures, none) s kept =
        let s0 : Pooling aws = record s { pool = record s.pool { failures = failures } } in
        let b : Result (Client.Client aws) × Pooling aws = build_client aws x y s0 in
        remember-Kept b.0 b.1 (rw (build_client_maps aws x y s0).1 kept)

    pub get_client-Kept :
        (s : Pooling aws)
        → Kept a r ttl entry s.pool.failures
        → Kept a r ttl entry (get_client aws x y s).1.pool.failures
    get_client-Kept s kept = elim (Option-cases (cached_client aws s.pool x y)) [
      | inl absent ↦
          rw (get_client-probe aws x y s absent)
            (probe-Kept _ s (err-Kept s.pool.failures (aws.now s.world) kept))
      | inr (c, present) ↦ rw (get_client_cached aws x y s c present) kept
    ]
