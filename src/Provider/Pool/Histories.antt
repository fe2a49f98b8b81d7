-- ===== src/Provider/Pool/Histories.antt =====
-- GetClient after any further requests of the pool, each made in a world of its own: what was
-- answered once is answered again.
use awslib.Dict.Nested
use awslib.Dict.Nested.{lookup-insert_pair, lookup-delete_pair}
use awslib.Errors.{Error, ok, fail}
use awslib.Prelude.{
  ℕ, String, ◌≡◌, refl, ap, ◌∙◌, false, ◌&&◌, ◌==◌, ==_iff, ==_refl, Option, none, some, List, [],
  ◌∷◌, All, arith, string_eq, Bool-cases, inl, inr,
}
use awslib.Prelude.Int.{ℤ}
use awslib.Provider.Client
use awslib.Provider.Client.{Aws}
use awslib.Provider.FailureCache.{FailureCache, FailureEntry, credential_failure, lapsed, err, add}
use awslib.Provider.Pool.{Pooling, get_client, probe, cached_client}
use awslib.Provider.Pool.Requests.{later, get_client-probe, get_client_cached, cached-get_client}
use awslib.Provider.Pool.Failures.{get_client-Failed}
use awslib.Provider.Pool.Frame.{get_client_pair, Kept, get_client-Kept}

module _ (aws : Aws) where
  -- one request, and the world in which it is made
  pub record Ask : Type 0 where
    pub account : String
    pub region : String
    pub world : aws.World

  abbrev pub asks : List Ask → Pooling aws → Pooling aws
  asks [] s = s
  asks (q ∷ qs) s = asks qs (get_client aws q.account q.region (later aws s q.world)).1

module _ (aws : Aws) (account region : String) where
  asked_again :
      (x y : String) (s : Pooling aws) (client : Client.Client aws)
      → cached_client aws s.pool account region ≡ some client
      → cached_client aws (get_client aws x y s).1.pool account region ≡ some client
  asked_again x y s client kept = elim (Bool-cases (x == account && y == region)) [
    | inl same ↦
        let ex : x ≡ account = ground (arith, ==_iff x account) in
        let ey : y ≡ region = ground (arith, ==_iff y region) in
        rw (ex, ey, get_client_cached aws account region s client kept) kept
    | inr other ↦ rw (get_client_pair aws account region x y other s) kept
  ]

  asks-cached :
      (qs : List (Ask aws)) (s : Pooling aws) (client : Client.Client aws)
      → cached_client aws s.pool account region ≡ some client
      → cached_client aws (asks aws qs s).pool account region ≡ some client
  unfolding cached_client
  asks-cached [] s client kept = kept
  asks-cached (q ∷ qs) s client kept =
      asks-cached qs (get_client aws q.account q.region (later aws s q.world)).1 client
        (asked_again q.account q.region (later aws s q.world) client kept)

  -- Once a client was returned for a pair of an account and a region, and after any further requests
  -- of the pool, for any pairs and in any worlds, a request for the pair returns this client, makes
  -- no AWS call and changes nothing.
  pub get_client_again :
      (s : Pooling aws) (client : Client.Client aws) (qs : List (Ask aws)) (w : aws.World)
      → (get_client aws account region s).0 ≡ ok client
      → get_client aws account region
          (later aws (asks aws qs (get_client aws account region s).1) w)
        ≡ (ok client, later aws (asks aws qs (get_client aws account region s).1) w)
  unfolding cached_client
  get_client_again s client qs w h =
      get_client_cached aws account region
        (later aws (asks aws qs (get_client aws account region s).1) w) client
        (asks-cached qs (get_client aws account region s).1 client
          (cached-get_client aws account region s client h))

  -- The pool has no client for the pair, and remembers why.
  record IsRefused (ttl : ℤ) (entry : FailureEntry) (s : Pooling aws) : Type 0 where
    uncached : cached_client aws s.pool account region ≡ none
    kept : Kept account region ttl entry s.pool.failures

  -- the failure that the cache has is told again, and the pool stays as it is
  probe_replay :
      (s : Pooling aws) (f : Option FailureCache) (e : Error)
      → s.pool.failures ≡ f
      → probe aws account region (f, some e) s ≡ (fail e, s)
  unfolding probe
  probe_replay s f e h = rw (← h)

  err_kept :
      (ttl : ℤ) (entry : FailureEntry) (f : Option FailureCache) (now : ℕ)
      → Kept account region ttl entry f
      → lapsed ttl now entry ≡ false
      → err f now account region ≡ (f, some entry.err)
  unfolding err
  err_kept ttl entry f now (d, is, same, kept) fresh = rw (is, err, kept) (rw (same, fresh))

  refused :
      (ttl : ℤ) (entry : FailureEntry) (s : Pooling aws)
      → IsRefused ttl entry s
      → lapsed ttl (aws.now s.world) entry ≡ false
      → get_client aws account region s ≡ (fail entry.err, s)
  refused ttl entry s h fresh =
      get_client-probe aws account region s h.uncached
      ∙ ap (λ f. probe aws account region f s)
          (err_kept ttl entry s.pool.failures (aws.now s.world) h.kept fresh)
      ∙ probe_replay s s.pool.failures entry.err refl

  get_client-IsRefused :
      (ttl : ℤ) (entry : FailureEntry) (x y : String) (s : Pooling aws)
      → IsRefused ttl entry s
      → lapsed ttl (aws.now s.world) entry ≡ false
      → IsRefused ttl entry (get_client aws x y s).1
  get_client-IsRefused ttl entry x y s h fresh = elim (Bool-cases (x == account && y == region)) [
    | inl same ↦
        let ex : x ≡ account = ground (arith, ==_iff x account) in
        let ey : y ≡ region = ground (arith, ==_iff y region) in
        rw (ex, ey, refused ttl entry s h fresh) h
    | inr other ↦ record {
      uncached = get_client_pair aws account region x y other s ∙ h.uncached;
      kept = get_client-Kept account region x y ttl entry other aws s h.kept;
    }
  ]

  asks-IsRefused :
      (ttl : ℤ) (entry : FailureEntry) (qs : List (Ask aws)) (s : Pooling aws)
      → IsRefused ttl entry s
      → All (λ q. lapsed ttl (aws.now q.world) entry ≡ false) qs
      → IsRefused ttl entry (asks aws qs s)
  unfolding cached_client
  asks-IsRefused ttl entry [] s h fresh = h
  asks-IsRefused ttl entry (q ∷ qs) s h fresh =
      asks-IsRefused ttl entry qs (get_client aws q.account q.region (later aws s q.world)).1
        (get_client-IsRefused ttl entry q.account q.region (later aws s q.world)
          (record { uncached = h.uncached; kept = h.kept }) fresh.0)
        fresh.1

  -- Where a request of a pool with a failure cache finds neither a client nor a fresh failure for the
  -- pair, and fails for a reason other than the credentials, the client is not tried again while the
  -- failure is fresh: after any further requests of the pool, for any pairs, a request for the pair
  -- gets the same error, with no AWS call and no change, where all these requests are made while the
  -- failure is fresh.
  pub get_client_replay :
      (c : FailureCache) (s : Pooling aws) (e : Error) (qs : List (Ask aws)) (w : aws.World)
      → s.pool.failures ≡ some c
      → cached_client aws s.pool account region ≡ none
      → (err (some c) (aws.now s.world) account region).1 ≡ none
      → (get_client aws account region s).0 ≡ fail e
      → credential_failure (some e) ≡ false
      → All
          (λ q.
            lapsed c.ttl
              (aws.now q.world)
              (record { err = e; at = aws.now (get_client aws account region s).1.world })
            ≡ false)
          qs
      → lapsed c.ttl
          (aws.now w)
          (record { err = e; at = aws.now (get_client aws account region s).1.world })
        ≡ false
      → get_client aws account region
          (later aws (asks aws qs (get_client aws account region s).1) w)
        ≡ (fail e, later aws (asks aws qs (get_client aws account region s).1) w)
  unfolding cached_client add
  get_client_replay c s e qs w has absent silent failed noted fresh_then fresh =
      let f = get_client-Failed aws account region c s e has absent silent failed in
      let s' : Pooling aws = (get_client aws account region s).1 in
      let entry : FailureEntry = record { err = e; at = aws.now s'.world } in
      let h : IsRefused c.ttl entry s' = record {
        uncached = f.uncached;
        kept = (
          record f.cache { entries = Nested.insert account region entry f.cache.entries },
          f.failures ∙ rw noted,
          f.ttl,
          rw (lookup-insert_pair, ==_refl account, ==_refl region) refl,
        );
      } in
      let h' = asks-IsRefused c.ttl entry qs s' h fresh_then in
      refused c.ttl entry (later aws (asks aws qs s') w)
        (record { uncached = h'.uncached; kept = h'.kept }) fresh
