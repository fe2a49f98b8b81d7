-- ===== src/Provider/Pool/Failures.antt =====
-- GetClient, when the client cannot be made: what a failed request leaves, and the failures that are
-- tried again.

use awslib.Dict.Nested
use awslib.Dict.Nested.{lookup-insert_pair}
use awslib.Errors.{Error, Result, ok, fail}
use awslib.Prelude.{String, ◌≡◌, refl, ◌∙◌, true, Option, none, some, arith, string_eq}
use awslib.Provider.Client
use awslib.Provider.Client.{Aws}
use awslib.Provider.FailureCache.{FailureCache, credential_failure, err, add}
use awslib.Provider.FailureCache.Reads.{err-none, err-add_credential}
use awslib.Provider.Pool.{Pooling, get_client, probe, remember, build_client, cached_client}
use awslib.Provider.Pool.Requests.{later, build_client_maps, get_client-probe}

module _ (aws : Aws) (account region : String) where
  remember_failed :
      (answer : Result (Client.Client aws) × Pooling aws) (e : Error)
      → (remember aws account region answer).0 ≡ fail e
      → remember aws account region answer ≡ (
        fail e,
        record answer.1 {
          pool = record answer.1.pool {
            failures = add answer.1.pool.failures (aws.now answer.1.world) account region (some e);
          };
        },
      )
  unfolding remember
  remember_failed (fail e', s) e h = cc
  remember_failed (ok client, s) e h = absurd (ground arith)

  -- with no failure told, the client is built
  probe_silent :
      (s : Pooling aws) (f : Option FailureCache)
      → s.pool.failures ≡ f
      → probe aws account region (f, none) s
        ≡ remember aws account region (build_client aws account region s)
  unfolding probe
  probe_silent s f h = rw (← h)

  -- What a failed request leaves: the failure cache of before, without a stale entry for the pair,
  -- and the error added to it when the attempt ended.
  pub record Failed (c : FailureCache) (s : Pooling aws) (e : Error) : Type 0 where
    pub cache : FailureCache
    pub ttl : cache.ttl ≡ c.ttl
    pub absent : Nested.lookup account region cache.entries ≡ none
    pub failures :
        (get_client aws account region s).1.pool.failures
        ≡ add
            (some cache)
            (aws.now (get_client aws account region s).1.world)
            account
            region
            (some e)
    pub uncached : cached_client aws (get_client aws account region s).1.pool account region ≡ none

  pub get_client-Failed :
      (c : FailureCache) (s : Pooling aws) (e : Error)
      → s.pool.failures ≡ some c
      → cached_client aws s.pool account region ≡ none
      → (err (some c) (aws.now s.world) account region).1 ≡ none
      → (get_client aws account region s).0 ≡ fail e
      → Failed c s e
  unfolding probe cached_client
  get_client-Failed c s e has absent silent failed =
      let (d, told, ttl, gone) = err-none account region c (aws.now s.world) silent in
      let asked : get_client aws account region s ≡ probe aws account region (some d, none) s =
        rw (get_client-probe aws account region s absent, has, told) refl in
      let s0 : Pooling aws = record s { pool = record s.pool { failures = some d } } in
      let b : Result (Client.Client aws) × Pooling aws = build_client aws account region s0 in
      let shape = remember_failed b e (rw asked at failed) in
      record {
        cache = d;
        ttl = ttl;
        absent = gone;
        failures = rw (asked, shape, (build_client_maps aws account region s0).1);
        uncached = rw (asked, shape, (build_client_maps aws account region s0).0) absent;
      }

  -- A credential failure is not replayed: the next request for the pair builds the client again,
  -- from the pool with no failure remembered for it.
  pub get_client_retry :
      (c : FailureCache) (s : Pooling aws) (e : Error) (w : aws.World)
      → s.pool.failures ≡ some c
      → cached_client aws s.pool account region ≡ none
      → (err (some c) (aws.now s.world) account region).1 ≡ none
      → (get_client aws account region s).0 ≡ fail e
      → credential_failure (some e) ≡ true
      → get_client aws account region (later aws (get_client aws account region s).1 w)
        ≡ remember aws account region
            (build_client aws account region (later aws (get_client aws account region s).1 w))
  unfolding cached_client probe add
  get_client_retry c s e w has absent silent failed skip =
      let f = get_client-Failed c s e has absent silent failed in
      let s' : Pooling aws = later aws (get_client aws account region s).1 w in
      rw
        (
          get_client-probe aws account region s' f.uncached,
          f.failures,
          err-add_credential account region f.cache _ (aws.now w) e skip f.absent,
        )
        (probe_silent s' (some f.cache) (f.failures ∙ rw skip))
