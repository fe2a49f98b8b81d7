-- ===== src/Provider/Pool/Requests.antt =====
-- GetClient: what is answered from memory, and what the pool remembers of an answer.
use awslib.Dict
use awslib.Dict.Nested.{lookup-insert_pair}
use awslib.Errors.{Error, Result, ok, fail}
use awslib.Prelude.{
  String, ◌≡◌, Option, none, some, arith, ==_refl, string_eq, Option-cases, inl, inr,
}
use awslib.Provider.Client
use awslib.Provider.Client.{Aws}
use awslib.Provider.FailureCache
use awslib.Provider.FailureCache.{FailureCache, credential_failure, lapsed, err, add}
use awslib.Provider.Pool.{Pooling, get_client, probe, remember, build_client, cached_client}

module _ (aws : Aws) where
  -- the pool at a later moment: AWS and the clock may have changed
  abbrev pub later : Pooling aws → aws.World → Pooling aws
  later s w = record s { world = w }

  -- making a client changes the builder and the world, and no map of the pool
  pub build_client_maps :
      (account region : String) (s : Pooling aws)
      → ((build_client aws account region s).1.pool.clients ≡ s.pool.clients)
        × ((build_client aws account region s).1.pool.failures ≡ s.pool.failures)
        × ((build_client aws account region s).1.pool.roles ≡ s.pool.roles)
  unfolding build_client
  build_client_maps account region s = elim (Option-cases (Dict.lookup account s.pool.roles)) [
    | inl none_set ↦ rw (none_set, build_client) (ground arith)
    | inr (role, set) ↦ rw (set, build_client) (ground arith)
  ]

module _ (aws : Aws) (account region : String) where
  -- a stored client is returned as it is: no AWS call is made and nothing changes
  pub get_client_cached :
      (s : Pooling aws) (client : Client.Client aws)
      → cached_client aws s.pool account region ≡ some client
      → get_client aws account region s ≡ (ok client, s)
  unfolding get_client
  get_client_cached s client h = rw (h, get_client)

  cached-remember :
      (answer : Result (Client.Client aws) × Pooling aws) (client : Client.Client aws)
      → (remember aws account region answer).0 ≡ ok client
      → cached_client aws (remember aws account region answer).1.pool account region ≡ some client
  unfolding remember cached_client
  cached-remember (fail e, s) client h = absurd (ground arith)
  cached-remember (ok c, s) client h = rw (lookup-insert_pair, ==_refl account, ==_refl region) (cc)

  pub get_client-probe :
      (s : Pooling aws)
      → cached_client aws s.pool account region ≡ none
      → get_client aws account region s
        ≡ probe aws account region
            (FailureCache.err s.pool.failures (aws.now s.world) account region)
            s
  unfolding get_client
  get_client-probe s h = rw (h, get_client)

  cached-probe :
      (answer : Option FailureCache × Option Error) (s : Pooling aws) (client : Client.Client aws)
      → (probe aws account region answer s).0 ≡ ok client
      → cached_client aws (probe aws account region answer s).1.pool account region ≡ some client
  unfolding probe
  cached-probe (failures, some e) s client h = absurd (ground arith)
  cached-probe (failures, none) s client h = cached-remember _ client h

  pub cached-get_client :
      (s : Pooling aws) (client : Client.Client aws)
      → (get_client aws account region s).0 ≡ ok client
      → cached_client aws (get_client aws account region s).1.pool account region ≡ some client
  cached-get_client s client h = elim (Option-cases (cached_client aws s.pool account region)) [
    | inl absent ↦
        rw (get_client-probe s absent)
          (cached-probe _ s client (rw (get_client-probe s absent) at h))
    | inr (c, present) ↦
        let same : get_client aws account region s ≡ (ok client, s) =
          get_client_cached s client (cc (present, get_client_cached s c present, h)) in
        rw same (cc (present, get_client_cached s c present, h))
  ]
