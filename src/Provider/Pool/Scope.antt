-- ===== src/Provider/Pool/Scope.antt =====
-- GetClients and GetAccountClients: which accounts a request may touch.
use awslib.Dict
use awslib.Dict.Nested.{lookup-insert_pair}
use awslib.Errors.{Error, Result, ok, fail, Result-cases}
use awslib.Gocollection.{Gocollection, elem}
use awslib.Prelude.{
  String, ◌≡◌, ◌≢◌, refl, ap, ◌∙◌, false, Option, none, some, List, [], ◌∷◌, arith, ==_iff, is_some,
  string_eq, Option-cases, ◌⊎◌, Bool-cases, inl, inr,
}
use awslib.Provider.Client
use awslib.Provider.Client.{Aws}
use awslib.Provider.FailureCache.{FailureCache}
use awslib.Provider.Pool.{
  Pooling, build_client, remember, probe, get_client, cached_client, collect_account,
  collect_clients, pool_account_ids, get_clients, get_account_clients, unreachable,
}
use awslib.Provider.Pool.Accounts.{IsMatched, collect_clients-IsMatched}
use awslib.Provider.Pool.Requests.{build_client_maps, get_client-probe, get_client_cached}

-- The clients kept for one pair are the same before and after.
abbrev pub SameAt : (aws : Aws) → String → String → Pooling aws → Pooling aws → Type 0
SameAt aws a r s s' = cached_client aws s'.pool a r ≡ cached_client aws s.pool a r

module _ (aws : Aws) (account a r : String) (other : account ≢ a) where
  remember_other :
      (region : String) (answer : Result (Client.Client aws)) (s : Pooling aws)
      → SameAt aws a r s (remember aws account region (answer, s)).1
  unfolding remember cached_client
  remember_other region (fail e) s = refl
  remember_other region (ok client) s =
      rw (lookup-insert_pair account a region r client s.pool.clients)
        (ground (arith, ==_iff account a))

  probe_other :
      (region : String) (answer : Option FailureCache × Option Error) (s : Pooling aws)
      → SameAt aws a r s (probe aws account region answer s).1
  unfolding probe cached_client
  probe_other region (failures, some e) s = refl
  probe_other region (failures, none) s =
      let s0 : Pooling aws = record s { pool = record s.pool { failures = failures } } in
      let b : Result (Client.Client aws) × Pooling aws = build_client aws account region s0 in
      rw (remember_other region b.0 b.1, (build_client_maps aws account region s0).0)

  get_client_other :
      (region : String) (s : Pooling aws) → SameAt aws a r s (get_client aws account region s).1
  get_client_other region s = elim (Option-cases (cached_client aws s.pool account region)) [
    | inl absent ↦ rw (get_client-probe aws account region s absent) (probe_other region _ s)
    | inr (c, present) ↦ rw (get_client_cached aws account region s c present) refl
  ]

  collect_account_other :
      (regions : List String) (s : Pooling aws)
      → SameAt aws a r s (collect_account aws account regions s).1
  unfolding collect_account
  collect_account_other [] s = refl
  collect_account_other (region ∷ regions) s =
      collect_account_other regions (get_client aws account region s).1 ∙ get_client_other region s

module _ (aws : Aws) (g : Gocollection) where
  -- finding the accounts of the pool may make the default client, and changes no map
  pool_account_ids_maps :
      (s : Pooling aws)
      → ((pool_account_ids aws g s).1.pool.clients ≡ s.pool.clients)
        × ((pool_account_ids aws g s).1.pool.roles ≡ s.pool.roles)
  unfolding pool_account_ids
  pool_account_ids_maps s = ground arith

  -- What GetAccountClients does once the accounts of the pool are known.
  scoped :
      (finish : String → List String → List String) (account : String) (regions : List String)
      (s : Pooling aws)
      → ((e : Error) × (get_account_clients aws g finish account regions s
            ≡ (fail e, (pool_account_ids aws g s).1)))
        ⊎ (get_account_clients aws g finish account regions s ≡ (
          ok (collect_clients aws finish (account ∷ []) regions (pool_account_ids aws g s).1).0,
          (collect_clients aws finish (account ∷ []) regions (pool_account_ids aws g s).1).1,
        ))
  unfolding get_account_clients
  scoped finish account regions s = elim (Result-cases (pool_account_ids aws g s).0) [
    | inl (ids, e) ↦ elim (Bool-cases (elem account ids)) [
      | inl member ↦ inr (rw (e, get_account_clients, member))
      | inr stranger ↦ inl (unreachable aws g account, rw (e, get_account_clients, stranger))
    ]
    | inr (err, e) ↦ inl (aws.errors_new err, rw (e, get_account_clients))
  ]

  -- A request for one account leaves the clients of every other account as they are, whether it
  -- succeeds or fails.
  pub get_account_clients_other :
      (finish : String → List String → List String) (account : String) (regions : List String)
      (s : Pooling aws) (a r : String)
      → account ≢ a
      → cached_client aws (get_account_clients aws g finish account regions s).1.pool a r
        ≡ cached_client aws s.pool a r
  unfolding cached_client collect_clients
  get_account_clients_other finish account regions s a r other =
      let s1 : Pooling aws = (pool_account_ids aws g s).1 in
      elim (scoped finish account regions s) [
        | inl (e, failed) ↦ rw (failed, (pool_account_ids_maps s).0)
        | inr collected ↦ rw collected (
            collect_account_other aws account a r other (finish account regions) s1
            ∙ rw (pool_account_ids_maps s).0)
      ]

  -- Where roles are set, a request for an account without a role fails, and nothing changes: no
  -- client is made and AWS is not called.
  pub get_account_clients-unreachable :
      (finish : String → List String → List String) (account : String) (regions : List String)
      (s : Pooling aws)
      → s.pool.roles ≢ []
      → Dict.lookup account s.pool.roles ≡ none
      → get_account_clients aws g finish account regions s ≡ (fail (unreachable aws g account), s)
  unfolding get_account_clients pool_account_ids
  get_account_clients-unreachable finish account regions s set unset =
      let known : pool_account_ids aws g s ≡ (ok (g.keys s.pool.roles), s) = ground arith in
      let stranger : elem account (g.keys s.pool.roles) ≡ false =
        g.keys_elem s.pool.roles account ∙ ap is_some unset in
      rw (known, get_account_clients, stranger)

  -- Where every client in the pool that is kept under an account without a role belongs to this
  -- account, the same holds of the pool after GetClients, with the clients it made.
  pub get_clients-IsMatched :
      (finish : String → List String → List String) (regions : List String) (s : Pooling aws)
      → IsMatched aws s.pool
      → IsMatched aws (get_clients aws g finish regions s).1.pool
  unfolding get_clients cached_client
  get_clients-IsMatched finish regions s m =
      let s1 : Pooling aws = (pool_account_ids aws g s).1 in
      let m1 : IsMatched aws s1.pool = record {
        at = λ a r c here unset.
            m.at a r c (rw (pool_account_ids_maps s).0 at here)
              (rw (pool_account_ids_maps s).1 at unset);
      } in
      elim (Result-cases (pool_account_ids aws g s).0) [
        | inl (ids, e) ↦
            rw (e, get_clients) (collect_clients-IsMatched aws finish ids regions s1 m1)
        | inr (err, e) ↦ rw (e, get_clients) m1
      ]
