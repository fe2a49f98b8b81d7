-- ===== src/Provider/Pool/Accounts.antt =====
-- The accounts of a pool: a client is kept under the account it was asked for, and a request
-- scoped to one account leaves the others alone.
use awslib.Dict
use awslib.Dict.Nested.{lookup-insert_pair}
use awslib.Errors.{Error, Result, ok, fail}
use awslib.Exec.{continue, wrapping}
use awslib.Prelude.{
  String, ◌≡◌, refl, Option, none, some, List, [], ◌∷◌, arith, ==_iff, string_eq, Option-cases,
  Bool-cases, inl, inr, ◌&&◌, ◌==◌,
}
use awslib.Provider.Client
use awslib.Provider.Client.{Aws}
use awslib.Provider.FailureCache.{FailureCache}
use awslib.Provider.Pool.{
  ClientPool, Pooling, verify, building, build_client, remember, probe, get_client, cached_client,
  set_client, collect_account, collect_clients,
}
use awslib.Provider.Pool.Requests.{build_client_maps, get_client-probe, get_client_cached}

module _ (aws : Aws) where
  -- A client kept for an account that no role is set for belongs to this account.
  pub record IsMatched (p : ClientPool aws) : Type 0 where
    pub at :
        (account region : String) (client : Client.Client aws)
        → cached_client aws p account region ≡ some client
        → Dict.lookup account p.roles ≡ none
        → client.account_id ≡ account

  verify_account :
      (account : String) (client : Client.Client aws) (s : Pooling aws) (c : Client.Client aws)
      → (verify aws account client s).0 ≡ ok c
      → c.account_id ≡ account
  verify_account account client s c h = ground (arith, ==_iff client.account_id account)

  continue_account :
      (account : String) (r : Result (Client.Client aws)) (s : Pooling aws) (c : Client.Client aws)
      → (continue r (verify aws account) s).0 ≡ ok c
      → c.account_id ≡ account
  continue_account account (ok client) s c h = verify_account account client s c h
  continue_account account (fail e) s c h = absurd (ground arith)

  build_client_account :
      (account region : String) (s : Pooling aws) (client : Client.Client aws)
      → Dict.lookup account s.pool.roles ≡ none
      → (build_client aws account region s).0 ≡ ok client
      → client.account_id ≡ account
  unfolding build_client
  build_client_account account region s client unset h =
      continue_account account
        (wrapping aws.errors_new (building aws (Client.local_client aws region)) s).0
        (wrapping aws.errors_new (building aws (Client.local_client aws region)) s).1 client
        (rw (unset, build_client) at h)

  remember-IsMatched :
      (account region : String) (r : Result (Client.Client aws)) (s : Pooling aws)
      → ((client : Client.Client aws)
          → r ≡ ok client
          → Dict.lookup account s.pool.roles ≡ none
          → client.account_id ≡ account)
      → IsMatched s.pool
      → IsMatched (remember aws account region (r, s)).1.pool
  unfolding remember cached_client set_client
  remember-IsMatched account region (fail e) s own m = record { at = m.at }
  remember-IsMatched account region (ok client) s own m = record {
    at = λ a r c here unset.
        let seen = rw (lookup-insert_pair account a region r client s.pool.clients) at here in
        elim (Bool-cases (account == a && region == r)) [
          | inl hit ↦
              let same : account ≡ a = (==_iff account a).0 (ground arith) in
              let mine : client.account_id ≡ account = own client refl (rw same unset) in
              cc (mine, same, rw hit at seen)
          | inr miss ↦ m.at a r c (rw miss at seen) unset
        ];
  }

  probe-IsMatched :
      (account region : String) (answer : Option FailureCache × Option Error) (s : Pooling aws)
      → IsMatched s.pool
      → IsMatched (probe aws account region answer s).1.pool
  unfolding probe cached_client
  probe-IsMatched account region (failures, some e) s m = record { at = m.at }
  probe-IsMatched account region (failures, none) s m =
      let s0 : Pooling aws = record s { pool = record s.pool { failures = failures } } in
      let maps = build_client_maps aws account region s0 in
      remember-IsMatched account region (build_client aws account region s0).0
        (build_client aws account region s0).1
        (λ client made unset.
          build_client_account account region s0 client (rw (← maps.2) unset) made)
        (record { at = λ a r c here unset. m.at a r c (rw maps.0 at here) (rw maps.2 at unset) })

  -- A request keeps the pool matched, whatever it answers.
  pub get_client-IsMatched :
      (account region : String) (s : Pooling aws)
      → IsMatched s.pool
      → IsMatched (get_client aws account region s).1.pool
  get_client-IsMatched account region s m =
      elim (Option-cases (cached_client aws s.pool account region)) [
        | inl absent ↦
            rw (get_client-probe aws account region s absent) (probe-IsMatched account region _ s m)
        | inr (c, present) ↦ rw (get_client_cached aws account region s c present) m
      ]

  collect_account-IsMatched :
      (account : String) (regions : List String) (s : Pooling aws)
      → IsMatched s.pool
      → IsMatched (collect_account aws account regions s).1.pool
  unfolding collect_account
  collect_account-IsMatched account [] s m = m
  collect_account-IsMatched account (region ∷ regions) s m =
      collect_account-IsMatched account regions (get_client aws account region s).1
        (get_client-IsMatched account region s m)

  pub collect_clients-IsMatched :
      (finish : String → List String → List String) (accounts regions : List String)
      (s : Pooling aws)
      → IsMatched s.pool
      → IsMatched (collect_clients aws finish accounts regions s).1.pool
  unfolding collect_clients
  collect_clients-IsMatched finish [] regions s m = m
  collect_clients-IsMatched finish (account ∷ accounts) regions s m =
      collect_clients-IsMatched finish accounts regions
        (collect_account aws account (finish account regions) s).1
        (collect_account-IsMatched account (finish account regions) s m)
