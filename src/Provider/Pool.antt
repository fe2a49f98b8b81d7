-- ===== src/Provider/Pool.antt =====
-- provider/v3/client_pool.go: one client for each account and region, made on the first request,
-- with the failures remembered. `roles` says which accounts are reached by assuming a role.
-- The goroutines of collectClients are run one after another, in the order in which the runtime
-- lets them finish: the argument `finish` of the functions that start them.
pub mod Requests
pub mod Failures
pub mod Frame
pub mod Histories
pub mod Accounts
pub mod Scope
use Prim.Native.String.{◌++◌ as concat}
use awslib.Dict
use awslib.Dict.Nested
use awslib.Dict.{Dict}
use awslib.Errors.{Error, Result, ok, fail}
use awslib.Exec.{Exec, ◌>>=◌, pure, wrapping}
use awslib.Gocollection.{Gocollection, elem}
use awslib.Prelude.Int.{ℤ}
use awslib.Prelude.{
  ℕ, String, Bool, Option, none, some, List, [], ◌∷◌, ◌++◌, ◌==◌, if◌then◌else◌, string_eq,
}
use awslib.Provider.Client
use awslib.Provider.Client.{Aws, Building}
use awslib.Provider.FailureCache
use awslib.Provider.FailureCache.{FailureCache, default_client_failure_ttl, new_failure_cache}

module _ (aws : Aws) where
  pub record ClientPool : Type 0 where
    pub builder : Client.ClientBuilder aws
    pub clients : Dict String (Dict String (Client.Client aws))
    pub roles : Dict String String
    pub failures : Option FailureCache

  -- the pool, and what lies outside the program
  pub record Pooling : Type 0 where
    pub pool : ClientPool
    pub world : aws.World

  unfoldable pub new_client_pool : Client.ClientBuilder aws → Dict String String → ClientPool
  new_client_pool client_builder assumable_roles = record {
    builder = client_builder;
    clients = [];
    roles = assumable_roles;
    failures = some (new_failure_cache default_client_failure_ttl);
  }

  unfoldable pub with_failure_ttl : ClientPool → ℤ → ClientPool
  with_failure_ttl p ttl = record p { failures = some (new_failure_cache ttl) }

  -- a method of the pool's builder
  abbrev pub building {ℓ} :
      {A : Type ℓ} → (Building aws → Result A × Building aws) → Pooling → Result A × Pooling
  building m s =
      let (r, b) = m (record { builder = s.pool.builder; world = s.world }) in
      (r, record { pool = record s.pool { builder = b.builder }; world = b.world })

  -- the test of buildClient on a client made with the default credentials
  abbrev pub verify : String → Client.Client aws → Exec Pooling (Client.Client aws)
  verify account client s = if client.account_id == account then (ok client, s) else (
    fail (record {
      message =
          concat "accountID mismatch: requested "
            (concat account (concat " but got " client.account_id));
    }),
    s,
  )

  unfoldable pub build_client : String → String → Exec Pooling (Client.Client aws)
  build_client account region s = elim (Dict.lookup account s.pool.roles) [
    | some role ↦ wrapping aws.errors_new (building (Client.assume_client aws role region)) s
    | none ↦
        (do
          client ← wrapping aws.errors_new (building (Client.local_client aws region))
          verify account client)
          s
  ]

  -- the client map as getClient reads and writes it
  unfoldable pub cached_client : ClientPool → String → String → Option (Client.Client aws)
  cached_client p account region = Nested.lookup account region p.clients

  unfoldable pub set_client : ClientPool → String → String → Client.Client aws → ClientPool
  set_client p account region client = record p {
    clients = Nested.insert account region client p.clients;
  }

  -- what GetClient does with the answer of buildClient
  unfoldable pub remember :
      String → String → Result (Client.Client aws) × Pooling → Result (Client.Client aws) × Pooling
  unfolding set_client
  remember account region (fail e, s) = (
    fail e,
    record s {
      pool = record s.pool {
        failures = FailureCache.add s.pool.failures (aws.now s.world) account region (some e);
      };
    },
  )
  remember account region (ok client, s) = (
    ok client,
    record s {
      pool =
          set_client
            (record s.pool { failures = FailureCache.forget s.pool.failures account region })
            account region client;
    },
  )

  -- GetClient, past the client map, with the answer of the failure cache
  unfoldable pub probe :
      String → String → Option FailureCache × Option Error → Exec Pooling (Client.Client aws)
  unfolding remember
  probe account region (failures, some e) s =
      (fail e, record s { pool = record s.pool { failures = failures } })
  probe account region (failures, none) s =
      remember account region
        (build_client account region (record s { pool = record s.pool { failures = failures } }))

  unfoldable pub get_client : String → String → Exec Pooling (Client.Client aws)
  unfolding cached_client probe
  get_client account region s = elim (cached_client s.pool account region) [
    | some client ↦ (ok client, s)
    | none ↦
        probe account region (FailureCache.err s.pool.failures (aws.now s.world) account region) s
  ]

  -- the loop of collectClients over the regions of one account: a pair that fails is skipped
  unfoldable pub collect_account :
      String → List String → Pooling → List (Client.Client aws) × Pooling
  collect_account account [] s = ([], s)
  collect_account account (region ∷ regions) s =
      let (answer, s') = get_client account region s in
      let (clients, s'') = collect_account account regions s' in
      (elim answer [ ok client ↦ client ∷ clients | fail e ↦ clients ], s'')

  unfoldable pub collect_clients :
      (String → List String → List String)
      → List String
      → List String
      → Pooling
      → List (Client.Client aws) × Pooling
  unfolding collect_account
  collect_clients finish [] regions s = ([], s)
  collect_clients finish (account ∷ accounts) regions s =
      let (here, s') = collect_account account (finish account regions) s in
      let (rest, s'') = collect_clients finish accounts regions s' in (here ++ rest, s'')

module _ (aws : Aws) (g : Gocollection) where
  unfoldable pub pool_account_ids : Exec (Pooling aws) (List String)
  pool_account_ids s = elim s.pool.roles [
    | [] ↦
        (do
          client ← wrapping aws.errors_new (building aws (Client.default_client aws))
          pure (client.account_id ∷ []))
          s
    | _ ↦ (ok (g.keys s.pool.roles), s)
  ]

  unfoldable pub get_clients :
      (String → List String → List String)
      → List String
      → Exec (Pooling aws) (List (Client.Client aws))
  get_clients finish regions = do
    accounts ← wrapping aws.errors_new pool_account_ids
    λ s. let (clients, s') = collect_clients aws finish accounts regions s in (ok clients, s')

  abbrev pub unreachable : String → Error
  unreachable account = record {
    message = concat "account " (concat account " is not reachable by this client pool");
  }

  unfoldable pub get_account_clients :
      (String → List String → List String)
      → String
      → List String
      → Exec (Pooling aws) (List (Client.Client aws))
  get_account_clients finish account regions = do
    accounts ← wrapping aws.errors_new pool_account_ids
    λ s.
        let (clients, s') = collect_clients aws finish (account ∷ []) regions s in
        if elem account accounts then (ok clients, s') else (fail (unreachable account), s)
