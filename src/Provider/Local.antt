-- ===== src/Provider/Local.antt =====
-- provider/client_pool.go: the older pool, which serves the account of the default credentials only.
-- Its regions are asked one after another.
use Prim.Native.String.{◌++◌ as concat}
use awslib.Dict.Nested
use awslib.Dict.{Dict}
use awslib.Errors.{Error, Result, ok, fail}
use awslib.Exec.{Exec, ◌>>=◌, pure, wrapping}
use awslib.Gocollection.{Gocollection}
use awslib.Prelude.Int.{ℤ}
use awslib.Prelude.{String, Option, none, some, List, [], ◌∷◌, ◌==◌, if◌then◌else◌, string_eq}
use awslib.Provider.Client
use awslib.Provider.Client.{Aws, Building}
use awslib.Provider.FailureCache
use awslib.Provider.FailureCache.{FailureCache, default_client_failure_ttl, new_failure_cache}

module _ (aws : Aws) where
  pub record ClientPool : Type 0 where
    pub builder : Client.ClientBuilder aws
    pub clients : Dict String (Dict String (Client.Client aws))
    pub failures : Option FailureCache

  -- the pool, and what lies outside the program
  pub record Pooling : Type 0 where
    pub pool : ClientPool
    pub world : aws.World

  unfoldable pub new_client_pool : Client.ClientBuilder aws → ClientPool
  new_client_pool client_builder = record {
    builder = client_builder;
    clients = [];
    failures = some (new_failure_cache default_client_failure_ttl);
  }

  unfoldable pub with_failure_ttl : ℤ → ClientPool → ClientPool
  with_failure_ttl ttl p = record p { failures = some (new_failure_cache ttl) }

  -- a method of the pool's builder
  abbrev pub building {ℓ} :
      {A : Type ℓ} → (Building aws → Result A × Building aws) → Pooling → Result A × Pooling
  building m s =
      let (answer, b) = m (record { builder = s.pool.builder; world = s.world }) in
      (answer, record { pool = record s.pool { builder = b.builder }; world = b.world })

  unfoldable pub cached_client : ClientPool → String → String → Option (Client.Client aws)
  cached_client p account region = Nested.lookup account region p.clients

  unfoldable pub set_client : String → String → Client.Client aws → ClientPool → ClientPool
  set_client account region client p = record p {
    clients = Nested.insert account region client p.clients;
  }

  -- GetClient, after LocalClient: the client is kept under its own account
  abbrev pub kept :
      String → String → Result (Client.Client aws) × Pooling → Result (Client.Client aws) × Pooling
  kept account region (fail e, s) =
      let wrapped = aws.errors_new e in
      (
        fail wrapped,
        record s {
          pool = record s.pool {
            failures =
                FailureCache.add s.pool.failures (aws.now s.world) account region (some wrapped);
          };
        },
      )
  kept account region (ok client, s) = (
    ok client,
    record s {
      pool =
          set_client client.account_id region client
            (record s.pool { failures = FailureCache.forget s.pool.failures account region });
    },
  )

  -- GetClient, past the client map, with the answer of the failure cache
  abbrev pub asked :
      String → String → Option FailureCache × Option Error → Exec Pooling (Client.Client aws)
  asked account region (failures, some e) s =
      (fail e, record s { pool = record s.pool { failures = failures } })
  asked account region (failures, none) s = kept account region (
      building (Client.local_client aws region)
        (record s { pool = record s.pool { failures = failures } }))

  unfoldable pub get_client : String → String → Exec Pooling (Client.Client aws)
  get_client account region s = elim (cached_client s.pool account region) [
    | some client ↦ (ok client, s)
    | none ↦
        asked account region (FailureCache.err s.pool.failures (aws.now s.world) account region) s
  ]

  -- the loop over the regions: one that fails is skipped
  unfoldable pub account_clients :
      String → List String → Pooling → List (Client.Client aws) × Pooling
  account_clients account [] s = ([], s)
  account_clients account (region ∷ regions) s =
      let (answer, s') = get_client account region s in
      let (clients, s'') = account_clients account regions s' in
      (elim answer [ ok client ↦ client ∷ clients | fail e ↦ clients ], s'')

  -- the account of the default client
  abbrev pub own_account : Exec Pooling String
  own_account = do
    client ← wrapping aws.errors_new (building (Client.default_client aws))
    pure client.account_id

  abbrev pub answered : String → List String → Exec Pooling (List (Client.Client aws))
  answered account regions s =
      let (clients, s') = account_clients account regions s in (ok clients, s')

  unfoldable pub get_clients : List String → Exec Pooling (List (Client.Client aws))
  get_clients regions = do account ← own_account; answered account regions

  abbrev pub not_served : String → String → Error
  not_served account local = record {
    message = concat "account " (
        concat account
          (concat " is not reachable by this client pool, which serves account " local));
  }

  abbrev pub served : String → List String → String → Exec Pooling (List (Client.Client aws))
  served account regions local s =
      if local == account then answered account regions s else (fail (not_served account local), s)

  unfoldable pub get_account_clients :
      String → List String → Exec Pooling (List (Client.Client aws))
  get_account_clients account regions = do local ← own_account; served account regions local

  unfoldable pub pool_account_ids : Exec Pooling (List String)
  pool_account_ids = do local ← own_account; pure (local ∷ [])

  unfoldable pub list_account_ids : Gocollection → Exec Pooling (List String)
  list_account_ids g s = (ok (g.keys s.pool.clients), s)

  abbrev pub list_assumable_role_arns : Exec Pooling (List String)
  list_assumable_role_arns s = (ok [], s)
