-- ===== src/Examples/Pools.antt =====
-- provider/v3/client_pool.go against a small model of AWS: two accounts, and one region that is
-- not enabled.
use mathlib.Core.Bool.{false≢true}
use awslib.Strings
use awslib.Dict
use text.Mathlib.TextEquality.{eq_iff}
use awslib.Dict.Nested
use awslib.Errors.{Error, Result, ok, fail}
use awslib.Gocollection.{plain}
use awslib.Prelude.{ℕ, suc, String, ◌≡◌, refl, List, [], ◌∷◌, arith, string_eq, ◌==◌, if◌then◌else◌}
use awslib.Provider.Client
use awslib.Provider.Client.{Aws, LoadOption, with_region, with_credentials_provider, given}
use awslib.Provider.FailureCache
use awslib.Provider.Pool.{
  Pooling, new_client_pool, get_client, get_account_clients, get_clients, cached_client,
  unreachable, remember, build_client,
}
use awslib.Provider.Pool.Accounts.{IsMatched}
use awslib.Provider.Pool.Failures.{get_client_retry}
use awslib.Provider.Pool.Histories.{Ask, asks, get_client_again, get_client_replay}
use awslib.Provider.Pool.Requests.{later}
use awslib.Provider.Pool.Scope.{
  get_account_clients_other, get_account_clients-unreachable, get_clients-IsMatched,
}

abbrev region_in : List LoadOption → String → String
region_in [] region = region
region_in (with_region r ∷ options) region = region_in options r
region_in (with_credentials_provider c ∷ options) region = region_in options region
region_in (given n ∷ options) region = region_in options region

abbrev identity : String → ℕ → Result String × ℕ
identity region clock =
    if region == "me-south-1"
    then (fail (record { message = "InvalidClientTokenId" }), suc clock)
    else if region == "eu-west-1"
    then (fail (record { message = "ExpiredToken" }), suc clock)
    else (ok "1", suc clock)

-- the world is a clock; a configuration is its region
abbrev cloud : Aws
cloud = record {
  World = ℕ;
  Config = String;
  now = λ w. w;
  load_default_config = λ options w. (ok (region_in options ""), w);
  config_region = λ c. c;
  get_caller_identity = identity;
  errors_new = λ e. e;
  errors_new_text = λ e. refl;
}

abbrev start : Pooling cloud
start = record { pool = new_client_pool cloud (Client.new_client_builder cloud []) []; world = 1 }

abbrev us : Client.Client cloud
us = record { region = "us-east-1"; account_id = "1"; cfg = "us-east-1" }

abbrev disabled : Error
disabled = record { message = "InvalidClientTokenId" }

abbrev expired : Error
expired = record { message = "ExpiredToken" }

program : Unit {0}
unfolding new_client_pool get_client build_client get_account_clients get_clients
    Client.new_client_builder Client.local_client Client.new_client Client.update_account_id
    Client.get_providers FailureCache.new_failure_cache FailureCache.err FailureCache.add
    FailureCache.forget FailureCache.credential_failure Nested.lookup Nested.insert Nested.delete
    Dict.lookup Dict.insert Dict.delete FailureCache.contains_any Strings.to_lower Strings.contains
program = tt

-- further requests: another region of the account, that account again, and another account
abbrev further : List (Ask cloud)
further =
    record { account = "1"; region = "eu-west-1"; world = 20 }
    ∷ (record { account = "1"; region = "us-east-1"; world = 30 }
        ∷ (record { account = "1"; region = "me-south-1"; world = 40 }
            ∷ (record { account = "2"; region = "us-east-1"; world = 50 } ∷ [])))

get_client_again_example :
    get_client cloud "1" "us-east-1"
      (later cloud (asks cloud further (get_client cloud "1" "us-east-1" start).1) 100)
    ≡ (ok us, later cloud (asks cloud further (get_client cloud "1" "us-east-1" start).1) 100)
unfolding program
get_client_again_example = get_client_again cloud "1" "us-east-1" start us further 100 refl

get_client_replay_example :
    get_client cloud "1" "me-south-1"
      (later cloud (asks cloud further (get_client cloud "1" "me-south-1" start).1) 100)
    ≡ (
      fail disabled,
      later cloud (asks cloud further (get_client cloud "1" "me-south-1" start).1) 100,
    )
unfolding program
get_client_replay_example =
    get_client_replay cloud "1" "me-south-1"
      (FailureCache.new_failure_cache FailureCache.default_client_failure_ttl) start disabled
      further 100 refl refl refl refl refl (refl, (refl, (refl, (refl, tt)))) refl

get_client_retry_example :
    get_client cloud "1" "eu-west-1" (later cloud (get_client cloud "1" "eu-west-1" start).1 100)
    ≡ remember cloud "1" "eu-west-1" (
        build_client cloud "1" "eu-west-1"
          (later cloud (get_client cloud "1" "eu-west-1" start).1 100))
unfolding program
get_client_retry_example =
    get_client_retry cloud "1" "eu-west-1"
      (FailureCache.new_failure_cache FailureCache.default_client_failure_ttl) start expired 100
      refl refl refl refl refl

-- goroutines that finish in the order of the regions
abbrev in_order : String → List String → List String
in_order account regions = regions

start-IsMatched : IsMatched cloud start.pool
unfolding program cached_client
start-IsMatched = record { at = λ a r c here unset. absurd (ground arith) }

get_clients-IsMatched_example :
    IsMatched cloud (get_clients cloud plain in_order ("us-east-1" ∷ []) start).1.pool
get_clients-IsMatched_example =
    get_clients-IsMatched cloud plain in_order ("us-east-1" ∷ []) start start-IsMatched

abbrev with_roles : Pooling cloud
with_roles = record start {
  pool = record start.pool { roles = ("2", "arn:aws:iam::2:role/reader") ∷ [] };
}

get_account_clients-unreachable_example :
    get_account_clients cloud plain in_order "3" ("us-east-1" ∷ []) with_roles
    ≡ (fail (unreachable cloud plain "3"), with_roles)
unfolding program
get_account_clients-unreachable_example =
    get_account_clients-unreachable cloud plain in_order "3" ("us-east-1" ∷ []) with_roles
      (λ e. cc e) refl

get_account_clients_other_example :
    cached_client cloud
      (get_account_clients cloud plain in_order "2" ("us-east-1" ∷ []) with_roles).1.pool
      "1"
      "us-east-1"
    ≡ cached_client cloud with_roles.pool "1" "us-east-1"
get_account_clients_other_example =
    get_account_clients_other cloud plain in_order "2" ("us-east-1" ∷ []) with_roles "1" "us-east-1"
      (λ e. false≢true ((eq_iff "2" "1").1 e))
