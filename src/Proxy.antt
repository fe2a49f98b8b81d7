-- ===== src/Proxy.antt =====
-- proxy/proxy_pool.go and proxy/generic.go: the proxies of a pool, the ones that a resource type is
-- asked of, and the generic proxy. The repositories of Cloud Control are a parameter; the two region
-- names and the list of global types are parameters too.
pub mod Accounts
pub mod Finders
pub mod Dispatch
use awslib.Dict
use awslib.Dict.{Dict}
use awslib.Errors.{Error}
use awslib.Gocollection.{Gocollection}
use awslib.Prelude.{
  String, Bool, true, false, not, Option, none, some, List, [], ◌∷◌, map, ◌==◌, string_eq,
  if◌then◌else◌,
}

-- A client C, of which the account and the region are asked, and a cache D.
pub record RepoProxy (C D : Type 0) : Type 0 where
  pub client : C
  pub cache : Option D

-- RepoProxyInterface, by the types that the pool knows; `other` is any other one.
pub data Gateway (C D : Type 0) : Type 0 where
  repo_proxy : RepoProxy C D → Gateway C D
  generic_repo_proxy : RepoProxy C D → (detailed : Bool) → Gateway C D
  other : C → Gateway C D

pub record RepoProxyPool (C D : Type 0) : Type 0 where
  pub gateways : List (Gateway C D)

pub record CloudControl (C D E R : Type 0) : Type 0 where
  pub list_resources_by_type : C → String → List E × Option Error
  pub list_resources_by_type_detailed : C → String → List E × Option Error
  pub cached_list_resources_by_type : D → C → String → List E × Option Error
  pub cached_list_resources_by_type_detailed : D → C → String → List E × Option Error
  pub cast : E → R

module _ {C D : Type 0} where
  unfoldable pub new_repo_proxy : C → RepoProxy C D
  new_repo_proxy client = record { client = client; cache = none }

  unfoldable pub with_cache : D → RepoProxy C D → RepoProxy C D
  with_cache dc e = record e { cache = some dc }

  unfoldable pub new_repo_proxy_pool : List C → RepoProxyPool C D
  unfolding new_repo_proxy
  new_repo_proxy_pool clients = record {
    gateways = map (λ client. repo_proxy (new_repo_proxy client)) clients;
  }

  unfoldable pub new_generic_repo_proxy_pool : List C → Bool → RepoProxyPool C D
  unfolding new_repo_proxy
  new_generic_repo_proxy_pool clients detailed = record {
    gateways = map (λ client. generic_repo_proxy (new_repo_proxy client) detailed) clients;
  }

  abbrev pub gateway_with_cache : D → Gateway C D → Gateway C D
  gateway_with_cache dc (repo_proxy e) = repo_proxy (with_cache dc e)
  gateway_with_cache dc (generic_repo_proxy e detailed) =
      generic_repo_proxy (with_cache dc e) detailed
  gateway_with_cache dc (other client) = other client

  -- RepoProxyPool.WithCache
  unfoldable pub pool_with_cache : D → RepoProxyPool C D → RepoProxyPool C D
  pool_with_cache dc e = record { gateways = map (gateway_with_cache dc) e.gateways }

  abbrev pub client_of : Gateway C D → C
  client_of (repo_proxy e) = e.client
  client_of (generic_repo_proxy e detailed) = e.client
  client_of (other client) = client

abbrev pub is_empty {ℓ} : {A : Type ℓ} → List A → Bool
is_empty [] = true
is_empty (x ∷ xs) = false

-- GetAccountID and GetRegion of the client
module _ {C D : Type 0} (account region : C → String) where
  -- the loop of List over the gateways, which keeps the first one of every account
  unfoldable pub any_gateways :
      List (Gateway C D) → Dict String (Gateway C D) → Dict String (Gateway C D)
  any_gateways [] seen = seen
  any_gateways (gw ∷ gateways) seen = elim (Dict.lookup (account (client_of gw)) seen) [
    | some kept ↦ any_gateways gateways seen
    | none ↦ any_gateways gateways (Dict.insert (account (client_of gw)) gw seen)
  ]

  unfoldable pub list :
      Gocollection
      → (global_types : List String) (us_east_1 eu_central_1 : String) → RepoProxyPool C D
      → String
      → List (Gateway C D)
  list g global_types us_east_1 eu_central_1 e resource_type =
      let ea1_proxy = g.filter e.gateways (λ p. region (client_of p) == us_east_1) in
      let eu1_proxy = g.filter e.gateways (λ p. region (client_of p) == eu_central_1) in
      if is_empty e.gateways
      then e.gateways
      else if not (g.contains global_types resource_type)
      then e.gateways
      else if not (is_empty ea1_proxy)
      then ea1_proxy
      else if not (is_empty eu1_proxy)
      then eu1_proxy
      else g.values (any_gateways e.gateways [])

module _ {C D E R : Type 0} (repo : CloudControl C D E R) where
  -- the choice of a method in FindGenericResources
  abbrev pub lister : Option D → Bool → C → String → List E × Option Error
  lister (some dc) true = repo.cached_list_resources_by_type_detailed dc
  lister (some dc) false = repo.cached_list_resources_by_type dc
  lister none true = repo.list_resources_by_type_detailed
  lister none false = repo.list_resources_by_type

  unfoldable pub find_generic_resources : C → Option D → String → Bool → List R × Option Error
  find_generic_resources client dc resource_type detailed =
      let (found, err) = lister dc detailed client resource_type in (map repo.cast found, err)

  -- GenericRepoProxy.FindAll, and RepoProxy.FindAllCC
  unfoldable pub find_all : RepoProxy C D → Bool → String → List R × Option Error
  find_all e detailed resource_type = find_generic_resources e.client e.cache resource_type detailed

  unfoldable pub find_all_cc : RepoProxy C D → String → List R × Option Error
  find_all_cc e resource_type = find_generic_resources e.client e.cache resource_type false
