-- ===== src/Provider/Client.antt =====
-- provider/v3/client.go and provider/v3/client_builder.go: a client for an account and a region,
-- and the builder that makes them with default or assumed credentials. The AWS SDK, the clock and
-- go-errors are the interface `Aws`; `World` is all that they change.
use awslib.Dict
use awslib.Dict.{Dict}
use awslib.Errors.{Error, Result, ok}
use awslib.Exec.{Exec, ◌>>=◌, pure, wrapping}
use awslib.Prelude.{ℕ, String, ◌≡◌, Option, none, some, List, [], ◌∷◌, ◌++◌, string_eq}

-- aws.CredentialsCache over stscreds.AssumeRoleProvider
pub record Credentials : Type 0 where
  pub role : String

-- the options of config.LoadDefaultConfig that the builder adds, and those it is given
pub data LoadOption : Type 0 where
  with_region : String → LoadOption
  with_credentials_provider : Credentials → LoadOption
  given : ℕ → LoadOption

pub record Aws : Type 1 where
  pub World : Type 0
  pub Config : Type 0
  pub now : World → ℕ
  pub load_default_config : List LoadOption → World → Result Config × World
  pub config_region : Config → String
  -- sts.GetCallerIdentity, with the account of its answer
  pub get_caller_identity : Config → World → Result String × World
  -- errors.New(err) of go-errors: the same text, with a stack trace
  pub errors_new : Error → Error
  pub errors_new_text : (e : Error) → (errors_new e).message ≡ e.message

abbrev pub default_aws_region : String
default_aws_region = "us-east-1"

module _ (aws : Aws) where
  open aws use {World, Config, load_default_config, config_region, get_caller_identity, errors_new}

  pub record Client : Type 0 where
    pub region : String
    pub account_id : String
    pub cfg : Config

  pub record ClientBuilder : Type 0 where
    pub providers : List LoadOption
    pub client : Option Client
    pub credentials : Dict String Credentials

  -- the builder, and what lies outside the program
  pub record Building : Type 0 where
    pub builder : ClientBuilder
    pub world : World

  -- client.GetCallerIdentity on a client that has no identity yet, then updateAccountID
  unfoldable pub update_account_id : Config → World → Result String × World
  update_account_id cfg = wrapping errors_new (wrapping errors_new (get_caller_identity cfg))

  unfoldable pub new_client : List LoadOption → World → Result Client × World
  new_client providers = do
    cfg ← wrapping errors_new (load_default_config providers)
    account ← wrapping errors_new (update_account_id cfg)
    pure (record { region = config_region cfg; account_id = account; cfg = cfg })

  unfoldable pub new_client_builder : List LoadOption → ClientBuilder
  new_client_builder providers = record { providers = providers; client = none; credentials = [] }

  unfoldable pub get_providers : ClientBuilder → List LoadOption → List LoadOption
  get_providers c providers = c.providers ++ providers

  -- a call that leaves the builder alone
  abbrev pub outside {ℓ} :
      {A : Type ℓ} → (World → Result A × World) → Building → Result A × Building
  outside m s = ((m s.world).0, record s { world = (m s.world).1 })

  abbrev pub keep_client : Client → Exec Building Client
  keep_client client s =
      (ok client, record s { builder = record s.builder { client = some client } })

  unfoldable pub default_client : Exec Building Client
  default_client s = elim s.builder.client [
    | some client ↦ (ok client, s)
    | none ↦
        (do
          client ←
              wrapping errors_new (
                outside
                  (new_client (get_providers s.builder (with_region default_aws_region ∷ []))))
          keep_client client)
          s
  ]

  abbrev pub keep_credentials : String → Exec Building Credentials
  keep_credentials role s = (
    ok (record { role = role }),
    record s {
      builder = record s.builder {
        credentials = Dict.insert role (record { role = role }) s.builder.credentials;
      };
    },
  )

  unfoldable pub get_role_credentials : String → Exec Building Credentials
  get_role_credentials role s = elim (Dict.lookup role s.builder.credentials) [
    | some creds ↦ (ok creds, s)
    | none ↦ (do client ← wrapping errors_new default_client; keep_credentials role) s
  ]

  unfoldable pub assume_client : String → String → Exec Building Client
  assume_client role region = do
    creds ← wrapping errors_new (get_role_credentials role)
    λ s.
        wrapping errors_new
          (outside (
            new_client (
              get_providers s.builder (with_credentials_provider creds ∷ with_region region ∷ []))))
          s

  unfoldable pub local_client : String → Exec Building Client
  local_client region s =
      wrapping errors_new (outside (new_client (get_providers s.builder (with_region region ∷ []))))
        s
