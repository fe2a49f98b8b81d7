-- ===== src/Examples/Gateways.antt =====
-- The theorem on the proxies of an account at a pool of three.
use awslib.Dict
use awslib.Prelude.{String, ◌≡◌, some, none, List, [], ◌∷◌, string_eq}
use awslib.Proxy.{Gateway, repo_proxy, any_gateways}
use awslib.Proxy.Accounts.{lookup-any_gateways_new}

abbrev gateway : String → String → Gateway (String × String) String
gateway account region = repo_proxy (record { client = (account, region); cache = none })

abbrev three : List (Gateway (String × String) String)
three = gateway "1" "eu-west-1" ∷ (gateway "2" "eu-west-1" ∷ (gateway "2" "eu-west-2" ∷ []))

lookup-any_gateways_new_example :
    Dict.lookup "2" (any_gateways (λ c. c.0) (λ c. c.1) three []) ≡ some (gateway "2" "eu-west-1")
lookup-any_gateways_new_example = lookup-any_gateways_new (λ c. c.0) (λ c. c.1) "2" three
