-- ===== src/Examples/Readers.antt =====
-- The theorems on the readers at a run of two proxies, whose steps interleave.
use awslib.Errors.{Error}
use awslib.Prelude.{ℕ, ◌+◌, String, ◌≡◌, refl, none, List, [], ◌∷◌, arith, string_eq}
use awslib.Resources.{
  RepoProxy, Provider, Run, new_provider, start, answer, flush_one, await_one, answers, sends,
  receives, Reached, started, stepped, IsFinished, read, failures_of,
}
use awslib.Resources.Complete.{read_complete, read_or_discarded, one_each}
use awslib.Resources.Delivery.{total, found, taken}

abbrev proxy_of : String → List ℕ → RepoProxy ℕ
proxy_of region resources = record {
  account_id = "123";
  region = region;
  outcome = record { resources = resources; err = none };
}

abbrev provider : Provider ℕ
provider =
    new_provider "AWS::EC2::VPC" (proxy_of "eu-west-1" (4 ∷ []) ∷ (proxy_of "us-east-1" [] ∷ []))

abbrev late : Error
late = record { message = "timed out" }

-- Both answer, the first one's resource is sent and received.
abbrev finished : Run ℕ
finished = record {
  waiting = [];
  senders =
      record { gw = proxy_of "us-east-1" []; rest = [] }
      ∷ (record { gw = proxy_of "eu-west-1" (4 ∷ []); rest = [] } ∷ []);
  stream = [];
  discarded = [];
  values = 4 ∷ [];
  failures = [];
}

finished-Reached : Reached late provider finished
unfolding new_provider start answer flush_one await_one
finished-Reached =
    stepped _ _
      (stepped _ _
        (stepped _ _
          (stepped _ _ started (
            answers (start provider) [] (proxy_of "us-east-1" [] ∷ [])
              (proxy_of "eu-west-1" (4 ∷ [])) refl))
          (answers _ [] [] (proxy_of "us-east-1" []) refl))
        (sends _ (record { gw = proxy_of "us-east-1" []; rest = [] } ∷ []) []
          (proxy_of "eu-west-1" (4 ∷ [])) 4 [] refl))
      (receives _)

finished_end : IsFinished finished
finished_end = record { none_waiting = refl; all_sent = (refl, (refl, tt)); drained = refl }

read_complete_example : total one_each (read finished) ≡ found one_each provider.proxy_pool
unfolding failures_of new_provider
read_complete_example =
    read_complete late provider finished one_each finished-Reached finished_end refl (omega arith)

read_or_discarded_example :
    total one_each (read finished) + total one_each finished.discarded
    ≡ taken (λ gw. total one_each gw.outcome.resources) finished.senders
read_or_discarded_example =
    read_or_discarded late provider finished one_each finished-Reached finished_end
