-- ===== src/Resources.antt =====
-- resources/provider.go and reader.go: the proxies are asked side by side, what they find goes
-- through one bounded channel to a reader, and the proxies that could not be asked are reported.
-- A resource of a proxy is any value; how a proxy answers in time, or not at all, is given with it.
-- Metrics, logs and the pauses between the starts are left out.
pub mod Delivery
pub mod Complete
pub mod Observer
pub mod Collected
pub mod Blame
use awslib.Errors.{Error}
use awslib.Prelude.Int.{ℤ, pos, ltb_ℤ, leb_ℤ}
use awslib.Prelude.{
  ℕ, ◌*◌, String, ◌≡◌, Bool, true, false, Option, none, some, List, [], ◌∷◌, ◌++◌, ltb, length, All,
  if◌then◌else◌,
}

abbrev pub resource_bus_size : ℕ
resource_bus_size = 10000

-- DefaultRegionTimeout, in nanoseconds
abbrev pub default_region_timeout : ℤ
default_region_timeout = pos 60000000000

-- What FindAll answers.
pub record Outcome (R : Type 0) : Type 0 where
  pub resources : List R
  pub err : Option Error

pub record RepoProxy (R : Type 0) : Type 0 where
  pub account_id : String
  pub region : String
  pub outcome : Outcome R

pub record ProxyFailure : Type 0 where
  pub account_id : String
  pub region : String
  pub err : Error

pub record Provider (R : Type 0) : Type 0 where
  pub proxy_pool : List (RepoProxy R)
  pub resource_type : String
  pub timeout : ℤ

-- A goroutine of a proxy that has answered: what it still has to flush.
pub record Sender (R : Type 0) : Type 0 where
  pub gw : RepoProxy R
  pub rest : List R

-- A run of the provider and its reader: the proxies whose answers are waited for, the channel, the
-- resources that found it full, and the fields of the reader. The failures' channel has room for
-- one per proxy, so a failure is with the reader at once.
pub record Run (R : Type 0) : Type 0 where
  pub waiting : List (RepoProxy R)
  pub senders : List (Sender R)
  pub stream : List R
  pub discarded : List R
  pub values : List R
  pub failures : List ProxyFailure

module _ {R : Type 0} where
  unfoldable pub new_provider : String → List (RepoProxy R) → Provider R
  new_provider resource_type proxy_pool = record {
    proxy_pool = proxy_pool;
    resource_type = resource_type;
    timeout = default_region_timeout;
  }

  unfoldable pub with_timeout : ℤ → Provider R → Provider R
  with_timeout timeout r = if ltb_ℤ (pos 0) timeout then record r { timeout = timeout } else r

  -- the timeout of findResourcesInRegion
  unfoldable pub used_timeout : Provider R → ℤ
  used_timeout r = if leb_ℤ r.timeout (pos 0) then default_region_timeout else r.timeout

  -- Run: the channels are empty and every proxy is asked.
  unfoldable pub start : Provider R → Run R
  start r = record {
    waiting = r.proxy_pool;
    senders = [];
    stream = [];
    discarded = [];
    values = [];
    failures = [];
  }

  unfoldable pub failure : RepoProxy R → Error → ProxyFailure
  failure gw e = record { account_id = gw.account_id; region = gw.region; err = e }

  -- the select of findResourcesInRegion, when the answer is taken and when the timer is
  unfoldable pub report : RepoProxy R → Error → Run R → Run R
  report gw e run = record run { failures = run.failures ++ (failure gw e ∷ []) }

  unfoldable pub answer : RepoProxy R → Run R → Run R
  answer gw run = elim gw.outcome.err [
    | some e ↦ report gw e run
    | none ↦ record run {
      senders = (record { gw = gw; rest = gw.outcome.resources }) ∷ run.senders;
    }
  ]

  -- one turn of the loop of flush: a resource that finds the channel full is discarded
  unfoldable pub flush_one : R → Run R → Run R
  flush_one resource run =
      if ltb (length run.stream) resource_bus_size
      then record run { stream = run.stream ++ (resource ∷ []) }
      else record run { discarded = run.discarded ++ (resource ∷ []) }

  -- one turn of the loop of ResourceReader.await
  unfoldable pub await_one : Run R → Run R
  await_one run = elim run.stream [
    | [] ↦ run
    | v ∷ stream ↦ record run { stream = stream; values = run.values ++ (v ∷ []) }
  ]

-- One step of a run: the proxies answer, fail and time out in any order, and the sends of the
-- goroutines and the receipts of the reader interleave in any way.
pub data Step {R : Type 0} (timed_out : Error) : Run R → Run R → Type 0 where
  answers :
      (run : Run R) (before after : List (RepoProxy R)) (gw : RepoProxy R)
      → run.waiting ≡ before ++ (gw ∷ after)
      → Step timed_out run (answer gw (record run { waiting = before ++ after }))
  times_out :
      (run : Run R) (before after : List (RepoProxy R)) (gw : RepoProxy R)
      → run.waiting ≡ before ++ (gw ∷ after)
      → Step timed_out run (report gw timed_out (record run { waiting = before ++ after }))
  sends :
      (run : Run R) (before after : List (Sender R)) (gw : RepoProxy R) (resource : R)
      (rest : List R)
      → run.senders ≡ before ++ (record { gw = gw; rest = resource ∷ rest } ∷ after)
      → Step timed_out run (
          flush_one resource
            (record run { senders = before ++ (record { gw = gw; rest = rest } ∷ after) }))
  receives : (run : Run R) → Step timed_out run (await_one run)

pub data Reached {R : Type 0} (timed_out : Error) (r : Provider R) : Run R → Type 0 where
  started : Reached timed_out r (start r)
  stepped :
      (run run' : Run R)
      → Reached timed_out r run
      → Step timed_out run run'
      → Reached timed_out r run'

-- Everyone is done: the provider has closed its channels and the reader has drained them.
pub record IsFinished {R : Type 0} (run : Run R) : Type 0 where
  pub none_waiting : run.waiting ≡ []
  pub all_sent : All (λ sender. sender.rest ≡ []) run.senders
  pub drained : run.stream ≡ []

-- ResourceReader.Read and ResourceReader.Failures, which wait for the reader
unfoldable pub read : {R : Type 0} → Run R → List R
read run = run.values

unfoldable pub failures_of : {R : Type 0} → Run R → List ProxyFailure
failures_of run = run.failures
