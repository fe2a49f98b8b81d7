-- ===== src/Resources/Complete.antt =====
-- What ResourceReader.Read and ResourceReader.Failures answer once a run has ended.
use awslib.Errors.{Error}
use awslib.Prelude.{
  ℕ, ◌+◌, ◌≤◌, ◌<◌, ◌≡◌, refl, ◌∙◌, ap, List, [], ◌∷◌, ◌++◌, ltb, length, All, arith, Bool-cases,
  Option-cases, inl, inr,
}
use awslib.Resources.{
  resource_bus_size, RepoProxy, Provider, Sender, Run, start, report, answer, flush_one, await_one,
  answers, times_out, sends, receives, Reached, started, stepped, IsFinished, read, failures_of,
}
use awslib.Resources.Delivery.{
  total, List-cases, found, held, taken, IsKept, IsAsked, Step-IsKept, Step-IsAsked, held_sent,
}

module _ {R : Type 0} where
  Reached-IsKept :
      (timed_out : Error) (r : Provider R) (run : Run R) → Reached timed_out r run → IsKept run
  unfolding start
  Reached-IsKept timed_out r run started = λ w. omega arith
  Reached-IsKept timed_out r run (stepped before _ reached step) =
      Step-IsKept timed_out before run step (Reached-IsKept timed_out r before reached)

  Reached-IsAsked :
      (timed_out : Error) (r : Provider R) (run : Run R)
      → Reached timed_out r run
      → IsAsked r.proxy_pool run
  unfolding start
  Reached-IsAsked timed_out r run started = (λ w. omega arith, λ none_failed w. omega arith)
  Reached-IsAsked timed_out r run (stepped before _ reached step) =
      Step-IsAsked r.proxy_pool timed_out before run step
        (Reached-IsAsked timed_out r before reached)

  abbrev pub one_each : R → ℕ
  one_each x = 1

  total_one : (xs : List R) → total one_each xs ≡ length xs
  total_one [] = refl
  total_one (x ∷ xs) = omega (arith, total_one xs)

  flush_one_room :
      (x : R) (run : Run R)
      → length run.stream < resource_bus_size
      → (flush_one x run).discarded ≡ run.discarded
  unfolding flush_one
  flush_one_room x run room = elim (Bool-cases (ltb (length run.stream) resource_bus_size)) [
    | inl fits ↦ rw (fits, flush_one)
    | inr full ↦ absurd (ground arith)
  ]

  answer_discarded : (gw : RepoProxy R) (run : Run R) → (answer gw run).discarded ≡ run.discarded
  unfolding answer report
  answer_discarded gw run = elim (Option-cases gw.outcome.err) [
    | inl fine ↦ rw (fine, answer)
    | inr (e, bad) ↦ rw (bad, answer)
  ]

  await_one_discarded : (run : Run R) → (await_one run).discarded ≡ run.discarded
  unfolding await_one
  await_one_discarded run = elim (List-cases run.stream) [
    | inl empty ↦ rw (empty, await_one)
    | inr (v, stream, e) ↦ rw (e, await_one)
  ]

  -- While the proxies have found no more than the channel has room for, nothing is discarded.
  discarded_none :
      (timed_out : Error) (r : Provider R) (run : Run R)
      → found one_each r.proxy_pool ≤ resource_bus_size
      → Reached timed_out r run
      → run.discarded ≡ []
  unfolding start answer report await_one
  discarded_none timed_out r run few started = refl
  discarded_none timed_out r run few (stepped before _ reached (answers _ b a gw at)) =
      answer_discarded gw (record before { waiting = b ++ a })
      ∙ discarded_none timed_out r before few reached
  discarded_none timed_out r run few (stepped before _ reached (times_out _ b a gw at)) =
      discarded_none timed_out r before few reached
  discarded_none timed_out r run few (stepped before _ reached (sends _ b a gw x rest at)) =
      flush_one_room x (record before { senders = b ++ (record { gw = gw; rest = rest } ∷ a) })
        (omega (
          arith,
          few,
          Reached-IsKept timed_out r before reached one_each,
          (Reached-IsAsked timed_out r before reached).0 (λ p. total one_each p.outcome.resources),
          held_sent one_each before.senders b a gw x rest at,
          total_one before.stream,
        ))
      ∙ discarded_none timed_out r before few reached
  discarded_none timed_out r run few (stepped before _ reached (receives _)) =
      await_one_discarded before ∙ discarded_none timed_out r before few reached

  held_none :
      (w : R → ℕ) (senders : List (Sender R))
      → All (λ sender. sender.rest ≡ []) senders
      → held w senders ≡ 0
  held_none w [] sent = refl
  held_none w (s ∷ senders) sent = omega (arith, ap (total w) sent.0, held_none w senders sent.1)

  -- A run that has ended has read or discarded every resource of every proxy that answered,
  -- each as often as the answers hold it.
  pub read_or_discarded :
      (timed_out : Error) (r : Provider R) (run : Run R) (w : R → ℕ)
      → Reached timed_out r run
      → IsFinished run
      → total w (read run) + total w run.discarded
        ≡ taken (λ gw. total w gw.outcome.resources) run.senders
  unfolding read
  read_or_discarded timed_out r run w reached end = omega (
    arith,
    Reached-IsKept timed_out r run reached w,
    ap (total w) end.drained,
    held_none w run.senders end.all_sent,
  )

  -- When a run has ended without a failure, and the proxies have found no more resources than the
  -- channel has room for, what is read is every resource of every proxy, each as often as the
  -- answers hold it.
  pub read_complete :
      (timed_out : Error) (r : Provider R) (run : Run R) (w : R → ℕ)
      → Reached timed_out r run
      → IsFinished run
      → failures_of run ≡ []
      → found one_each r.proxy_pool ≤ resource_bus_size
      → total w (read run) ≡ found w r.proxy_pool
  unfolding failures_of
  read_complete timed_out r run w reached end none_failed few = omega (
    arith,
    read_or_discarded timed_out r run w reached end,
    ap (total w) (discarded_none timed_out r run few reached),
    (Reached-IsAsked timed_out r run reached).1 none_failed (λ gw. total w gw.outcome.resources),
    ap (total (λ gw. total w gw.outcome.resources)) end.none_waiting,
  )
