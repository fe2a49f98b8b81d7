-- ===== src/Resources/Delivery.antt =====
-- The counts that every step of a run of the provider keeps. A weight on resources counts any kind of them; two lists that
-- agree on every weight hold the same resources, each as often.
use awslib.Errors.{Error}
use awslib.Prelude.{
  ℕ, ◌+◌, ◌≤◌, ◌≡◌, refl, ◌∙◌, ap, List, [], ◌∷◌, ◌++◌, ltb, length, arith, Bool-cases,
  Option-cases, inl, inr, ◌⊎◌,
}
use awslib.Resources.{
  resource_bus_size, RepoProxy, Sender, Run, report, answer, flush_one, await_one, Step, answers,
  times_out, sends, receives,
}

abbrev pub total : {A : Type 0} → (A → ℕ) → List A → ℕ
total w [] = 0
total w (x ∷ xs) = w x + total w xs

pub total-append :
    {A : Type 0} (w : A → ℕ) (xs ys : List A) → total w (xs ++ ys) ≡ total w xs + total w ys
total-append w [] ys = omega arith
total-append w (x ∷ xs) ys = omega (arith, total-append w xs ys)

total-middle :
    {A : Type 0} (w : A → ℕ) (all before after : List A) (x : A)
    → all ≡ before ++ (x ∷ after)
    → total w all ≡ w x + total w (before ++ after)
total-middle w all before after x e =
    ap (total w) e ∙ omega (arith, total-append w before (x ∷ after), total-append w before after)

last_failed : {A : Type 0} (xs : List A) (x : A) → xs ++ (x ∷ []) ≡ [] → ⊥
last_failed [] x e = cc
last_failed (y ∷ ys) x e = cc

pub List-cases : {A : Type 0} (xs : List A) → (xs ≡ []) ⊎ ((x : A) × (ys : List A) × (xs ≡ x ∷ ys))
List-cases [] = inl refl
List-cases (x ∷ ys) = inr (x, ys, refl)

module _ {R : Type 0} where
  -- the resources that proxies have found, and that senders still hold
  abbrev pub found : (R → ℕ) → List (RepoProxy R) → ℕ
  found w = total (λ gw. total w gw.outcome.resources)

  abbrev pub held : (R → ℕ) → List (Sender R) → ℕ
  held w = total (λ sender. total w sender.rest)

  abbrev pub taken : (RepoProxy R → ℕ) → List (Sender R) → ℕ
  taken w = total (λ sender. w sender.gw)

  -- Every resource of an answer is with the reader, in the channel, discarded or still to be sent.
  abbrev pub IsKept : Run R → Type 0
  IsKept run =
      (w : R → ℕ)
      → total w run.values + (total w run.stream + (total w run.discarded + held w run.senders))
        ≡ taken (λ gw. total w gw.outcome.resources) run.senders

  -- No proxy answers twice, and while there is no failure none is lost.
  abbrev pub IsAsked : List (RepoProxy R) → Run R → Type 0
  IsAsked pool run =
      ((w : RepoProxy R → ℕ) → total w run.waiting + taken w run.senders ≤ total w pool)
      × (run.failures ≡ []
          → (w : RepoProxy R → ℕ) → total w run.waiting + taken w run.senders ≡ total w pool)

  report-IsAsked :
      (pool : List (RepoProxy R)) (run : Run R) (before after : List (RepoProxy R))
      (gw : RepoProxy R) (e : Error)
      → run.waiting ≡ before ++ (gw ∷ after)
      → IsAsked pool run
      → IsAsked pool (report gw e (record run { waiting = before ++ after }))
  unfolding report
  report-IsAsked pool run before after gw e at asked = (
    λ w. omega (arith, asked.0 w, total-middle w run.waiting before after gw at),
    λ none_failed. absurd (last_failed run.failures _ none_failed),
  )

  answer-IsAsked :
      (pool : List (RepoProxy R)) (run : Run R) (before after : List (RepoProxy R))
      (gw : RepoProxy R)
      → run.waiting ≡ before ++ (gw ∷ after)
      → IsAsked pool run
      → IsAsked pool (answer gw (record run { waiting = before ++ after }))
  unfolding answer
  answer-IsAsked pool run before after gw at asked = elim (Option-cases gw.outcome.err) [
    | inr (e, bad) ↦ rw (bad, answer) (report-IsAsked pool run before after gw e at asked)
    | inl fine ↦
        rw (fine, answer)
          (
            λ w. omega (arith, asked.0 w, total-middle w run.waiting before after gw at),
            λ none_failed w.
                omega (arith, asked.1 none_failed w, total-middle w run.waiting before after gw at),
          )
  ]

  flush_one-IsAsked :
      (pool : List (RepoProxy R)) (run : Run R) (x : R)
      → IsAsked pool run
      → IsAsked pool (flush_one x run)
  unfolding flush_one
  flush_one-IsAsked pool run x asked =
      elim (Bool-cases (ltb (length run.stream) resource_bus_size)) [
        | inl room ↦ rw (room, flush_one) asked
        | inr full ↦ rw (full, flush_one) asked
      ]

  await_one-IsAsked :
      (pool : List (RepoProxy R)) (run : Run R) → IsAsked pool run → IsAsked pool (await_one run)
  unfolding await_one
  await_one-IsAsked pool run asked = elim (List-cases run.stream) [
    | inl empty ↦ rw (empty, await_one) asked
    | inr (v, stream, e) ↦ rw (e, await_one) asked
  ]

  -- A sender that sends keeps its proxy.
  taken-middle :
      (w : RepoProxy R → ℕ) (all before after : List (Sender R)) (s t : Sender R)
      → all ≡ before ++ (s ∷ after)
      → t.gw ≡ s.gw
      → taken w all ≡ taken w (before ++ (t ∷ after))
  taken-middle w all before after s t e same =
      ap (taken w) e
      ∙ omega (
        arith,
        total-append (λ s. w s.gw) before (s ∷ after),
        total-append (λ s. w s.gw) before (t ∷ after),
        ap w same,
      )

  pub Step-IsAsked :
      (pool : List (RepoProxy R)) (timed_out : Error) (run run' : Run R)
      → Step timed_out run run'
      → IsAsked pool run
      → IsAsked pool run'
  Step-IsAsked pool timed_out run run' (answers _ before after gw at) asked =
      answer-IsAsked pool run before after gw at asked
  Step-IsAsked pool timed_out run run' (times_out _ before after gw at) asked =
      report-IsAsked pool run before after gw timed_out at asked
  Step-IsAsked pool timed_out run run' (sends _ before after gw x rest at) asked =
      flush_one-IsAsked pool _ x (
        λ w. omega (
          arith,
          asked.0 w,
          taken-middle w run.senders before after _ (record { gw = gw; rest = rest }) at refl,
        ),
        λ none_failed w. omega (
          arith,
          asked.1 none_failed w,
          taken-middle w run.senders before after _ (record { gw = gw; rest = rest }) at refl,
        ),
      )
  Step-IsAsked pool timed_out run run' (receives _) asked = await_one-IsAsked pool run asked

  answer-IsKept : (run : Run R) (gw : RepoProxy R) → IsKept run → IsKept (answer gw run)
  unfolding answer report
  answer-IsKept run gw kept = elim (Option-cases gw.outcome.err) [
    | inr (e, bad) ↦ rw (bad, answer) kept
    | inl fine ↦ rw (fine, answer) (λ w. omega (arith, kept w))
  ]

  -- A sender that sends holds one resource less.
  pub held_sent :
      (w : R → ℕ) (all before after : List (Sender R)) (gw : RepoProxy R) (x : R) (rest : List R)
      → all ≡ before ++ (record { gw = gw; rest = x ∷ rest } ∷ after)
      → held w all ≡ w x + held w (before ++ (record { gw = gw; rest = rest } ∷ after))
  held_sent w all before after gw x rest at =
      ap (held w) at
      ∙ omega (
        arith,
        total-append (λ s. total w s.rest) before (record { gw = gw; rest = x ∷ rest } ∷ after),
        total-append (λ s. total w s.rest) before (record { gw = gw; rest = rest } ∷ after),
      )

  flush_one-IsKept :
      (run : Run R) (before after : List (Sender R)) (gw : RepoProxy R) (x : R) (rest : List R)
      → run.senders ≡ before ++ (record { gw = gw; rest = x ∷ rest } ∷ after)
      → IsKept run
      → IsKept (
          flush_one x
            (record run { senders = before ++ (record { gw = gw; rest = rest } ∷ after) }))
  unfolding flush_one
  flush_one-IsKept run before after gw x rest at kept =
      elim (Bool-cases (ltb (length run.stream) resource_bus_size)) [
        | inl room ↦
            rw (room, flush_one)
              (λ w. omega (
                arith,
                kept w,
                held_sent w run.senders before after gw x rest at,
                taken-middle (λ gw. total w gw.outcome.resources) run.senders before after _
                    (record { gw = gw; rest = rest }) at refl,
                total-append w run.stream (x ∷ []),
              ))
        | inr full ↦
            rw (full, flush_one)
              (λ w. omega (
                arith,
                kept w,
                held_sent w run.senders before after gw x rest at,
                taken-middle (λ gw. total w gw.outcome.resources) run.senders before after _
                    (record { gw = gw; rest = rest }) at refl,
                total-append w run.discarded (x ∷ []),
              ))
      ]

  await_one-IsKept : (run : Run R) → IsKept run → IsKept (await_one run)
  unfolding await_one
  await_one-IsKept run kept = elim (List-cases run.stream) [
    | inl empty ↦ rw (empty, await_one) kept
    | inr (v, stream, e) ↦
        rw (e, await_one)
          (λ w. omega (arith, kept w, ap (total w) e, total-append w run.values (v ∷ [])))
  ]

  pub Step-IsKept :
      (timed_out : Error) (run run' : Run R) → Step timed_out run run' → IsKept run → IsKept run'
  unfolding report
  Step-IsKept timed_out run run' (answers _ before after gw at) kept =
      answer-IsKept (record run { waiting = before ++ after }) gw kept
  Step-IsKept timed_out run run' (times_out _ before after gw at) kept = kept
  Step-IsKept timed_out run run' (sends _ before after gw x rest at) kept =
      flush_one-IsKept run before after gw x rest at kept
  Step-IsKept timed_out run run' (receives _) kept = await_one-IsKept run kept
