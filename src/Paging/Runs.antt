-- ===== src/Paging/Runs.antt =====
-- What the paging loop answers, against the run of pages that the API serves.
use awslib.Errors.{Error, ok, Result-cases}
use awslib.Paging.{Answer, Pager, follow}
use awslib.Prelude.{
  ℕ, zero, suc, ◌≤◌, ◌≡◌, sym, ◌∙◌, ap, Option, none, some, List, [], ◌∷◌, length, arith,
  Option-cases, inl, inr,
}

abbrev pub fold : {A B : Type 0} → (B → A → B) → B → List A → B
fold f b [] = b
fold f b (x ∷ xs) = fold f (f b x) xs

no_answer : {R : Type 0} (answer : R) → Path (Option (Answer R)) none (some (some answer, none)) → ⊥
no_answer answer h = cc

error_answer :
    {R : Type 0} (result : Option R) (answer : R) (e : Error)
    → Path (Option (Answer R)) (some (result, some e)) (some (some answer, none))
    → ⊥
error_answer result answer e h = cc

ok_answer :
    {R : Type 0} (result answer : R)
    → Path (Option (Answer R)) (some (some result, none)) (some (some answer, none))
    → result ≡ answer
ok_answer result answer h = cc

module _ {S T O R : Type 0} (p : Pager S T O R) where
  -- From a token on, the API serves these pages, the last one without a token, while the context
  -- is not done.
  pub data Pages : Option T → S → List O → S → Type 0 where
    last :
        (token : Option T) (s s' : S) (output : O)
        → p.done s ≡ none
        → p.call token s ≡ (ok output, s')
        → p.next output ≡ none
        → Pages token s (output ∷ []) s'
    more :
        (token : Option T) (s s' s'' : S) (output : O) (token' : T) (outputs : List O)
        → p.done s ≡ none
        → p.call token s ≡ (ok output, s')
        → p.next output ≡ some token'
        → Pages (some token') s' outputs s''
        → Pages token s (output ∷ outputs) s''

  -- With room for as many calls as there are pages, the loop ends with all of them in the result.
  pub follow-Pages :
      (fuel : ℕ) (token : Option T) (result : R) (s s' : S) (outputs : List O)
      → Pages token s outputs s'
      → length outputs ≤ fuel
      → follow p fuel token result s ≡ (some (some (fold p.add result outputs), none), s')
  unfolding follow
  follow-Pages zero token result s s' outputs (last _ _ _ output _ _ _) room = absurd (omega arith)
  follow-Pages zero token result s s' outputs (more _ _ _ _ _ _ _ _ _ _ _) room =
      absurd (omega arith)
  follow-Pages (suc fuel) token result s s' outputs (last _ _ _ output live called end) room =
      rw (live, called, end, follow) (λ i. (some (some (p.add result output), none), (called i).1))
  follow-Pages (suc fuel) token result s s'' outputs
        (more _ _ s' _ output token' rest live called next pages) room =
      rw (live, called, next, follow)
        (ap (λ r. follow p fuel (some token') (p.add result output) r.1) called
          ∙ follow-Pages fuel (some token') (p.add result output) s' s'' rest pages (omega arith))

  -- The loop answers a result without an error only for a whole run of pages, all of them in it.
  pub follow-Pages_converse :
      (fuel : ℕ) (token : Option T) (result : R) (s s' : S) (answer : R)
      → follow p fuel token result s ≡ (some (some answer, none), s')
      → (outputs : List O) × Pages token s outputs s' × (answer ≡ fold p.add result outputs)
  unfolding follow
  follow-Pages_converse zero token result s s' answer e =
      absurd (no_answer answer (ap (λ r. r.0) e))
  follow-Pages_converse (suc fuel) token result s s' answer e = elim (Option-cases (p.done s)) [
    | inr (err, ended) ↦
        absurd
          (error_answer (some result) answer (p.wrap err) (ap (λ r. r.0) (rw (ended, follow) at e)))
    | inl live ↦ elim (Result-cases (p.call token s).0) [
      | inr (err, failed) ↦
          absurd
            (error_answer none answer (p.wrap err) (ap (λ r. r.0) (rw (live, failed, follow) at e)))
      | inl (output, called) ↦ elim (Option-cases (p.next output)) [
        | inl end ↦
            let ended = rw (live, called, end, follow) at e in
            (
              output ∷ [],
              last token s s' output live (λ i. (called i, (ended i).1)) end,
              sym (ok_answer (p.add result output) answer (ap (λ r. r.0) ended)),
            )
        | inr (token', next) ↦
            let (outputs, pages, sum) =
              follow-Pages_converse fuel (some token') (p.add result output) (p.call token s).1 s'
                answer (rw (live, called, next, follow) at e) in
            (
              output ∷ outputs,
              more token s (p.call token s).1 s' output token' outputs live
                  (λ i. (called i, (p.call token s).1)) next pages,
              sum,
            )
      ]
    ]
  ]
