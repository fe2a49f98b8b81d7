-- ===== src/Service/Channels/Losses.antt =====
-- service/helper.go: what ReadChannels has read of what was written.
use awslib.Errors.{Error}
use awslib.Service.Channels.{
  Action, offer, offer_error, send_error, Exchange, started, noted, failed, Step, result_read,
  result_dropped, offered_error_read, error_dropped, sent_error_read, channels_closed, context_done,
  Steps, here, then,
}
use mathlib.Core.List.{append_assoc}
use mathlib.Core.Path.{subst}
use awslib.Prelude.{
  map, ◌↔◌, true, false, ◌≡◌, refl, sym, ◌∙◌, ap, none, List, [], ◌∷◌, ◌++◌, append_nil,
}

-- The first list is the second one with elements left out.
pub data Subsequence {T : Type 0} : List T → List T → Type 0 where
  empty : Subsequence [] []
  kept : (x : T) (xs ys : List T) → Subsequence xs ys → Subsequence (x ∷ xs) (x ∷ ys)
  lost : (y : T) (xs ys : List T) → Subsequence xs ys → Subsequence xs (y ∷ ys)

module _ {T : Type 0} where
  -- the results among the actions
  abbrev pub offers : List (Action T) → List T
  offers [] = []
  offers (offer value ∷ actions) = value ∷ offers actions
  offers (offer_error e ∷ actions) = offers actions
  offers (send_error e ∷ actions) = offers actions

  empty-Subsequence : (ys : List T) → Subsequence [] ys
  empty-Subsequence [] = empty
  empty-Subsequence (y ∷ ys) = lost y [] ys (empty-Subsequence ys)

  -- what is read from here on
  abbrev Reads : Exchange T → Exchange T → Type 0
  Reads x z =
      (more : List T) × (z.results ≡ x.results ++ more) × Subsequence more (offers x.pending)

  -- a step that reads nothing
  idle :
      (x y z : Exchange T)
      → y.results ≡ x.results
      → ((more : List T)
          → Subsequence more (offers y.pending)
          → Subsequence more (offers x.pending))
      → Reads y z
      → Reads x z
  idle x y z same_results wider (more, e, s) =
      (more, e ∙ ap (λ rs. rs ++ more) same_results, wider more s)

  Step-Reads : (ctx_err : Error) (x y z : Exchange T) → Step ctx_err x y → Reads y z → Reads x z
  Step-Reads ctx_err x _ z (result_read _ value rest e live) (more, read, s) = (
    value ∷ more,
    read ∙ append_assoc x.results (value ∷ []) more,
    subst (λ actions. Subsequence (value ∷ more) (offers actions)) (sym e)
        (kept value more (offers rest) s),
  )
  Step-Reads ctx_err x _ z (result_dropped _ value rest e) h =
      idle x (record x { pending = rest }) z refl
        (λ more s.
          subst (λ actions. Subsequence more (offers actions)) (sym e)
            (lost value more (offers rest) s))
        h
  Step-Reads ctx_err x _ z (offered_error_read _ err rest e live) h =
      idle x (failed err rest x) z refl
        (λ more s. subst (λ actions. Subsequence more (offers actions)) (sym e) s) h
  Step-Reads ctx_err x _ z (error_dropped _ err rest e) h =
      idle x (record x { pending = rest }) z refl
        (λ more s. subst (λ actions. Subsequence more (offers actions)) (sym e) s) h
  Step-Reads ctx_err x _ z (sent_error_read _ err rest e live) h =
      idle x (failed err rest x) z refl
        (λ more s. subst (λ actions. Subsequence more (offers actions)) (sym e) s) h
  Step-Reads ctx_err x _ z (channels_closed _ e live) h =
      idle x (record x { returned = true }) z refl (λ more s. s) h
  Step-Reads ctx_err x _ z (context_done _ live) h =
      idle x (record x { first_error = noted x.first_error ctx_err; returned = true }) z refl
        (λ more s. s) h

  Steps-Reads : (ctx_err : Error) (x z : Exchange T) → Steps ctx_err x z → Reads x z
  Steps-Reads ctx_err x _ (here _) = ([], sym (append_nil x.results), empty-Subsequence _)
  Steps-Reads ctx_err x z (then _ y _ first later) =
      Step-Reads ctx_err x y z first (Steps-Reads ctx_err y z later)

  pub Steps-Subsequence :
      (ctx_err : Error) (actions : List (Action T)) (x : Exchange T)
      → Steps ctx_err (started actions) x
      → Subsequence x.results (offers actions)
  Steps-Subsequence ctx_err actions x run =
      let (more, e, s) = Steps-Reads ctx_err (started actions) x run in
      subst (λ rs. Subsequence rs (offers actions)) (sym e) s

  -- ReadChannels before and after these results are written
  abbrev reading : List T → List T → Exchange T
  reading values results = record {
    pending = map offer values;
    results = results;
    first_error = none;
    returned = false;
  }

  abbrev pub read : List T → Exchange T
  read results = record { pending = []; results = results; first_error = none; returned = true }

  pub Subsequence-Steps :
      (ctx_err : Error) (values results before : List T)
      → Subsequence results values
      → Steps ctx_err (reading values before) (read (before ++ results))
  Subsequence-Steps ctx_err _ _ before empty =
      subst (λ rs. Steps ctx_err (reading [] before) (read rs)) (sym (append_nil before))
        (then (reading [] before) (read before) (read before)
          (channels_closed (reading [] before) refl refl) (here (read before)))
  Subsequence-Steps ctx_err _ _ before (kept x xs ys s) =
      then (reading (x ∷ ys) before) (reading ys (before ++ (x ∷ []))) (read (before ++ (x ∷ xs)))
        (result_read (reading (x ∷ ys) before) x (map offer ys) refl refl)
        (subst (λ rs. Steps ctx_err (reading ys (before ++ (x ∷ []))) (read rs))
          (append_assoc before (x ∷ []) xs)
          (Subsequence-Steps ctx_err ys xs (before ++ (x ∷ [])) s))
  Subsequence-Steps ctx_err _ _ before (lost y xs ys s) =
      then (reading (y ∷ ys) before) (reading ys before) (read (before ++ xs))
        (result_dropped (reading (y ∷ ys) before) y (map offer ys) refl)
        (Subsequence-Steps ctx_err ys xs before s)

  pub offers-map : (values : List T) → offers (map offer values) ≡ values
  offers-map [] = refl
  offers-map (x ∷ values) = ap (◌∷◌ x) (offers-map values)

  -- When nothing but WriteToChan of results is called, and then the channels are closed, ReadChannels
  -- may answer a list without an error exactly when it is the results with any of them left out, in
  -- their order.
  pub read-Subsequence :
      (ctx_err : Error) (values results : List T)
      → Steps ctx_err (started (map offer values)) (read results) ↔ Subsequence results values
  read-Subsequence ctx_err values results = (
    λ run.
        subst (Subsequence results) (offers-map values)
          (Steps-Subsequence ctx_err (map offer values) (read results) run),
    λ s. Subsequence-Steps ctx_err values results [] s,
  )
