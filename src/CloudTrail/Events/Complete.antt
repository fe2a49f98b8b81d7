-- ===== src/CloudTrail/Events/Complete.antt =====
-- service/cloudtrail/events_repository.go: what is answered when every page is served.
use awslib.CloudTrail.Events.{
  Fetching, written, write_events, in_front, fetch_events_by_input, MayAnswer,
}
use awslib.Errors.{Error, Result, ok, fail}
use awslib.Prelude.{
  ℕ, zero, suc, ◌+◌, ◌≤◌, ◌≡◌, ◌↔◌, refl, sym, ◌∙◌, ap, true, false, Option, none, some, List, [],
  ◌∷◌, ◌++◌, map, length, arith,
}
use awslib.Service.Channels.{Action, offer, offer_error}
use awslib.Service.Channels.Losses.{
  Subsequence, read, offers, offers-map, Steps-Subsequence, Subsequence-Steps,
}
use mathlib.Core.Path.{subst}

map-append : {A B : Type 0} (g : A → B) (xs ys : List A) → map g (xs ++ ys) ≡ map g xs ++ map g ys
map-append g [] ys = refl
map-append g (x ∷ xs) ys = ap (◌∷◌ (g x)) (map-append g xs ys)

actions_inj :
    {T W : Type 0} {xs ys : List (Action T)} {w v : W}
    → Path (Option (List (Action T) × W)) (some (xs, w)) (some (ys, v))
    → xs ≡ ys
actions_inj h = cc

module _ {W A D E : Type 0} (f : Fetching W A D E) (data_of : A → D)
    (decodes : (a : A) → f.unmarshal a ≡ ok (data_of a))
    (live : (w : W) (n : ℕ) → f.done w n ≡ false) where
  -- The paginator serves these pages, to its end.
  pub data Pages : W → List (List A) → W → Type 0 where
    no_page : (w : W) → f.has_more_pages w ≡ false → Pages w [] w
    next_page :
        (w w' w'' : W) (page : List A) (pages : List (List A))
        → f.has_more_pages w ≡ true
        → f.next_page w ≡ (ok page, w')
        → Pages w' pages w''
        → Pages w (page ∷ pages) w''

  abbrev pub events_of : List A → List E
  events_of = map (λ a. f.new_event a (data_of a))

  -- the events of the pages, in their order
  abbrev pub all_events : List (List A) → List E
  all_events [] = []
  all_events (page ∷ pages) = events_of page ++ all_events pages

  write_events-map :
      (w : W) (n : ℕ) (page : List A) → write_events f w n page ≡ map offer (events_of page)
  unfolding write_events
  write_events-map w n [] = refl
  write_events-map w n (a ∷ page) =
      (λ i. written f (live w n i) a (decodes a i) (write_events f w (suc n) page))
      ∙ ap (◌∷◌ (offer (f.new_event a (data_of a)))) (write_events-map w (suc n) page)

  -- the rest of a turn
  abbrev after_page : ℕ → ℕ → Result (List A) × W → Option (List (Action E) × W)
  after_page fuel count (answer, w) = elim answer [
    | fail err ↦
        in_front f (offer_error (f.new_error err) ∷ []) (fetch_events_by_input f fuel none count w)
    | ok events ↦
        in_front f (write_events f w 0 events)
          (fetch_events_by_input f fuel none (count + length events) w)
  ]

  fetch-Pages :
      (fuel count : ℕ) (w w' : W) (pages : List (List A))
      → Pages w pages w'
      → length pages ≤ fuel
      → fetch_events_by_input f fuel none count w ≡ some (map offer (all_events pages), w')
  unfolding fetch_events_by_input
  fetch-Pages zero count w _ _ (no_page _ end) room = rw (end, fetch_events_by_input) refl
  fetch-Pages (suc fuel) count w _ _ (no_page _ end) room = rw (end, fetch_events_by_input) refl
  fetch-Pages zero count w _ _ (next_page _ w' w'' page pages more served later) room =
      absurd (omega arith)
  fetch-Pages (suc fuel) count w _ _ (next_page _ w' w'' page pages more served later) room =
      rw (more, fetch_events_by_input)
        (ap (after_page fuel count) served
          ∙ (λ i.
              in_front f (write_events-map w' 0 page i)
                (fetch-Pages fuel (count + length page) w' w'' pages later (omega arith) i))
          ∙ ap (λ actions. some (actions, w''))
              (sym (map-append offer (events_of page) (all_events pages))))

  -- Where every page of events is served, each event can be decoded and the context is not done, the
  -- goroutine ends once it may ask for as many pages; ListEventsByInput without a limit may then
  -- answer a list and no error exactly when the list is the events of the pages with any of them left
  -- out, in their order.
  pub MayAnswer-Subsequence :
      (fuel : ℕ) (ctx_err : Error) (w w' : W) (pages : List (List A)) (events : List E)
      → Pages w pages w'
      → length pages ≤ fuel
      → MayAnswer f fuel ctx_err none w events none ↔ Subsequence events (all_events pages)
  unfolding MayAnswer
  MayAnswer-Subsequence fuel ctx_err w w' pages events served room =
      let fetched = fetch-Pages fuel 0 w w' pages served room in
      (
        λ (actions, v, x, e, run, results, clean, over).
            subst (λ rs. Subsequence rs (all_events pages)) results
              (subst (λ values. Subsequence x.results values)
                (ap offers (actions_inj (sym e ∙ fetched)) ∙ offers-map (all_events pages))
                (Steps-Subsequence ctx_err actions x run)),
        λ s. (
          map offer (all_events pages),
          w',
          read events,
          fetched,
          Subsequence-Steps ctx_err (all_events pages) events [] s,
          refl,
          refl,
          refl,
        ),
      )
