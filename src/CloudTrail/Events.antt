-- ===== src/CloudTrail/Events.antt =====
-- service/cloudtrail/events_repository.go: the goroutine that fetches the pages of events, and what
-- ListEventsByInput may answer. The paginator, the decoding and the making of an event are
-- parameters.
pub mod Complete
use awslib.Errors.{Error, Result, ok, fail}
use awslib.Prelude.Int.{ℤ, pos, ltb_ℤ}
use awslib.Prelude.{
  ℕ, zero, suc, ◌+◌, ◌≡◌, Bool, true, false, ◌&&◌, Option, none, some, List, [], ◌∷◌, ◌++◌, length,
  if◌then◌else◌,
}
use awslib.Service.Channels.{Action, offer, offer_error, send_error, Exchange, started, Steps}

-- The SDK's paginator, which is in the world; json.Unmarshal of the event's text; NewEvent; whether
-- the context is done at an event, the events before it on its page being counted; errors.New.
pub record Fetching (W A D E : Type 0) : Type 0 where
  pub has_more_pages : W → Bool
  pub next_page : W → Result (List A) × W
  pub unmarshal : A → Result D
  pub new_event : A → D → E
  pub done : W → ℕ → Bool
  pub new_error : Error → Error

module _ {W A D E : Type 0} (f : Fetching W A D E) where
  -- what is done with one event, in front of the rest
  abbrev pub written : Bool → A → Result D → List (Action E) → List (Action E)
  written done event (fail err) rest = send_error (f.new_error err) ∷ rest
  written true event (ok data_of) rest = rest
  written false event (ok data_of) rest = offer (f.new_event event data_of) ∷ rest

  -- the loop over the events of a page
  unfoldable pub write_events : W → ℕ → List A → List (Action E)
  write_events w n [] = []
  write_events w n (event ∷ events) =
      written (f.done w n) event (f.unmarshal event) (write_events w (suc n) events)

  abbrev pub below : Option ℤ → ℕ → Bool
  below none count = true
  below (some max_results) count = ltb_ℤ (pos count) max_results

  abbrev pub in_front :
      List (Action E) → Option (List (Action E) × W) → Option (List (Action E) × W)
  in_front actions none = none
  in_front actions (some (rest, w)) = some (actions ++ rest, w)

  -- The loop over the pages; the number bounds its turns, since a page that fails is asked for again.
  unfoldable pub fetch_events_by_input : ℕ → Option ℤ → ℕ → W → Option (List (Action E) × W)
  fetch_events_by_input zero max_results count w =
      if f.has_more_pages w && below max_results count then none else some ([], w)
  fetch_events_by_input (suc fuel) max_results count w =
      if f.has_more_pages w && below max_results count
      then (elim (f.next_page w).0 [
        | fail err ↦
            in_front (offer_error (f.new_error err) ∷ [])
              (fetch_events_by_input fuel max_results count (f.next_page w).1)
        | ok events ↦
            in_front (write_events (f.next_page w).1 0 events)
              (fetch_events_by_input fuel max_results (count + length events) (f.next_page w).1)
      ])
      else some ([], w)

  -- ListEventsByInput may answer this: the goroutine writes, and ReadChannels reads until it returns.
  unfoldable pub MayAnswer : ℕ → Error → Option ℤ → W → List E → Option Error → Type 0
  MayAnswer fuel ctx_err max_results w events err =
      (actions : List (Action E)) × (w' : W) × (x : Exchange E) × (fetch_events_by_input fuel
          max_results 0 w
        ≡ some (actions, w'))
      × Steps ctx_err (started actions) x
      × (x.results ≡ events)
      × (x.first_error ≡ err)
      × (x.returned ≡ true)
