-- ===== src/Examples/Events.antt =====
-- Runs of the fetching of events.
use awslib.CloudTrail.Events.{Fetching, fetch_events_by_input, write_events, MayAnswer}
use awslib.CloudTrail.Events.Complete.{no_page, next_page, MayAnswer-Subsequence}
use awslib.Errors.{Error, Result, ok, fail}
use awslib.Prelude.Int.{pos}
use awslib.Prelude.{ℕ, suc, ◌≡◌, ◌↔◌, refl, true, false, none, some, [], ◌∷◌, ltb, eqb, arith}
use awslib.Service.Channels.{offer, send_error}
use awslib.Service.Channels.Losses.{Subsequence}

abbrev ctx_err : Error
ctx_err = record { message = "context canceled" }

-- two pages of two events; the world counts the pages
abbrev fetching : (ℕ → Result ℕ) → Fetching ℕ ℕ ℕ ℕ
fetching unmarshal = record {
  has_more_pages = λ w. ltb w 2;
  next_page = λ w. (ok (w ∷ (7 ∷ [])), suc w);
  unmarshal = unmarshal;
  new_event = λ a d. d;
  done = λ w n. false;
  new_error = λ e. e;
}

MayAnswer-Subsequence_example :
    MayAnswer (fetching (λ a. ok a)) 2 ctx_err none 0 (7 ∷ (1 ∷ [])) none
    ↔ Subsequence {T = ℕ} (7 ∷ (1 ∷ [])) (0 ∷ (7 ∷ (1 ∷ (7 ∷ []))))
MayAnswer-Subsequence_example =
    MayAnswer-Subsequence (fetching (λ a. ok a)) (λ a. a) (λ a. refl) (λ w n. refl) 2 ctx_err 0 2
      ((0 ∷ (7 ∷ [])) ∷ ((1 ∷ (7 ∷ [])) ∷ [])) (7 ∷ (1 ∷ []))
      (next_page 0 1 2 (0 ∷ (7 ∷ [])) ((1 ∷ (7 ∷ [])) ∷ []) refl refl
        (next_page 1 2 2 (1 ∷ (7 ∷ [])) [] refl refl (no_page 2 refl)))
      (omega arith)

abbrev picky : ℕ → Result ℕ
picky a = elim (eqb a 7) [ true ↦ fail ctx_err | false ↦ ok a ]

limited :
    fetch_events_by_input (fetching picky) 5 (some (pos 1)) 0 0
    ≡ some (offer 0 ∷ (send_error ctx_err ∷ []), 1)
unfolding fetch_events_by_input write_events
limited = refl
