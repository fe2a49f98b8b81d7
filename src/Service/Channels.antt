-- ===== src/Service/Channels.antt =====
-- service/helper.go: ReadChannels reads a channel of results and one of errors, neither with a
-- buffer, while a goroutine writes to them, by WriteToChan or by a send that waits, and closes them.
-- Their steps interleave in any way; whether the reader waits at its select when WriteToChan is
-- called is up to the run.
pub mod Losses
use awslib.Errors.{Error}
use awslib.Prelude.{Bool, true, false, ◌≡◌, Option, none, some, List, [], ◌∷◌, ◌++◌}

-- What the writer does: WriteToChan to the results or to the errors, or a send to the errors.
pub data Action (T : Type 0) : Type 0 where
  offer : T → Action T
  offer_error : Error → Action T
  send_error : Error → Action T

-- What the writer still has to do before it closes the channels, and the reader: its results, its
-- first error, and whether it has returned.
pub record Exchange (T : Type 0) : Type 0 where
  pub pending : List (Action T)
  pub results : List T
  pub first_error : Option Error
  pub returned : Bool

abbrev pub noted : Option Error → Error → Option Error
noted none e = some e
noted (some first) e = some first

module _ {T : Type 0} where
  abbrev pub started : List (Action T) → Exchange T
  started actions = record { pending = actions; results = []; first_error = none; returned = false }

  abbrev pub received : T → List (Action T) → Exchange T → Exchange T
  received value rest x = record x { pending = rest; results = x.results ++ (value ∷ []) }

  abbrev pub failed : Error → List (Action T) → Exchange T → Exchange T
  failed e rest x = record x { pending = rest; first_error = noted x.first_error e }

  -- The context's error is the argument.
  pub data Step (ctx_err : Error) : Exchange T → Exchange T → Type 0 where
    result_read :
        (x : Exchange T) (value : T) (rest : List (Action T))
        → x.pending ≡ offer value ∷ rest
        → x.returned ≡ false
        → Step ctx_err x (received value rest x)
    result_dropped :
        (x : Exchange T) (value : T) (rest : List (Action T))
        → x.pending ≡ offer value ∷ rest
        → Step ctx_err x (record x { pending = rest })
    offered_error_read :
        (x : Exchange T) (e : Error) (rest : List (Action T))
        → x.pending ≡ offer_error e ∷ rest
        → x.returned ≡ false
        → Step ctx_err x (failed e rest x)
    error_dropped :
        (x : Exchange T) (e : Error) (rest : List (Action T))
        → x.pending ≡ offer_error e ∷ rest
        → Step ctx_err x (record x { pending = rest })
    sent_error_read :
        (x : Exchange T) (e : Error) (rest : List (Action T))
        → x.pending ≡ send_error e ∷ rest
        → x.returned ≡ false
        → Step ctx_err x (failed e rest x)
    channels_closed :
        (x : Exchange T)
        → x.pending ≡ []
        → x.returned ≡ false
        → Step ctx_err x (record x { returned = true })
    context_done :
        (x : Exchange T)
        → x.returned ≡ false
        → Step ctx_err x (record x { first_error = noted x.first_error ctx_err; returned = true })

  pub data Steps (ctx_err : Error) : Exchange T → Exchange T → Type 0 where
    here : (x : Exchange T) → Steps ctx_err x x
    then : (x y z : Exchange T) → Step ctx_err x y → Steps ctx_err y z → Steps ctx_err x z
