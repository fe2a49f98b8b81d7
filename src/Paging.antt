-- ===== src/Paging.antt =====
-- The loop of the service repositories that follows the page tokens of an API. The calls change a
-- state S of their own; the context's Done is asked before each of them.
pub mod Runs
use awslib.Errors.{Error, Result, ok, fail}
use awslib.Prelude.{ℕ, zero, suc, Option, none, some}

-- Go's pair of a result and an error, either of which may be nil.
abbrev pub Answer : Type 0 → Type 0
Answer R = Option R × Option Error

-- The context's error when it is done, the call for one page, what a page adds to the result, the
-- token in it, and errors.New.
pub record Pager (S T O R : Type 0) : Type 0 where
  pub done : S → Option Error
  pub call : Option T → S → Result O × S
  pub add : R → O → R
  pub next : O → Option T
  pub wrap : Error → Error

module _ {S T O R : Type 0} (p : Pager S T O R) where
  -- The number bounds the calls; `none` is for a loop that has not ended by then.
  unfoldable pub follow : ℕ → Option T → R → S → Option (Answer R) × S
  follow zero token result s = (none, s)
  follow (suc fuel) token result s = elim (p.done s) [
    | some e ↦ (some (some result, some (p.wrap e)), s)
    | none ↦ elim (p.call token s).0 [
      | fail e ↦ (some (none, some (p.wrap e)), (p.call token s).1)
      | ok output ↦ elim (p.next output) [
        | none ↦ (some (some (p.add result output), none), (p.call token s).1)
        | some token' ↦ follow fuel (some token') (p.add result output) (p.call token s).1
      ]
    ]
  ]
