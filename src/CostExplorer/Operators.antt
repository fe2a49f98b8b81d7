-- ===== src/CostExplorer/Operators.antt =====
-- service/costexplorer/filter.go: the logical operators on expressions, which may be nil.
use awslib.CostExplorer.{Expression, and_expression, or_expression, not_expression}
use awslib.Prelude.{Bool, true, false, Option, none, some, List, [], ◌∷◌, if◌then◌else◌}

-- the loop of combine
abbrev pub present {ℓ} : {A : Type ℓ} → List (Option A) → List A
present [] = []
present (none ∷ es) = present es
present (some e ∷ es) = e ∷ present es

-- the switch of combine
unfoldable pub joined : Bool → List Expression → Option Expression
joined and [] = none
joined and (e ∷ []) = some e
joined and (d ∷ (e ∷ es)) =
    if and then some (and_expression (d ∷ (e ∷ es))) else some (or_expression (d ∷ (e ∷ es)))

unfoldable pub combine : Bool → List (Option Expression) → Option Expression
combine and exprs = joined and (present exprs)

-- And
unfoldable pub and_all : List (Option Expression) → Option Expression
and_all exprs = combine true exprs

-- Or
unfoldable pub or_all : List (Option Expression) → Option Expression
or_all exprs = combine false exprs

-- Not
unfoldable pub not_one : Option Expression → Option Expression
not_one none = none
not_one (some expr) = some (not_expression expr)

unfoldable pub negate : Bool → Option Expression → Option Expression
negate exclude expr = if exclude then not_one expr else expr
