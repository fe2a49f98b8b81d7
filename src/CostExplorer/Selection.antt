-- ===== src/CostExplorer/Selection.antt =====
-- What an expression selects, by the SDK's account of its fields: every field that is set must
-- hold. A cost line is known by what it answers to the three kinds of values.
pub mod Queries
use awslib.CostExplorer.{
  Sdk, Values, Expression, Expressions, Negated, expression, no_children, child, no_expression,
  one_expression, expressions, and_expression, or_expression, not_expression,
}
use awslib.CostExplorer.Operators.{present, joined, combine, and_all, or_all, not_one, negate}
use awslib.Prelude.{
  String, ◌≡◌, ◌≢◌, refl, sym, ◌∙◌, ap, Bool, true, false, ◌&&◌, ◌||◌, not, Option, none, some,
  List, [], ◌∷◌, ◌++◌, map, any, is_some, arith, if◌then◌else◌,
}

pub record Line : Type 0 where
  pub dimension : Values → Bool
  pub tag : Values → Bool
  pub cost_category : Values → Bool

abbrev pub unless_set : (Values → Bool) → Option Values → Bool
unless_set holds none = true
unless_set holds (some v) = holds v

abbrev mutual
  pub matches : Line → Expression → Bool
  matches l (expression dimensions tags cost_categories and_children or_children negated) =
      unless_set l.dimension dimensions
      && (unless_set l.tag tags
          && (unless_set l.cost_category cost_categories
              && (matches_all l and_children
                  && (matches_some l or_children && matches_not l negated))))

  pub matches_all : Line → Expressions → Bool
  matches_all l no_children = true
  matches_all l (child e es) = matches l e && matches_all l es

  pub matches_any : Line → Expressions → Bool
  matches_any l no_children = false
  matches_any l (child e es) = matches l e || matches_any l es

  -- an Or that is not set
  pub matches_some : Line → Expressions → Bool
  matches_some l no_children = true
  matches_some l (child e es) = matches l e || matches_any l es

  pub matches_not : Line → Negated → Bool
  matches_not l no_expression = true
  matches_not l (one_expression e) = not (matches l e)

abbrev pub all {ℓ} : {A : Type ℓ} → (A → Bool) → List A → Bool
all p [] = true
all p (x ∷ xs) = p x && all p xs

-- No expression filters nothing out.
abbrev pub selects : Line → Option Expression → Bool
selects l none = true
selects l (some e) = matches l e

matches_all-expressions :
    (l : Line) (es : List Expression) → matches_all l (expressions es) ≡ all (matches l) es
matches_all-expressions l [] = refl
matches_all-expressions l (e ∷ es) = ap (λ b. matches l e && b) (matches_all-expressions l es)

matches_any-expressions :
    (l : Line) (es : List Expression) → matches_any l (expressions es) ≡ any (matches l) es
matches_any-expressions l [] = refl
matches_any-expressions l (e ∷ es) = ap (λ b. matches l e || b) (matches_any-expressions l es)

joined_and : (l : Line) (es : List Expression) → selects l (joined true es) ≡ all (matches l) es
unfolding joined
joined_and l [] = refl
joined_and l (e ∷ []) = ground arith
joined_and l (d ∷ (e ∷ es)) = ground (arith, matches_all-expressions l es)

joined_or :
    (l : Line) (es : List Expression) → es ≢ [] → selects l (joined false es) ≡ any (matches l) es
unfolding joined
joined_or l [] some_child = absurd (some_child refl)
joined_or l (e ∷ []) some_child = ground arith
joined_or l (d ∷ (e ∷ es)) some_child = ground (arith, matches_any-expressions l es)

all-present :
    (l : Line) (exprs : List (Option Expression))
    → all (matches l) (present exprs) ≡ all (selects l) exprs
all-present l [] = refl
all-present l (none ∷ exprs) = all-present l exprs
all-present l (some e ∷ exprs) = ap (λ b. matches l e && b) (all-present l exprs)

-- And selects the lines that every expression in it selects, nil expressions selecting all.
pub selects-and_all :
    (l : Line) (exprs : List (Option Expression))
    → selects l (and_all exprs) ≡ all (selects l) exprs
unfolding and_all combine
selects-and_all l exprs = joined_and l (present exprs) ∙ all-present l exprs

-- A nil expression adds nothing to an Or.
abbrev pub picks : Line → Option Expression → Bool
picks l none = false
picks l (some e) = matches l e

any-present :
    (l : Line) (exprs : List (Option Expression))
    → any (matches l) (present exprs) ≡ any (picks l) exprs
any-present l [] = refl
any-present l (none ∷ exprs) = any-present l exprs
any-present l (some e ∷ exprs) = ap (λ b. matches l e || b) (any-present l exprs)

present_some : (exprs : List (Option Expression)) → any is_some exprs ≡ true → present exprs ≢ []
present_some [] h = absurd (ground arith)
present_some (none ∷ exprs) h = present_some exprs h
present_some (some e ∷ exprs) h = λ same. cc

-- Or, of expressions that are not all nil, selects the lines that some expression in it selects,
-- nil expressions selecting none.
pub selects-or_all :
    (l : Line) (exprs : List (Option Expression))
    → any is_some exprs ≡ true
    → selects l (or_all exprs) ≡ any (picks l) exprs
unfolding or_all combine
selects-or_all l exprs some_child =
    joined_or l (present exprs) (present_some exprs some_child) ∙ any-present l exprs

pub selects-negate :
    (l : Line) (exclude : Bool) (e : Expression)
    → selects l (negate exclude (some e)) ≡ (if exclude then not (matches l e) else matches l e)
unfolding negate not_one
selects-negate l true e = ground arith
selects-negate l false e = refl
