-- ===== src/Cache/Key/Methods.antt =====
-- cache/key.go, Key: the method in front of a key.
use Prim.Native.Char.{code}
use Prim.Native.String.append
use Prim.Native.String.{◌++◌ as concat}
use awslib.Cache.Key.{Value, Strconv}
use awslib.Cache.Key.Canonical.{Heap}
use awslib.Cache.Key.Params.{suffix, suffixed, write_params, key}
use awslib.Prelude.{
  ℕ, String, ◌≡◌, ◌≢◌, refl, sym, ◌∙◌, ap, Bool, true, ◌&&◌, not, eqb, Option, none, some, List, [],
  ◌∷◌, arith, Bool-cases, inl, inr, if◌then◌else◌,
}

-- No dash in it, as in the name of a Go method.
abbrev pub dash_free : String → Bool
dash_free String.[] = true
dash_free (String.◌∷◌ c s) = not (eqb (code c) b'-') && dash_free s

-- the text in front of the first dash
abbrev front : String → String
front String.[] = String.[]
front (String.◌∷◌ c s) = if eqb (code c) b'-' then String.[] else String.◌∷◌ c (front s)

front_self : (s : String) → dash_free s ≡ true → front s ≡ s
front_self String.[] h = refl
front_self (String.◌∷◌ c s) h = elim (Bool-cases (eqb (code c) b'-')) [
  | inl dash ↦ absurd (ground (arith, h))
  | inr other ↦ rw (other) (ap (λ t. String.◌∷◌ c t) (front_self s (ground (arith, h))))
]

front-dash : (s : String) → front (concat "-" s) ≡ String.[]
front-dash s = ap front (append.cons "-" String.[] s)

front-concat : (s t : String) → dash_free s ≡ true → front (concat s (concat "-" t)) ≡ s
front-concat String.[] t h = ap front (append.nil (concat "-" t)) ∙ front-dash t
front-concat (String.◌∷◌ c s) t h = elim (Bool-cases (eqb (code c) b'-')) [
  | inl dash ↦ absurd (ground (arith, h))
  | inr other ↦
      ap front (append.cons c s (concat "-" t))
      ∙ rw (other) (ap (λ x. String.◌∷◌ c x) (front-concat s t (ground (arith, h))))
]

-- the front of a key, if there is one
abbrev front_of : Option String → Option String
front_of none = none
front_of (some k) = some (front k)

some_inj : {A : Type 0} (a b : A) → Path (Option A) (some a) (some b) → a ≡ b
some_inj a b e = cc

none_is_some : (k : String) → Path (Option String) none (some k) → ⊥
none_is_some k e = cc

front_of-suffixed :
    (method : String) (text : Option (List ℕ)) (k : String)
    → dash_free method ≡ true
    → suffixed method text ≡ some k
    → front k ≡ method
front_of-suffixed method none k free e = absurd (none_is_some k e)
front_of-suffixed method (some bytes) k free e =
    sym (ap front (some_inj _ _ e)) ∙ front-concat method (suffix bytes) free

front-key :
    (s : Strconv) (heap : Heap) (fuel : ℕ) (method : String) (params : List Value) (k : String)
    → dash_free method ≡ true
    → key s heap fuel method params ≡ some k
    → front k ≡ method
unfolding key
front-key s heap fuel method [] k free e = sym (ap front (some_inj _ _ e)) ∙ front_self method free
front-key s heap fuel method (p ∷ params) k free e =
    front_of-suffixed method (write_params s heap fuel true (p ∷ params)) k free e

-- Calls of different methods, whose names hold no dash, have different keys, whatever their
-- parameters are and whatever is hashed to what.
pub key_method :
    (s : Strconv) (heap heap' : Heap) (fuel fuel' : ℕ) (method method' : String)
    (params params' : List Value) (k k' : String)
    → dash_free method ≡ true
    → dash_free method' ≡ true
    → key s heap fuel method params ≡ some k
    → key s heap' fuel' method' params' ≡ some k'
    → method ≢ method'
    → k ≢ k'
key_method s heap heap' fuel fuel' method method' params params' k k' free free' e e' apart same =
    apart (
      sym (front-key s heap fuel method params k free e)
      ∙ ap front same
      ∙ front-key s heap' fuel' method' params' k' free' e')
