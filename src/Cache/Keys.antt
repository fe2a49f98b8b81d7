-- ===== src/Cache/Keys.antt =====
-- The keys under which a repository's cache keeps its results: `WithCache` of every generated
-- cached_repository.go puts the account and the region in front of the name.
use Prim.Native.Char.{code}
use Prim.Native.String.append
use Prim.Native.String.{◌++◌ as concat}
use text.Mathlib.TextLemmas.{head-eq_of_cons-eq, tail-eq_of_cons-eq, append_assoc}
use awslib.Cache.{HandlerInterface, DataCache, with_namespace, get_key, read, write, write_to}
use awslib.Cache.Reads.{IsFaithful, Holds, write_to-Holds, read_from-Holds}
use awslib.Gocollection.{Gocollection}
use awslib.Prelude.{
  ℕ, some, List, [], ◌∷◌, All, ◌≢◌, String, ◌≡◌, refl, sym, ◌∙◌, ap, Bool, true, ◌&&◌, not, eqb,
  arith,
}

-- No colon in it. Account ids are digits, regions are letters, digits and dashes.
abbrev pub colon_free : String → Bool
colon_free String.[] = true
colon_free (String.◌∷◌ c s) = not (eqb (code c) b':') && colon_free s

-- fmt.Sprintf("%s:%s", accountID, region)
unfoldable pub account_namespace : String → String → String
account_namespace account region = concat account (concat ":" region)

-- WithCache
unfoldable pub with_cache : {H : Type 0} → String → String → DataCache H → DataCache H
with_cache account region dc = with_namespace (account_namespace account region) dc

colon_front : (s : String) → concat ":" s ≡ String.◌∷◌ ":" s
colon_front s = append.cons ":" String.[] s ∙ ap (λ t. String.◌∷◌ ":" t) (append.nil s)

concat-colon_split :
    (a b s t : String)
    → colon_free a ≡ true
    → colon_free b ≡ true
    → concat a (concat ":" s) ≡ concat b (concat ":" t)
    → (a ≡ b) × (s ≡ t)
concat-colon_split String.[] String.[] s t fa fb e =
    let e' =
      sym (colon_front s)
      ∙ sym (append.nil (concat ":" s))
      ∙ e
      ∙ append.nil (concat ":" t)
      ∙ colon_front t in
    (refl, tail-eq_of_cons-eq e')
concat-colon_split String.[] (String.◌∷◌ d b) s t fa fb e =
    let e' =
      sym (colon_front s) ∙ sym (append.nil (concat ":" s)) ∙ e ∙ append.cons d b (concat ":" t) in
    absurd (ground (arith, ap code (head-eq_of_cons-eq e')))
concat-colon_split (String.◌∷◌ c a) String.[] s t fa fb e =
    let e' =
      sym (colon_front t)
      ∙ sym (append.nil (concat ":" t))
      ∙ sym e
      ∙ append.cons c a (concat ":" s) in
    absurd (ground (arith, ap code (head-eq_of_cons-eq e')))
concat-colon_split (String.◌∷◌ c a) (String.◌∷◌ d b) s t fa fb e =
    let e' = sym (append.cons c a (concat ":" s)) ∙ e ∙ append.cons d b (concat ":" t) in
    let (tails, ends) =
      concat-colon_split a b s t (ground arith) (ground arith) (tail-eq_of_cons-eq e') in
    (ap (λ x. String.◌∷◌ x a) (head-eq_of_cons-eq e') ∙ ap (λ x. String.◌∷◌ d x) tails, ends)

key_parts :
    (account region name : String)
    → concat (concat account (concat ":" region)) (concat ":" name)
      ≡ concat account (concat ":" (concat region (concat ":" name)))
key_parts account region name =
    append_assoc account (concat ":" region) (concat ":" name)
    ∙ ap (λ x. concat account x) (append_assoc ":" region (concat ":" name))

get_key-with_cache :
    {H : Type 0} (dc : DataCache H) (account account' region region' name name' : String)
    → colon_free account ≡ true
    → colon_free account' ≡ true
    → colon_free region ≡ true
    → colon_free region' ≡ true
    → get_key (with_cache account region dc) name ≡ get_key (with_cache account' region' dc) name'
    → (account ≡ account') × (region ≡ region') × (name ≡ name')
unfolding with_cache account_namespace with_namespace get_key
get_key-with_cache dc account account' region region' name name' fa fa' fr fr' e =
    let (accounts, rest) =
      concat-colon_split account account' (concat region (concat ":" name))
        (concat region' (concat ":" name')) fa fa'
        (sym (key_parts account region name) ∙ e ∙ key_parts account' region' name') in
    let (regions, names) = concat-colon_split region region' name name' fr fr' rest in
    (accounts, regions, names)

module _ {H D : Type 0} (i : HandlerInterface H D) (f : IsFaithful i) where
  -- a handler that keeps apart any two keys
  abbrev pub SplitsKeys : H → Type 0
  SplitsKeys h = (k k' : String) → k ≢ k' → f.apart h k k' ≡ true

  apart_at :
      (k k' : String) (handlers : List H)
      → k ≢ k'
      → All SplitsKeys handlers
      → All (λ h. f.apart h k k' ≡ true) handlers
  apart_at k k' [] other splits = tt
  apart_at k k' (h ∷ handlers) other splits =
      (splits.0 k k' other, apart_at k k' handlers other splits.1)

  -- A write through the cache of one account and region makes no value appear in the cache of another
  -- account or another region over the same handlers, whatever the names are: what a Read there
  -- answers afterwards was held for its key before. The accounts and regions have no colon, and the
  -- handlers keep different keys apart.
  pub with_cache_other :
      (g : Gocollection) (dc : DataCache H) (now later : ℕ)
      (account account' region region' name name' : String) (d d' : D)
      → colon_free account ≡ true
      → colon_free account' ≡ true
      → colon_free region ≡ true
      → colon_free region' ≡ true
      → ((account ≡ account') × (region ≡ region') → ⊥)
      → All SplitsKeys dc.handlers
      → read i
          (with_cache account' region' (write i g (with_cache account region dc) now name d).1)
          later
          name'
        ≡ some d'
      → Holds i f later (get_key (with_cache account' region' dc) name') d' dc.handlers
  unfolding with_cache with_namespace read write get_key
  with_cache_other g dc now later account account' region region' name name' d d' fa fa' fr fr'
        other splits h =
      let k = get_key (with_cache account region dc) name in
      let k' = get_key (with_cache account' region' dc) name' in
      let keys : k ≢ k' = λ e.
        let (a, r, n) =
          get_key-with_cache dc account account' region region' name name' fa fa' fr fr' e in
        other (a, r) in
      write_to-Holds i f now later k k' d d' dc.handlers (apart_at k k' dc.handlers keys splits)
        (read_from-Holds i f later k' d' (write_to i now k d dc.handlers).1 h)
