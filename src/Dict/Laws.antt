-- ===== src/Dict/Laws.antt =====
-- What a read sees after a write.
use awslib.Prelude.{◌≡◌, refl, none, some, [], ◌∷◌, arith, Eq, ◌==◌, ==_iff, if◌then◌else◌}
use awslib.Dict.{Dict, lookup, insert, delete}

module _ {ℓ} {K V : Type ℓ} ⦃e : Eq K⦄ where
  pub lookup-insert :
      (key asked : K) (value : V) (d : Dict K V)
      → lookup asked (insert key value d) ≡ (if key == asked then some value else lookup asked d)
  unfolding lookup insert
  lookup-insert key asked value [] = refl
  lookup-insert key asked value ((at, old) ∷ d) =
      ground
        (arith, ==_iff at key, ==_iff at asked, ==_iff key asked, lookup-insert key asked value d)

  pub lookup-delete :
      (key asked : K) (d : Dict K V)
      → lookup asked (delete key d) ≡ (if key == asked then none else lookup asked d)
  unfolding lookup delete
  lookup-delete key asked [] = ground arith
  lookup-delete key asked ((at, old) ∷ d) =
      ground (arith, ==_iff at key, ==_iff at asked, ==_iff key asked, lookup-delete key asked d)
