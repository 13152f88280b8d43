-- ===== src/Prelude/TextMap.antt =====
-- `BTreeMap` with text keys, of which only lookups are observed: an association list.
use mathlib.Core.Path.{◌≡◌, refl}
use mathlib.Core.Option.{Option, none, some}
use mathlib.Core.List.{List, [], ◌∷◌}
use native.Mathlib.Omega.{arith}
use aurorix_music.Prelude.Tests.{if◌then◌else◌}
use aurorix_music.Prelude.Text.{Text, text_eq, text_eq_iff}

module _ {ℓ} {V : Type ℓ} where
  unfoldable pub lookup : Text → List (Text × V) → Option V
  lookup key [] = none
  lookup key ((first, value) ∷ rest) = if text_eq first key then some value else lookup key rest

  unfoldable pub insert : Text → V → List (Text × V) → List (Text × V)
  insert key value [] = (key, value) ∷ []
  insert key value ((first, old) ∷ rest) =
      if text_eq first key then (key, value) ∷ rest else (first, old) ∷ insert key value rest

  pub lookup-insert :
      (key other : Text) (value : V) (entries : List (Text × V))
      → lookup other (insert key value entries)
        ≡ (if text_eq key other then some value else lookup other entries)
  unfolding lookup insert
  lookup-insert key other value [] = refl
  lookup-insert key other value ((first, old) ∷ rest) = ground (
    arith,
    lookup-insert key other value rest,
    text_eq_iff first key,
    text_eq_iff first other,
    text_eq_iff key other,
  )
