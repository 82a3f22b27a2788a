-- ===== src/Prelude/Maps.antt =====
-- Go's `map[string]T` as an association list. The program iterates over no such map where the
-- order would matter.
use Prim.Native.String.{String}
use mathlib.Core.Path.{◌≡◌, refl}
use mathlib.Core.Option.{Option, none, some}
use mathlib.Core.List.{List, [], ◌∷◌}
use native.Mathlib.Omega.{arith}
use text.Mathlib.Text.{◌==◌}
use text.Mathlib.TextEquality.{eq_iff}
use upgrade_controller.Prelude.Tests.{if◌then◌else◌}

abbrev pub Dict {ℓ} : Type ℓ → Type ℓ
Dict V = List (String × V)

module _ {ℓ} {V : Type ℓ} where
  -- `m[k]` with its `ok`
  unfoldable pub lookup : String → Dict V → Option V
  lookup key [] = none
  lookup key ((first, value) ∷ others) = if first == key then some value else lookup key others

  -- `m[k] = v`
  unfoldable pub insert : String → V → Dict V → Dict V
  insert key value [] = (key, value) ∷ []
  insert key value ((first, old) ∷ others) =
      if first == key then (key, value) ∷ others else (first, old) ∷ insert key value others

  -- at most one entry for each key, as a Go map has
  abbrev pub HasUniqueKeys : Dict V → Type ℓ
  HasUniqueKeys [] = Unit
  HasUniqueKeys ((key, value) ∷ others) = (lookup key others ≡ none) × HasUniqueKeys others

  pub lookup-insert :
      (written read : String) (value : V) (dict : Dict V)
      → lookup read (insert written value dict)
        ≡ (if written == read then some value else lookup read dict)
  unfolding lookup insert
  lookup-insert written read value [] = refl
  lookup-insert written read value ((first, old) ∷ others) =
      let rest = lookup-insert written read value others in
      ground (arith, rest, eq_iff first written, eq_iff first read, eq_iff written read)

-- `m[k]` of a `map[string]string`: the empty text where the key is missing
abbrev pub or_empty : Option String → String
or_empty none = ""
or_empty (some s) = s
