-- ===== src/Controller/Values/Merge.antt =====
-- `mergeMaps` against its description by keys and by paths.
use upgrade_controller.Prelude.{
  String, ◌≡◌, refl, Option, none, some, List, [], ◌∷◌, ◌==◌, eq_iff, arith, Bool-cases, inl, inr,
  if◌then◌else◌,
}
use upgrade_controller.Controller.Values.{
  Value, scalar, array, object, Fields, end, field, lookup, insert, merge_into, merged, merge_maps,
}

-- At most one field for each key, at every depth, as Go's maps have.
unfoldable mutual
  pub IsMap : Fields → Type 0
  IsMap end = Unit
  IsMap (field k v m) = (lookup k m ≡ none) × IsMapValue v × IsMap m

  pub IsMapValue : Value → Type 0
  IsMapValue (object m) = IsMap m
  IsMapValue _ = Unit

-- a key's value in a map with another over it
abbrev pub over : Option Value → Option Value → Option Value
over below none = below
over (some (object below)) (some (object above)) = some (object (merge_maps below above))
over below (some above) = some above

abbrev pub inside : Option Value → (Fields → Option Value) → Option Value
inside (some (object inner)) f = f inner
inside _ f = none

-- the value at the end of a path of keys
unfoldable pub get : Fields → String → List String → Option Value
get m k [] = lookup k m
get m k (j ∷ path) = inside (lookup k m) (λ inner. get inner j path)

lookup-insert :
    (written read : String) (value : Value) (m : Fields)
    → lookup read (insert written value m) ≡ (if written == read then some value else lookup read m)
unfolding lookup insert
lookup-insert written read value end = refl
lookup-insert written read value (field first old others) =
    let rest = lookup-insert written read value others in
    ground (arith, rest, eq_iff first written, eq_iff first read, eq_iff written read)

over_lem : (below : Option Value) (v : Value) → some (merged below v) ≡ over below (some v)
unfolding merged merge_maps
over_lem none (scalar x) = refl
over_lem none (array x) = refl
over_lem none (object m) = refl
over_lem (some (scalar y)) (scalar x) = refl
over_lem (some (scalar y)) (array x) = refl
over_lem (some (scalar y)) (object m) = refl
over_lem (some (array y)) (scalar x) = refl
over_lem (some (array y)) (array x) = refl
over_lem (some (array y)) (object m) = refl
over_lem (some (object n)) (scalar x) = refl
over_lem (some (object n)) (array x) = refl
over_lem (some (object n)) (object m) = refl

lookup-merge_into :
    (k : String) (out m : Fields)
    → IsMap m
    → lookup k (merge_into out m) ≡ over (lookup k out) (lookup k m)
unfolding lookup merge_into IsMap
lookup-merge_into k out end h = refl
lookup-merge_into k out (field j v m) (new, w, h) = elim (Bool-cases (j == k)) [
  | inl same ↦
      rw
        (
          lookup-merge_into k (insert j (merged (lookup j out) v) out) m h,
          lookup-insert j k (merged (lookup j out) v) out,
          same,
          ← (eq_iff j k).0 same,
          new,
        )
        (over_lem (lookup j out) v)
  | inr other ↦
      rw
        (
          lookup-merge_into k (insert j (merged (lookup j out) v) out) m h,
          lookup-insert j k (merged (lookup j out) v) out,
          other,
        )
        refl
]

-- `mergeMaps` gives each key the second map's value over the first's: where only one map has the
-- key its value is taken, where both have maps they are merged, and otherwise the second's value
-- replaces the first's. The second map has each key once, as Go's maps have.
pub lookup-merge_maps :
    (k : String) (m1 m2 : Fields)
    → IsMap m2
    → lookup k (merge_maps m1 m2) ≡ over (lookup k m1) (lookup k m2)
unfolding merge_maps
lookup-merge_maps = lookup-merge_into

IsMap-of_lookup :
    (k : String) (m : Fields) (inner : Fields)
    → IsMap m
    → lookup k m ≡ some (object inner)
    → IsMap inner
unfolding lookup IsMap
IsMap-of_lookup k end inner h q = cc
IsMap-of_lookup k (field j v m) inner (new, w, h) q = elim (Bool-cases (j == k)) [
  | inl same ↦
      let here : some v ≡ some (object inner) = rw same at q in
      let q' : v ≡ object inner = cc in rw q' at w
  | inr other ↦ IsMap-of_lookup k m inner h (rw other at q)
]

over-scalar : (below : Option Value) (x : String) → over below (some (scalar x)) ≡ some (scalar x)
over-scalar none x = refl
over-scalar (some (scalar y)) x = refl
over-scalar (some (array y)) x = refl
over-scalar (some (object m)) x = refl

some_object :
    (k : String) (m : Fields) (j : String) (path : List String) {x : String}
    → get m k (j ∷ path) ≡ some (scalar x)
    → (inner : Fields) × (lookup k m ≡ some (object inner)) × (get inner j path ≡ some (scalar x))
unfolding get
some_object k m j path {x} = go (lookup k m) refl
  where
    go :
        (o : Option Value)
        → lookup k m ≡ o
        → inside o (λ inner. get inner j path) ≡ some (scalar x)
        → (inner : Fields) × (o ≡ some (object inner)) × (get inner j path ≡ some (scalar x))
    go none q h = cc
    go (some (scalar y)) q h = cc
    go (some (array y)) q h = cc
    go (some (object inner)) q h = (inner, refl, h)

-- A scalar that the second map sets at a path of keys is there in the result of `mergeMaps`, at any
-- depth and whatever the first map has. The second map has each key once at every depth.
pub get-merge_maps :
    (path : List String) (k : String) (m1 m2 : Fields) (x : String)
    → IsMap m2
    → get m2 k path ≡ some (scalar x)
    → get (merge_maps m1 m2) k path ≡ some (scalar x)
unfolding get merge_maps
get-merge_maps [] k m1 m2 x h q = rw (lookup-merge_into k m1 m2 h, q) (over-scalar (lookup k m1) x)
get-merge_maps (j ∷ path) k m1 m2 x h q =
    let (inner, found, deeper) = some_object k m2 j path q in
    rw (lookup-merge_into k m1 m2 h, found)
      (go (lookup k m1) inner (IsMap-of_lookup k m2 inner h found) deeper
        (λ n. get-merge_maps path j n inner x (IsMap-of_lookup k m2 inner h found) deeper))
  where
    go :
        (below : Option Value) (inner : Fields)
        → IsMap inner
        → get inner j path ≡ some (scalar x)
        → ((n : Fields) → get (merge_into n inner) j path ≡ some (scalar x))
        → inside (over below (some (object inner))) (λ m. get m j path) ≡ some (scalar x)
    go none inner hi deeper ih = deeper
    go (some (scalar y)) inner hi deeper ih = deeper
    go (some (array y)) inner hi deeper ih = deeper
    go (some (object n)) inner hi deeper ih = ih n
