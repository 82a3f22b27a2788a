-- ===== src/Controller/Values/Layers.antt =====
-- `mergeHelmValues`: the precedence of its three layers of values.
use upgrade_controller.Prelude.{
  String, ◌≡◌, ◌≢◌, refl, false, Option, none, some, List, ◌==◌, eq_iff, arith,
}
use upgrade_controller.Errors.{ok}
use upgrade_controller.Controller.Values.{
  Codec, Fields, scalar, InstalledValues, installed_fields, merge_layer, marshal_fields, merge_maps,
  merge_helm_values,
}
use upgrade_controller.Controller.Values.Merge.{IsMap, get, get-merge_maps}

module _ (c : Codec) where
  layer_ok :
      (context : String) (base : Fields) (raw : String) (layer : Fields)
      → raw ≢ ""
      → c.json_unmarshal raw ≡ ok layer
      → merge_layer c context base (some raw) ≡ ok (merge_maps base layer)
  unfolding merge_layer
  layer_ok context base raw layer filled parsed = rw (test, parsed) refl
    where
      test : (raw == "") ≡ false
      test = ground (arith, eq_iff raw "")

  layers_ok :
      (installed : InstalledValues) (release_values user_values : Option String)
      (base with_release all : Fields)
      → installed_fields c installed ≡ ok base
      → merge_layer c "unmarshaling additional release values" base release_values ≡ ok with_release
      → merge_layer c "unmarshaling additional user values" with_release user_values ≡ ok all
      → merge_helm_values c installed release_values user_values ≡ marshal_fields c all
  unfolding merge_helm_values
  layers_ok installed release_values user_values base with_release all i r u = rw (i, r, u) refl

-- A scalar that the user's values set at a path of keys is at that path in the values that
-- `mergeHelmValues` marshals, whatever the release and the installed chart have there; where the
-- user gives no values this holds of the release's values against those of the installed chart.
-- The values parse, and have each key once at every depth.
pub merge_helm_values_precedence :
    (c : Codec) (installed : InstalledValues) (release_values : Option String)
    (base with_release : Fields)
    → installed_fields c installed ≡ ok base
    → merge_layer c "unmarshaling additional release values" base release_values ≡ ok with_release
    → (k : String) (path : List String) (x : String) (raw : String) (layer : Fields) → raw ≢ ""
    → c.json_unmarshal raw ≡ ok layer
    → IsMap layer
    → get layer k path ≡ some (scalar x)
    → ((m : Fields) × (merge_helm_values c installed release_values (some raw) ≡ marshal_fields c m)
        × (get m k path ≡ some (scalar x)))
      × ((m : Fields) × (merge_helm_values c installed (some raw) none ≡ marshal_fields c m)
          × (get m k path ≡ some (scalar x)))
unfolding merge_layer
merge_helm_values_precedence c installed release_values base with_release i r k path x raw layer
      filled parsed map set =
    (
      (
        merge_maps with_release layer,
        layers_ok c installed release_values (some raw) base with_release _ i r
            (layer_ok c "unmarshaling additional user values" with_release raw layer filled parsed),
        get-merge_maps path k with_release layer x map set,
      ),
      (
        merge_maps base layer,
        layers_ok c installed (some raw) none base (merge_maps base layer) _ i
            (layer_ok c "unmarshaling additional release values" base raw layer filled parsed) refl,
        get-merge_maps path k base layer x map set,
      ),
    )
