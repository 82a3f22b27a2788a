-- ===== src/Controller/Values.antt =====
-- `mergeHelmValues` and `mergeMaps` of internal/controller/helm.go. YAML and JSON are parameters.
pub mod Merge
pub mod Layers
use upgrade_controller.Prelude.{String, ◌++◌, Option, none, some, ◌==◌, if◌then◌else◌}
use upgrade_controller.Errors.{Result, ok, err, message, ◌>>=◌, in_context}

-- What `any` holds: a scalar by its text, a `[]any`, or a `map[string]any`.
mutual
  pub data Value : Type 0 where
    scalar : String → Value
    array : Items → Value
    object : Fields → Value

  pub data Items : Type 0 where
    nil : Items
    item : Value → Items → Items

  pub data Fields : Type 0 where
    end : Fields
    field : String → Value → Fields → Fields

unfoldable pub lookup : String → Fields → Option Value
lookup key end = none
lookup key (field first value others) = if first == key then some value else lookup key others

unfoldable pub insert : String → Value → Fields → Fields
insert key value end = field key value end
insert key value (field first old others) =
    if first == key then field key value others else field first old (insert key value others)

-- The loop of `mergeMaps` over its second map, with `out`, and its body's choice of a value.
unfoldable mutual
  pub merge_into : Fields → Fields → Fields
  merge_into out end = out
  merge_into out (field k v m2) = merge_into (insert k (merged (lookup k out) v) out) m2

  pub merged : Option Value → Value → Value
  merged (some (object out_inner)) (object inner) = object (merge_into out_inner inner)
  merged _ v = v

-- `out` starts as a copy of `m1`.
unfoldable pub merge_maps : Fields → Fields → Fields
unfolding merge_into
merge_maps m1 m2 = merge_into m1 m2

-- `maps.Copy(out, m)`
unfoldable pub copy : Fields → Fields → Fields
unfolding insert
copy out end = out
copy out (field k v m) = copy (insert k v out) m

-- gopkg.in/yaml.v3 and encoding/json, at `map[string]any`
pub record Codec : Type 0 where
  pub yaml_unmarshal : String → Result Fields
  pub yaml_marshal : Fields → Result String
  pub json_unmarshal : String → Result Fields

-- the dynamic type of the installed values
pub data InstalledValues : Type 0 where
  text : String → InstalledValues
  values : Fields → InstalledValues
  of_type : String → InstalledValues

module _ (c : Codec) where
  open c use {yaml_unmarshal, yaml_marshal, json_unmarshal}

  unfoldable pub installed_fields : InstalledValues → Result Fields
  unfolding copy
  installed_fields (text s) =
      if s == ""
      then ok end
      else in_context "unmarshaling installed chart values" (yaml_unmarshal s)
  installed_fields (values m) = ok (copy end m)
  installed_fields (of_type t) = err (message ("unexpected type " ++ t ++ " of installed values"))

  -- One of the two optional layers: the raw JSON of the release or of the user.
  unfoldable pub merge_layer : String → Fields → Option String → Result Fields
  unfolding merge_maps
  merge_layer context base none = ok base
  merge_layer context base (some raw) =
      if raw == ""
      then ok base
      else do v ← in_context context (json_unmarshal raw); ok (merge_maps base v)

  unfoldable pub marshal_fields : Fields → Result String
  marshal_fields end = ok ""
  marshal_fields m = in_context "marshaling chart values" (yaml_marshal m)

  unfoldable pub merge_helm_values : InstalledValues → Option String → Option String → Result String
  unfolding installed_fields merge_layer marshal_fields
  merge_helm_values installed release_values user_values = do
    base ← installed_fields installed
    with_release ← merge_layer "unmarshaling additional release values" base release_values
    all ← merge_layer "unmarshaling additional user values" with_release user_values
    marshal_fields all
