-- ===== src/Controller/ReleaseManifest/Found.antt =====
-- Which release manifest a plan is given.
use upgrade_controller.Prelude.{
  String, ◌≡◌, ◌≢◌, ◌↔◌, List, [], ◌∷◌, All, ◌==◌, eq_iff, neq_of_test, arith, Bool-cases, inl, inr,
}
use upgrade_controller.Errors.{ok, err, release_manifest_not_found}
use upgrade_controller.Api.ReleaseManifest as Manifest
use upgrade_controller.Controller.ReleaseManifest.{find_manifest}

-- The manifest is the first of the list with the version.
pub data IsFirstOf (version : String) (m : Manifest.ReleaseManifest)
    : List Manifest.ReleaseManifest → Type 0 where
  here :
      {rest : List Manifest.ReleaseManifest}
      → m.spec.release_version ≡ version
      → IsFirstOf version m (m ∷ rest)
  later :
      {other : Manifest.ReleaseManifest} {rest : List Manifest.ReleaseManifest}
      → other.spec.release_version ≢ version
      → IsFirstOf version m rest
      → IsFirstOf version m (other ∷ rest)

found_sound :
    (version : String) (m : Manifest.ReleaseManifest) (ms : List Manifest.ReleaseManifest)
    → find_manifest version ms ≡ ok m
    → IsFirstOf version m ms
unfolding find_manifest
found_sound version m [] h = cc
found_sound version m (first ∷ rest) h = elim (Bool-cases (first.spec.release_version == version)) [
  | inl same ↦
      let q : ok first ≡ ok m = rw same at h in
      let q' : first ≡ m = cc in rw (← q') (IsFirstOf.here ((eq_iff _ version).0 same))
  | inr other ↦ IsFirstOf.later (neq_of_test _ _ other) (found_sound version m rest (rw other at h))
]

found_complete :
    (version : String) (m : Manifest.ReleaseManifest) (ms : List Manifest.ReleaseManifest)
    → IsFirstOf version m ms
    → find_manifest version ms ≡ ok m
unfolding find_manifest
found_complete version m [] first = elim first [ ]
found_complete version m (m' ∷ rest) (IsFirstOf.here same) =
    ground (arith, eq_iff m'.spec.release_version version)
found_complete version m (other ∷ rest) (IsFirstOf.later differs first) =
    ground (arith, eq_iff other.spec.release_version version, found_complete version m rest first)

not_found_iff :
    (version : String) (ms : List Manifest.ReleaseManifest)
    → (find_manifest version ms ≡ err release_manifest_not_found)
      ↔ All (λ m. m.spec.release_version ≢ version) ms
unfolding find_manifest
not_found_iff version [] = ground arith
not_found_iff version (first ∷ rest) =
    ground (arith, eq_iff first.spec.release_version version, not_found_iff version rest)

-- The search for a plan's release gives a manifest exactly when that is the first of the list with
-- the plan's version, and the sentinel error, on which the controller installs the manifest,
-- exactly when no manifest of the list has that version.
pub find_manifest_iff :
    (version : String) (m : Manifest.ReleaseManifest) (ms : List Manifest.ReleaseManifest)
    → ((find_manifest version ms ≡ ok m) ↔ IsFirstOf version m ms)
      × ((find_manifest version ms ≡ err release_manifest_not_found)
          ↔ All (λ other. other.spec.release_version ≢ version) ms)
find_manifest_iff version m ms =
    ((found_sound version m ms, found_complete version m ms), not_found_iff version ms)
