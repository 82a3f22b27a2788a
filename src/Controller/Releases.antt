-- ===== src/Controller/Releases.antt =====
-- helm.go: `newHelmClient`, `retrieveHelmRelease` and `compareChartReleaseWithVersion`
pub mod Latest
use upgrade_controller.Prelude.{String, Bool, List, [], ◌∷◌, ◌==◌}
use upgrade_controller.Errors.{Result, ok, err, release_not_found, in_context, ◌>>=◌}
use upgrade_controller.Controller.Env.{Env, HelmRelease}

abbrev pub first_release : List HelmRelease → Result HelmRelease
first_release [] = err release_not_found
first_release (r ∷ rest) = ok r

module _ (e : Env) (w : e.World) where
  -- `len(helmReleases) == 0` is tested before the sort.
  abbrev pub latest_of : List HelmRelease → Result HelmRelease
  latest_of [] = err release_not_found
  latest_of (r ∷ rest) = first_release (e.reverse_by_revision (r ∷ rest))

  -- The storage itself is made without an error.
  unfoldable pub new_helm_client : Result (Unit {0})
  new_helm_client = do
    _ ← in_context "retrieving cluster config" (e.get_config w)
    in_context "creating kubernetes client" (e.new_kubernetes_client w)

  unfoldable pub retrieve_helm_release : String → Result HelmRelease
  unfolding new_helm_client
  retrieve_helm_release name = do
    _ ← in_context "initializing helm client" new_helm_client
    releases ← e.history name w
    latest_of releases

  unfoldable pub compare_chart_release_with_version : String → String → Result Bool
  compare_chart_release_with_version release_name version = do
    release ← in_context "retrieving helm release" (retrieve_helm_release release_name)
    ok (release.chart_version == version)
