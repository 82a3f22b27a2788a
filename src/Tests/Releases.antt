-- ===== src/Tests/Releases.antt =====
-- A chart with two revisions, and the job of a chart.
use upgrade_controller.Prelude.{
  ℕ, ◌≤◌, ltb, ◌⊎◌, ◌↔◌, Bool-cases, if◌then◌else◌, String, ◌≡◌, refl, List, [], ◌∷◌, Dict, All,
  inl, inr, neq_of_test, decode_hex, text_length, arith, some,
}
use upgrade_controller.Prelude as P
use upgrade_controller.Errors.{ok}
use upgrade_controller.Upgrade.Base.{generate_suffix}
use upgrade_controller.Upgrade.Suffixes.{decode_hex-generate_suffix}
use upgrade_controller.Controller.Env.{Env, HelmRelease}
use upgrade_controller.Controller.Releases as R
use upgrade_controller.Controller.Releases.{retrieve_helm_release}
use upgrade_controller.Controller.Releases.Latest.{
  IsIn, IsDescending, RevisionLaws, IsLatest, retrieve_helm_release-IsLatest,
}
use upgrade_controller.Controller.Charts.{new_chart_resource}
use upgrade_controller.Controller.Watches.{find_upgrade_plan_from_job}
use upgrade_controller.Controller.Routing.{request_of}
use upgrade_controller.Controller.Routing.Jobs.{
  created_chart, find_upgrade_plan_from_job-WrittenFor,
}
use upgrade_controller.Tests.Cluster.{Cluster, sample_env}
use upgrade_controller.Tests.Samples.{sample_plan, sample_cluster, installed_release, chart_fields}

abbrev second_revision : HelmRelease
second_revision = record installed_release { version = 2 }

-- the insertion of a release, the latest first
unfoldable insert_release : HelmRelease → List HelmRelease → List HelmRelease
insert_release r [] = r ∷ []
insert_release r (first ∷ rest) =
    let behind = insert_release r rest in
    if ltb r.version first.version then first ∷ behind else r ∷ first ∷ rest

unfoldable sort_releases : List HelmRelease → List HelmRelease
sort_releases [] = []
sort_releases (r ∷ rest) = insert_release r (sort_releases rest)

insert_second : {A B C D : Type 0} → (C ↔ (A ⊎ D)) → (B ⊎ C) ↔ (A ⊎ (B ⊎ D))
insert_second {A} {B} {C} {D} h = (to, from)
  where
    to_d : A ⊎ D → A ⊎ (B ⊎ D)
    to_d (inl a) = inl a
    to_d (inr d) = inr (inr d)

    to : B ⊎ C → A ⊎ (B ⊎ D)
    to (inl b) = inr (inl b)
    to (inr c) = to_d (h.0 c)

    from : A ⊎ (B ⊎ D) → B ⊎ C
    from (inl a) = inr (h.1 (inl a))
    from (inr (inl b)) = inl b
    from (inr (inr d)) = inr (h.1 (inr d))

under_sum : {A C D X : Type 0} → (X ↔ (A ⊎ C)) → (C ↔ D) → X ↔ (A ⊎ D)
under_sum {A} {C} {D} {X} h k = (λ x. to (h.0 x), λ s. h.1 (from s))
  where
    to : A ⊎ C → A ⊎ D
    to (inl a) = inl a
    to (inr c) = inr (k.0 c)

    from : A ⊎ D → A ⊎ C
    from (inl a) = inl a
    from (inr d) = inr (k.1 d)

insert-keeps :
    (r x : HelmRelease) (rs : List HelmRelease)
    → IsIn x (insert_release r rs) ↔ ((r ≡ x) ⊎ IsIn x rs)
unfolding insert_release
insert-keeps r x [] = (λ h. h, λ h. h)
insert-keeps r x (first ∷ rest) = elim (Bool-cases (ltb r.version first.version)) [
  | inl later ↦ rw later (insert_second (insert-keeps r x rest))
  | inr earlier ↦ rw earlier (λ h. h, λ h. h)
]

sort-keeps : (x : HelmRelease) (rs : List HelmRelease) → IsIn x (sort_releases rs) ↔ IsIn x rs
unfolding sort_releases
sort-keeps x [] = (λ h. h, λ h. h)
sort-keeps x (r ∷ rest) = under_sum (insert-keeps r x (sort_releases rest)) (sort-keeps x rest)

insert-below :
    (n : ℕ) (r : HelmRelease) (rs : List HelmRelease)
    → r.version ≤ n
    → All (λ other. other.version ≤ n) rs
    → All (λ other. other.version ≤ n) (insert_release r rs)
unfolding insert_release
insert-below n r [] low h = (low, tt)
insert-below n r (first ∷ rest) low (first_low, h) =
    elim (Bool-cases (ltb r.version first.version)) [
      | inl later ↦ rw later (first_low, insert-below n r rest low h)
      | inr earlier ↦ rw earlier (low, (first_low, h))
    ]

weaker :
    (n k : ℕ) (rs : List HelmRelease)
    → n ≤ k
    → All (λ other. other.version ≤ n) rs
    → All (λ other. other.version ≤ k) rs
weaker n k [] h low = tt
weaker n k (r ∷ rest) h (low, lows) = (ground arith, weaker n k rest h lows)

insert-IsDescending :
    (r : HelmRelease) (rs : List HelmRelease) → IsDescending rs → IsDescending (insert_release r rs)
unfolding insert_release
insert-IsDescending r [] h = (tt, tt)
insert-IsDescending r (first ∷ rest) (highest, h) =
    elim (Bool-cases (ltb r.version first.version)) [
      | inl later ↦
          let low : r.version ≤ first.version = ground arith in
          rw later (insert-below first.version r rest low highest, insert-IsDescending r rest h)
      | inr earlier ↦
          let low : first.version ≤ r.version = ground arith in
          rw earlier ((low, weaker first.version r.version rest low highest), (highest, h))
    ]

sort-IsDescending : (rs : List HelmRelease) → IsDescending (sort_releases rs)
unfolding sort_releases
sort-IsDescending [] = tt
sort-IsDescending (r ∷ rest) = insert-IsDescending r _ (sort-IsDescending rest)

abbrev sorting_env : Env
sorting_env = record sample_env {
  history = λ name w. ok (installed_release ∷ second_revision ∷ []);
  reverse_by_revision = sort_releases;
}

sorting_env-RevisionLaws : RevisionLaws sorting_env
sorting_env-RevisionLaws = record {
  kept = λ r rs h. (sort-keeps r rs).0 h;
  all_kept = λ r rs h. (sort-keeps r rs).1 h;
  descending = sort-IsDescending;
}

retrieve_helm_release-IsLatest_example :
    (rs : List HelmRelease) × (sorting_env.history "metal3" sample_cluster ≡ ok rs)
    × IsLatest second_revision rs
unfolding R.retrieve_helm_release insert_release sort_releases
retrieve_helm_release-IsLatest_example =
    retrieve_helm_release-IsLatest sorting_env sorting_env-RevisionLaws sample_cluster "metal3"
      second_revision refl

decode_hex-generate_suffix_example :
    (suffix : String) × (generate_suffix (ok (1 ∷ 35 ∷ 69 ∷ 103 ∷ 137 ∷ [])) ≡ ok suffix)
    × (decode_hex suffix ≡ 1 ∷ 35 ∷ 69 ∷ 103 ∷ 137 ∷ [])
    × (text_length suffix ≡ 10)
decode_hex-generate_suffix_example =
    decode_hex-generate_suffix (1 ∷ 35 ∷ 69 ∷ 103 ∷ 137 ∷ []) refl
      (ground arith, (ground arith, (ground arith, (ground arith, (ground arith, tt)))))

-- a cluster with the resource that the controller created for Metal3
abbrev created_cluster : Cluster
created_cluster = record sample_cluster {
  charts = ("metal3", new_chart_resource sample_plan installed_release chart_fields "") ∷ [];
}

find_upgrade_plan_from_job-WrittenFor_example :
    find_upgrade_plan_from_job sample_env
      (("helmcharts.helm.cattle.io/chart", "metal3") ∷ [])
      created_cluster
    ≡ request_of sample_plan.metadata ∷ []
unfolding P.lookup
find_upgrade_plan_from_job-WrittenFor_example =
    find_upgrade_plan_from_job-WrittenFor sample_env sample_plan
      (("helmcharts.helm.cattle.io/chart", "metal3") ∷ []) "metal3" created_cluster
      (new_chart_resource sample_plan installed_release chart_fields "")
      (neq_of_test "upgrade" "" refl) refl refl (neq_of_test "metal3" "" refl) refl
      (created_chart installed_release chart_fields "")
