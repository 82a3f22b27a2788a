-- ===== src/Controller/Progression/Refinement.antt =====
-- A pass over the stages is an advance of the abstract machine.
use upgrade_controller.Prelude.{
  ◌≢◌, true, false, Bool, List, [], ◌∷◌, String, ◌≡◌, ◌≢◌, refl, sym, Bool, true, false, List, [],
  ◌∷◌, nat_eq,
}
use upgrade_controller.Errors.{Result}
use upgrade_controller.Kube.{Node}
use upgrade_controller.Api.UpgradePlan.{
  UpgradePlan, operating_system_upgraded_condition, kubernetes_upgraded_condition,
}
use upgrade_controller.Api.ReleaseManifest.{HelmChart, ReleaseManifestSpec}
use upgrade_controller.Controller.Env.{Env, ConditionOps}
use upgrade_controller.Controller.Effects.{State, CtrlResult}
use upgrade_controller.Controller.Effects.Keeps.{Keeps}
use upgrade_controller.Controller.Conditions.{is_helm_upgrade_finished}
use upgrade_controller.Controller.Os.{reconcile_os}
use upgrade_controller.Controller.Kubernetes.{reconcile_kubernetes}
use upgrade_controller.Controller.Helm.{reconcile_helm_chart}
use upgrade_controller.Controller.Conditions.Laws.{ConditionLaws, has_true}
use upgrade_controller.Controller.Reconcile.Generation.{chart_type}
use upgrade_controller.Controller.Reconcile.Stages.{chart_finished, IsNext, StagePass}
use upgrade_controller.Controller.Frame.{OnPlan, ConditionFrame}
use upgrade_controller.Controller.Frame.Stages.{reconcile_os-OnPlan, reconcile_kubernetes-OnPlan}
use upgrade_controller.Controller.Frame.Helm.{reconcile_helm_chart-OnPlan}
use upgrade_controller.Controller.Progression.{Advance, Advance-refl}
use upgrade_controller.Controller.Progression.Flags.{
  chart_flags, stage_flags, Others, ChartsDistinct, TypesDistinct, SameBut, SameBut-refl, SameOwner,
  SameOwner-of_SameBut, SameBut-ConditionFrame, chart_flags-SameBut, has_true-SameBut,
  chart_finished-SameBut,
}

abbrev pub is_observed : UpgradePlan → Bool
is_observed p = nat_eq p.status.observed_generation p.metadata.generation

other-IsNext :
    (ops : ConditionOps) (p : UpgradePlan) (type : String) (next : HelmChart)
    (helm : List HelmChart)
    → IsNext ops p next helm
    → Others type helm
    → type ≢ chart_type next
other-IsNext ops p type next [] nothing others = elim nothing [ ]
other-IsNext ops p type next (chart ∷ rest) (IsNext.here opened) (other, others) = other
other-IsNext ops p type next (chart ∷ rest) (IsNext.later done behind) (other, others) =
    other-IsNext ops p type next rest behind others

charts-Advance :
    (ops : ConditionOps) (p q : UpgradePlan) (next : HelmChart) (helm : List HelmChart)
    → IsNext ops p next helm
    → ChartsDistinct helm
    → SameBut ops (chart_type next) p q
    → Advance (chart_flags ops p helm) (chart_flags ops q helm)
charts-Advance ops p q next [] nothing distinct same = elim nothing [ ]
charts-Advance ops p q next (chart ∷ rest) (IsNext.here opened) (others, distinct) same =
    rw (opened, chart_flags-SameBut ops rest same others) (Advance.work _ _)
charts-Advance ops p q next (chart ∷ rest) (IsNext.later done behind) (others, distinct) same =
    let differs = other-IsNext ops p (chart_type chart) next rest behind others in
    rw (chart_finished-SameBut ops chart same (λ r. differs (sym r)), done)
      (Advance.skip (charts-Advance ops p q next rest behind distinct same))

-- A flag that is set counts.
pub chart-differs :
    (ops : ConditionOps) (p q : UpgradePlan) (next : HelmChart) (helm : List HelmChart)
    → IsNext ops p next helm
    → chart_finished ops q next ≡ true
    → chart_flags ops p helm ≢ chart_flags ops q helm
chart-differs ops p q next [] nothing now same = elim nothing [ ]
chart-differs ops p q next (chart ∷ rest) (IsNext.here opened) now same =
    let f : false ≡ true = cc in cc
chart-differs ops p q next (chart ∷ rest) (IsNext.later done behind) now same =
    chart-differs ops p q next rest behind now cc

pub heads-differ : {x y : Bool} {xs ys : List Bool} → x ≡ false → y ≡ true → (x ∷ xs) ≢ (y ∷ ys)
heads-differ unset set same = let f : false ≡ true = cc in cc

pub tails : {x y : Bool} {xs ys : List Bool} → (x ∷ xs) ≡ (y ∷ ys) → xs ≡ ys
tails same = cc

module _ (e : Env) (laws : ConditionLaws e.conditions) (release : ReleaseManifestSpec)
    (distinct : TypesDistinct release.components.helm) where
  abbrev pub flags : UpgradePlan → List Bool
  flags p = stage_flags e.conditions release.components.helm p

  -- The run changes the condition of this type only.
  changes_only :
      {A : Type 0} (type : String) (m : State e.World → Result A × State e.World)
      (s : State e.World)
      → (ConditionFrame e.conditions type (SameBut e.conditions type s.plan)
          → Keeps (OnPlan (SameBut e.conditions type s.plan)) m)
      → SameBut e.conditions type s.plan (m s).1.plan
  changes_only type m s keeps =
      ((keeps (SameBut-ConditionFrame e.conditions laws type s.plan)).at s
        (record { holds = SameBut-refl e.conditions type s.plan })).holds

  -- An observed plan stays so, with its flags advanced.
  pub record Advanced (p q : UpgradePlan) : Type 0 where
    pub owner : SameOwner p q
    pub observed : is_observed q ≡ is_observed p
    pub advance : Advance (flags p) (flags q)

  -- One condition has changed, and its flag is the first that was not set.
  Advanced-of_SameBut :
      {type : String} {p q : UpgradePlan}
      → SameBut e.conditions type p q
      → Advance (flags p) (flags q)
      → Advanced p q
  Advanced-of_SameBut same step = record {
    owner = SameOwner-of_SameBut same;
    observed = rw (same.same_observed, same.same_metadata) refl;
    advance = step;
  }

  os-Advance :
      (p q : UpgradePlan)
      → has_true e.conditions p operating_system_upgraded_condition ≡ false
      → SameBut e.conditions operating_system_upgraded_condition p q
      → Advance (flags p) (flags q)
  os-Advance p q no_os same =
      rw
        (
          no_os,
          has_true-SameBut e.conditions laws kubernetes_upgraded_condition same (λ r. cc),
          chart_flags-SameBut e.conditions release.components.helm same distinct.os_other,
        )
        (Advance.work _ _)

  kubernetes-Advance :
      (p q : UpgradePlan)
      → has_true e.conditions p operating_system_upgraded_condition ≡ true
      → has_true e.conditions p kubernetes_upgraded_condition ≡ false
      → SameBut e.conditions kubernetes_upgraded_condition p q
      → Advance (flags p) (flags q)
  kubernetes-Advance p q os no_k8s same =
      rw
        (
          has_true-SameBut e.conditions laws operating_system_upgraded_condition same (λ r. cc),
          os,
          no_k8s,
          chart_flags-SameBut e.conditions release.components.helm same distinct.kubernetes_other,
        )
        (Advance.skip (Advance.work _ _))

  chart-Advance :
      (p q : UpgradePlan) (next : HelmChart)
      → has_true e.conditions p operating_system_upgraded_condition ≡ true
      → has_true e.conditions p kubernetes_upgraded_condition ≡ true
      → IsNext e.conditions p next release.components.helm
      → SameBut e.conditions (chart_type next) p q
      → Advance (flags p) (flags q)
  chart-Advance p q next os k8s is_next same =
      let other : (type : String) → Others type release.components.helm → type ≢ chart_type next =
        λ type. other-IsNext e.conditions p type next release.components.helm is_next in
      rw
        (
          has_true-SameBut e.conditions laws operating_system_upgraded_condition same
              (λ r. other _ distinct.os_other (sym r)),
          os,
          has_true-SameBut e.conditions laws kubernetes_upgraded_condition same
              (λ r. other _ distinct.kubernetes_other (sym r)),
          k8s,
        )
        (Advance.skip (
          Advance.skip (
            charts-Advance e.conditions p q next release.components.helm is_next
              distinct.charts_distinct same)))

  pub stage-Advanced :
      (nodes : List Node) (s : State e.World) (r : Result CtrlResult × State e.World)
      → StagePass e release nodes s r
      → Advanced s.plan r.1.plan
  unfolding is_helm_upgrade_finished
  stage-Advanced nodes s _ (StagePass.on_os no_os) =
      let same =
        changes_only operating_system_upgraded_condition
          (reconcile_os e release.release_version release.components.operating_system nodes) s
          (λ frame. reconcile_os-OnPlan e frame _ _ nodes) in
      Advanced-of_SameBut same (os-Advance s.plan _ no_os same)
  stage-Advanced nodes s _ (StagePass.on_kubernetes os no_k8s) =
      let same =
        changes_only kubernetes_upgraded_condition
          (reconcile_kubernetes e release.components.kubernetes nodes) s
          (λ frame. reconcile_kubernetes-OnPlan e frame _ nodes) in
      Advanced-of_SameBut same (kubernetes-Advance s.plan _ os no_k8s same)
  stage-Advanced nodes s _ (StagePass.on_chart next os k8s is_next) =
      let same =
        changes_only (chart_type next) (reconcile_helm_chart e next) s
          (reconcile_helm_chart-OnPlan e next) in
      Advanced-of_SameBut same (chart-Advance s.plan _ next os k8s is_next same)
  stage-Advanced nodes s _ (StagePass.complete os k8s finished) = record {
    owner = record { metadata_lem = refl; spec_lem = refl; suffix_lem = refl };
    observed = refl;
    advance = Advance-refl _;
  }
