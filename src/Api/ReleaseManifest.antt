-- ===== src/Api/ReleaseManifest.antt =====
-- api/v1alpha1/releasemanifest_types.go
pub mod Architectures
use upgrade_controller.Prelude.{
  String, ◌++◌, Option, List, [], ◌∷◌, ◌==◌, Dict, insert, if◌then◌else◌,
}
use upgrade_controller.Errors.{Result, ok, panic, ◌>>=◌}
use upgrade_controller.Kube.{ObjectMeta}

abbrev pub Arch : Type 0
Arch = String

abbrev pub arch_type_x86 : Arch
arch_type_x86 = "x86_64"

abbrev pub arch_type_arm : Arch
arch_type_arm = "aarch64"

-- Any other architecture is a panic.
unfoldable pub short : Arch → Result String
short a =
    if a == arch_type_x86
    then ok "amd64"
    else if a == arch_type_arm
    then ok "arm64"
    else panic ("unknown arch: " ++ a)

-- the loop over the architectures, with the set built so far
unfoldable pub add_architectures : Dict (Unit {0}) → List Arch → Result (Dict (Unit {0}))
unfolding short insert
add_architectures supported [] = ok supported
add_architectures supported (a ∷ rest) = do
  s ← short a
  add_architectures (insert s tt (insert a tt supported)) rest

unfoldable pub supported_architectures : List Arch → Result (Dict (Unit {0}))
unfolding add_architectures
supported_architectures architectures = add_architectures [] architectures

pub record ChartFields : Type 0 where
  pub release_name : String
  pub name : String
  pub repository : String
  pub version : String
  pub pretty_name : String
  pub values : Option String

-- A chart holds lists of charts.
mutual
  pub data HelmChart : Type 0 where
    helm_chart : ChartFields → (dependency_charts addon_charts : HelmCharts) → HelmChart

  pub data HelmCharts : Type 0 where
    nil : HelmCharts
    cons : HelmChart → HelmCharts → HelmCharts

abbrev pub charts : HelmCharts → List HelmChart
charts nil = []
charts (cons c cs) = c ∷ charts cs

abbrev pub fields : HelmChart → ChartFields
fields (helm_chart f d a) = f

abbrev pub dependency_charts : HelmChart → List HelmChart
dependency_charts (helm_chart f d a) = charts d

abbrev pub addon_charts : HelmChart → List HelmChart
addon_charts (helm_chart f d a) = charts a

-- a constant, or any other text
pub data CoreComponentType : Type 0 where
  helm_chart_type deployment_type : CoreComponentType
  other_type : String → CoreComponentType

pub record CoreComponentContainer : Type 0 where
  pub name : String
  pub image : String

pub record CoreComponent : Type 0 where
  pub name : String
  pub version : String
  pub containers : List CoreComponentContainer
  pub type : CoreComponentType

-- the loop of `ConvertContainerSliceToMap`
unfoldable pub add_containers : Dict String → List CoreComponentContainer → Dict String
unfolding insert
add_containers m [] = m
add_containers m (c ∷ rest) = add_containers (insert c.name c.image m) rest

unfoldable pub convert_container_slice_to_map : CoreComponent → Dict String
unfolding add_containers
convert_container_slice_to_map c = add_containers [] c.containers

pub record KubernetesDistribution : Type 0 where
  pub version : String
  pub core_components : List CoreComponent

pub record Kubernetes : Type 0 where
  pub k3s : KubernetesDistribution
  pub rke2 : KubernetesDistribution

pub record OperatingSystem : Type 0 where
  pub version : String
  pub zypper_id : String
  pub cpe_scheme : String
  pub supported_archs : List Arch
  pub pretty_name : String

pub record Components : Type 0 where
  pub kubernetes : Kubernetes
  pub operating_system : OperatingSystem
  -- `Workloads.Helm`
  pub helm : List HelmChart

pub record ReleaseManifestSpec : Type 0 where
  pub release_version : String
  pub components : Components

pub record ReleaseManifest : Type 0 where
  pub metadata : ObjectMeta
  pub spec : ReleaseManifestSpec
