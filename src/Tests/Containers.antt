-- ===== src/Tests/Containers.antt =====
-- Images of containers.
use upgrade_controller.Prelude.{
  String, ◌≡◌, ◌↔◌, refl, true, false, List, [], ◌∷◌, All, Dict, lookup, contains, cut_prefix,
}
use upgrade_controller.Kube.{Container}
use upgrade_controller.Upgrade.Container.{contains_container_images, count_containers}
use upgrade_controller.Upgrade.Container.Images.{
  HaveDistinctNames, has_container, Fits, contains_container_images_iff,
}

abbrev container : String → String → Container
container name image = record {
  name = name;
  image = image;
  command = [];
  args = [];
  volume_mounts = [];
}

abbrev pod : List Container
pod = container "coredns" "registry.example/coredns:1.11.1" ∷ container "sidecar" "sidecar:1" ∷ []

abbrev wanted : Dict String
wanted = ("coredns", "coredns:1.11.1") ∷ []

distinct : HaveDistinctNames pod
unfolding HaveDistinctNames
distinct = (refl, (refl, tt))

contains_container_images_iff_example :
    (contains_container_images pod wanted false ≡ true)
    ↔ (All (Fits false wanted) pod × All (λ entry. has_container pod entry.0 ≡ true) wanted)
unfolding lookup
contains_container_images_iff_example =
    contains_container_images_iff pod wanted false distinct (refl, tt)

container_tests :
    (contains_container_images pod wanted false ≡ true)
    × (contains_container_images pod wanted true ≡ false)
    × (contains_container_images pod (("other", "x") ∷ wanted) false ≡ false)
unfolding contains_container_images count_containers lookup contains cut_prefix
container_tests = (refl, refl, refl)

-- Two containers of one name make up for a name that is missing.
twice_for_missing :
    contains_container_images
      (container "a" "image" ∷ container "a" "image" ∷ [])
      (("a", "image") ∷ ("b", "image") ∷ [])
      true
    ≡ true
unfolding contains_container_images count_containers lookup
twice_for_missing = refl
