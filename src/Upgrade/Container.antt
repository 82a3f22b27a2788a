-- ===== src/Upgrade/Container.antt =====
-- internal/upgrade/container.go
pub mod Images
use upgrade_controller.Prelude.{
  ℕ, ◌+◌, String, Bool, true, false, none, some, List, [], ◌∷◌, ◌==◌, Dict, lookup, contains,
  length, nat_eq, if◌then◌else◌,
}
use upgrade_controller.Kube.{Container}

-- whether an image passes for the one that is asked for
abbrev pub image_ok : Bool → String → String → Bool
image_ok strict found image = if strict then found == image else contains found image

-- the loop over the containers, with `foundContainers`
unfoldable pub count_containers : List Container → Dict String → Bool → ℕ → Bool
count_containers [] images strict found_containers = nat_eq found_containers (length images)
count_containers (c ∷ rest) images strict found_containers = elim (lookup c.name images) [
  | none ↦ count_containers rest images strict found_containers
  | some image ↦ elim (image_ok strict c.image image) [
    | false ↦ false
    | true ↦ count_containers rest images strict (found_containers + 1)
  ]
]

unfoldable pub contains_container_images : List Container → Dict String → Bool → Bool
unfolding count_containers
contains_container_images containers images strict = count_containers containers images strict 0
