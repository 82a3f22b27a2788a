-- ===== src/Upgrade/Container/Images.antt =====
-- When a pod's containers have the images that are asked for.
use upgrade_controller.Prelude.{
  ℕ, ◌+◌, String, ◌≡◌, ◌↔◌, ◌∙◌, refl, Bool, true, false, ◌&&◌, Option, none, some, List, [], ◌∷◌,
  All, all, Dict, lookup, HasUniqueKeys, contains, contains_func, length, nat_eq, ◌==◌, eq_iff,
  eq_refl, arith, if◌then◌else◌, Bool-cases, inl, inr,
}
use upgrade_controller.Kube.{Container}
use upgrade_controller.Upgrade.Container.{image_ok, count_containers, contains_container_images}

-- No two containers have one name, as Kubernetes demands within a pod.
unfoldable pub HaveDistinctNames : List Container → Type 0
HaveDistinctNames [] = Unit
HaveDistinctNames (c ∷ rest) =
    (contains_func (λ d. d.name == c.name) rest ≡ false) × HaveDistinctNames rest

abbrev pub has_container : List Container → String → Bool
has_container containers name = contains_func (λ c. c.name == name) containers

abbrev fits_entry : Bool → String → Option String → Bool
fits_entry strict found none = true
fits_entry strict found (some image) = image_ok strict found image

abbrev fits : Bool → Dict String → Container → Bool
fits strict images c = fits_entry strict c.image (lookup c.name images)

-- the meaning of an image that is asked for
abbrev pub IsImage : Bool → String → String → Type 0
IsImage true found image = found ≡ image
IsImage false found image = contains found image ≡ true

abbrev pub FitsEntry : Bool → String → Option String → Type 0
FitsEntry strict found none = Unit
FitsEntry strict found (some image) = IsImage strict found image

-- a container that the map does not name, or whose image is the map's
abbrev pub Fits : Bool → Dict String → Container → Type 0
Fits strict images c = FitsEntry strict c.image (lookup c.name images)

abbrev plus_if : Option String → ℕ → ℕ
plus_if none n = n
plus_if (some image) n = n + 1

-- the number of containers that the map names
abbrev hits : List Container → Dict String → ℕ
hits [] images = 0
hits (c ∷ rest) images = plus_if (lookup c.name images) (hits rest images)

matched :
    (fit rest_fits : Bool) (n h total : ℕ) (counted : Bool)
    → counted ≡ (rest_fits && nat_eq ((n + 1) + h) total)
    → (elim fit [ false ↦ false | true ↦ counted ])
      ≡ ((fit && rest_fits) && nat_eq (n + (h + 1)) total)
matched false rest_fits n h total counted q = refl
matched true rest_fits n h total counted q = q ∙ ground arith

count_lem :
    (containers : List Container) (images : Dict String) (strict : Bool) (n : ℕ)
    → count_containers containers images strict n
      ≡ (all (fits strict images) containers && nat_eq (n + hits containers images) (length images))
unfolding count_containers
count_lem [] images strict n = ground arith
count_lem (c ∷ rest) images strict n =
    go (lookup c.name images) (count_lem rest images strict n)
      (count_lem rest images strict (n + 1))
  where
    rest_fits : Bool
    rest_fits = all (fits strict images) rest

    go :
        (o : Option String)
        → count_containers rest images strict n
          ≡ (rest_fits && nat_eq (n + hits rest images) (length images))
        → count_containers rest images strict (n + 1)
          ≡ (rest_fits && nat_eq ((n + 1) + hits rest images) (length images))
        → (elim o [
          | none ↦ count_containers rest images strict n
          | some image ↦ elim (image_ok strict c.image image) [
            | false ↦ false
            | true ↦ count_containers rest images strict (n + 1)
          ]
        ])
          ≡ ((fits_entry strict c.image o && rest_fits)
              && nat_eq (n + plus_if o (hits rest images)) (length images))
    go none h h' = h
    go (some image) h h' =
        matched (image_ok strict c.image image) rest_fits n (hits rest images) (length images) _ h'

-- the number of the map's names that no container has
abbrev missing : List Container → Dict String → ℕ
missing containers [] = 0
missing containers ((name, image) ∷ others) =
    if has_container containers name
    then missing containers others
    else missing containers others + 1

plus_if-if :
    (o : Option String) (b : Bool) (n : ℕ)
    → plus_if o (if b then n + 1 else n) ≡ (if b then plus_if o n + 1 else plus_if o n)
plus_if-if none true n = refl
plus_if-if none false n = refl
plus_if-if (some image) true n = refl
plus_if-if (some image) false n = refl

hits-nil : (containers : List Container) → hits containers [] ≡ 0
unfolding lookup
hits-nil [] = refl
hits-nil (c ∷ rest) = hits-nil rest

-- An entry more is one hit more if a container has its name.
hits-cons :
    (containers : List Container) (name image : String) (others : Dict String)
    → HaveDistinctNames containers
    → lookup name others ≡ none
    → hits containers ((name, image) ∷ others) ≡ (
        if has_container containers name
        then hits containers others + 1
        else hits containers others)
unfolding HaveDistinctNames lookup
hits-cons [] name image others d new = refl
hits-cons (c ∷ rest) name image others (first, d) new = elim (Bool-cases (name == c.name)) [
  | inl same ↦
      let q = (eq_iff name c.name).0 same in
      let new' : lookup c.name others ≡ none = rw q at new in
      rw (q, eq_refl c.name, new', hits-cons rest c.name image others d new', first) refl
  | inr other ↦
      let other' : (c.name == name) ≡ false =
        ground (arith, eq_iff name c.name, eq_iff c.name name) in
      rw (other, other', hits-cons rest name image others d new)
        (plus_if-if (lookup c.name others) (has_container rest name) (hits rest others))
]

hits_and_missing :
    (containers : List Container) (images : Dict String)
    → HaveDistinctNames containers
    → HasUniqueKeys images
    → hits containers images + missing containers images ≡ length images
hits_and_missing containers [] d u = rw (hits-nil containers) refl
hits_and_missing containers ((name, image) ∷ others) d (new, u) =
    ground
      (arith, hits-cons containers name image others d new, hits_and_missing containers others d u)

fits_entry_iff :
    (strict : Bool) (found : String) (o : Option String)
    → (fits_entry strict found o ≡ true) ↔ FitsEntry strict found o
fits_entry_iff strict found none = (λ h. tt, λ h. refl)
fits_entry_iff true found (some image) = eq_iff found image
fits_entry_iff false found (some image) = (λ h. h, λ h. h)

all-fits_iff :
    (strict : Bool) (images : Dict String) (containers : List Container)
    → (all (fits strict images) containers ≡ true) ↔ All (Fits strict images) containers
all-fits_iff strict images [] = ground arith
all-fits_iff strict images (c ∷ rest) =
    ground
      (arith, fits_entry_iff strict c.image (lookup c.name images), all-fits_iff strict images rest)

missing_iff :
    (containers : List Container) (images : Dict String)
    → (missing containers images ≡ 0)
      ↔ All (λ entry. has_container containers entry.0 ≡ true) images
missing_iff containers [] = ground arith
missing_iff containers ((name, image) ∷ others) = ground (arith, missing_iff containers others)

-- `ContainsContainerImages` is true exactly when every name of the map is a container's name, and
-- every container that the map names has the map's image: the same text where it is strict, and a
-- text that contains the map's otherwise. No two containers have one name, and the map has each key
-- once.
pub contains_container_images_iff :
    (containers : List Container) (images : Dict String) (strict : Bool)
    → HaveDistinctNames containers
    → HasUniqueKeys images
    → (contains_container_images containers images strict ≡ true) ↔ (
        All (Fits strict images) containers
        × All (λ entry. has_container containers entry.0 ≡ true) images)
unfolding contains_container_images
contains_container_images_iff containers images strict d u =
    rw (count_lem containers images strict 0) (
      ground (
        arith,
        all-fits_iff strict images containers,
        missing_iff containers images,
        hits_and_missing containers images d u,
      ))
