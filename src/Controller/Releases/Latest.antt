-- ===== src/Controller/Releases/Latest.antt =====
-- Which release of a chart counts as the installed one.
use upgrade_controller.Prelude.{
  ℕ, ◌≤◌, String, ◌≡◌, ◌⊎◌, refl, sym, List, [], ◌∷◌, All, inl, inr, arith,
}
use mathlib.Core.Path.{subst}
use upgrade_controller.Errors.{ok, in_context, >>=-eq-ok}
use upgrade_controller.Controller.Env.{Env, HelmRelease}
use upgrade_controller.Controller.Releases.{
  new_helm_client, latest_of, first_release, retrieve_helm_release,
}

abbrev pub IsIn : HelmRelease → List HelmRelease → Type 0
IsIn r [] = ⊥
IsIn r (first ∷ rest) = (first ≡ r) ⊎ IsIn r rest

-- each revision is at least those behind it
abbrev pub IsDescending : List HelmRelease → Type 0
IsDescending [] = Unit
IsDescending (r ∷ rest) = All (λ other. other.version ≤ r.version) rest × IsDescending rest

-- `helmutil.Reverse(releases, helmutil.SortByRevision)` keeps the releases, the latest revision
-- first.
pub record RevisionLaws (e : Env) : Type 0 where
  pub kept :
      (r : HelmRelease) (rs : List HelmRelease) → IsIn r (e.reverse_by_revision rs) → IsIn r rs
  pub all_kept :
      (r : HelmRelease) (rs : List HelmRelease) → IsIn r rs → IsIn r (e.reverse_by_revision rs)
  pub descending : (rs : List HelmRelease) → IsDescending (e.reverse_by_revision rs)

member_below :
    (n : ℕ) (r : HelmRelease) (rest : List HelmRelease)
    → All (λ other. other.version ≤ n) rest
    → IsIn r rest
    → r.version ≤ n
member_below n r [] all_below nothing = elim nothing [ ]
member_below n r (next ∷ rest) (low, others) (inl same) = rw (← same) low
member_below n r (next ∷ rest) (low, others) (inr later) = member_below n r rest others later

below :
    (first r : HelmRelease) (rest : List HelmRelease)
    → IsDescending (first ∷ rest)
    → IsIn r (first ∷ rest)
    → r.version ≤ first.version
below first r rest (highest, behind) (inl same) = rw same (ground arith)
below first r rest (highest, behind) (inr later) = member_below first.version r rest highest later

-- The release is one of these, of the highest revision.
pub record IsLatest (r : HelmRelease) (rs : List HelmRelease) : Type 0 where
  pub member : IsIn r rs
  pub highest : (other : HelmRelease) → IsIn other rs → other.version ≤ r.version

module _ (e : Env) (laws : RevisionLaws e) where
  first-IsLatest :
      (rs sorted : List HelmRelease) (r : HelmRelease)
      → e.reverse_by_revision rs ≡ sorted
      → first_release sorted ≡ ok r
      → IsLatest r rs
  first-IsLatest rs [] r q h = cc
  first-IsLatest rs (first ∷ rest) r q h =
      let same : first ≡ r = cc in
      let sorted : IsDescending (first ∷ rest) =
        subst (λ xs. IsDescending xs) q (laws.descending rs) in
      rw (← same) (record {
        member = laws.kept first rs (subst (λ xs. IsIn first xs) (sym q) (inl refl));
        highest = λ other is_in.
            let is_sorted : IsIn other (first ∷ rest) =
              subst (λ xs. IsIn other xs) q (laws.all_kept other rs is_in) in
            below first other rest sorted is_sorted;
      })

  latest_of-IsLatest :
      (w : e.World) (rs : List HelmRelease) (r : HelmRelease)
      → latest_of e w rs ≡ ok r
      → IsLatest r rs
  latest_of-IsLatest w [] r h = cc
  latest_of-IsLatest w (first ∷ rest) r h = first-IsLatest (first ∷ rest) _ r refl h

-- Where retrieveHelmRelease finds a release, it is one of the name's history and has the highest
-- revision of all in it, in whatever order the storage returns them. Helm sorts by revision as
-- documented.
pub retrieve_helm_release-IsLatest :
    (e : Env) (laws : RevisionLaws e) (w : e.World) (name : String) (r : HelmRelease)
    → retrieve_helm_release e w name ≡ ok r
    → (rs : List HelmRelease) × (e.history name w ≡ ok rs) × IsLatest r rs
unfolding retrieve_helm_release
retrieve_helm_release-IsLatest e laws w name r h =
    let (u, client, h1) = >>=-eq-ok (in_context _ (new_helm_client e w)) _ h in
    let (rs, listed, h2) = >>=-eq-ok (e.history name w) _ h1 in
    (rs, listed, latest_of-IsLatest e laws w rs r h2)
