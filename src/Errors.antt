-- ===== src/Errors.antt =====
-- Go errors and panics as values: the sentinel errors of internal/controller, the API server's and
-- Helm's not-found errors, `fmt.Errorf` with and without `%w`, `errors.Join`, `errors.Is`.
use upgrade_controller.Prelude.{◌≡◌, refl, String, Bool, true, false, ◌||◌, Option, none, some}

pub data Error : Type 0 where
  -- an API status error with reason NotFound
  not_found : Error
  -- `helmdriver.ErrReleaseNotFound`
  release_not_found : Error
  -- `errUpgradeInProgress` and `errReleaseManifestNotFound`
  upgrade_in_progress release_manifest_not_found : Error
  -- any other error, by its message
  message : String → Error
  -- `fmt.Errorf("context: %w", err)`
  wrap : String → Error → Error
  -- `errors.Join(a, b)` of two errors
  join : Error → Error → Error

-- The outcome of a fallible call: `(value, nil)`, `(_, err)`, or a panic.
pub data Result {ℓ} (A : Type ℓ) : Type ℓ where
  panic : (text : String) → Result A
  ok : (value : A) → Result A
  err : (error : Error) → Result A

infixl 5 ◌>>=◌
abbrev pub ◌>>=◌ {ℓ κ} : {A : Type ℓ} {B : Type κ} → Result A → (A → Result B) → Result B
panic text >>= next = panic text
err error >>= next = err error
ok value >>= next = next value

-- `if err != nil { return fmt.Errorf("context: %w", err) }`
abbrev pub in_context {ℓ} : {A : Type ℓ} → String → Result A → Result A
in_context c (ok a) = ok a
in_context c (err e) = err (wrap c e)
in_context c (panic p) = panic p

-- `apierrors.IsNotFound`, which looks through wrapped errors
abbrev pub is_not_found : Error → Bool
is_not_found not_found = true
is_not_found (wrap c e) = is_not_found e
is_not_found (join e f) = is_not_found e || is_not_found f
is_not_found _ = false

-- `errors.Is(err, helmdriver.ErrReleaseNotFound)`
abbrev pub is_release_not_found : Error → Bool
is_release_not_found release_not_found = true
is_release_not_found (wrap c e) = is_release_not_found e
is_release_not_found (join e f) = is_release_not_found e || is_release_not_found f
is_release_not_found _ = false

-- `errors.Is(err, errUpgradeInProgress)`
abbrev pub is_upgrade_in_progress : Error → Bool
is_upgrade_in_progress upgrade_in_progress = true
is_upgrade_in_progress (wrap c e) = is_upgrade_in_progress e
is_upgrade_in_progress (join e f) = is_upgrade_in_progress e || is_upgrade_in_progress f
is_upgrade_in_progress _ = false

-- `errors.Is(err, errReleaseManifestNotFound)`
abbrev pub is_release_manifest_not_found : Error → Bool
is_release_manifest_not_found release_manifest_not_found = true
is_release_manifest_not_found (wrap c e) = is_release_manifest_not_found e
is_release_manifest_not_found (join e f) =
    is_release_manifest_not_found e || is_release_manifest_not_found f
is_release_manifest_not_found _ = false

-- `errors.Join(a, b)`, where `none` is nil
abbrev pub join_errors : Option Error → Option Error → Option Error
join_errors none b = b
join_errors (some a) none = some a
join_errors (some a) (some b) = some (join a b)

-- A bind that succeeds had a success before it.
pub >>=-eq-ok {ℓ κ} :
    {A : Type ℓ} {B : Type κ} {answer : B} (first : Result A) (next : A → Result B)
    → (first >>= next) ≡ ok answer
    → (value : A) × (first ≡ ok value) × (next value ≡ ok answer)
>>=-eq-ok (panic text) next done = cc
>>=-eq-ok (err error) next done = cc
>>=-eq-ok (ok value) next done = (value, refl, done)

pub ok_of_in_context {ℓ} :
    {A : Type ℓ} (c : String) (m : Result A) {a : A} → in_context c m ≡ ok a → m ≡ ok a
ok_of_in_context c (ok a) h = h
ok_of_in_context c (err e) h = cc
ok_of_in_context c (panic p) h = cc
