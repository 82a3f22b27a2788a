-- ===== src/Controller/ReleaseManifest/Attempts.antt =====
-- How often the creation of the release manifest's job is tried.
use upgrade_controller.Prelude.{ℕ, zero, suc, ◌≤◌, ◌<◌, ◌≡◌, refl, ◌∙◌, ap, List, ◌∷◌, arith}
use upgrade_controller.Errors.{Result, ok, err, panic}
use upgrade_controller.Kube.{Object, Job, job}
use upgrade_controller.Upgrade.Base.{plan_identifier_labels}
use upgrade_controller.Upgrade.ReleaseManifest.{release_manifest_install_job}
use upgrade_controller.Controller.Env.{Env}
use upgrade_controller.Controller.Effects.{Call, created, State, effects, create_object}
use upgrade_controller.Controller.Effects.Changes.{changes, changes-create_object}
use upgrade_controller.Controller.Effects.Keeps.{RetryLaws, attempts, again}
use upgrade_controller.Controller.ReleaseManifest.{manifest_image, create_release_manifest}

-- the call, `n` times, in front of the earlier ones
abbrev pub repeated : ℕ → Call → List Call → List Call
repeated zero call calls = calls
repeated (suc n) call calls = call ∷ repeated n call calls

repeated-last :
    (n : ℕ) (call : Call) (calls : List Call)
    → repeated n call (call ∷ calls) ≡ repeated (suc n) call calls
repeated-last zero call calls = refl
repeated-last (suc n) call calls = ap (λ later. call ∷ later) (repeated-last n call calls)

module _ (e : Env) (o : Object) where
  -- Between one and `most` calls create the object, and nothing else is changed.
  pub record Tried (most : ℕ) (before after : State e.World) : Type 0 where
    pub count : ℕ
    pub some_lem : 0 < count
    pub bound : count ≤ most
    pub calls : changes after.trace ≡ repeated count (created o) (changes before.trace)

  attempts-Tried :
      (k : ℕ) (s : State e.World) → Tried (suc k) s (attempts k (create_object e o) s).1
  unfolding attempts
  attempts-Tried zero s = record {
    count = 1;
    some_lem = ground arith;
    bound = ground arith;
    calls = changes-create_object e o s;
  }
  attempts-Tried (suc k) s =
      go (create_object e o s) (changes-create_object e o s) (attempts-Tried k)
    where
      go :
          (r : Result (Unit {0}) × State e.World)
          → changes r.1.trace ≡ created o ∷ changes s.trace
          → ((after : State e.World) → Tried (suc k) after (attempts k (create_object e o) after).1)
          → Tried (suc (suc k)) s (again r (attempts k (create_object e o))).1
      go (ok u, after) q ih = record {
        count = 1;
        some_lem = ground arith;
        bound = ground arith;
        calls = q;
      }
      go (panic text, after) q ih = record {
        count = 1;
        some_lem = ground arith;
        bound = ground arith;
        calls = q;
      }
      go (err error, after) q ih =
          let t = ih after in
          record {
            count = suc t.count;
            some_lem = ground arith;
            bound = ground (arith, t.bound);
            calls =
                t.calls
                ∙ ap (repeated t.count (created o)) q
                ∙ repeated-last t.count (created o) (changes s.trace);
          }

-- Where the release manifest has to be installed, its job is built once and its creation is tried at
-- least once and at most five times, with the same job each time, and nothing else is changed.
-- `retry.OnError` makes at least one attempt and at most as many as it is given.
pub create_release_manifest-Tried :
    (e : Env) (retry : RetryLaws e) (s : State e.World) (o : Job)
    → release_manifest_install_job
        (manifest_image e s.plan)
        e.kubectl
        e.service_account
        s.plan.metadata.namespace
        (plan_identifier_labels s.plan.metadata.name s.plan.metadata.namespace)
      ≡ ok o
    → Tried e (job o) 5 s (create_release_manifest e s).1
unfolding effects create_release_manifest
create_release_manifest-Tried e retry s o built =
    let (k, few, same) = retry.attempts_lem 4 (State e.World) (create_object e (job o)) s in
    let t = attempts-Tried e (job o) k s in
    rw (built, same)
      (record {
        count = t.count;
        some_lem = t.some_lem;
        bound = ground (arith, t.bound);
        calls = t.calls;
      })
