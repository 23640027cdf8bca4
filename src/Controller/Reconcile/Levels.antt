-- ===== src/Controller/Reconcile/Levels.antt =====
-- The snapshot that `collectTargets` takes holds the levels of the world at that moment.
use mathlib.Core.Option.{some-injective}
use kshutdown.Base.{
  ◌≡◌, refl, ◌∙◌, sym, ap, subst, Bool, Bool-cases, inl, inr, some, List, [], ◌∷◌, map, select, All,
}
use kshutdown.Api.{ShutdownGroup}
use kshutdown.Api.Client.{
  Client, World, IsLawful, Resource, scaled, deployment, statefulset, cronjob, ref,
}
use kshutdown.Targets.{Workload, targeted, kind_of}
use kshutdown.Targets.Laws.{IsPresent, targeted-IsPresent}
use kshutdown.Controller.Collect.{snapshot_of}
use kshutdown.Controller.Collect.Laws.{expected_snapshot}
use kshutdown.Controller.Workloads.Levels.{level, level_of, entry_ref}
use kshutdown.Controller.Workloads.Up.{Captured, IsCaptured}

-- An entry names the workload that it was made from.
pub entry_ref-snapshot_of :
    (x : Workload) → entry_ref (snapshot_of x) ≡ some (ref x.resource x.namespace x.item.name)
entry_ref-snapshot_of x = go x.resource
  where
    go :
        (k : Resource)
        → entry_ref (record (snapshot_of x) { kind = kind_of k })
          ≡ some (ref k x.namespace x.item.name)
    go (scaled deployment) = refl
    go (scaled statefulset) = refl
    go cronjob = refl

snapshot_of-IsCaptured : (w : World) (x : Workload) → IsPresent w x → IsCaptured w (snapshot_of x)
snapshot_of-IsCaptured w x present r names =
    subst (λ q. level w q ≡ some (snapshot_of x).previous_replicas)
      (some-injective _ r (sym (entry_ref-snapshot_of x) ∙ names))
      (ap (level_of x.resource) present)

Captured-select :
    (w : World) (p : Workload → Bool) (xs : List Workload)
    → All (IsPresent w) xs
    → Captured w (map snapshot_of (select p xs))
Captured-select w p [] h = tt
Captured-select w p (x ∷ xs) h = elim (Bool-cases (p x)) [
  | inl taken ↦ rw taken (snapshot_of-IsCaptured w x h.0, Captured-select w p xs h.1)
  | inr skipped ↦ rw skipped (Captured-select w p xs h.1)
]

pub expected_snapshot-Captured :
    (C : Client) (MayFail : Type 0)
    → IsLawful C MayFail
    → (s : C.State) (sg : ShutdownGroup) → Captured (C.world s) (expected_snapshot (C.world s) sg)
expected_snapshot-Captured C MayFail L s sg =
    Captured-select (C.world s) _ (targeted (C.world s) sg.namespace sg.targets)
      (targeted-IsPresent C MayFail L s sg.namespace sg.targets)
