-- ===== src/Controller/Workloads/Levels.antt =====
-- The level at which a workload runs, in the snapshot's encoding, and the workload that an entry
-- of the snapshot names.
use kshutdown.Base.{◌≡◌, refl, ◌⊎◌, inr, ◌==◌, if◌then◌else◌, true, Option, none, some}
use kshutdown.Api.{Int32, ResourceSnapshot}
use kshutdown.Api.Client.{
  World, Resource, scaled, cronjob, deployment, statefulset, Spec, Ref, ref, Patched,
}
use kshutdown.Controller.Collect.{previous_replicas}

-- The replicas with the default 1, or 1 for a suspended CronJob and 0 for an active one.
abbrev pub level_of : (k : Resource) → Option (Spec k) → Option Int32
level_of k none = none
level_of k (some v) = some (previous_replicas k v)

abbrev pub level : World → Ref → Option Int32
level w r = level_of r.resource (w.spec r)

-- The value of a workload that is shut down.
abbrev pub off : (k : Resource) → Spec k
off (scaled _) = some 0
off cronjob = some true

abbrev pub IsOff : World → Ref → Type 0
IsOff w r = w.spec r ≡ some (off r.resource)

-- The workload that an entry names, if its kind is one of the three.
abbrev pub entry_ref : ResourceSnapshot → Option Ref
entry_ref e =
    if e.kind == "CronJob"
    then some (ref cronjob e.namespace e.name)
    else (if e.kind == "Deployment"
        then some (ref (scaled deployment) e.namespace e.name)
        else (if e.kind == "StatefulSet"
            then some (ref (scaled statefulset) e.namespace e.name)
            else none))

abbrev pub Names : Ref → ResourceSnapshot → Type 0
Names r e = entry_ref e ≡ some r

-- An entry whose workload is not in the world.
abbrev pub IsMissing : World → ResourceSnapshot → Type 0
IsMissing w e = (r : Ref) × Names r e × (w.spec r ≡ none)

-- A change of one workload at most.
pub record Touches (r : Ref) (w w' : World) : Type 0 where
  pub others : (q : Ref) → (q ≡ r) ⊎ (w'.spec q ≡ w.spec q)
  pub group_same : w'.group ≡ w.group
  pub allowed_same : w'.allowed ≡ w.allowed

pub Touches-refl : (r : Ref) {w w' : World} → w' ≡ w → Touches r w w'
Touches-refl r h = record {
  others = λ q. inr (rw h refl);
  group_same = rw h refl;
  allowed_same = rw h refl;
}

pub Touches-of-Patched :
    {r : Ref} {v : Spec r.resource} {w w' : World} → Patched r v w w' → Touches r w w'
Touches-of-Patched p = record {
  others = p.others;
  group_same = p.group_same;
  allowed_same = p.allowed_same;
}
