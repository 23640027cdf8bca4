-- ===== src/Controller/Workloads.antt =====
-- `scaleToZero`, `suspendCronJob`, `restoreReplicas`, `unsuspendCronJob`, and the loops of
-- `reconcileDown` and `reconcileUp` that call them for each entry of the snapshot.
pub mod Levels
pub mod Calls
pub mod Down
pub mod Up
pub mod Restore
use kshutdown.Base.{
  String, ◌<>◌, ◌==◌, eqb, if◌then◌else◌, Bool, true, false, Option, none, some, List, [], ◌∷◌,
  Effect, pure, context, ◌>>=◌, ◌>>◌,
}
use kshutdown.Api.{Int32, ResourceSnapshot}
use kshutdown.Api.Client.{Client, Resource, Scaled, scaled, cronjob, deployment, statefulset, ref}

-- `obj.Spec.Replicas != nil && *obj.Spec.Replicas == n`
abbrev pub at_replicas : Option Int32 → Int32 → Bool
at_replicas none n = false
at_replicas (some m) n = eqb m n

-- `obj.Spec.Suspend != nil && *obj.Spec.Suspend`
abbrev pub is_suspended : Option Bool → Bool
is_suspended none = false
is_suspended (some b) = b

abbrev pub key_text : ResourceSnapshot → String
key_text e = e.namespace <> "/" <> e.name

module _ (C : Client) where
  -- One case of the switch in `scaleToZero` and `restoreReplicas`: get the object, and patch its
  -- replicas if they differ. `getting` and `patching` are the texts of the two errors.
  unfoldable pub set_replicas :
      String → String → Scaled → ResourceSnapshot → Int32 → Effect C.State (Unit {0})
  set_replicas getting patching k e n = do
    obj ← context getting (C.get (ref (scaled k) e.namespace e.name))
    if at_replicas obj n
        then pure tt
        else context patching (C.patch (ref (scaled k) e.namespace e.name) obj (some n))

  unfoldable pub scale_to_zero : ResourceSnapshot → Effect C.State (Unit {0})
  unfolding set_replicas
  scale_to_zero e =
      if e.kind == "Deployment"
      then set_replicas ("getting deployment " <> key_text e)
          ("scaling deployment " <> key_text e <> " to 0") deployment e 0
      else (if e.kind == "StatefulSet"
          then set_replicas ("getting statefulset " <> key_text e)
              ("scaling statefulset " <> key_text e <> " to 0") statefulset e 0
          else pure tt)

  unfoldable pub suspend_cronjob : ResourceSnapshot → Effect C.State (Unit {0})
  suspend_cronjob e = do
    obj ← context ("getting cronjob " <> key_text e) (C.get (ref cronjob e.namespace e.name))
    if is_suspended obj
        then pure tt
        else context ("suspending cronjob " <> key_text e)
            (C.patch (ref cronjob e.namespace e.name) obj (some true))

  unfoldable pub restore_replicas : ResourceSnapshot → Effect C.State (Unit {0})
  unfolding set_replicas
  restore_replicas e =
      if e.kind == "Deployment"
      then set_replicas ("getting deployment " <> key_text e)
          ("restoring replicas for deployment " <> key_text e) deployment e e.previous_replicas
      else (if e.kind == "StatefulSet"
          then set_replicas ("getting statefulset " <> key_text e)
              ("restoring replicas for statefulset " <> key_text e) statefulset e
              e.previous_replicas
          else pure tt)

  -- The call after the early return of `unsuspendCronJob`.
  unfoldable pub unsuspend : ResourceSnapshot → Effect C.State (Unit {0})
  unsuspend e = do
    obj ← context ("getting cronjob " <> key_text e) (C.get (ref cronjob e.namespace e.name))
    if is_suspended obj
        then context ("unsuspending cronjob " <> key_text e)
            (C.patch (ref cronjob e.namespace e.name) obj (some false))
        else pure tt

  unfoldable pub unsuspend_cronjob : ResourceSnapshot → Effect C.State (Unit {0})
  unfolding unsuspend
  unsuspend_cronjob e = if eqb e.previous_replicas 0 then unsuspend e else pure tt

  -- One round of the loop of `reconcileDown`.
  unfoldable pub scale_entry : ResourceSnapshot → Effect C.State (Unit {0})
  unfolding scale_to_zero suspend_cronjob
  scale_entry e =
      if e.kind == "CronJob"
      then context ("suspending " <> key_text e) (suspend_cronjob e)
      else context ("scaling " <> e.kind <> " " <> key_text e <> " to zero") (scale_to_zero e)

  unfoldable pub scale_all : List ResourceSnapshot → Effect C.State (Unit {0})
  unfolding scale_entry
  scale_all [] = pure tt
  scale_all (e ∷ es) = scale_entry e >> scale_all es

  -- One round of the loop of `reconcileUp`.
  unfoldable pub restore_entry : ResourceSnapshot → Effect C.State (Unit {0})
  unfolding restore_replicas unsuspend_cronjob
  restore_entry e =
      if e.kind == "CronJob"
      then context ("unsuspending " <> key_text e) (unsuspend_cronjob e)
      else context ("restoring " <> e.kind <> " " <> key_text e) (restore_replicas e)

  unfoldable pub restore_all : List ResourceSnapshot → Effect C.State (Unit {0})
  unfolding restore_entry
  restore_all [] = pure tt
  restore_all (e ∷ es) = restore_entry e >> restore_all es
