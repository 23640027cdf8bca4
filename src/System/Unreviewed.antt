-- ===== src/System/Unreviewed.antt =====
-- An update that keeps a pending shutdown command, through both webhooks to the workloads:
-- internal/webhook/shutdowngroup_webhook.go and internal/controller/shutdowngroup_controller.go.
use kshutdown.Base.{
  String, ◌≡◌, ◌∙◌, ap, subst, true, false, [], map, Result, ok, is_empty, some, arith, ◌==◌,
}
use kshutdown.Base.GoMap.{index}
use kshutdown.Api.{ShutdownGroup, Timestamp, annotation_command, command_down, state_down}
use kshutdown.Api.Client.{Client, IsLawful}
use kshutdown.Authz.{Check, IsFaithful}
use kshutdown.Targets.{targeted}
use kshutdown.Controller.Collect.{snapshot_of, partial_mode}
use kshutdown.Controller.Workloads.Down.{AllOff}
use kshutdown.Controller.Reconcile.Shutdown.{begun-fresh}
use kshutdown.Webhook.{AdmissionRequest, operation_update, asks_partial, default, validate_update}
use kshutdown.Webhook.Update.{default-validate_update}
use kshutdown.System.Invariant.{Accounts-fresh}
use kshutdown.System.Progress.{IsDone, reconcile-IsDone_down}
use kshutdown.System.Unmutated.{full-expected_snapshot}

module _ (C : Client) (MayFail : Type 0) (L : IsLawful C MayFail) (reliable : MayFail → ⊥)
    (check check' : Check C) (F' : IsFaithful C MayFail check') (req : AdmissionRequest)
    (now : Timestamp) (ns name : String) (old new : ShutdownGroup) (s t : C.State) where
  -- Where calls do not fail: let a user update an object that has a pending shutdown command to one
  -- that keeps the command, with any targets and any other annotations but no partial mode. Then,
  -- whoever the user is and whatever the authorizer answers, the mutator leaves the update as it is and
  -- the validator admits it without a review or a warning. And once it is stored, without a snapshot
  -- and neither down nor being deleted, one run of Reconcile returns without an error, leaves the group
  -- down without a command, and shuts down every workload that the new targets select.
  pub unreviewed-IsFull :
      (decode : String → Result ShutdownGroup)
      → req.operation ≡ operation_update
      → (req.old_object == "") ≡ false
      → decode req.old_object ≡ ok old
      → index old.annotations annotation_command ≡ command_down
      → index new.annotations annotation_command ≡ command_down
      → asks_partial new ≡ false
      → (C.world t).group ns name ≡ some new
      → new.deleting ≡ false
      → is_empty new.status.snapshot ≡ true
      → (new.status.state == state_down) ≡ false
      → (default decode (ok req) new ≡ (ok tt, new))
        × (validate_update C check (ok req) old new s ≡ (ok [], s))
        × IsDone C MayFail L check' F' reliable now ns name (C.world t) t new state_down (λ g s'.
          AllOff (map snapshot_of (targeted (C.world t) new.namespace new.targets)) (C.world s'))
  unreviewed-IsFull decode update raw decoded pending down full there present fresh not_down =
      let (mutated, admitted) =
        default-validate_update C check decode req old new s update raw decoded
          (cc (pending, down)) in
      let (s', g, ran, stored, state, idle, (off, _, snap)) =
        reconcile-IsDone_down C MayFail L check' F' reliable now ns name (C.world t) t new there
          present (Accounts-fresh (C.world t) new.status.snapshot fresh) down not_down in
      (
        mutated,
        admitted,
        (
          s',
          g,
          ran,
          stored,
          state,
          idle,
          subst (λ es. AllOff es (C.world s'))
              (snap
                ∙ ap (λ h. h.status.snapshot) (begun-fresh (C.world t) new fresh)
                ∙ full-expected_snapshot (C.world t) new not_partial)
              off,
        ),
      )
    where
      not_partial : partial_mode new ≡ false
      not_partial = ground (arith, full)
