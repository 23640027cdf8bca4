-- ===== src/System/Triggered.antt =====
-- A shutdown from the plugin through the webhooks to the workloads: cmd/kubectl-kshutdown/down.go,
-- internal/webhook/shutdowngroup_webhook.go and internal/controller/shutdowngroup_controller.go.
use kshutdown.Base.{
  String, ◌≡◌, ◌∙◌, ap, subst, inl, inr, Bool, true, false, Bool-cases, some, List, map, All,
  Result, ok, is_empty, arith, ◌==◌,
}
use kshutdown.Base.GoMap.{index}
use kshutdown.Api.{
  ShutdownGroup, Timestamp, annotation_command, annotation_reason, annotation_operator,
  command_down, state_down,
}
use kshutdown.Api.Client.{Client, IsLawful}
use kshutdown.Authz.{Check, IsFaithful}
use kshutdown.Authz.Caller.{Caller, IsCaller}
use kshutdown.Targets.{targeted}
use kshutdown.Targets.Laws.{targeted-listing}
use kshutdown.Controller.Collect.{snapshot_of}
use kshutdown.Controller.Workloads.Down.{AllOff}
use kshutdown.Controller.Reconcile.Shutdown.{begun, begun-fresh}
use kshutdown.Webhook.{AdmissionRequest, Warning, default, validate_update}
use kshutdown.Webhook.Mutator.{IsPlain, Writes}
use kshutdown.Webhook.Admission.{permitted-expected_snapshot}
use kshutdown.Command.{Outcome, Flags, triggered, asking_down, down_found}
use kshutdown.Command.Sent.{Sends, down_found-Sends}
use kshutdown.Command.Admitted.{
  asking_down-command, asking_down-reason, asking_down-operator, IsAsked, down_found-IsAsked,
  down_found-validate_update,
}
use kshutdown.System.Invariant.{Accounts-fresh}
use kshutdown.System.Progress.{IsDone, reconcile-IsDone_down}

abbrev is_triggered : {S : Type 0} → Result Outcome × S → Bool
is_triggered (ok triggered, s) = true
is_triggered _ = false

-- The plugin triggers nothing for a group that is down.
triggered-not_down :
    (C : Client) (caller : Caller C) (flags : Flags) (ns name : String) (sg : ShutdownGroup)
    (s s' : C.State)
    → down_found C caller flags ns name sg s ≡ (ok triggered, s')
    → (sg.status.state == state_down) ≡ false
unfolding down_found
triggered-not_down C caller flags ns name sg s s' ran =
    elim (Bool-cases (sg.status.state == state_down)) [
      | inl down ↦ absurd (ground (arith, ap is_triggered (rw down at ran)))
      | inr up ↦ up
    ]

module _ (C : Client) (MayFail : Type 0) (L : IsLawful C MayFail) (reliable : MayFail → ⊥)
    (check check' : Check C) (F : IsFaithful C MayFail check) (F' : IsFaithful C MayFail check')
    (caller : Caller C) (req : AdmissionRequest)
    (K : IsCaller C MayFail caller req.username req.groups) (now : Timestamp) where
  -- The plugin's run ends with the patch of the object to the one that asks for a shutdown, with the
  -- reason and the user's name; the validator admits that object as the mutator leaves it, `new`; and a
  -- run of Reconcile returns without an error with all targeted workloads shut down.
  pub record IsCarriedOut (reason ns name : String) (sg new : ShutdownGroup) (s s' t : C.State)
      : Type 0 where
    sends : Sends C sg (asking_down reason req.username false sg) s s'
    asks :
        index (asking_down reason req.username false sg).annotations annotation_command
        ≡ command_down
    reasons :
        index (asking_down reason req.username false sg).annotations annotation_reason ≡ reason
    names :
        index (asking_down reason req.username false sg).annotations annotation_operator
        ≡ req.username
    warnings : List Warning
    reviewed : C.State
    admits : validate_update C check (ok req) sg new t ≡ (ok warnings, reviewed)
    done : IsDone C MayFail L check' F' reliable now ns name (C.world t) t new state_down (λ g s'.
        AllOff (map snapshot_of (targeted (C.world s) sg.namespace sg.targets)) (C.world s'))

  -- Where calls do not fail: let a shutdown of the plugin without --partial have triggered, for a group
  -- without a snapshot and with another command. Then it has sent the update that asks for a shutdown,
  -- with the reason and the user's name, and that update, as the mutator leaves it, is admitted; and once it is stored, and while the listings and the authorizer's answers are as
  -- the plugin saw them, one run of Reconcile returns without an error, leaves the group down without
  -- a command, and shuts down every workload that the targets selected for the plugin. The groups of
  -- the user are not empty texts and have no comma, and the group is not being deleted.
  pub down_found-IsCarriedOut :
      (decode : String → Result ShutdownGroup) (flags : Flags) (ns name : String)
      (sg new : ShutdownGroup) (s s' t : C.State)
      → flags.partial ≡ false
      → down_found C caller flags ns name sg s ≡ (ok triggered, s')
      → is_empty sg.status.snapshot ≡ true
      → All IsPlain req.groups
      → Writes decode req (asking_down flags.reason req.username false sg)
      → default decode (ok req) (asking_down flags.reason req.username false sg) ≡ (ok tt, new)
      → (command_down == index sg.annotations annotation_command) ≡ false
      → (C.world t).group ns name ≡ some new
      → new.deleting ≡ false
      → (C.world t).listing ≡ (C.world s).listing
      → (C.world t).allowed ≡ (C.world s).allowed
      → IsCarriedOut flags.reason ns name sg new s s' t
  down_found-IsCarriedOut decode flags ns name sg new s s' t full ran fresh plain writes mutated
        differs there present listing allowed =
      let (warnings, reviewed, admits) =
        down_found-validate_update C MayFail L reliable check F caller req K decode flags ns name
          req.username sg new s s' t full ran plain writes mutated differs listing allowed in
      let (s₁, g, ran', stored, state, idle, (off, _, snap)) =
        reconcile-IsDone_down C MayFail L check' F' reliable now ns name (C.world t) t new there
          present (Accounts-fresh (C.world t) new.status.snapshot empty) known.1
          (ap (λ st. st.state == state_down) known.0.status
            ∙ triggered-not_down C caller flags ns name sg s s' ran) in
      record {
        sends = down_found-Sends C MayFail L caller req K ns name sg s flags s' full ran;
        asks = asking_down-command flags.reason req.username sg;
        reasons = asking_down-reason flags.reason req.username sg;
        names = asking_down-operator flags.reason req.username sg;
        warnings = warnings;
        reviewed = reviewed;
        admits = admits;
        done = (
          s₁,
          g,
          ran',
          stored,
          state,
          idle,
          subst (λ es. AllOff es (C.world s₁)) (snap ∙ captures ∙ targets) off,
        );
      }
    where
      asked : ShutdownGroup
      asked = asking_down flags.reason req.username false sg

      known : IsAsked C MayFail L reliable check F caller req K asked new t
      known =
          down_found-IsAsked C MayFail L reliable check F caller req K decode flags ns name
            req.username sg new s s' t full ran plain writes mutated listing allowed

      empty : is_empty new.status.snapshot ≡ true
      empty = ap (λ st. is_empty st.snapshot) known.0.status ∙ fresh

      captures :
          (begun (C.world t) new).status.snapshot
          ≡ map snapshot_of (targeted (C.world t) new.namespace new.targets)
      captures =
          ap (λ g. g.status.snapshot) (begun-fresh (C.world t) new empty)
          ∙ permitted-expected_snapshot (C.world t) req asked new known.0 known.2

      targets :
          map snapshot_of (targeted (C.world t) new.namespace new.targets)
          ≡ map snapshot_of (targeted (C.world s) sg.namespace sg.targets)
      targets = ap (map snapshot_of) (
          targeted-listing (C.world s) (C.world t) new.namespace new.targets listing
          ∙ ap (λ own. targeted (C.world s) own new.targets) known.0.own
          ∙ ap (targeted (C.world s) sg.namespace) known.0.targets)
