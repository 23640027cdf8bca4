-- ===== src/System/Unmutated.antt =====
-- A partial shutdown of an object that the mutator has not seen, as its failurePolicy=Ignore allows:
-- internal/webhook/shutdowngroup_webhook.go and internal/controller/shutdowngroup_controller.go.
use kshutdown.Base.{
  String, ◌≡◌, refl, ◌∙◌, ap, subst, ◌⊎◌, inl, inr, true, false, List, [], ◌∷◌, map, All, Any,
  Result, ok, err, Ensures, is_empty, select, some, arith, ◌==◌,
}
use kshutdown.Base.GoMap.{index}
use kshutdown.Api.{
  ShutdownGroup, Timestamp, annotation_command, annotation_operator, annotation_operator_groups,
  command_down, state_down,
}
use kshutdown.Api.Client.{Client, World, IsLawful}
use kshutdown.Authz.{Check, IsFaithful}
use kshutdown.Targets.{targeted}
use kshutdown.Controller.Collect.{snapshot_of, parse_groups, partial_mode}
use kshutdown.Controller.Collect.Laws.{takes, expected_snapshot}
use kshutdown.Controller.Workloads.Down.{AllOff}
use kshutdown.Controller.Reconcile.Shutdown.{begun-fresh}
use kshutdown.Webhook.{AdmissionRequest, Warning, asks_partial, validate_create}
use kshutdown.Webhook.Admission.{select-true}
use kshutdown.Webhook.Counts.{Answers, down_answers}
use kshutdown.Webhook.Gate.{IsPermitted, IsForbidden, Passes, Stops, validate_create_lem}
use kshutdown.System.Invariant.{Accounts-fresh}
use kshutdown.System.Progress.{IsDone, reconcile-IsDone_down}

not_all : (xs : Answers) → Any IsPermitted xs → All IsForbidden xs → ⊥
not_all [] some_of all = some_of
not_all (x ∷ xs) (inl permitted) all = cc (permitted, all.0)
not_all (x ∷ xs) (inr later) all = not_all xs later all.1

-- Outside partial mode the controller collects all that the targets select.
pub full-expected_snapshot :
    (w : World) (sg : ShutdownGroup)
    → partial_mode sg ≡ false
    → expected_snapshot w sg ≡ map snapshot_of (targeted w sg.namespace sg.targets)
full-expected_snapshot w sg full =
    ap
      (λ p. map snapshot_of (
        select
          (takes w p (index sg.annotations annotation_operator)
            (parse_groups (index sg.annotations annotation_operator_groups)))
          (targeted w sg.namespace sg.targets)))
      full
    ∙ ap (map snapshot_of) (select-true (targeted w sg.namespace sg.targets))

-- Without the operator's name there is no partial mode.
unnamed-full :
    (sg : ShutdownGroup) → index sg.annotations annotation_operator ≡ "" → partial_mode sg ≡ false
unnamed-full sg unnamed = ground (arith, ap (λ t. t == "") unnamed)

module _ (C : Client) (MayFail : Type 0) (L : IsLawful C MayFail) (reliable : MayFail → ⊥)
    (check check' : Check C) (F : IsFaithful C MayFail check) (F' : IsFaithful C MayFail check')
    (req : AdmissionRequest) (now : Timestamp) (ns name : String) (sg : ShutdownGroup)
    (s : C.State) where
  admitted :
      index sg.annotations annotation_command ≡ command_down
      → asks_partial sg ≡ true
      → Any IsPermitted (down_answers (C.world s) req sg)
      → (warnings : List Warning) × (t : C.State) × (validate_create C check (ok req) sg s
          ≡ (ok warnings, t))
  admitted down partial some_of =
      go (validate_create C check (ok req) sg s) refl
        (rw down at (validate_create_lem C MayFail L check F req sg s))
    where
      go :
          (x : Result (List Warning) × C.State)
          → validate_create C check (ok req) sg s ≡ x
          → Ensures
              (λ warnings s'.
                (C.world s' ≡ C.world s)
                × ((((command_down == "") ≡ true) × (warnings ≡ []))
                    ⊎ Passes (C.world s) req command_down sg warnings))
              (λ s'. (C.world s' ≡ C.world s) × (MayFail ⊎ Stops (C.world s) req command_down sg))
              x
          → (warnings : List Warning) × (t : C.State) × (validate_create C check (ok req) sg s
              ≡ (ok warnings, t))
      go (ok warnings, t) ran h = (warnings, t, ran)
      go (err e, t) ran h = elim h.1 [
        | inl failed ↦ absurd (reliable failed)
        | inr (inl unknown) ↦ absurd (cc unknown.0)
        | inr (inr (_, inl full)) ↦ absurd (cc (full, partial))
        | inr (inr (_, inr (inl not_down))) ↦ absurd (cc not_down)
        | inr (inr (_, inr (inr all))) ↦
            absurd (not_all (down_answers (C.world s) req sg) some_of all)
      ]

  -- Where calls do not fail: let a stored object ask for a partial shutdown, without an operator
  -- annotation, as the mutator leaves it when it is not reached; the object has no snapshot, and is
  -- neither down nor being deleted. If the request's user may patch one of the targeted workloads,
  -- the validator admits the object, and a run of Reconcile shuts down every targeted workload, those
  -- that the user may not patch included.
  pub unmutated-IsFull :
      (C.world s).group ns name ≡ some sg
      → sg.deleting ≡ false
      → is_empty sg.status.snapshot ≡ true
      → (sg.status.state == state_down) ≡ false
      → index sg.annotations annotation_command ≡ command_down
      → index sg.annotations annotation_operator ≡ ""
      → asks_partial sg ≡ true
      → Any IsPermitted (down_answers (C.world s) req sg)
      → ((warnings : List Warning) × (t : C.State) × (validate_create C check (ok req) sg s
            ≡ (ok warnings, t)))
        × IsDone C MayFail L check' F' reliable now ns name (C.world s) s sg state_down (λ g s'.
          AllOff (map snapshot_of (targeted (C.world s) sg.namespace sg.targets)) (C.world s'))
  unmutated-IsFull there present fresh not_down down unnamed partial some_of =
      let (s', g, ran, stored, state, idle, (off, _, snap)) =
        reconcile-IsDone_down C MayFail L check' F' reliable now ns name (C.world s) s sg there
          present (Accounts-fresh (C.world s) sg.status.snapshot fresh) down not_down in
      (
        admitted down partial some_of,
        (
          s',
          g,
          ran,
          stored,
          state,
          idle,
          subst (λ es. AllOff es (C.world s'))
              (snap
                ∙ ap (λ h. h.status.snapshot) (begun-fresh (C.world s) sg fresh)
                ∙ full-expected_snapshot (C.world s) sg (unnamed-full sg unnamed))
              off,
        ),
      )
