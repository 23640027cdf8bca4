-- ===== src/System/Restarted.antt =====
-- A startup from the plugin through the webhooks to the workloads: cmd/kubectl-kshutdown/up.go,
-- internal/webhook/shutdowngroup_webhook.go and internal/controller/shutdowngroup_controller.go.
use kshutdown.Base.{
  String, ◌≡◌, refl, sym, ◌∙◌, ap, subst, inl, inr, Bool, false, Bool-cases, Option, none, some,
  List, [], ◌∷◌, All, Result, ok, is_empty, Ensures, Ensures-bind, Ensures-ok, ◌==◌,
}
use kshutdown.Base.GoMap.{index, insert, index-insert}
use kshutdown.Api.{
  ShutdownGroup, ResourceSnapshot, Timestamp, annotation_command, annotation_operator, command_up,
  state_up,
}
use kshutdown.Api.Client.{Client, World, IsLawful, Ref}
use kshutdown.Authz.{Check, IsFaithful}
use kshutdown.Authz.Caller.{Caller, IsCaller}
use kshutdown.Controller.Workloads.Up.{Settled}
use kshutdown.Webhook.{AdmissionRequest, Warning, default, validate_update, kind_attributes}
use kshutdown.Webhook.Mutator.{Identifies, IsPlain, Writes, default-Identifies}
use kshutdown.Webhook.Counts.{Answers, up_answers, entry_answers}
use kshutdown.Webhook.Gate.{IsPermitted, forbidden_of-cases}
use kshutdown.Webhook.Permission.{update_asks}
use kshutdown.Command.{
  Outcome, already_there, dry_run, triggered, asking_up, check_snapshot, up_found,
}
use kshutdown.Command.Laws.{check_snapshot_lem}
use kshutdown.Command.Full.{Ensures-all}
use kshutdown.Command.Sent.{Sends, up_found-Sends}
use kshutdown.Command.Admitted.{validate_command-permitted}
use kshutdown.System.Invariant.{Accounts}
use kshutdown.System.Progress.{IsDone, reconcile-IsDone_up}

-- The answers for the entries of a snapshot depend on the authorizer only.
entry_answers-same :
    (w w' : World) (req : AdmissionRequest) (e : ResourceSnapshot) (a : Option (String × String))
    (rest : Answers)
    → w'.allowed ≡ w.allowed
    → entry_answers w' req e a rest ≡ entry_answers w req e a rest
entry_answers-same w w' req e none rest same = refl
entry_answers-same w w' req e (some a) rest same = rw same refl

up_answers-same :
    (w w' : World) (req : AdmissionRequest) (es : List ResourceSnapshot)
    → w'.allowed ≡ w.allowed
    → up_answers w' req es ≡ up_answers w req es
up_answers-same w w' req [] same = refl
up_answers-same w w' req (e ∷ es) same =
    entry_answers-same w w' req e (kind_attributes e.kind) (up_answers w' req es) same
    ∙ ap (entry_answers w req e (kind_attributes e.kind)) (up_answers-same w w' req es same)

-- What a triggered startup has tested.
record IsTested (xs : Answers) (sg : ShutdownGroup) : Type 0 where
  permitted : All IsPermitted xs
  not_up : (sg.status.state == state_up) ≡ false
  has : is_empty sg.status.snapshot ≡ false

Tests : Answers → ShutdownGroup → Outcome → Type 0
Tests xs sg already_there = Unit
Tests xs sg dry_run = Unit
Tests xs sg triggered = IsTested xs sg

IsTested-Tests : (xs : Answers) (sg : ShutdownGroup) (o : Outcome) → IsTested xs sg → Tests xs sg o
unfolding Tests
IsTested-Tests xs sg already_there h = tt
IsTested-Tests xs sg dry_run h = tt
IsTested-Tests xs sg triggered h = h

-- The object that the plugin sends asks for a startup.
asking_up-command :
    (username : String) (sg : ShutdownGroup)
    → index (asking_up username sg).annotations annotation_command ≡ command_up
asking_up-command username sg =
    index-insert annotation_operator annotation_command username
      (insert annotation_command command_up sg.annotations)
    ∙ index-insert annotation_command annotation_command command_up sg.annotations

module _ (C : Client) (MayFail : Type 0) (L : IsLawful C MayFail) (reliable : MayFail → ⊥)
    (check check' : Check C) (F : IsFaithful C MayFail check) (F' : IsFaithful C MayFail check')
    (caller : Caller C) (req : AdmissionRequest)
    (K : IsCaller C MayFail caller req.username req.groups) where
  up_found-Tests :
      (dry : Bool) (ns name : String) (sg : ShutdownGroup) (s : C.State)
      → Ensures
          (λ o _. Tests (up_answers (C.world s) req sg.status.snapshot) sg o)
          (λ _. Unit {0})
          (up_found C caller dry ns name sg s)
  unfolding up_found Tests
  up_found-Tests dry ns name sg s = elim (Bool-cases (sg.status.state == state_up)) [
    | inl up ↦ rw up tt
    | inr not_up ↦ elim (Bool-cases (is_empty sg.status.snapshot)) [
      | inl none_left ↦ rw (not_up, none_left) tt
      | inr has ↦
          let xs = up_answers (C.world s) req sg.status.snapshot in
          rw (not_up, has)
            (Ensures-bind _ _ _ _ (check_snapshot C caller sg.status.snapshot [] s) _
              (check_snapshot_lem C MayFail L caller req K sg.status.snapshot s)
              (λ forbidden s' p. elim (forbidden_of-cases xs) [
                | inl (all, none_left) ↦
                    let tested : IsTested xs sg = record {
                      permitted = all;
                      not_up = not_up;
                      has = has;
                    } in
                    rw (p.1, none_left)
                      (Ensures-all (Tests xs sg) _ (λ o. IsTested-Tests xs sg o tested))
                | inr (some_left, has) ↦ rw (p.1, has) tt
              ])
              (λ _ _. tt))
    ]
  ]

  -- The plugin's run ends with the patch of the object to the one that asks for a startup, with the
  -- user's name; the validator admits that object as the mutator leaves it, `new`; and a run of
  -- Reconcile returns without an error with every workload at its level in `w₀`.
  pub record IsRestarted (now : Timestamp) (ns name : String) (w₀ : World) (sg new : ShutdownGroup)
      (s s' t : C.State) : Type 0 where
    sends : Sends C sg (asking_up req.username sg) s s'
    asks : index (asking_up req.username sg).annotations annotation_command ≡ command_up
    names : index (asking_up req.username sg).annotations annotation_operator ≡ req.username
    warnings : List Warning
    reviewed : C.State
    admits : validate_update C check (ok req) sg new t ≡ (ok warnings, reviewed)
    done :
        IsDone C MayFail L check' F' reliable now ns name w₀ t new state_up
          (λ g s'. (r : Ref) → Settled w₀ (C.world s') r)

  -- Where calls do not fail: let a startup of the plugin have triggered. Then it has sent the update
  -- that asks for a startup, with the user's name, and that update, as the mutator leaves it, is
  -- admitted; and once it is stored, and while the authorizer's
  -- answers are as the plugin saw them and every workload is at its level in `w₀` or shut down with
  -- that level in the snapshot, one run of Reconcile returns without an error, leaves the group up
  -- without a command, and brings every workload to its level in `w₀`. The groups of the user are not
  -- empty texts and have no comma, and the group is not being deleted and had another command.
  pub up_found-IsRestarted :
      (decode : String → Result ShutdownGroup) (dry : Bool) (now : Timestamp) (ns name : String)
      (w₀ : World) (sg new : ShutdownGroup) (s s' t : C.State)
      → up_found C caller dry ns name sg s ≡ (ok triggered, s')
      → All IsPlain req.groups
      → Writes decode req (asking_up req.username sg)
      → default decode (ok req) (asking_up req.username sg) ≡ (ok tt, new)
      → (command_up == index sg.annotations annotation_command) ≡ false
      → (C.world t).group ns name ≡ some new
      → new.deleting ≡ false
      → (C.world t).allowed ≡ (C.world s).allowed
      → Accounts w₀ (C.world t) sg.status.snapshot
      → IsRestarted now ns name w₀ sg new s s' t
  unfolding Tests
  up_found-IsRestarted decode dry now ns name w₀ sg new s s' t ran plain writes mutated differs
        there present allowed accounts =
      let (warnings, reviewed, passed) =
        validate_command-permitted C MayFail L reliable check F caller req K command_up new t
          (λ u. cc u.1) permitted in
      record {
        sends = up_found-Sends C MayFail L caller req K ns name sg s dry s' ran;
        asks = asking_up-command req.username sg;
        names =
            index-insert annotation_operator annotation_operator req.username
              (insert annotation_command command_up sg.annotations);
        warnings = warnings;
        reviewed = reviewed;
        admits = update_asks C check req command_up sg new t up refl differs ∙ passed;
        done =
            let (s₁, g, ran', stored, state, idle, (settled, _, _)) =
              reconcile-IsDone_up C MayFail L check' F' reliable now ns name w₀ t new there present
                (subst (λ st. Accounts w₀ (C.world t) st.snapshot) (sym i.status) accounts) up
                (ap (λ st. st.state == state_up) i.status ∙ tested.not_up)
                (ap (λ st. is_empty st.snapshot) i.status ∙ tested.has) in
            (s₁, g, ran', stored, state, idle, settled);
      }
    where
      asked : ShutdownGroup
      asked = asking_up req.username sg

      i : Identifies req asked new
      i =
          Ensures-ok (λ _ g. Identifies req asked g) (λ _. ⊥) (default decode (ok req) asked) tt new
            (default-Identifies decode req asked (rw (asking_up-command req.username sg) refl)
              writes plain)
            mutated

      up : index new.annotations annotation_command ≡ command_up
      up = i.others annotation_command refl refl ∙ asking_up-command req.username sg

      tested : IsTested (up_answers (C.world s) req sg.status.snapshot) sg
      tested =
          Ensures-ok (λ o _. Tests (up_answers (C.world s) req sg.status.snapshot) sg o)
            (λ _. Unit {0}) (up_found C caller dry ns name sg s) triggered s'
            (up_found-Tests dry ns name sg s) ran

      permitted : All IsPermitted (up_answers (C.world t) req new.status.snapshot)
      permitted =
          subst (All IsPermitted)
            (sym (
              ap (λ st. up_answers (C.world t) req st.snapshot) i.status
              ∙ up_answers-same (C.world s) (C.world t) req sg.status.snapshot allowed))
            tested.permitted
