-- ===== src/Webhook/Permission.antt =====
-- A shutdown from the mutator through the validator to the reconciler.
use kshutdown.Base.{
  String, ◌≡◌, refl, sym, ◌∙◌, ap, subst, ◌⊎◌, inl, inr, false, true, List, All, Any, Result, ok,
  Ensures-ok, Ensures-state, ◌==◌, is_empty,
}
use kshutdown.Base.GoMap.{index}
use kshutdown.Controller.Workloads.Levels.{Names}
use kshutdown.Api.{
  ShutdownGroup, HistoryEntry, Timestamp, annotation_command, command_down, state_down,
}
use kshutdown.Api.Client.{Client, World, IsLawful, Ref}
use kshutdown.Authz.{Check, IsFaithful}
use kshutdown.Targets.{targeted}
use kshutdown.Targets.Laws.{targeted-listing}
use kshutdown.Controller.Group.Laws.{Stored}
use kshutdown.Controller.Reconcile.{reconcile_down}
use kshutdown.Controller.Reconcile.Down.{DownWorld, DownStage, scaling, marked, recorded}
use kshutdown.Controller.Reconcile.Shutdown.{Shutdown, ShutdownFails}
use kshutdown.Controller.Reconcile.RoundTrip.{taken, fresh_run}
use kshutdown.Webhook.{
  AdmissionRequest, Warning, default, validate_create, validate_update, validate_command,
}
use kshutdown.Webhook.Mutator.{Identifies, IsPlain, Writes, default-Identifies}
use kshutdown.Webhook.Counts.{answers, down_answers}
use kshutdown.Webhook.Gate.{Admits, Passes, Stops, validate_command_lem}
use kshutdown.Webhook.Admission.{MayPatch, ref_review, admitted-expected_snapshot, named_permitted}

-- The answers depend on the listings and the authorizer only.
pub down_answers-same :
    (w w' : World) (req : AdmissionRequest) (sg : ShutdownGroup)
    → w'.listing ≡ w.listing
    → w'.allowed ≡ w.allowed
    → down_answers w req sg ≡ down_answers w' req sg
down_answers-same w w' req sg listing allowed =
    rw (targeted-listing w w' sg.namespace sg.targets listing, allowed) refl

module _ (C : Client) (check : Check C) (req : AdmissionRequest) (command : String) where
  -- The validator lets a write of the object through: as a creation, or as an update that changes
  -- the command.
  abbrev pub IsAdmitted : ShutdownGroup → C.State → Type 0
  IsAdmitted sg s =
      (warnings : List Warning) × (s' : C.State) × ((validate_create C check (ok req) sg s
          ≡ (ok warnings, s'))
        ⊎ ((old : ShutdownGroup) × ((command == index old.annotations annotation_command) ≡ false)
            × (validate_update C check (ok req) old sg s ≡ (ok warnings, s'))))

  create_asks :
      (sg : ShutdownGroup) (s : C.State)
      → index sg.annotations annotation_command ≡ command
      → (command == "") ≡ false
      → validate_create C check (ok req) sg s ≡ validate_command C check (ok req) command sg s
  unfolding validate_create
  create_asks sg s asks some_command = rw (asks, some_command) refl

  pub update_asks :
      (old sg : ShutdownGroup) (s : C.State)
      → index sg.annotations annotation_command ≡ command
      → (command == "") ≡ false
      → (command == index old.annotations annotation_command) ≡ false
      → validate_update C check (ok req) old sg s ≡ validate_command C check (ok req) command sg s
  unfolding validate_update
  update_asks old sg s asks some_command differs = rw (asks, some_command, differs) refl

module _ (C : Client) (MayFail : Type 0) (L : IsLawful C MayFail) (check : Check C)
    (F : IsFaithful C MayFail check) (req : AdmissionRequest) (command : String)
    (some_command : (command == "") ≡ false) where
  pub IsAdmitted-Admits :
      (sg : ShutdownGroup) (s : C.State)
      → index sg.annotations annotation_command ≡ command
      → IsAdmitted C check req command sg s
      → (warnings : List Warning) × Admits command sg (answers (C.world s) req command sg) warnings
  IsAdmitted-Admits sg s asks (warnings, s', how) = (warnings, passes.1.1)
    where
      ran : validate_command C check (ok req) command sg s ≡ (ok warnings, s')
      ran = elim how [
        | inl created ↦ sym (create_asks C check req command sg s asks some_command) ∙ created
        | inr (old, differs, updated) ↦
            sym (update_asks C check req command old sg s asks some_command differs) ∙ updated
      ]

      passes : (C.world s' ≡ C.world s) × Passes (C.world s) req command sg warnings
      passes =
          Ensures-ok (λ ws t. (C.world t ≡ C.world s) × Passes (C.world s) req command sg ws)
            (λ t. (C.world t ≡ C.world s) × (MayFail ⊎ Stops (C.world s) req command sg))
            (validate_command C check (ok req) command sg s) warnings s'
            (validate_command_lem C MayFail L check F req command sg s) ran

module _ (C : Client) (MayFail : Type 0) (L : IsLawful C MayFail) (check : Check C)
    (F : IsFaithful C MayFail check) (req : AdmissionRequest) where
  -- A shutdown that both webhooks let through carries the identity of the request, and the validator's
  -- test admits it by the answers of a later world that gives the same ones.
  pub mutated-Admits :
      (decode : String → Result ShutdownGroup) (sg₀ sg : ShutdownGroup) (s₀ s : C.State)
      → (index sg₀.annotations annotation_command ≡ command_down)
      → All IsPlain req.groups
      → Writes decode req sg₀
      → default decode (ok req) sg₀ ≡ (ok tt, sg)
      → IsAdmitted C check req command_down sg s₀
      → (C.world s).listing ≡ (C.world s₀).listing
      → (C.world s).allowed ≡ (C.world s₀).allowed
      → Identifies req sg₀ sg
        × (warnings : List Warning) × Admits command_down sg
            (down_answers (C.world s) req sg)
            warnings
  mutated-Admits decode sg₀ sg s₀ s asks plain writes mutated admitted listing allowed =
      let i =
        Ensures-ok (λ _ g. Identifies req sg₀ g) (λ _. ⊥) (default decode (ok req) sg₀) tt sg
          (default-Identifies decode req sg₀ (rw asks refl) writes plain) mutated in
      let (warnings, admits) =
        subst (λ xs. (warnings : List Warning) × Admits command_down sg xs warnings)
          (down_answers-same (C.world s₀) (C.world s) req sg listing allowed)
          (IsAdmitted-Admits C MayFail L check F req command_down refl sg s₀
            (i.others annotation_command refl refl ∙ asks) admitted) in
      (i, warnings, admits)

-- Whatever stage a shutdown stops at, it has changed only what its snapshot names.
DownStage-DownWorld :
    (now : Timestamp) (entry : HistoryEntry) (g : ShutdownGroup) (w w' : World)
    → DownStage now entry g w w'
    → DownWorld g w w'
DownStage-DownWorld now entry g w w' (scaling st d) = d
DownStage-DownWorld now entry g w w' (marked st off d) = d
DownStage-DownWorld now entry g w w' (recorded st off d) = d

module _ (C : Client) (MayFail : Type 0) (L : IsLawful C MayFail) (check check' : Check C)
    (F : IsFaithful C MayFail check) (F' : IsFaithful C MayFail check') (now : Timestamp)
    (req : AdmissionRequest) where
  -- The reconciler's changes, for a group that carries the identity of the request.
  changes_permitted :
      (sg₀ sg : ShutdownGroup) (warnings : List Warning) (s : C.State)
      → Identifies req sg₀ sg
      → (req.username == "") ≡ false
      → Admits command_down sg (down_answers (C.world s) req sg) warnings
      → (sg.status.state == state_down) ≡ false
      → is_empty sg.status.snapshot ≡ true
      → Stored sg (C.world s)
      → (r : Ref)
      → let w' = C.world (reconcile_down C check' now sg s).1 in
        (w'.spec r ≡ (C.world s).spec r) ⊎ MayPatch (C.world s) req r
  changes_permitted sg₀ sg warnings s i known admitted not_down fresh stored r =
      Ensures-state (Shutdown C MayFail L check' F' now sg g (C.world s))
        (ShutdownFails C MayFail L check' F' now sg g (C.world s))
        (λ s'. ((C.world s').spec r ≡ (C.world s).spec r) ⊎ MayPatch (C.world s) req r)
        (reconcile_down C check' now sg s)
        (fresh_run C MayFail L check' F' now sg s not_down fresh stored)
        (λ _ s' d. from_frame s' d.down_world)
        (λ s'. elim [
          | inl (same, _) ↦ inl (ap (λ w. w.spec r) same)
          | inr (stage, _) ↦
              from_frame s' (DownStage-DownWorld now _ g (C.world s) (C.world s') stage)
        ])
    where
      g : ShutdownGroup
      g = taken C MayFail L check' F' now sg s not_down fresh stored

      from_frame :
          (s' : C.State)
          → DownWorld g (C.world s) (C.world s')
          → ((C.world s').spec r ≡ (C.world s).spec r) ⊎ MayPatch (C.world s) req r
      from_frame s' d = elim (d.frame r) [
        | inl same ↦ inl same
        | inr (named, _) ↦ inr (
            named_permitted (C.world s) req (targeted (C.world s) sg.namespace sg.targets) r (
              subst (Any (Names r))
                (admitted-expected_snapshot (C.world s) req sg₀ sg warnings i known admitted)
                named))
      ]

  -- A request writes the command "down" by a user with a name whose groups are not empty texts and
  -- have no comma; the mutator and the validator let it through, and the group is stored as the
  -- mutator left it, not down and with no snapshot yet. While the listings and the authorizer's
  -- answers are as at the validation, a shutdown of the group, however it ends, changes only
  -- workloads that the user may patch.
  pub reconcile_down-MayPatch :
      (decode : String → Result ShutdownGroup) (sg₀ sg : ShutdownGroup) (s₀ s : C.State)
      → (index sg₀.annotations annotation_command ≡ command_down)
      → (req.username == "") ≡ false
      → All IsPlain req.groups
      → Writes decode req sg₀
      → default decode (ok req) sg₀ ≡ (ok tt, sg)
      → IsAdmitted C check req command_down sg s₀
      → (C.world s).listing ≡ (C.world s₀).listing
      → (C.world s).allowed ≡ (C.world s₀).allowed
      → (sg.status.state == state_down) ≡ false
      → is_empty sg.status.snapshot ≡ true
      → Stored sg (C.world s)
      → (r : Ref)
      → let w' = C.world (reconcile_down C check' now sg s).1 in
        (w'.spec r ≡ (C.world s).spec r) ⊎ MayPatch (C.world s₀) req r
  reconcile_down-MayPatch decode sg₀ sg s₀ s asks known plain writes mutated admitted listing
        allowed not_down fresh stored r =
      let (i, warnings, admits) =
        mutated-Admits C MayFail L check F req decode sg₀ sg s₀ s asks plain writes mutated admitted
          listing allowed in
      elim (changes_permitted sg₀ sg warnings s i known admits not_down fresh stored r) [
        | inl same ↦ inl same
        | inr may ↦ inr (ap (λ f. f (ref_review req r)) (sym allowed) ∙ may)
      ]
