-- ===== src/Webhook/Startup.antt =====
-- A startup from the mutator through the validator to the reconciler.
use kshutdown.Base.{
  String, ◌≡◌, refl, ◌∙◌, ap, subst, eq_iff, arith, ◌⊎◌, inl, inr, true, Bool-cases, Option, none,
  some, List, [], ◌∷◌, All, Any, Result, ok, Ensures-ok, ◌==◌,
}
use mathlib.Core.Option.{some-injective}
use kshutdown.Base.GoMap.{index}
use kshutdown.Controller.Workloads.Levels.{Names}
use kshutdown.Api.{
  ShutdownGroup, ResourceSnapshot, Timestamp, annotation_command, command_up, command_down,
}
use kshutdown.Api.Client.{
  Client, World, IsLawful, Ref, ref, Resource, scaled, cronjob, deployment, statefulset,
}
use kshutdown.Authz.{Check, IsFaithful}
use kshutdown.Targets.{api_group, resource_name}
use kshutdown.Controller.Group.Laws.{Stored}
use kshutdown.Controller.Reconcile.{reconcile_up}
use kshutdown.Controller.Reconcile.Frame.{reconcile_up-Unnamed}
use kshutdown.Webhook.{AdmissionRequest, Warning, default, kind_attributes}
use kshutdown.Webhook.Mutator.{Identifies, IsPlain, Writes, default-Identifies}
use kshutdown.Webhook.Counts.{Answers, up_answers, entry_answers}
use kshutdown.Webhook.Gate.{Admits, IsPermitted}
use kshutdown.Webhook.Admission.{MayPatch}
use kshutdown.Webhook.Permission.{IsAdmitted, IsAdmitted-Admits}

-- The review that the validator makes for the entry is that of a patch of the workload.
abbrev IsReviewed : ResourceSnapshot → Ref → Type 0
IsReviewed e r =
    (kind_attributes e.kind ≡ some (api_group r.resource, resource_name r.resource))
    × (r.namespace ≡ e.namespace)
    × (r.name ≡ e.name)

IsReviewed-kind :
    (e : ResourceSnapshot) (kind : String) (k : Resource) (r : Ref)
    → (e.kind == kind) ≡ true
    → kind_attributes kind ≡ some (api_group k, resource_name k)
    → some (ref k e.namespace e.name) ≡ some r
    → IsReviewed e r
IsReviewed-kind e kind k r same attributes named =
    subst (IsReviewed e) (some-injective _ r named)
      (ap kind_attributes ((eq_iff e.kind kind).0 same) ∙ attributes, refl, refl)

Names-IsReviewed : (r : Ref) (e : ResourceSnapshot) → Names r e → IsReviewed e r
Names-IsReviewed r e named = elim (Bool-cases (e.kind == "CronJob")) [
  | inl is_cronjob ↦ IsReviewed-kind e "CronJob" cronjob r is_cronjob refl (rw is_cronjob at named)
  | inr not_cronjob ↦ elim (Bool-cases (e.kind == "Deployment")) [
    | inl is_deployment ↦
        IsReviewed-kind e "Deployment" (scaled deployment) r is_deployment refl
          (rw (not_cronjob, is_deployment) at named)
    | inr not_deployment ↦ elim (Bool-cases (e.kind == "StatefulSet")) [
      | inl is_statefulset ↦
          IsReviewed-kind e "StatefulSet" (scaled statefulset) r is_statefulset refl
            (rw (not_cronjob, not_deployment, is_statefulset) at named)
      | inr other ↦ absurd (nothing (rw (not_cronjob, not_deployment, other) at named))
    ]
  ]
]
  where
    nothing : none ≡ some r → ⊥
    nothing h = cc

module _ (w : World) (req : AdmissionRequest) where
  -- The head of the answers, for an entry that names a workload.
  entry-MayPatch :
      (e : ResourceSnapshot) (rest : Answers) (r : Ref)
      → Names r e
      → All IsPermitted (entry_answers w req e (kind_attributes e.kind) rest)
      → MayPatch w req r
  entry-MayPatch e rest r named all =
      rw (reviewed.1, reviewed.2)
        (subst (λ a. All IsPermitted (entry_answers w req e a rest)) reviewed.0 all).0
    where
      reviewed : IsReviewed e r
      reviewed = Names-IsReviewed r e named

  later-IsPermitted :
      (e : ResourceSnapshot) (a : Option (String × String)) (rest : Answers)
      → All IsPermitted (entry_answers w req e a rest)
      → All IsPermitted rest
  later-IsPermitted e none rest all = all
  later-IsPermitted e (some a) rest all = all.1

  -- Where every answer for the snapshot is a permission, the user may patch what it names.
  up_answers-MayPatch :
      (es : List ResourceSnapshot) (r : Ref)
      → All IsPermitted (up_answers w req es)
      → Any (Names r) es
      → MayPatch w req r
  up_answers-MayPatch [] r all h = absurd h
  up_answers-MayPatch (e ∷ es) r all (inl named) =
      entry-MayPatch e (up_answers w req es) r named all
  up_answers-MayPatch (e ∷ es) r all (inr later) =
      up_answers-MayPatch es r
        (later-IsPermitted e (kind_attributes e.kind) (up_answers w req es) all) later

  -- A startup is admitted in full only.
  Admits-up :
      (sg : ShutdownGroup) (xs : Answers) (warnings : List Warning)
      → Admits command_up sg xs warnings
      → All IsPermitted xs
  Admits-up sg xs warnings (inl (all, _)) = all
  Admits-up sg xs warnings (inr (_, down, _, _)) = absurd (is_up down)
    where
      is_up : (command_up == command_down) ≡ true → ⊥
      is_up h = ground (arith, h)

module _ (C : Client) (MayFail : Type 0) (L : IsLawful C MayFail) (check check' : Check C)
    (F : IsFaithful C MayFail check) (now : Timestamp) (req : AdmissionRequest) where
  -- A request writes the command "up" by a user whose groups are not empty texts and have no comma;
  -- the mutator and the validator let it through, and the group is stored as the mutator left it.
  -- A startup of the group, whatever its state and snapshot and however it ends, changes only
  -- workloads that the user was allowed to patch at the validation.
  pub reconcile_up-MayPatch :
      (decode : String → Result ShutdownGroup) (sg₀ sg : ShutdownGroup) (s₀ s : C.State)
      → (index sg₀.annotations annotation_command ≡ command_up)
      → All IsPlain req.groups
      → Writes decode req sg₀
      → default decode (ok req) sg₀ ≡ (ok tt, sg)
      → IsAdmitted C check req command_up sg s₀
      → Stored sg (C.world s)
      → (r : Ref)
      → let w' = C.world (reconcile_up C check' now sg s).1 in
        (w'.spec r ≡ (C.world s).spec r) ⊎ MayPatch (C.world s₀) req r
  reconcile_up-MayPatch decode sg₀ sg s₀ s asks plain writes mutated admitted stored r =
      elim (reconcile_up-Unnamed C MayFail L check' now sg s stored r) [
        | inl same ↦ inl same
        | inr named ↦ inr (
            up_answers-MayPatch (C.world s₀) req sg.status.snapshot r
              (Admits-up (C.world s₀) req sg _ admits.0 admits.1) named)
      ]
    where
      i : Identifies req sg₀ sg
      i =
          Ensures-ok (λ _ g. Identifies req sg₀ g) (λ _. ⊥) (default decode (ok req) sg₀) tt sg
            (default-Identifies decode req sg₀ (rw asks refl) writes plain) mutated

      up : index sg.annotations annotation_command ≡ command_up
      up = i.others annotation_command refl refl ∙ asks

      admits :
          (warnings : List Warning) × Admits command_up sg
            (up_answers (C.world s₀) req sg.status.snapshot)
            warnings
      admits = IsAdmitted-Admits C MayFail L check F req command_up refl sg s₀ up admitted
