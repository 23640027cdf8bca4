-- ===== src/Webhook/Collected.antt =====
-- What `collectTargets` collects for a shutdown that the webhooks have let through.
use kshutdown.Base.{
  String, ◌≡◌, refl, sym, ◌∙◌, ap, inl, inr, true, false, List, [], ◌∷◌, map, select, All, Any,
  Result, ok, is_empty, ◌==◌, Bool-cases,
}
use kshutdown.Base.GoMap.{index}
use kshutdown.Api.{ShutdownGroup, annotation_command, command_down}
use kshutdown.Api.Client.{Client, World, IsLawful}
use kshutdown.Api.Reads.{Reads, Reads-mono}
use kshutdown.Authz.{Check, IsFaithful}
use kshutdown.Targets.{Workload, targeted}
use kshutdown.Controller.Collect.{snapshot_of, collect_targets}
use kshutdown.Controller.Collect.Laws.{collect_targets_lem}
use kshutdown.Webhook.{AdmissionRequest, Warning, default}
use kshutdown.Webhook.Mutator.{IsPlain, Writes}
use kshutdown.Webhook.Counts.{permitted, down_answer, down_answers}
use kshutdown.Webhook.Gate.{IsPermitted, Admits}
use kshutdown.Webhook.Admission.{patchable, admitted-expected_snapshot}
use kshutdown.Webhook.Permission.{IsAdmitted, mutated-Admits}

module _ (w : World) (req : AdmissionRequest) where
  -- Where all workloads are permitted, or some are, an empty snapshot says that there are none.
  all-none :
      (xs : List Workload)
      → All IsPermitted (map (down_answer w req) xs)
      → is_empty (map snapshot_of (select (permitted w req) xs)) ≡ true
      → xs ≡ []
  all-none [] h none_taken = refl
  all-none (x ∷ xs) h none_taken = absurd (cc (rw h.0 at none_taken))

  some-taken :
      (xs : List Workload)
      → Any IsPermitted (map (down_answer w req) xs)
      → is_empty (map snapshot_of (select (permitted w req) xs)) ≡ true
      → ⊥
  some-taken [] h none_taken = h
  some-taken (x ∷ xs) h none_taken = elim (Bool-cases (permitted w req x)) [
    | inl allowed ↦ cc (rw allowed at none_taken)
    | inr refused ↦ elim h [
      | inl allowed ↦ cc (refused, allowed)
      | inr later ↦ some-taken xs later (rw refused at none_taken)
    ]
  ]

  Admits-none :
      (sg : ShutdownGroup) (warnings : List Warning)
      → Admits command_down sg (down_answers w req sg) warnings
      → is_empty (map snapshot_of (patchable w req sg)) ≡ true
      → targeted w sg.namespace sg.targets ≡ []
  Admits-none sg warnings (inl (all, _)) none_taken =
      all-none (targeted w sg.namespace sg.targets) all none_taken
  Admits-none sg warnings (inr (_, _, some_of, _)) none_taken =
      absurd (some-taken (targeted w sg.namespace sg.targets) some_of none_taken)

module _ (C : Client) (MayFail : Type 0) (L : IsLawful C MayFail) (check check' : Check C)
    (F : IsFaithful C MayFail check) (F' : IsFaithful C MayFail check')
    (req : AdmissionRequest) where
  -- A request writes the command "down" by a user with a name whose groups are not empty texts and
  -- have no comma, and the mutator and the validator let it through. While the listings and the
  -- authorizer's answers are as at the validation, collectTargets for the group, where it returns,
  -- returns the targeted workloads that the user may patch, in order, and returns none only where the
  -- targets select none. It only reads, and fails only where calls fail.
  pub collect_targets-patchable :
      (decode : String → Result ShutdownGroup) (sg₀ sg : ShutdownGroup) (s₀ s : C.State)
      → (index sg₀.annotations annotation_command ≡ command_down)
      → (req.username == "") ≡ false
      → All IsPlain req.groups
      → Writes decode req sg₀
      → default decode (ok req) sg₀ ≡ (ok tt, sg)
      → IsAdmitted C check req command_down sg s₀
      → (C.world s).listing ≡ (C.world s₀).listing
      → (C.world s).allowed ≡ (C.world s₀).allowed
      → Reads C MayFail
          (C.world s)
          (λ es.
            (es ≡ map snapshot_of (patchable (C.world s) req sg))
            × (is_empty es ≡ true → targeted (C.world s) sg.namespace sg.targets ≡ []))
          (collect_targets C check' sg s)
  collect_targets-patchable decode sg₀ sg s₀ s asks known plain writes mutated admitted listing
        allowed =
      let (i, warnings, admits) =
        mutated-Admits C MayFail L check F req decode sg₀ sg s₀ s asks plain writes mutated admitted
          listing allowed in
      Reads-mono C MayFail (C.world s) _ _ (collect_targets C check' sg s)
        (collect_targets_lem C MayFail L check' F' sg s)
        (λ es e.
          let taken : es ≡ map snapshot_of (patchable (C.world s) req sg) =
            e ∙ admitted-expected_snapshot (C.world s) req sg₀ sg warnings i known admits in
          (
            taken,
            λ none_taken.
                Admits-none (C.world s) req sg warnings admits
                  (sym (ap is_empty taken) ∙ none_taken),
          ))
