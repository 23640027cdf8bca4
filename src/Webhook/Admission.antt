-- ===== src/Webhook/Admission.antt =====
-- From the admission of a shutdown to the workloads that the reconciler may change.
use mathlib.Core.Option.{some-injective}
use kshutdown.Base.{
  ◌≡◌, refl, sym, ◌∙◌, ap, subst, inl, inr, Bool, true, false, List, [], ◌∷◌, map, select, All, Any,
  Bool-cases, ◌==◌,
}
use kshutdown.Base.GoMap.{index}
use kshutdown.Api.{ShutdownGroup, ResourceSnapshot, annotation_operator_groups, command_down}
use kshutdown.Api.Client.{World, Review, Ref}
use kshutdown.Targets.{Workload, api_group, resource_name, targeted}
use kshutdown.Controller.Collect.{snapshot_of, parse_groups, partial_mode}
use kshutdown.Controller.Collect.Laws.{takes, expected_snapshot}
use kshutdown.Controller.Workloads.Levels.{Names}
use kshutdown.Controller.Reconcile.Levels.{entry_ref-snapshot_of}
use kshutdown.Webhook.{AdmissionRequest, Warning, asks_partial}
use kshutdown.Webhook.Mutator.{Identifies}
use kshutdown.Webhook.Counts.{permitted, down_answers, down_answer}
use kshutdown.Webhook.Gate.{Admits, IsPermitted}

select-agree :
    {A : Type 0} (p q : A → Bool) (xs : List A)
    → All (λ x. p x ≡ q x) xs
    → select p xs ≡ select q xs
select-agree p q [] h = refl
select-agree p q (x ∷ xs) h = rw (h.0, select-agree p q xs h.1) refl

pub select-true : {A : Type 0} (xs : List A) → select (λ _. true) xs ≡ xs
select-true [] = refl
select-true (x ∷ xs) = ap (λ r. x ∷ r) (select-true xs)

-- The workloads that a user may patch, of those that the targets select.
abbrev pub patchable : World → AdmissionRequest → ShutdownGroup → List Workload
patchable w req sg = select (permitted w req) (targeted w sg.namespace sg.targets)

-- The review of a patch of a workload by the user of a request.
abbrev pub ref_review : AdmissionRequest → Ref → Review
ref_review req r = record {
  user = req.username;
  groups = req.groups;
  namespace = r.namespace;
  group = api_group r.resource;
  resource = resource_name r.resource;
  name = r.name;
  verb = "patch";
}

abbrev pub MayPatch : World → AdmissionRequest → Ref → Type 0
MayPatch w req r = w.allowed (ref_review req r) ≡ true

module _ (w : World) (req : AdmissionRequest) where
  takes-permitted :
      (p : Bool) (xs : List Workload)
      → All IsPermitted (map (down_answer w req) xs)
      → All (λ x. takes w p req.username req.groups x ≡ permitted w req x) xs
  takes-permitted p [] h = tt
  takes-permitted true (x ∷ xs) h = (refl, takes-permitted true xs h.1)
  takes-permitted false (x ∷ xs) h = (sym h.0, takes-permitted false xs h.1)

  taken_by : Bool → List Workload → List ResourceSnapshot
  taken_by p xs = map snapshot_of (select (takes w p req.username req.groups) xs)

  -- The snapshot of a group that carries the identity of the request.
  expected-Identifies :
      (sg₀ sg : ShutdownGroup)
      → Identifies req sg₀ sg
      → expected_snapshot w sg ≡ taken_by (partial_mode sg) (targeted w sg.namespace sg.targets)
  unfolding taken_by
  expected-Identifies sg₀ sg i =
      ap
        (λ u. map snapshot_of (
          select
            (takes w (partial_mode sg) u
              (parse_groups (index sg.annotations annotation_operator_groups)))
            (targeted w sg.namespace sg.targets)))
        i.user
      ∙ ap
          (λ gs. map snapshot_of (
            select (takes w (partial_mode sg) req.username gs)
              (targeted w sg.namespace sg.targets)))
          i.groups

  takes-all :
      (p : Bool) (xs : List Workload)
      → All IsPermitted (map (down_answer w req) xs)
      → All (λ x. takes w p req.username req.groups x ≡ true) xs
  takes-all p [] h = tt
  takes-all true (x ∷ xs) h = (h.0, takes-all true xs h.1)
  takes-all false (x ∷ xs) h = (refl, takes-all false xs h.1)

  -- Where all targeted workloads are permitted, the snapshot is the list of them all.
  pub permitted-expected_snapshot :
      (sg₀ sg : ShutdownGroup)
      → Identifies req sg₀ sg
      → All IsPermitted (down_answers w req sg)
      → expected_snapshot w sg ≡ map snapshot_of (targeted w sg.namespace sg.targets)
  unfolding taken_by
  permitted-expected_snapshot sg₀ sg i all =
      let xs = targeted w sg.namespace sg.targets in
      expected-Identifies sg₀ sg i
      ∙ ap (map snapshot_of)
          (select-agree _ (λ _. true) xs (takes-all (partial_mode sg) xs all) ∙ select-true xs)

  is_partial :
      (sg₀ sg : ShutdownGroup)
      → Identifies req sg₀ sg
      → asks_partial sg ≡ true
      → (req.username == "") ≡ false
      → partial_mode sg ≡ true
  is_partial sg₀ sg i partial known = rw (partial, i.user, known) refl

  -- Where the group carries the identity of the request's user, who has a name, and the validator's
  -- test admits the shutdown, the snapshot that the reconciler expects is the list of the targeted
  -- workloads that the user may patch.
  pub admitted-expected_snapshot :
      (sg₀ sg : ShutdownGroup) (warnings : List Warning)
      → Identifies req sg₀ sg
      → (req.username == "") ≡ false
      → Admits command_down sg (down_answers w req sg) warnings
      → expected_snapshot w sg ≡ map snapshot_of (patchable w req sg)
  unfolding taken_by
  admitted-expected_snapshot sg₀ sg warnings i known (inl (all, _)) =
      expected-Identifies sg₀ sg i
      ∙ ap (map snapshot_of) (
          select-agree _ _ (targeted w sg.namespace sg.targets)
            (takes-permitted (partial_mode sg) (targeted w sg.namespace sg.targets) all))
  admitted-expected_snapshot sg₀ sg warnings i known (inr (partial, _, _, _)) =
      expected-Identifies sg₀ sg i
      ∙ ap (λ p. taken_by p (targeted w sg.namespace sg.targets))
          (is_partial sg₀ sg i partial known)

  -- The workload that an entry names is the one that it was made from.
  Names-permitted :
      (x : Workload) (r : Ref)
      → permitted w req x ≡ true
      → Names r (snapshot_of x)
      → MayPatch w req r
  Names-permitted x r allowed named =
      subst (MayPatch w req) (some-injective _ r (sym (entry_ref-snapshot_of x) ∙ named)) allowed

  -- Every workload that such a snapshot names may be patched by the user.
  pub named_permitted :
      (xs : List Workload) (r : Ref)
      → Any (Names r) (map snapshot_of (select (permitted w req) xs))
      → MayPatch w req r
  named_permitted [] r h = absurd h
  named_permitted (x ∷ xs) r h = elim (Bool-cases (permitted w req x)) [
    | inl allowed ↦ elim (rw allowed at h) [
      | inl named ↦ Names-permitted x r allowed named
      | inr later ↦ named_permitted xs r later
    ]
    | inr refused ↦ named_permitted xs r (rw refused at h)
  ]
