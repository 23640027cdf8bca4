-- ===== src/Command/Laws.antt =====
-- The plugin's permission checks, beside the validator's.
use kshutdown.Base.{
  String, ◌≡◌, refl, sym, ◌∙◌, ap, Bool, true, false, List, [], ◌∷◌, ◌++◌, foldl, ok, Option, none,
  some, Ensures-ok,
}
use mathlib.Core.List.{append_assoc, append-nil}
use kshutdown.Api.{ShutdownGroup, ResourceSnapshot}
use kshutdown.Api.Client.{Client, World, IsLawful}
use kshutdown.Api.Reads.{Reads, Reads-bind, Reads-rewrap, Reads-mono}
use kshutdown.Authz.{Check, IsFaithful}
use kshutdown.Authz.Caller.{Caller, IsCaller, check_patch, SelfReview, as_review}
use kshutdown.Targets.{Workload, api_group, resource_name, targeted}
use kshutdown.Targets.Laws.{for_targets_lem}
use kshutdown.Controller.Collect.{describe}
use kshutdown.Webhook.{
  AdmissionRequest, Tally, check_down_targets, check_up_targets, kind_attributes, describe_entry,
}
use kshutdown.Webhook.Counts.{
  Answers, down_answer, down_answers, up_answers, entry_answers, forbidden_of, counted, foldl-map,
  check_down_targets_lem, check_up_targets_lem,
}
use kshutdown.Command.{
  note_forbidden, check_workload, check_down_permissions, check_snapshot_entry, check_snapshot,
}

abbrev note : List String → String × Bool → List String
note forbidden (text, b) = note_forbidden text forbidden b

foldl-note :
    (forbidden : List String) (xs : Answers)
    → foldl note forbidden xs ≡ forbidden ++ forbidden_of xs
unfolding forbidden_of
foldl-note forbidden [] = sym (append-nil forbidden)
foldl-note forbidden ((text, true) ∷ xs) = foldl-note forbidden xs
foldl-note forbidden ((text, false) ∷ xs) =
    foldl-note (forbidden ++ (text ∷ [])) xs ∙ append_assoc forbidden (text ∷ []) (forbidden_of xs)

module _ (C : Client) (MayFail : Type 0) (L : IsLawful C MayFail) (caller : Caller C)
    (req : AdmissionRequest) (K : IsCaller C MayFail caller req.username req.groups) where
  check_patch_lem :
      (ns group resource name : String) (w : World) (s : C.State)
      → C.world s ≡ w
      → Reads C MayFail w
          (λ b.
            b
            ≡ w.allowed (
                as_review req.username req.groups (record {
                  namespace = ns;
                  verb = "patch";
                  group = group;
                  resource = resource;
                  name = name;
                })))
          (check_patch C caller ns group resource name s)
  unfolding check_patch
  check_patch_lem ns group resource name w s h =
      Reads-rewrap C MayFail w _ _ (caller.create_self_review r s) (rw h at (K.self_review_lem r s))
    where
      r : SelfReview
      r = record { namespace = ns; verb = "patch"; group = group; resource = resource; name = name }

  check_workload_lem :
      (w : World) (x : Workload) (forbidden : List String) (s : C.State)
      → C.world s ≡ w
      → Reads C MayFail w
          (λ forbidden'. forbidden' ≡ note forbidden (down_answer w req x))
          (check_workload C caller x forbidden s)
  unfolding check_workload
  check_workload_lem w x forbidden s h =
      Reads-bind C MayFail w _ _
        (check_patch C caller x.namespace (api_group x.resource) (resource_name x.resource)
          x.item.name s)
        _
        (check_patch_lem x.namespace (api_group x.resource) (resource_name x.resource) x.item.name w
          s h)
        (λ b s' h' e. (h', ap (note_forbidden (describe x) forbidden) e))

  -- `checkDownPermissions` lists the workloads that the caller may not patch.
  pub check_down_permissions_lem :
      (sg : ShutdownGroup) (s : C.State)
      → Reads C MayFail
          (C.world s)
          (λ forbidden. forbidden ≡ forbidden_of (down_answers (C.world s) req sg))
          (check_down_permissions C caller sg s)
  unfolding check_down_permissions
  check_down_permissions_lem sg s =
      Reads-mono C MayFail w _ _ _
        (for_targets_lem C MayFail L w (check_workload C caller)
          (λ t x. note t (down_answer w req x)) (λ x t s' h'. check_workload_lem w x t s' h')
          sg.namespace sg.targets [] s refl)
        (λ t e.
          e
          ∙ foldl-map (down_answer w req) note [] (targeted w sg.namespace sg.targets)
          ∙ foldl-note [] (down_answers w req sg))
    where
      w : World
      w = C.world s

  -- In the same world, for the same user, the plugin's check before a shutdown lists the workloads
  -- that the validator forbids: where both return, the two lists are equal.
  pub check_down_permissions-check_down_targets :
      (check : Check C) (F : IsFaithful C MayFail check) (sg : ShutdownGroup)
      (forbidden : List String) (t : Tally) (s s₁ s₂ s₃ : C.State)
      → check_down_permissions C caller sg s ≡ (ok forbidden, s₁)
      → C.world s₂ ≡ C.world s
      → check_down_targets C check sg req.username req.groups s₂ ≡ (ok t, s₃)
      → t.forbidden ≡ forbidden
  check_down_permissions-check_down_targets check F sg forbidden t s s₁ s₂ s₃ listed same counts =
      ap (λ u. u.forbidden) tallied ∙ sym listing
    where
      listing : forbidden ≡ forbidden_of (down_answers (C.world s) req sg)
      listing =
          (Ensures-ok _ (λ s'. (C.world s' ≡ C.world s) × MayFail)
            (check_down_permissions C caller sg s) forbidden s₁ (check_down_permissions_lem sg s)
            listed).1

      tallied : t ≡ counted (down_answers (C.world s) req sg)
      tallied =
          (Ensures-ok _ (λ s'. (C.world s' ≡ C.world s) × MayFail)
            (check_down_targets C check sg req.username req.groups s₂) t s₃
            (check_down_targets_lem C MayFail L check F (C.world s) req sg s₂ same) counts).1

  check_snapshot_entry_lem :
      (w : World) (e : ResourceSnapshot) (forbidden : List String) (a : Option (String × String))
      (rest : Answers) (s : C.State)
      → C.world s ≡ w
      → Reads C MayFail w
          (λ forbidden'.
            foldl note forbidden' rest ≡ foldl note forbidden (entry_answers w req e a rest))
          (check_snapshot_entry C caller e forbidden a s)
  unfolding check_snapshot_entry
  check_snapshot_entry_lem w e forbidden none rest s h = (h, refl)
  check_snapshot_entry_lem w e forbidden (some (group, resource)) rest s h =
      Reads-bind C MayFail w _ _ (check_patch C caller e.namespace group resource e.name s) _
        (check_patch_lem e.namespace group resource e.name w s h)
        (λ b s' h' same.
          (h', ap (λ u. foldl note (note_forbidden (describe_entry e) forbidden u) rest) same))

  check_snapshot_fold :
      (w : World) (es : List ResourceSnapshot) (forbidden : List String) (s : C.State)
      → C.world s ≡ w
      → Reads C MayFail w
          (λ forbidden'. forbidden' ≡ foldl note forbidden (up_answers w req es))
          (check_snapshot C caller es forbidden s)
  unfolding check_snapshot
  check_snapshot_fold w [] forbidden s h = (h, refl)
  check_snapshot_fold w (e ∷ es) forbidden s h =
      Reads-bind C MayFail w _ _
        (check_snapshot_entry C caller e forbidden (kind_attributes e.kind) s) _
        (check_snapshot_entry_lem w e forbidden (kind_attributes e.kind) (up_answers w req es) s h)
        (λ t s' h' same.
          Reads-mono C MayFail w _ _ _ (check_snapshot_fold w es t s' h') (λ t' p. p ∙ same))

  -- The check before a startup lists the entries that the caller may not patch.
  pub check_snapshot_lem :
      (es : List ResourceSnapshot) (s : C.State)
      → Reads C MayFail
          (C.world s)
          (λ forbidden. forbidden ≡ forbidden_of (up_answers (C.world s) req es))
          (check_snapshot C caller es [] s)
  check_snapshot_lem es s =
      Reads-mono C MayFail (C.world s) _ _ _ (check_snapshot_fold (C.world s) es [] s refl)
        (λ forbidden p. p ∙ foldl-note [] (up_answers (C.world s) req es))

  -- In the same world, for the same user, the plugin's check before a startup lists the entries of
  -- the snapshot that the validator forbids: where both return, the two lists are equal.
  pub check_snapshot-check_up_targets :
      (check : Check C) (F : IsFaithful C MayFail check) (sg : ShutdownGroup)
      (forbidden : List String) (t : Tally) (s s₁ s₂ s₃ : C.State)
      → check_snapshot C caller sg.status.snapshot [] s ≡ (ok forbidden, s₁)
      → C.world s₂ ≡ C.world s
      → check_up_targets C check sg req.username req.groups s₂ ≡ (ok t, s₃)
      → t.forbidden ≡ forbidden
  check_snapshot-check_up_targets check F sg forbidden t s s₁ s₂ s₃ listed same counts =
      ap (λ u. u.forbidden) tallied
      ∙ sym (listing ∙ foldl-note [] (up_answers (C.world s) req sg.status.snapshot))
    where
      listing : forbidden ≡ foldl note [] (up_answers (C.world s) req sg.status.snapshot)
      listing =
          (Ensures-ok _ (λ s'. (C.world s' ≡ C.world s) × MayFail)
            (check_snapshot C caller sg.status.snapshot [] s) forbidden s₁
            (check_snapshot_fold (C.world s) sg.status.snapshot [] s refl) listed).1

      tallied : t ≡ counted (up_answers (C.world s) req sg.status.snapshot)
      tallied =
          (Ensures-ok _ (λ s'. (C.world s' ≡ C.world s) × MayFail)
            (check_up_targets C check sg req.username req.groups s₂) t s₃
            (check_up_targets_lem C MayFail L check F (C.world s) req sg s₂ same) counts).1
