-- ===== src/Webhook/Mutator.antt =====
-- The identity that `Default` writes, as the reconciler reads it back.
use kshutdown.Base.{
  String, ◌≡◌, refl, ◌∙◌, ap, ◌⊎◌, inl, inr, false, not, ◌&&◌, List, [], ◌∷◌, All, Result, ok,
  Ensures, Bool-cases, ◌==◌,
}
use kshutdown.Base.Text.{join}
use kshutdown.Base.Text.Laws.{has_comma, split-join_plain, join_not_empty}
use kshutdown.Base.GoMap.{index, insert, index-insert}
use kshutdown.Api.{
  ShutdownGroup, annotation_command, annotation_operator, annotation_operator_groups,
}
use kshutdown.Controller.Collect.{parse_groups}
use kshutdown.Webhook.{
  AdmissionRequest, operation_update, with_identity, inject_if_changed, inject, default,
}

-- Group names that can be joined by commas: not empty, and without a comma.
abbrev pub IsPlain : String → Type 0
IsPlain g = (has_comma g ≡ false) × ((g == "") ≡ false)

All-commas : (gs : List String) → All IsPlain gs → All (λ g. has_comma g ≡ false) gs
All-commas [] h = tt
All-commas (g ∷ gs) h = (h.0.0, All-commas gs h.1)

-- The reconciler's `strings.Split`, with its test for "", undoes the mutator's `strings.Join` where
-- no group name is empty or has a comma.
pub parse_groups-join : (gs : List String) → All IsPlain gs → parse_groups (join "," gs) ≡ gs
unfolding parse_groups join
parse_groups-join [] h = refl
parse_groups-join (g ∷ gs) h =
    rw (join_not_empty g gs h.0.1) (split-join_plain g gs (All-commas (g ∷ gs) h))

-- What the mutated object says: who asks, and all else as it was.
pub record Identifies (req : AdmissionRequest) (sg sg' : ShutdownGroup) : Type 0 where
  pub user : index sg'.annotations annotation_operator ≡ req.username
  pub groups : parse_groups (index sg'.annotations annotation_operator_groups) ≡ req.groups
  pub others :
      (key : String)
      → (annotation_operator == key) ≡ false
      → (annotation_operator_groups == key) ≡ false
      → index sg'.annotations key ≡ index sg.annotations key
  pub own : sg'.namespace ≡ sg.namespace
  pub called : sg'.name ≡ sg.name
  pub present : sg'.deleting ≡ sg.deleting
  pub targets : sg'.targets ≡ sg.targets
  pub status : sg'.status ≡ sg.status

with_identity-Identifies :
    (req : AdmissionRequest) (sg : ShutdownGroup)
    → All IsPlain req.groups
    → Identifies req sg (with_identity req sg)
with_identity-Identifies req sg plain = record {
  user =
      index-insert annotation_operator_groups annotation_operator (join "," req.groups)
        (insert annotation_operator req.username sg.annotations)
      ∙ index-insert annotation_operator annotation_operator req.username sg.annotations;
  groups =
      ap parse_groups (
        index-insert annotation_operator_groups annotation_operator_groups (join "," req.groups)
          (insert annotation_operator req.username sg.annotations))
      ∙ parse_groups-join req.groups plain;
  others = λ key h k.
      rw
        (
          index-insert annotation_operator_groups key (join "," req.groups)
              (insert annotation_operator req.username sg.annotations),
          k,
          index-insert annotation_operator key req.username sg.annotations,
          h,
        )
        refl;
  own = refl;
  called = refl;
  present = refl;
  targets = refl;
  status = refl;
}

module _ (decode : String → Result ShutdownGroup) where
  -- The request writes a command: it is not an update of a stored object, or the stored object has
  -- another command.
  abbrev pub Writes : AdmissionRequest → ShutdownGroup → Type 0
  Writes req sg =
      (((req.operation == operation_update) && not (req.old_object == "")) ≡ false)
      ⊎ ((old : ShutdownGroup) × (decode req.old_object ≡ ok old)
          × ((index old.annotations annotation_command == index sg.annotations annotation_command)
              ≡ false))

  pub inject-Writes :
      (req : AdmissionRequest) (sg : ShutdownGroup)
      → Writes req sg
      → inject decode (ok req) sg ≡ (ok tt, with_identity req sg)
  unfolding inject inject_if_changed
  inject-Writes req sg (inl other) = rw other refl
  inject-Writes req sg (inr (old, decoded, differs)) =
      elim (Bool-cases ((req.operation == operation_update) && not (req.old_object == ""))) [
        | inl update ↦ rw (update, decoded, differs) refl
        | inr other ↦ rw other refl
      ]

  -- Where a request writes a new command and the user's group names are not empty and have no comma,
  -- `Default` succeeds, and the reconciler reads back the user and the groups of the request. All
  -- other annotations, the namespace, the name, the deletion mark, the targets and the status are as
  -- they were.
  pub default-Identifies :
      (req : AdmissionRequest) (sg : ShutdownGroup)
      → (index sg.annotations annotation_command == "") ≡ false
      → Writes req sg
      → All IsPlain req.groups
      → Ensures (λ _ sg'. Identifies req sg sg') (λ _. ⊥) (default decode (ok req) sg)
  unfolding default
  default-Identifies req sg asks writes plain =
      rw (asks, inject-Writes req sg writes) (with_identity-Identifies req sg plain)
