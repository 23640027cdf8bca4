-- ===== src/Webhook.antt =====
-- internal/webhook/shutdowngroup_webhook.go: the mutator's `Default` and the validator.
-- `admission.RequestFromContext` is an argument, and so is the JSON decoder.
pub mod Mutator
pub mod Counts
pub mod Gate
pub mod Admission
pub mod Permission
pub mod Collected
pub mod Startup
pub mod Update
use kshutdown.Base.{
  ℕ, ◌+◌, String, ◌<>◌, ◌==◌, ltb, if◌then◌else◌, Bool, true, false, not, ◌&&◌, ◌||◌, Option, none,
  some, List, [], ◌∷◌, ◌++◌, length, is_empty, Error, errorf, wrap, insufficient, Result, ok, err,
  Effect, pure, fail, context, ◌>>=◌,
}
use kshutdown.Base.Text.{join}
use kshutdown.Base.GoMap.{index, insert}
use kshutdown.Api.{
  ShutdownGroup, ResourceSnapshot, annotation_command, annotation_operator,
  annotation_operator_groups, annotation_partial, command_down, command_up,
}
use kshutdown.Api.Client.{Client, Review}
use kshutdown.Authz.{Check}
use kshutdown.Targets.{Workload, for_targets}
use kshutdown.Controller.Collect.{patch_review, describe}

-- What the code reads of an `admission.Request`. `old_object` is the JSON of the stored object.
pub record AdmissionRequest : Type 0 where
  pub operation : String
  pub username : String
  pub groups : List String
  pub old_object : String

abbrev pub operation_update : String
operation_update = "UPDATE"

-- The two assignments to the annotations.
abbrev pub with_identity : AdmissionRequest → ShutdownGroup → ShutdownGroup
with_identity req sg = record sg {
  annotations =
      insert annotation_operator_groups (join "," req.groups)
        (insert annotation_operator req.username sg.annotations);
}

-- The state of `Default` is the object that it changes.
module _ (decode : String → Result ShutdownGroup) where
  unfoldable pub inject_if_changed :
      AdmissionRequest → Result ShutdownGroup → Effect ShutdownGroup (Unit {0})
  inject_if_changed req (err e) sg = (err (wrap "decoding old ShutdownGroup" e), sg)
  inject_if_changed req (ok old) sg =
      if index old.annotations annotation_command == index sg.annotations annotation_command
      then (ok tt, sg)
      else (ok tt, with_identity req sg)

  -- `Default` past its first test.
  unfoldable pub inject : Result AdmissionRequest → Effect ShutdownGroup (Unit {0})
  unfolding inject_if_changed
  inject (err e) sg = (err (wrap "retrieving admission request" e), sg)
  inject (ok req) sg =
      if (req.operation == operation_update) && not (req.old_object == "")
      then inject_if_changed req (decode req.old_object) sg
      else (ok tt, with_identity req sg)

  unfoldable pub default : Result AdmissionRequest → Effect ShutdownGroup (Unit {0})
  unfolding inject
  default request sg =
      if index sg.annotations annotation_command == "" then (ok tt, sg) else inject request sg

-- The named results `forbidden` and `authorized`.
pub record Tally : Type 0 where
  pub forbidden : List String
  pub authorized : ℕ

abbrev pub no_tally : Tally
no_tally = record { forbidden = []; authorized = 0 }

-- `if allowed { authorized++ } else { forbidden = append(forbidden, …) }`
abbrev pub count : String → Tally → Bool → Tally
count text t true = record t { authorized = t.authorized + 1 }
count text t false = record t { forbidden = t.forbidden ++ (text ∷ []) }

-- The switch of `checkUpTargets`: the API group and the resource of a snapshot's kind.
abbrev pub kind_attributes : String → Option (String × String)
kind_attributes kind =
    if kind == "Deployment"
    then some ("apps", "deployments")
    else (if kind == "StatefulSet"
        then some ("apps", "statefulsets")
        else (if kind == "CronJob" then some ("batch", "cronjobs") else none))

abbrev pub describe_entry : ResourceSnapshot → String
describe_entry e = e.kind <> " " <> e.namespace <> "/" <> e.name

abbrev pub entry_review : String → List String → ResourceSnapshot → String × String → Review
entry_review user groups e (group, resource) = record {
  user = user;
  groups = groups;
  namespace = e.namespace;
  group = group;
  resource = resource;
  name = e.name;
  verb = "patch";
}

-- A warning: the number of skipped resources, and their list.
pub data Warning : Type 0 where
  skipped : ℕ → String → Warning

abbrev pub asks_partial : ShutdownGroup → Bool
asks_partial sg = index sg.annotations annotation_partial == "true"

module _ (C : Client) (check : Check C) where
  -- One round of the inner loops of `checkDownTargets`.
  unfoldable pub check_one : String → List String → Workload → Tally → Effect C.State Tally
  check_one user groups x t = do
    allowed ←
        context ("checking patch permission for " <> describe x)
          (check (patch_review user groups x))
    pure (count (describe x) t allowed)

  unfoldable pub check_down_targets : ShutdownGroup → String → List String → Effect C.State Tally
  unfolding check_one for_targets
  check_down_targets sg user groups =
      for_targets C (check_one user groups) sg.namespace sg.targets no_tally

  -- One round of the loop of `checkUpTargets`; an unknown kind is passed over.
  unfoldable pub check_entry :
      String
      → List String
      → ResourceSnapshot
      → Tally
      → Option (String × String)
      → Effect C.State Tally
  check_entry user groups e t none = pure t
  check_entry user groups e t (some attributes) = do
    allowed ←
        context ("checking patch permission for " <> describe_entry e)
          (check (entry_review user groups e attributes))
    pure (count (describe_entry e) t allowed)

  unfoldable pub check_entries :
      String → List String → List ResourceSnapshot → Tally → Effect C.State Tally
  unfolding check_entry
  check_entries user groups [] t = pure t
  check_entries user groups (e ∷ es) t =
      check_entry user groups e t (kind_attributes e.kind) >>= check_entries user groups es

  unfoldable pub check_up_targets : ShutdownGroup → String → List String → Effect C.State Tally
  unfolding check_entries
  check_up_targets sg user groups = check_entries user groups sg.status.snapshot no_tally

  -- `validateCommand` past its switch.
  unfoldable pub decide : String → ShutdownGroup → Tally → Effect C.State (List Warning)
  unfolding join
  decide command sg t =
      if is_empty t.forbidden
      then pure []
      else (if asks_partial sg && ((command == command_down) && ltb 0 t.authorized)
          then pure (skipped (length t.forbidden) (join ", " t.forbidden) ∷ [])
          else fail (insufficient (length t.forbidden) (join ", " t.forbidden)))

  -- The switch. The error quotes the value.
  unfoldable pub tally : String → ShutdownGroup → AdmissionRequest → Effect C.State Tally
  unfolding check_down_targets check_up_targets
  tally command sg req =
      if command == command_down
      then check_down_targets sg req.username req.groups
      else (if command == command_up
          then check_up_targets sg req.username req.groups
          else fail (errorf ("unknown command annotation value: \"" <> command <> "\"")))

  unfoldable pub validate_command :
      Result AdmissionRequest → String → ShutdownGroup → Effect C.State (List Warning)
  unfolding tally decide
  validate_command (err e) command sg = fail (wrap "retrieving admission request" e)
  validate_command (ok req) command sg = tally command sg req >>= decide command sg

  unfoldable pub validate_create :
      Result AdmissionRequest → ShutdownGroup → Effect C.State (List Warning)
  unfolding validate_command
  validate_create request sg =
      let command = index sg.annotations annotation_command in
      if command == "" then pure [] else validate_command request command sg

  unfoldable pub validate_update :
      Result AdmissionRequest → ShutdownGroup → ShutdownGroup → Effect C.State (List Warning)
  unfolding validate_command
  validate_update request old new =
      let command = index new.annotations annotation_command in
      if (command == "") || (command == index old.annotations annotation_command)
      then pure []
      else validate_command request command new

  unfoldable pub validate_delete : ShutdownGroup → Effect C.State (List Warning)
  validate_delete sg = pure []
