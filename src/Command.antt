-- ===== src/Command.antt =====
-- cmd/kubectl-kshutdown: the commands `down` (down.go) and `up` (up.go). What a command prints is the
-- outcome that it returns; `connect` stands for `clientFactory`.
pub mod Laws
pub mod Full
pub mod Sent
pub mod Define
pub mod Admitted
pub mod Age
pub mod Show
pub mod Export
pub mod Clients
pub mod Line
pub mod Main
use kshutdown.Base.{
  String, ◌<>◌, ◌==◌, ◌&&◌, not, if◌then◌else◌, Bool, true, false, Option, none, some, List, [],
  ◌∷◌, ◌++◌, length, is_empty, errorf, insufficient, Effect, pure, fail, context, ◌>>=◌, ◌>>◌,
}
use kshutdown.Base.GoMap.{insert}
use kshutdown.Api.{
  ShutdownGroup, ResourceSnapshot, state_up, state_down, command_up, command_down,
  annotation_command, annotation_reason, annotation_operator, annotation_partial,
}
use kshutdown.Api.Client.{Client}
use kshutdown.Authz.Caller.{Caller, check_patch, current_username}
use kshutdown.Targets.{Workload, api_group, resource_name, for_targets}
use kshutdown.Controller.Collect.{describe}
use kshutdown.Webhook.{kind_attributes, describe_entry}

-- The ways in which a command ends without an error.
pub data Outcome : Type 0 where
  already_there dry_run triggered : Outcome

pub record Flags : Type 0 where
  pub reason : String
  pub partial : Bool
  pub dry : Bool

-- `if !allowed { forbidden = append(forbidden, …) }`
abbrev pub note_forbidden : String → List String → Bool → List String
note_forbidden text forbidden true = forbidden
note_forbidden text forbidden false = forbidden ++ (text ∷ [])

-- The annotations that `down` writes.
abbrev pub asking_down : String → String → Bool → ShutdownGroup → ShutdownGroup
asking_down reason username partial sg =
    let asked =
      insert annotation_operator username
        (insert annotation_reason reason (insert annotation_command command_down sg.annotations)) in
    record sg { annotations = if partial then insert annotation_partial "true" asked else asked }

abbrev pub asking_up : String → ShutdownGroup → ShutdownGroup
asking_up username sg = record sg {
  annotations =
      insert annotation_operator username (insert annotation_command command_up sg.annotations);
}

module _ (C : Client) (caller : Caller C) where
  unfoldable pub check_workload : Workload → List String → Effect C.State (List String)
  unfolding check_patch
  check_workload x forbidden = do
    allowed ←
        check_patch C caller x.namespace (api_group x.resource) (resource_name x.resource)
          x.item.name
    pure (note_forbidden (describe x) forbidden allowed)

  unfoldable pub check_down_permissions : ShutdownGroup → Effect C.State (List String)
  unfolding check_workload for_targets
  check_down_permissions sg = for_targets C check_workload sg.namespace sg.targets []

  -- `down` from the dry run on.
  unfoldable pub trigger_down :
      Flags → String → String → ShutdownGroup → List String → Effect C.State Outcome
  unfolding current_username
  trigger_down flags ns name sg forbidden = if flags.dry then pure dry_run else (do
    username ← context "resolving current username" (current_username C caller)
    context ("patching shutdowngroup " <> ns <> "/" <> name) (
        C.patch_group sg
          (asking_down flags.reason username (flags.partial && not (is_empty forbidden)) sg))
    pure triggered)

  -- `down` once the object is read.
  unfoldable pub down_found : Flags → String → String → ShutdownGroup → Effect C.State Outcome
  unfolding check_down_permissions trigger_down
  down_found flags ns name sg = if sg.status.state == state_down then pure already_there else (do
    forbidden ← check_down_permissions sg
    if not (is_empty forbidden) && not flags.partial
        then fail (
            errorf
              "aborting: insufficient permissions (use --partial to proceed with authorized resources only)")
        else trigger_down flags ns name sg forbidden)

  -- One round of the loop of `up`; an unknown kind is passed over.
  unfoldable pub check_snapshot_entry :
      ResourceSnapshot → List String → Option (String × String) → Effect C.State (List String)
  unfolding check_patch
  check_snapshot_entry e forbidden none = pure forbidden
  check_snapshot_entry e forbidden (some (group, resource)) = do
    allowed ← check_patch C caller e.namespace group resource e.name
    pure (note_forbidden (describe_entry e) forbidden allowed)

  unfoldable pub check_snapshot : List ResourceSnapshot → List String → Effect C.State (List String)
  unfolding check_snapshot_entry
  check_snapshot [] forbidden = pure forbidden
  check_snapshot (e ∷ es) forbidden =
      check_snapshot_entry e forbidden (kind_attributes e.kind) >>= check_snapshot es

  -- `up` from the dry run on.
  unfoldable pub trigger_up : Bool → String → String → ShutdownGroup → Effect C.State Outcome
  unfolding current_username
  trigger_up dry ns name sg = if dry then pure dry_run else (do
    username ← context "resolving current username" (current_username C caller)
    context ("patching shutdowngroup " <> ns <> "/" <> name)
        (C.patch_group sg (asking_up username sg))
    pure triggered)

  -- `up` once the object is read. The error's list of names goes to the standard error output.
  unfoldable pub up_found : Bool → String → String → ShutdownGroup → Effect C.State Outcome
  unfolding check_snapshot trigger_up
  up_found dry ns name sg =
      if sg.status.state == state_up
      then pure already_there
      else (if is_empty sg.status.snapshot
          then fail (
              errorf (
                "ShutdownGroup " <> ns <> "/" <> name
                <> " has no snapshot — cannot restore (state: " <> sg.status.state <> ")"))
          else (do
            forbidden ← check_snapshot sg.status.snapshot []
            if is_empty forbidden
                then trigger_up dry ns name sg
                else fail (insufficient (length forbidden) "")))

module _ (C : Client) (caller : Caller C) (connect : Effect C.State (Unit {0})) where
  unfoldable pub down_command : Flags → String → String → Effect C.State Outcome
  unfolding down_found
  down_command flags ns name =
      if flags.reason == ""
      then fail (errorf "--reason is required")
      else (if ns == "" then fail (errorf "--namespace / -n is required") else (do
        context "building client" connect
        sg ← context ("getting shutdowngroup " <> ns <> "/" <> name) (C.get_group ns name)
        down_found C caller flags ns name sg))

  unfoldable pub up_command : Bool → String → String → Effect C.State Outcome
  unfolding up_found
  up_command dry ns name = if ns == "" then fail (errorf "--namespace / -n is required") else (do
    context "building client" connect
    sg ← context ("getting shutdowngroup " <> ns <> "/" <> name) (C.get_group ns name)
    up_found C caller dry ns name sg)
