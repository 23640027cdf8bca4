-- ===== src/Controller/Reconcile.antt =====
-- `Reconcile`, `reconcileDown` and `reconcileUp`.
pub mod Down
pub mod Shutdown
pub mod Up
pub mod Levels
pub mod RoundTrip
pub mod Safety
pub mod Dispatch
pub mod Frame
pub mod Missing
pub mod Kept
pub mod Written
pub mod Ends
use kshutdown.Base.{
  String, ◌<>◌, ◌==◌, if◌then◌else◌, Bool, true, false, Option, none, some, List, is_empty, Error,
  errorf, Result, ok, err, Effect, pure, fail, context, ◌>>=◌, ◌>>◌,
}
use kshutdown.Base.GoMap.{index}
use kshutdown.Api.{
  ShutdownGroup, HistoryEntry, Timestamp, state_up, state_down, command_up, command_down,
  annotation_command,
}
use kshutdown.Api.Client.{Client}
use kshutdown.Authz.{Check}
use kshutdown.Controller.Collect.{collect_targets}
use kshutdown.Controller.Workloads.{scale_all, restore_all}
use kshutdown.Controller.Group.{
  down_keys, up_keys, operator_of, reason_of, captured, marked_down, marked_up, append_history,
  consume_annotations,
}

-- The history entry of an operation that an object's annotations ask for.
abbrev pub entry_of : String → Timestamp → ShutdownGroup → HistoryEntry
entry_of operation now sg = record {
  operation = operation;
  at = now;
  operator = operator_of sg;
  reason = reason_of sg;
}

module _ (C : Client) (check : Check C) where
  -- The snapshot is written once: a group that has one, from a run that stopped, keeps it.
  unfoldable pub capture : ShutdownGroup → Effect C.State ShutdownGroup
  unfolding collect_targets
  capture sg =
      if is_empty sg.status.snapshot
      then (do
        es ← context "collecting targets" (collect_targets C check sg)
        context "patching snapshot into status" (C.patch_status sg (captured es sg)))
      else pure sg

  -- `reconcileDown` from the scaling loop on.
  unfoldable pub finish_down : Timestamp → HistoryEntry → ShutdownGroup → Effect C.State (Unit {0})
  unfolding scale_all append_history consume_annotations
  finish_down now entry sg = do
    scale_all C sg.status.snapshot
    sg₁ ← context "patching state to down" (C.patch_status sg (marked_down now sg))
    sg₂ ← context "appending history after shutdown" (append_history C sg₁ entry)
    context "consuming annotations after shutdown" (consume_annotations C sg₂ down_keys)

  -- `reconcileDown` past its first test. The operator and the reason are read before the capture.
  unfoldable pub shut_down : Timestamp → ShutdownGroup → Effect C.State (Unit {0})
  unfolding capture finish_down
  shut_down now sg = capture sg >>= finish_down now (entry_of command_down now sg)

  unfoldable pub reconcile_down : Timestamp → ShutdownGroup → Effect C.State (Unit {0})
  unfolding shut_down
  reconcile_down now sg =
      if sg.status.state == state_down then consume_annotations C sg down_keys else shut_down now sg

  -- `reconcileUp` past its two tests.
  unfoldable pub start_up : Timestamp → ShutdownGroup → Effect C.State (Unit {0})
  unfolding restore_all append_history consume_annotations
  start_up now sg = do
    restore_all C sg.status.snapshot
    sg₁ ←
        context "patching state to up"
          (C.patch_status sg (marked_up now (operator_of sg) (reason_of sg) sg))
    sg₂ ←
        context "appending history after startup"
          (append_history C sg₁ (entry_of command_up now sg))
    context "consuming annotations after startup" (consume_annotations C sg₂ up_keys)

  unfoldable pub reconcile_up : Timestamp → ShutdownGroup → Effect C.State (Unit {0})
  unfolding start_up
  reconcile_up now sg =
      if sg.status.state == state_up
      then consume_annotations C sg up_keys
      else (if is_empty sg.status.snapshot
          then fail (
              errorf
                ("cannot reconcileUp from state \"" <> sg.status.state <> "\" with empty snapshot"))
          else start_up now sg)

  -- The switch on the command.
  unfoldable pub dispatch : Timestamp → ShutdownGroup → Effect C.State (Unit {0})
  unfolding reconcile_down reconcile_up
  dispatch now sg =
      let command = index sg.annotations annotation_command in
      if command == command_down
      then reconcile_down now sg
      else (if command == command_up then reconcile_up now sg else pure tt)

  -- `client.IgnoreNotFound` on the error of the first read.
  unfoldable pub ignored : Error → Effect C.State (Unit {0})
  ignored e = elim (C.ignore_not_found e) [ none ↦ pure tt | some e' ↦ fail e' ]

  unfoldable pub reconcile_found :
      Timestamp → Result ShutdownGroup × C.State → Result (Unit {0}) × C.State
  unfolding dispatch ignored
  reconcile_found now (err e, s) = ignored e s
  reconcile_found now (ok sg, s) = (if sg.deleting then pure tt else dispatch now sg) s

  unfoldable pub reconcile : Timestamp → String → String → Effect C.State (Unit {0})
  unfolding reconcile_found
  reconcile now ns name s = reconcile_found now (C.get_group ns name s)
