-- ===== src/Controller/Group.antt =====
-- The writes of the ShutdownGroup itself: the changes as functions on the object, and the calls
-- `appendHistory` and `consumeAnnotations` that write them.
pub mod Laws
use kshutdown.Base.{
  ℕ, String, ◌<>◌, ltb, if◌then◌else◌, some, List, [], ◌∷◌, length, take, Effect, context, ◌>>◌,
  pure,
}
use kshutdown.Base.Text.{join}
use kshutdown.Base.GoMap.{erase_all, index}
use kshutdown.Api.{
  ShutdownGroup, ShutdownGroupStatus, ResourceSnapshot, HistoryEntry, Timestamp, state_up,
  state_down, annotation_command, annotation_reason, annotation_operator,
  annotation_operator_groups, annotation_partial, max_history_entries,
}
use kshutdown.Api.Client.{Client}

-- The annotations that a shutdown consumes, and those that a startup consumes.
abbrev pub down_keys : List String
down_keys =
    annotation_command ∷ annotation_reason ∷ annotation_operator ∷ annotation_operator_groups
    ∷ annotation_partial ∷ []

abbrev pub up_keys : List String
up_keys =
    annotation_command ∷ annotation_reason ∷ annotation_operator ∷ annotation_operator_groups ∷ []

abbrev pub operator_of : ShutdownGroup → String
operator_of sg = index sg.annotations annotation_operator

abbrev pub reason_of : ShutdownGroup → String
reason_of sg = index sg.annotations annotation_reason

abbrev pub with_status : ShutdownGroup → ShutdownGroupStatus → ShutdownGroup
with_status sg st = record sg { status = st }

-- The snapshot, with who asked for the shutdown and why.
abbrev pub captured : List ResourceSnapshot → ShutdownGroup → ShutdownGroup
captured es sg =
    with_status sg
      (record sg.status { snapshot = es; operator = operator_of sg; reason = reason_of sg })

abbrev pub marked_down : Timestamp → ShutdownGroup → ShutdownGroup
marked_down now sg = with_status sg (record sg.status { state = state_down; since = some now })

-- The state is set and the snapshot is cleared in one patch.
abbrev pub marked_up : Timestamp → String → String → ShutdownGroup → ShutdownGroup
marked_up now operator reason sg = with_status sg (record sg.status {
  state = state_up;
  since = some now;
  operator = operator;
  reason = reason;
  snapshot = [];
})

-- `if len(history) > MaxHistoryEntries { history = history[:MaxHistoryEntries] }`
unfoldable pub cap_history : List HistoryEntry → List HistoryEntry
cap_history h = if ltb max_history_entries (length h) then take max_history_entries h else h

abbrev pub with_entry : HistoryEntry → ShutdownGroup → ShutdownGroup
with_entry entry sg =
    with_status sg (record sg.status { history = cap_history (entry ∷ sg.status.history) })

abbrev pub without : List String → ShutdownGroup → ShutdownGroup
without keys sg = record sg { annotations = erase_all keys sg.annotations }

module _ (C : Client) where
  unfoldable pub append_history : ShutdownGroup → HistoryEntry → Effect C.State ShutdownGroup
  append_history sg entry =
      context "appending history entry" (C.patch_status sg (with_entry entry sg))

  unfoldable pub consume_annotations : ShutdownGroup → List String → Effect C.State (Unit {0})
  unfolding join
  consume_annotations sg keys =
      context ("consuming annotations [" <> join " " keys <> "]")
        (C.patch_group sg (without keys sg))
      >> pure tt
