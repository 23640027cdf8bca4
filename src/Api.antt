-- ===== src/Api.antt =====
-- api/v1alpha1: the types of shutdowngroup_types.go and the constants of constants.go.
pub mod Client
pub mod DeepCopy
pub mod Reads
use kshutdown.Base.{ℕ, String, Bool, Option, none, List, []}
use kshutdown.Base.GoMap.{GoMap}

-- An int32 as the number of its bit pattern: the code only copies and compares such values.
abbrev pub Int32 : Type 0
Int32 = ℕ

-- A `metav1.Time` as whole seconds, the precision at which it is stored.
abbrev pub Timestamp : Type 0
Timestamp = ℕ

abbrev pub annotation_command : String
annotation_command = "kshutdown.io/command"

abbrev pub annotation_reason : String
annotation_reason = "kshutdown.io/reason"

abbrev pub annotation_operator : String
annotation_operator = "kshutdown.io/operator"

abbrev pub annotation_partial : String
annotation_partial = "kshutdown.io/partial"

abbrev pub annotation_operator_groups : String
annotation_operator_groups = "kshutdown.io/operator-groups"

abbrev pub command_down : String
command_down = "down"

abbrev pub command_up : String
command_up = "up"

abbrev pub annotation_sync_options : String
annotation_sync_options = "argocd.argoproj.io/sync-options"

abbrev pub sync_option_prune_false : String
sync_option_prune_false = "Prune=false"

abbrev pub max_history_entries : ℕ
max_history_entries = 20

-- `ShutdownGroupState` is a string; "" is a status that was never written.
abbrev pub state_up : String
state_up = "up"

abbrev pub state_down : String
state_down = "down"

pub record Target : Type 0 where
  pub namespace : String
  pub label_selector : GoMap

pub record ResourceSnapshot : Type 0 where
  pub namespace : String
  pub name : String
  pub kind : String
  pub previous_replicas : Int32

pub record HistoryEntry : Type 0 where
  pub operation : String
  pub at : Timestamp
  pub operator : String
  pub reason : String

pub record ShutdownGroupStatus : Type 0 where
  pub state : String
  pub since : Option Timestamp
  pub operator : String
  pub reason : String
  pub snapshot : List ResourceSnapshot
  pub history : List HistoryEntry

-- The object with the metadata that the code reads. `deleting` says that the deletion timestamp
-- is set.
pub record ShutdownGroup : Type 0 where
  pub namespace : String
  pub name : String
  pub deleting : Bool
  pub annotations : GoMap
  pub targets : List Target
  pub status : ShutdownGroupStatus

-- The zero value of the status.
abbrev pub empty_status : ShutdownGroupStatus
empty_status = record {
  state = "";
  since = none;
  operator = "";
  reason = "";
  snapshot = [];
  history = [];
}
