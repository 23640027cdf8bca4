-- ===== src/Api/DeepCopy/Cells.antt =====
-- What the pointers, slices and maps of the API types refer to. A map, the array of a slice and a
-- struct made by `new` each stand in a cell. A slice is its array: the code makes each one as long
-- as its array.
use kshutdown.Base.{String, refl, Option, none, List, []}
use kshutdown.Base.GoMap.{GoMap}
use kshutdown.Api.{Timestamp, HistoryEntry, ResourceSnapshot}
use kshutdown.Store.{Address, Slot}

pub record TypeMeta : Type 0 where
  pub kind : String
  pub api_version : String

-- metav1's metadata, as far as the code reads it.
pub record ObjectMeta : Type 0 where
  pub namespace : String
  pub name : String
  pub deletion_timestamp : Option Address
  pub annotations : Option Address

pub record ListMeta : Type 0 where
  pub resource_version : String
  pub continue_token : String

pub record StoredTarget : Type 0 where
  pub namespace : String
  pub label_selector : Option Address

pub record StoredSpec : Type 0 where
  pub targets : Option Address

pub record StoredStatus : Type 0 where
  pub state : String
  pub since : Option Address
  pub operator : String
  pub reason : String
  pub snapshot : Option Address
  pub history : Option Address

pub record StoredGroup : Type 0 where
  pub type_meta : TypeMeta
  pub object_meta : ObjectMeta
  pub spec : StoredSpec
  pub status : StoredStatus

pub record StoredGroupList : Type 0 where
  pub type_meta : TypeMeta
  pub list_meta : ListMeta
  pub items : Option Address

pub data Cell : Type 0 where
  labels : GoMap → Cell
  time : Timestamp → Cell
  targets : List StoredTarget → Cell
  snapshots : List ResourceSnapshot → Cell
  entries : List HistoryEntry → Cell
  groups : List StoredGroup → Cell
  target : StoredTarget → Cell
  snapshot : ResourceSnapshot → Cell
  entry : HistoryEntry → Cell
  spec : StoredSpec → Cell
  status : StoredStatus → Cell
  group : StoredGroup → Cell
  group_list : StoredGroupList → Cell

-- The zero values.
abbrev pub zero_target : StoredTarget
zero_target = record { namespace = ""; label_selector = none }

abbrev pub zero_snapshot : ResourceSnapshot
zero_snapshot = record { namespace = ""; name = ""; kind = ""; previous_replicas = 0 }

abbrev pub zero_entry : HistoryEntry
zero_entry = record { operation = ""; at = 0; operator = ""; reason = "" }

abbrev pub zero_spec : StoredSpec
zero_spec = record { targets = none }

abbrev pub zero_status : StoredStatus
zero_status = record {
  state = "";
  since = none;
  operator = "";
  reason = "";
  snapshot = none;
  history = none;
}

abbrev pub zero_type_meta : TypeMeta
zero_type_meta = record { kind = ""; api_version = "" }

abbrev pub zero_object_meta : ObjectMeta
zero_object_meta = record {
  namespace = "";
  name = "";
  deletion_timestamp = none;
  annotations = none;
}

abbrev pub zero_group : StoredGroup
zero_group = record {
  type_meta = zero_type_meta;
  object_meta = zero_object_meta;
  spec = zero_spec;
  status = zero_status;
}

abbrev pub zero_group_list : StoredGroupList
zero_group_list = record {
  type_meta = zero_type_meta;
  list_meta = record { resource_version = ""; continue_token = "" };
  items = none;
}

-- The cells of each type. A read at another type gives the zero value; Go's types rule it out.
abbrev pub labels_of : Cell → GoMap
labels_of (Cell.labels x) = x
labels_of _ = []

abbrev pub labels_slot : Slot Cell GoMap
labels_slot = record { put = Cell.labels; get = labels_of; get-put = λ x. refl }

abbrev pub time_of : Cell → Timestamp
time_of (Cell.time x) = x
time_of _ = 0

abbrev pub time_slot : Slot Cell Timestamp
time_slot = record { put = Cell.time; get = time_of; get-put = λ x. refl }

abbrev pub targets_of : Cell → List StoredTarget
targets_of (Cell.targets x) = x
targets_of _ = []

abbrev pub targets_slot : Slot Cell (List StoredTarget)
targets_slot = record { put = Cell.targets; get = targets_of; get-put = λ x. refl }

abbrev pub snapshots_of : Cell → List ResourceSnapshot
snapshots_of (Cell.snapshots x) = x
snapshots_of _ = []

abbrev pub snapshots_slot : Slot Cell (List ResourceSnapshot)
snapshots_slot = record { put = Cell.snapshots; get = snapshots_of; get-put = λ x. refl }

abbrev pub entries_of : Cell → List HistoryEntry
entries_of (Cell.entries x) = x
entries_of _ = []

abbrev pub entries_slot : Slot Cell (List HistoryEntry)
entries_slot = record { put = Cell.entries; get = entries_of; get-put = λ x. refl }

abbrev pub groups_of : Cell → List StoredGroup
groups_of (Cell.groups x) = x
groups_of _ = []

abbrev pub groups_slot : Slot Cell (List StoredGroup)
groups_slot = record { put = Cell.groups; get = groups_of; get-put = λ x. refl }

abbrev pub target_of : Cell → StoredTarget
target_of (Cell.target x) = x
target_of _ = zero_target

abbrev pub target_slot : Slot Cell StoredTarget
target_slot = record { put = Cell.target; get = target_of; get-put = λ x. refl }

abbrev pub snapshot_of : Cell → ResourceSnapshot
snapshot_of (Cell.snapshot x) = x
snapshot_of _ = zero_snapshot

abbrev pub snapshot_slot : Slot Cell ResourceSnapshot
snapshot_slot = record { put = Cell.snapshot; get = snapshot_of; get-put = λ x. refl }

abbrev pub entry_of : Cell → HistoryEntry
entry_of (Cell.entry x) = x
entry_of _ = zero_entry

abbrev pub entry_slot : Slot Cell HistoryEntry
entry_slot = record { put = Cell.entry; get = entry_of; get-put = λ x. refl }

abbrev pub spec_of : Cell → StoredSpec
spec_of (Cell.spec x) = x
spec_of _ = zero_spec

abbrev pub spec_slot : Slot Cell StoredSpec
spec_slot = record { put = Cell.spec; get = spec_of; get-put = λ x. refl }

abbrev pub status_of : Cell → StoredStatus
status_of (Cell.status x) = x
status_of _ = zero_status

abbrev pub status_slot : Slot Cell StoredStatus
status_slot = record { put = Cell.status; get = status_of; get-put = λ x. refl }

abbrev pub group_of : Cell → StoredGroup
group_of (Cell.group x) = x
group_of _ = zero_group

abbrev pub group_slot : Slot Cell StoredGroup
group_slot = record { put = Cell.group; get = group_of; get-put = λ x. refl }

abbrev pub group_list_of : Cell → StoredGroupList
group_list_of (Cell.group_list x) = x
group_list_of _ = zero_group_list

abbrev pub group_list_slot : Slot Cell StoredGroupList
group_list_slot = record { put = Cell.group_list; get = group_list_of; get-put = λ x. refl }
