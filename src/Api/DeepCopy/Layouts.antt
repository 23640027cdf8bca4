-- ===== src/Api/DeepCopy/Layouts.antt =====
-- How the API types are read through the store: nil stays nil, and a map is what it looks up.
use kshutdown.Base.{String, Option, List}
use kshutdown.Base.GoMap.{GoMap, lookup}
use kshutdown.Api.{Timestamp, HistoryEntry, ResourceSnapshot}
use kshutdown.Store.{Address}
use kshutdown.Store.Layout.{Layout, plain, via, both, items, pointer}
use kshutdown.Api.DeepCopy.Cells.{
  TypeMeta, ObjectMeta, ListMeta, StoredTarget, StoredSpec, StoredStatus, StoredGroup,
  StoredGroupList, Cell, labels_slot, time_slot, targets_slot, snapshots_slot, entries_slot,
  groups_slot,
}

abbrev pub LabelsView : Type 0
LabelsView = String → Option String

abbrev pub TargetView : Type 0
TargetView = String × Option LabelsView

abbrev pub SpecView : Type 0
SpecView = Option (List TargetView)

-- State, operator and reason; since; snapshot; history.
abbrev pub StatusView : Type 0
StatusView =
    (String × String × String)
    × (Option Timestamp × (Option (List ResourceSnapshot) × Option (List HistoryEntry)))

-- Namespace and name; deletion timestamp; annotations.
abbrev pub MetaView : Type 0
MetaView = (String × String) × (Option Timestamp × Option LabelsView)

abbrev pub GroupView : Type 0
GroupView = TypeMeta × (MetaView × (SpecView × StatusView))

abbrev pub GroupListView : Type 0
GroupListView = (TypeMeta × ListMeta) × Option (List GroupView)

abbrev pub labels_layout : Layout Cell GoMap LabelsView
labels_layout = plain λ m k. lookup k m

abbrev pub as_is : {A : Type 0} → Layout Cell A A
as_is = plain λ x. x

abbrev pub label_pointer : Layout Cell (Option Address) (Option LabelsView)
label_pointer = pointer labels_layout labels_slot

abbrev pub time_pointer : Layout Cell (Option Address) (Option Timestamp)
time_pointer = pointer as_is time_slot

abbrev pub target_layout : Layout Cell StoredTarget TargetView
target_layout = via (λ t. (t.namespace, t.label_selector)) (both as_is label_pointer)

abbrev pub spec_layout : Layout Cell StoredSpec SpecView
spec_layout = via (λ s. s.targets) (pointer (items target_layout) targets_slot)

abbrev pub status_layout : Layout Cell StoredStatus StatusView
status_layout =
    via (λ s. ((s.state, s.operator, s.reason), (s.since, (s.snapshot, s.history))))
      (both as_is (
        both time_pointer
          (both (pointer as_is snapshots_slot) (pointer (items as_is) entries_slot))))

abbrev pub meta_layout : Layout Cell ObjectMeta MetaView
meta_layout =
    via (λ m. ((m.namespace, m.name), (m.deletion_timestamp, m.annotations)))
      (both as_is (both time_pointer label_pointer))

abbrev pub group_layout : Layout Cell StoredGroup GroupView
group_layout =
    via (λ g. (g.type_meta, (g.object_meta, (g.spec, g.status))))
      (both as_is (both meta_layout (both spec_layout status_layout)))

abbrev pub group_list_layout : Layout Cell StoredGroupList GroupListView
group_list_layout =
    via (λ l. ((l.type_meta, l.list_meta), l.items))
      (both as_is (pointer (items group_layout) groups_slot))
