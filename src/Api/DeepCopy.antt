-- ===== src/Api/DeepCopy.antt =====
-- api/v1alpha1/zz_generated.deepcopy.go, over a store: the API types with the references that they
-- hold in Go, and each type's `DeepCopyInto`, `DeepCopy` and `DeepCopyObject`. The copies of
-- metav1's own types are a parameter.
pub mod Cells
pub mod Layouts
pub mod Laws
pub mod Later
use kshutdown.Base.{String, Option, none, some, List, [], ◌∷◌}
use kshutdown.Base.GoMap.{GoMap, insert}
use kshutdown.Api.{Timestamp, HistoryEntry, ResourceSnapshot}
use kshutdown.Store.{Address, Store, Copier, copy_plain, copy_items, copy_pointer}
use kshutdown.Api.DeepCopy.Cells.{
  TypeMeta, ObjectMeta, ListMeta, StoredTarget, StoredSpec, StoredStatus, StoredGroup,
  StoredGroupList, Cell, labels_slot, targets_slot, snapshots_slot, entries_slot, groups_slot,
  target_slot, snapshot_slot, entry_slot, spec_slot, status_slot, group_slot, group_list_slot,
  zero_target, zero_snapshot, zero_entry, zero_spec, zero_status, zero_group, zero_group_list,
}

-- metav1's copies: `Time.DeepCopyInto`, `Time.DeepCopy`, `ObjectMeta.DeepCopyInto` and
-- `ListMeta.DeepCopyInto`.
pub record MetaV1 : Type 0 where
  pub time_into : Timestamp → Timestamp
  pub time_copy : Copier Cell (Option Address)
  pub object_meta_into : Copier Cell ObjectMeta
  pub list_meta_into : ListMeta → ListMeta

-- `for key, val := range *in { (*out)[key] = val }`. Go fixes no order.
unfoldable pub copy_entries : GoMap → GoMap
unfolding insert
copy_entries [] = []
copy_entries (entry ∷ rest) = insert entry.0 entry.1 (copy_entries rest)

unfoldable pub labels_into : Copier Cell GoMap
unfolding copy_entries
labels_into m h = (copy_entries m, h)

unfoldable pub target_into : Copier Cell StoredTarget
unfolding copy_pointer labels_into
target_into t h =
    let labels = copy_pointer labels_slot [] labels_into t.label_selector h in
    (record t { label_selector = labels.0 }, labels.1)

unfoldable pub snapshot_into : Copier Cell ResourceSnapshot
snapshot_into = copy_plain

unfoldable pub spec_into : Copier Cell StoredSpec
unfolding copy_pointer copy_items target_into
spec_into s h =
    let targets = copy_pointer targets_slot [] (copy_items target_into) s.targets h in
    (record s { targets = targets.0 }, targets.1)

-- `(out *T) DeepCopyInto` after a nil check and `new(T)`, for the types without metadata.
unfoldable pub target_copy : Copier Cell (Option Address)
unfolding copy_pointer target_into
target_copy = copy_pointer target_slot zero_target target_into

unfoldable pub snapshot_copy : Copier Cell (Option Address)
unfolding copy_pointer snapshot_into
snapshot_copy = copy_pointer snapshot_slot zero_snapshot snapshot_into

unfoldable pub spec_copy : Copier Cell (Option Address)
unfolding copy_pointer spec_into
spec_copy = copy_pointer spec_slot zero_spec spec_into

-- A `runtime.Object`: the interface holds a pointer of one of the two types.
pub data Object : Type 0 where
  a_group a_group_list : Address → Object

abbrev pub as_object : (Address → Object) → Option Address × Store Cell → Option Object × Store Cell
as_object wrap (none, h) = (none, h)
as_object wrap (some p, h) = (some (wrap p), h)

module _ (M : MetaV1) where
  unfoldable pub entry_into : Copier Cell HistoryEntry
  entry_into e h = (record e { at = M.time_into e.at }, h)

  -- `if in.Since != nil { *out = (*in).DeepCopy() }`
  abbrev pub since_into : Copier Cell (Option Address)
  since_into none h = (none, h)
  since_into (some p) h = M.time_copy (some p) h

  unfoldable pub status_into : Copier Cell StoredStatus
  unfolding copy_pointer copy_items entry_into
  status_into s h =
      let since = since_into s.since h in
      let snapshot = copy_pointer snapshots_slot [] copy_plain s.snapshot since.1 in
      let history = copy_pointer entries_slot [] (copy_items entry_into) s.history snapshot.1 in
      (record s { since = since.0; snapshot = snapshot.0; history = history.0 }, history.1)

  unfoldable pub group_into : Copier Cell StoredGroup
  unfolding spec_into status_into
  group_into g h =
      let meta = M.object_meta_into g.object_meta h in
      let spec = spec_into g.spec meta.1 in
      let status = status_into g.status spec.1 in
      (record g { object_meta = meta.0; spec = spec.0; status = status.0 }, status.1)

  unfoldable pub group_list_into : Copier Cell StoredGroupList
  unfolding copy_pointer copy_items group_into
  group_list_into l h =
      let items = copy_pointer groups_slot [] (copy_items group_into) l.items h in
      (record l { list_meta = M.list_meta_into l.list_meta; items = items.0 }, items.1)

  unfoldable pub entry_copy : Copier Cell (Option Address)
  unfolding copy_pointer entry_into
  entry_copy = copy_pointer entry_slot zero_entry entry_into

  unfoldable pub status_copy : Copier Cell (Option Address)
  unfolding copy_pointer status_into
  status_copy = copy_pointer status_slot zero_status status_into

  unfoldable pub group_copy : Copier Cell (Option Address)
  unfolding copy_pointer group_into
  group_copy = copy_pointer group_slot zero_group group_into

  unfoldable pub group_list_copy : Copier Cell (Option Address)
  unfolding copy_pointer group_list_into
  group_list_copy = copy_pointer group_list_slot zero_group_list group_list_into

  -- `DeepCopyObject`: a nil pointer becomes a nil interface.
  unfoldable pub group_copy_object : Option Address → Store Cell → Option Object × Store Cell
  unfolding group_copy
  group_copy_object p h = as_object a_group (group_copy p h)

  unfoldable pub group_list_copy_object : Option Address → Store Cell → Option Object × Store Cell
  unfolding group_list_copy
  group_list_copy_object p h = as_object a_group_list (group_list_copy p h)
