-- ===== src/Tests/Stored.antt =====
-- An object in a store, its copy, and the writes after it.
use kshutdown.Base.{zero, suc, String, ◌<◌, ◌≡◌, refl, arith, Option, none, some, [], ◌∷◌}
use kshutdown.Base.GoMap.{GoMap, lookup, erase_all}
use kshutdown.Api.{HistoryEntry, annotation_command, annotation_operator, command_down}
use kshutdown.Store.{Address, Store, Copier, copy_plain, copy_pointer}
use kshutdown.Store.Layout.{both}
use kshutdown.Store.Deep.{Copied, IsDeep, Copied-both, copy_plain-IsDeep, copy_pointer-IsDeep}
use kshutdown.Api.DeepCopy.{MetaV1, labels_into, group_list_copy}
use kshutdown.Api.DeepCopy.Cells.{
  Cell, ObjectMeta, StoredGroup, StoredGroupList, StoredTarget, labels_slot, time_slot, zero_status,
}
use kshutdown.Api.DeepCopy.Layouts.{as_is, label_pointer, time_pointer, meta_layout, group_layout}
use kshutdown.Api.DeepCopy.Laws.{IsMetaV1, Copied-via, Copied-as_is, label_pointer-IsDeep}
use kshutdown.Api.DeepCopy.Later.{group_pointer, group_list_pointer, group_list_copy-Copied}
use kshutdown.Controller.Group.{down_keys, cap_history}
use kshutdown.Controller.Stored.{entries_at, append_stored, consume_stored}
use kshutdown.Controller.Stored.Laws.{IsStored}
use kshutdown.Controller.Stored.Append.{view_history, append_stored_lem}
use kshutdown.Controller.Stored.Consume.{OwnsMap, view_annotations, consume_stored_lem}

-- metav1's copies, over the store.
copy_time : Copier Cell (Option Address)
copy_time = copy_pointer time_slot 0 copy_plain

copy_meta : Copier Cell ObjectMeta
unfolding copy_time
copy_meta m h =
    let time = copy_time m.deletion_timestamp h in
    let labels = copy_pointer labels_slot [] labels_into m.annotations time.1 in
    (record m { deletion_timestamp = time.0; annotations = labels.0 }, labels.1)

copy_time-IsDeep : IsDeep time_pointer copy_time
unfolding copy_time
copy_time-IsDeep = copy_pointer-IsDeep as_is copy_plain (copy_plain-IsDeep λ x. x) time_slot 0

copy_meta-IsDeep : IsDeep meta_layout copy_meta
unfolding copy_meta
copy_meta-IsDeep h m w =
    let names : String × String = (m.namespace, m.name) in
    let time = copy_time m.deletion_timestamp h in
    let labels = copy_pointer labels_slot [] labels_into m.annotations time.1 in
    Copied-via (λ m. ((m.namespace, m.name), (m.deletion_timestamp, m.annotations)))
      (both as_is (both time_pointer label_pointer)) h m (copy_meta m h)
      (Copied-both as_is (both time_pointer label_pointer) h names
        (m.deletion_timestamp, m.annotations) (names, h) ((time.0, labels.0), labels.1) w.1
        (Copied-as_is h names names refl)
        λ w.
          Copied-both time_pointer label_pointer h m.deletion_timestamp m.annotations time labels
            w.1 (copy_time-IsDeep h m.deletion_timestamp w.0)
            (label_pointer-IsDeep time.1 m.annotations))

meta_v1 : MetaV1
unfolding copy_time copy_meta
meta_v1 = record {
  time_into = λ t. t;
  time_copy = copy_time;
  object_meta_into = copy_meta;
  list_meta_into = λ m. m;
}

meta_v1-IsMetaV1 : IsMetaV1 meta_v1
unfolding meta_v1
meta_v1-IsMetaV1 = record {
  time_same = λ t. refl;
  time_deep = copy_time-IsDeep;
  object_meta_deep = copy_meta-IsDeep;
  list_meta_same = λ m. refl;
}

-- The object at 0, its annotations at 1, its targets at 2 with the labels at 3, its history at 4; a list
-- at 6 that holds the object's value at 5.
abbrev notes : GoMap
notes = (annotation_command, command_down) ∷ (annotation_operator, "ann") ∷ ("team", "pay") ∷ []

abbrev entry : HistoryEntry
entry = record { operation = "down"; at = 7; operator = "ann"; reason = "incident" }

abbrev stored : StoredGroup
stored = record {
  type_meta = record { kind = "ShutdownGroup"; api_version = "kshutdown.io/v1alpha1" };
  object_meta = record {
    namespace = "shop";
    name = "pay";
    deletion_timestamp = none;
    annotations = some 1;
  };
  spec = record { targets = some 2 };
  status = record zero_status { history = some 4 };
}

abbrev target : StoredTarget
target = record { namespace = ""; label_selector = some 3 }

abbrev groups : StoredGroupList
groups = record {
  type_meta = record { kind = "ShutdownGroupList"; api_version = "kshutdown.io/v1alpha1" };
  list_meta = record { resource_version = "12"; continue_token = "" };
  items = some 5;
}

abbrev cell : Address → Cell
cell zero = Cell.group stored
cell (suc zero) = Cell.labels notes
cell (suc (suc zero)) = Cell.targets (target ∷ [])
cell (suc (suc (suc zero))) = Cell.labels (("app", "pay") ∷ [])
cell (suc (suc (suc (suc zero)))) = Cell.entries (entry ∷ [])
cell (suc (suc (suc (suc (suc zero))))) = Cell.groups (stored ∷ [])
cell _ = Cell.group_list groups

abbrev store : Store Cell
store = record { next = 7; cells = cell }

reached_list : group_list_pointer.Within (λ b. b < 7) store (some 6)
reached_list = ground arith

group_list_copy-Copied_example :
    Copied group_list_pointer store (some 6) (group_list_copy meta_v1 (some 6) store)
group_list_copy-Copied_example =
    group_list_copy-Copied meta_v1 meta_v1-IsMetaV1 store (some 6) reached_list

stored-IsStored : IsStored store 0 stored
stored-IsStored = record { held = refl; below = omega arith; within = ground arith }

notes-OwnsMap : OwnsMap store 0 1 stored notes
notes-OwnsMap = record { map_at = refl; map_held = refl; alone = ground arith }

consume_stored_lem_example :
    (group_pointer.view
        (consume_stored meta_v1 0 down_keys store).1
        (consume_stored meta_v1 0 down_keys store).0
      ≡ some (group_layout.view store stored))
    × (group_pointer.view (consume_stored meta_v1 0 down_keys store).1 (some 0)
        ≡ some (
            view_annotations
              (some λ k. lookup k (erase_all down_keys notes))
              (group_layout.view store stored)))
consume_stored_lem_example =
    consume_stored_lem meta_v1 meta_v1-IsMetaV1 down_keys store 0 1 stored notes stored-IsStored
      notes-OwnsMap

append_stored_lem_example :
    (group_pointer.view
        (append_stored meta_v1 0 entry store).1
        (append_stored meta_v1 0 entry store).0
      ≡ some (group_layout.view store stored))
    × (group_pointer.view (append_stored meta_v1 0 entry store).1 (some 0)
        ≡ some (
            view_history
              (cap_history (entry ∷ entries_at store (some 4)))
              (group_layout.view store stored)))
append_stored_lem_example =
    append_stored_lem meta_v1 meta_v1-IsMetaV1 entry store 0 stored stored-IsStored
