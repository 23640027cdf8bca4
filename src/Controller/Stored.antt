-- ===== src/Controller/Stored.antt =====
-- `appendHistory` and `consumeAnnotations` (internal/controller/shutdowngroup_controller.go) over
-- the store, up to the call of the patch: the object that `client.MergeFrom` was given, and the
-- store that holds both ends of the patch. `Controller.Group` has the same two without references.
pub mod Append
pub mod Consume
pub mod Laws
use kshutdown.Base.{String, Option, none, some, List, [], ◌∷◌}
use kshutdown.Base.GoMap.{erase}
use kshutdown.Api.{HistoryEntry}
use kshutdown.Store.{Address, Store, write, alloc}
use kshutdown.Api.DeepCopy.{MetaV1, group_copy}
use kshutdown.Api.DeepCopy.Cells.{Cell, StoredGroup, labels_of, entries_of, group_of}
use kshutdown.Controller.Group.{cap_history}

-- `delete(annotations, key)`: nothing happens to a nil map.
unfoldable pub delete_key : String → Option Address → Store Cell → Store Cell
unfolding write erase
delete_key key none h = h
delete_key key (some a) h = write a (Cell.labels (erase key (labels_of (h.cells a)))) h

unfoldable pub delete_keys : List String → Option Address → Store Cell → Store Cell
unfolding delete_key
delete_keys [] annotations h = h
delete_keys (key ∷ keys) annotations h = delete_keys keys annotations (delete_key key annotations h)

-- `sg.SetAnnotations(annotations)`
abbrev pub set_annotations : Option Address → StoredGroup → StoredGroup
set_annotations annotations sg = record sg {
  object_meta = record sg.object_meta { annotations = annotations };
}

abbrev pub set_history : Option Address → StoredGroup → StoredGroup
set_history history sg = record sg { status = record sg.status { history = history } }

-- The entries of a slice, none for nil.
abbrev pub entries_at : Store Cell → Option Address → List HistoryEntry
entries_at h none = []
entries_at h (some a) = entries_of (h.cells a)

module _ (M : MetaV1) (p : Address) where
  unfoldable pub consume_stored : List String → Store Cell → Option Address × Store Cell
  unfolding group_copy delete_keys write
  consume_stored keys h =
      let base = group_copy M (some p) h in
      let annotations = (group_of (base.1.cells p)).object_meta.annotations in
      let deleted = delete_keys keys annotations base.1 in
      (
        base.0,
        write p (Cell.group (set_annotations annotations (group_of (deleted.cells p)))) deleted,
      )

  -- `append` to a slice of one entry makes a new array. What the cap cuts off is not read again.
  unfoldable pub append_stored : HistoryEntry → Store Cell → Option Address × Store Cell
  unfolding group_copy cap_history write alloc
  append_stored entry h =
      let base = group_copy M (some p) h in
      let sg = group_of (base.1.cells p) in
      let history = cap_history (entry ∷ entries_at base.1 sg.status.history) in
      let made = alloc (Cell.entries history) base.1 in
      (base.0, write p (Cell.group (set_history (some base.1.next) sg)) made)
