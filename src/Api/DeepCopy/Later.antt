-- ===== src/Api/DeepCopy/Later.antt =====
-- The copies of pointers, and what is written after a copy: it does not show on the other side.
use kshutdown.Base.{◌≡◌, ◌∙◌, Option}
use kshutdown.Store.{Address, Store, copy_plain}
use kshutdown.Store.Layout.{SameOn, Layout, pointer}
use kshutdown.Store.Deep.{Below, Between, Copied, IsDeep, copy_plain-IsDeep, copy_pointer-IsDeep}
use kshutdown.Api.DeepCopy.{
  MetaV1, target_into, snapshot_into, spec_into, entry_into, status_into, group_into,
  group_list_into, target_copy, snapshot_copy, spec_copy, entry_copy, status_copy, group_copy,
  group_list_copy,
}
use kshutdown.Api.DeepCopy.Cells.{
  Cell, target_slot, snapshot_slot, entry_slot, spec_slot, status_slot, group_slot, group_list_slot,
  zero_target, zero_snapshot, zero_entry, zero_spec, zero_status, zero_group, zero_group_list,
}
use kshutdown.Api.DeepCopy.Layouts.{
  as_is, target_layout, spec_layout, status_layout, group_layout, group_list_layout, GroupView,
  GroupListView,
}
use kshutdown.Api.DeepCopy.Laws.{
  IsMetaV1, target_into-IsDeep, spec_into-IsDeep, entry_into-IsDeep, status_into-IsDeep,
  group_into-IsDeep, group_list_into-IsDeep,
}

abbrev pub group_pointer : Layout Cell (Option Address) (Option GroupView)
group_pointer = pointer group_layout group_slot

abbrev pub group_list_pointer : Layout Cell (Option Address) (Option GroupListView)
group_list_pointer = pointer group_list_layout group_list_slot

-- Every `DeepCopy` of the file is deep.
pub record AllDeep (M : MetaV1) : Type 0 where
  pub target : IsDeep (pointer target_layout target_slot) target_copy
  pub snapshot : IsDeep (pointer as_is snapshot_slot) snapshot_copy
  pub entry : IsDeep (pointer as_is entry_slot) (entry_copy M)
  pub spec : IsDeep (pointer spec_layout spec_slot) spec_copy
  pub status : IsDeep (pointer status_layout status_slot) (status_copy M)
  pub group : IsDeep group_pointer (group_copy M)
  pub group_list : IsDeep group_list_pointer (group_list_copy M)

module _ (M : MetaV1) (laws : IsMetaV1 M) where
  pub all_deep : AllDeep M
  unfolding target_copy snapshot_copy snapshot_into entry_copy spec_copy status_copy group_copy
      group_list_copy
  all_deep = record {
    target =
        copy_pointer-IsDeep target_layout target_into target_into-IsDeep target_slot zero_target;
    snapshot =
        copy_pointer-IsDeep as_is copy_plain (copy_plain-IsDeep λ x. x) snapshot_slot zero_snapshot;
    entry =
        copy_pointer-IsDeep as_is (entry_into M) (entry_into-IsDeep M laws) entry_slot zero_entry;
    spec = copy_pointer-IsDeep spec_layout spec_into spec_into-IsDeep spec_slot zero_spec;
    status =
        copy_pointer-IsDeep status_layout (status_into M) (status_into-IsDeep M laws) status_slot
          zero_status;
    group =
        copy_pointer-IsDeep group_layout (group_into M) (group_into-IsDeep M laws) group_slot
          zero_group;
    group_list =
        copy_pointer-IsDeep group_list_layout (group_list_into M) (group_list_into-IsDeep M laws)
          group_list_slot zero_group_list;
  }

  -- `DeepCopy` of a list, whose pointers are allocated, returns a pointer that reads as the one that
  -- it was given, with all groups of the list; it changes no allocated cell, and the copy reaches
  -- only cells that were unused before.
  pub group_list_copy-Copied :
      (h : Store Cell) (p : Option Address)
      → group_list_pointer.Within (Below h.next) h p
      → Copied group_list_pointer h p (group_list_copy M p h)
  group_list_copy-Copied h p w = all_deep.group_list h p w

  -- After a copy, let `k` be what later writes make of the cells, with those of the copy spared,
  -- and `k'` with those of the original spared. In `k` the copy still reads as the original did,
  -- and so does the original in `k'`.
  copied-unshared :
      (h k k' : Store Cell) (p : Option Address)
      → group_pointer.Within (Below h.next) h p
      → SameOn (Between h.next (group_copy M p h).1.next) (group_copy M p h).1 k
      → SameOn (Below h.next) (group_copy M p h).1 k'
      → (group_pointer.view k (group_copy M p h).0 ≡ group_pointer.view h p)
        × (group_pointer.view k' p ≡ group_pointer.view h p)
  copied-unshared h k k' p w spared spared' =
      let r = group_copy M p h in
      let c = all_deep.group h p w in
      let later : SameOn (Below h.next) h k' = λ a q. spared' a q ∙ c.kept a q in
      (
        (group_pointer.keep r.1 k r.0 c.fresh spared).1 ∙ c.same,
        (group_pointer.keep h k' p w later).1,
      )
