-- ===== src/Api/DeepCopy/Laws.antt =====
-- Every copy is deep: what it reads as is what the original reads as, and it shares no cell.
use kshutdown.Base.{String, ◌≡◌, refl, ap, none, some, [], ◌∷◌, arith}
use kshutdown.Base.GoMap.{GoMap, lookup, lookup-insert}
use kshutdown.Api.{Timestamp}
use kshutdown.Store.{Store, copy_items, copy_pointer, copy_plain}
use kshutdown.Store.Layout.{Layout, via, both, items, pointer}
use kshutdown.Store.Deep.{
  Copied, IsDeep, Copied-both, copy_plain-IsDeep, copy_items-IsDeep, copy_pointer-IsDeep,
}
use kshutdown.Api.DeepCopy.{
  MetaV1, copy_entries, labels_into, target_into, spec_into, entry_into, since_into, status_into,
  group_into, group_list_into,
}
use kshutdown.Api.DeepCopy.Cells.{
  TypeMeta, ListMeta, Cell, labels_slot, targets_slot, snapshots_slot, entries_slot, groups_slot,
}
use kshutdown.Api.DeepCopy.Layouts.{
  as_is, labels_layout, label_pointer, time_pointer, target_layout, spec_layout, status_layout,
  meta_layout, group_layout, group_list_layout,
}

-- What metav1's documentation says of its copies.
pub record IsMetaV1 (M : MetaV1) : Type 0 where
  pub time_same : (t : Timestamp) → M.time_into t ≡ t
  pub time_deep : IsDeep time_pointer M.time_copy
  pub object_meta_deep : IsDeep meta_layout M.object_meta_into
  pub list_meta_same : (m : ListMeta) → M.list_meta_into m ≡ m

-- A struct's copy is the copy of its parts.
pub Copied-via :
    {A B V : Type 0} (f : A → B) (L : Layout Cell B V) (h : Store Cell) (x : A) (r : A × Store Cell)
    → Copied L h (f x) (f r.0, r.1)
    → Copied (via f L) h x r
Copied-via f L h x r c = record { grows = c.grows; kept = c.kept; same = c.same; fresh = c.fresh }

-- A value that is read as it is, and comes back equal.
pub Copied-as_is : {A : Type 0} (h : Store Cell) (x y : A) → y ≡ x → Copied as_is h x (y, h)
Copied-as_is h x y e = record { grows = omega arith; kept = λ a p. refl; same = e; fresh = tt }

lookup-copy_entries : (m : GoMap) (k : String) → lookup k (copy_entries m) ≡ lookup k m
unfolding copy_entries lookup
lookup-copy_entries [] k = refl
lookup-copy_entries ((key, v) ∷ rest) k =
    rw (lookup-insert key k v (copy_entries rest), lookup-copy_entries rest k)

labels_into-IsDeep : IsDeep labels_layout labels_into
unfolding labels_into
labels_into-IsDeep h m w = record {
  grows = omega arith;
  kept = λ a p. refl;
  same = λ i k. lookup-copy_entries m k i;
  fresh = tt;
}

pub label_pointer-IsDeep : IsDeep label_pointer (copy_pointer labels_slot [] labels_into)
label_pointer-IsDeep =
    copy_pointer-IsDeep labels_layout labels_into labels_into-IsDeep labels_slot []

pub target_into-IsDeep : IsDeep target_layout target_into
unfolding target_into
target_into-IsDeep h t w =
    Copied-via (λ t. (t.namespace, t.label_selector)) (both as_is label_pointer) h t
      (target_into t h)
      (Copied-both as_is label_pointer h t.namespace t.label_selector (t.namespace, h)
        (copy_pointer labels_slot [] labels_into t.label_selector h) w.1
        (Copied-as_is h t.namespace t.namespace refl) (label_pointer-IsDeep h t.label_selector))

pub spec_into-IsDeep : IsDeep spec_layout spec_into
unfolding spec_into
spec_into-IsDeep h s w =
    Copied-via (λ s. s.targets) (pointer (items target_layout) targets_slot) h s (spec_into s h)
      (copy_pointer-IsDeep (items target_layout) (copy_items target_into)
        (copy_items-IsDeep target_layout target_into target_into-IsDeep) targets_slot [] h s.targets
        w)

module _ (M : MetaV1) (laws : IsMetaV1 M) where
  pub entry_into-IsDeep : IsDeep as_is (entry_into M)
  unfolding entry_into
  entry_into-IsDeep h e w =
      Copied-as_is h e (record e { at = M.time_into e.at })
        (ap (λ t. record e { at = t }) (laws.time_same e.at))

  since_into-IsDeep : IsDeep time_pointer (since_into M)
  since_into-IsDeep h none w = record {
    grows = omega arith;
    kept = λ a p. refl;
    same = refl;
    fresh = tt;
  }
  since_into-IsDeep h (some p) w = laws.time_deep h (some p) w

  pub status_into-IsDeep : IsDeep status_layout (status_into M)
  unfolding status_into
  status_into-IsDeep h s w =
      let texts : String × String × String = (s.state, s.operator, s.reason) in
      let snapshots = pointer as_is snapshots_slot in
      let entries = pointer (items as_is) entries_slot in
      let a = since_into M s.since h in
      let b = copy_pointer snapshots_slot [] copy_plain s.snapshot a.1 in
      let c = copy_pointer entries_slot [] (copy_items (entry_into M)) s.history b.1 in
      Copied-via (λ s. ((s.state, s.operator, s.reason), (s.since, (s.snapshot, s.history))))
        (both as_is (both time_pointer (both snapshots entries))) h s (status_into M s h)
        (Copied-both as_is (both time_pointer (both snapshots entries)) h texts
          (s.since, (s.snapshot, s.history)) (texts, h) ((a.0, (b.0, c.0)), c.1) w.1
          (Copied-as_is h texts texts refl)
          λ w.
            Copied-both time_pointer (both snapshots entries) h s.since (s.snapshot, s.history) a
              ((b.0, c.0), c.1) w.1 (since_into-IsDeep h s.since w.0)
              λ w.
                Copied-both snapshots entries a.1 s.snapshot s.history b c w.1
                  (copy_pointer-IsDeep as_is copy_plain (copy_plain-IsDeep λ x. x) snapshots_slot []
                    a.1 s.snapshot w.0)
                  (copy_pointer-IsDeep (items as_is) (copy_items (entry_into M))
                    (copy_items-IsDeep as_is (entry_into M) entry_into-IsDeep) entries_slot [] b.1
                    s.history))

  pub group_into-IsDeep : IsDeep group_layout (group_into M)
  unfolding group_into
  group_into-IsDeep h g w =
      let a = M.object_meta_into g.object_meta h in
      let b = spec_into g.spec a.1 in
      let c = status_into M g.status b.1 in
      Copied-via (λ g. (g.type_meta, (g.object_meta, (g.spec, g.status))))
        (both as_is (both meta_layout (both spec_layout status_layout))) h g (group_into M g h)
        (Copied-both as_is (both meta_layout (both spec_layout status_layout)) h g.type_meta
          (g.object_meta, (g.spec, g.status)) (g.type_meta, h) ((a.0, (b.0, c.0)), c.1) w.1
          (Copied-as_is h g.type_meta g.type_meta refl)
          λ w.
            Copied-both meta_layout (both spec_layout status_layout) h g.object_meta
              (g.spec, g.status) a ((b.0, c.0), c.1) w.1 (laws.object_meta_deep h g.object_meta w.0)
              λ w.
                Copied-both spec_layout status_layout a.1 g.spec g.status b c w.1
                  (spec_into-IsDeep a.1 g.spec w.0) (status_into-IsDeep b.1 g.status))

  pub group_list_into-IsDeep : IsDeep group_list_layout (group_list_into M)
  unfolding group_list_into
  group_list_into-IsDeep h l w =
      let metas : TypeMeta × ListMeta = (l.type_meta, l.list_meta) in
      let metas' : TypeMeta × ListMeta = (l.type_meta, M.list_meta_into l.list_meta) in
      let groups = pointer (items group_layout) groups_slot in
      Copied-via (λ l. ((l.type_meta, l.list_meta), l.items)) (both as_is groups) h l
        (group_list_into M l h)
        (Copied-both as_is groups h metas l.items (metas', h)
          (copy_pointer groups_slot [] (copy_items (group_into M)) l.items h) w.1
          (Copied-as_is h metas metas'
            (ap (λ m. (l.type_meta, m)) (laws.list_meta_same l.list_meta)))
          (copy_pointer-IsDeep (items group_layout) (copy_items (group_into M))
            (copy_items-IsDeep group_layout (group_into M) group_into-IsDeep) groups_slot [] h
            l.items))
