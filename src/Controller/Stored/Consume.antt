-- ===== src/Controller/Stored/Consume.antt =====
-- The two ends of the patch that `consumeAnnotations` sends.
use kshutdown.Base.{
  String, ◌<◌, ◌≤◌, ◌≡◌, ◌≢◌, refl, sym, ◌∙◌, ap, subst, Option, some, List, [], ◌∷◌, arith,
}
use kshutdown.Base.GoMap.{GoMap, lookup, erase, erase_all}
use kshutdown.Api.{Timestamp}
use kshutdown.Store.{Address, Store, write}
use kshutdown.Store.Layout.{SameOn, Layout, both}
use kshutdown.Store.Deep.{write-same, write-other}
use kshutdown.Api.DeepCopy.{MetaV1, group_copy}
use kshutdown.Api.DeepCopy.Cells.{Cell, StoredGroup, StoredSpec, StoredStatus, labels_of, group_of}
use kshutdown.Api.DeepCopy.Layouts.{
  GroupView, LabelsView, SpecView, StatusView, label_pointer, time_pointer, spec_layout,
  status_layout, group_layout,
}
use kshutdown.Api.DeepCopy.Laws.{IsMetaV1}
use kshutdown.Api.DeepCopy.Later.{group_pointer, all_deep}
use kshutdown.Controller.Stored.{delete_key, delete_keys, set_annotations, consume_stored}
use kshutdown.Controller.Stored.Laws.{IsStored, reached, base_kept}

-- All of an object but its type, its name and its annotations.
abbrev pub Rest : Type 0
Rest = Option Address × (StoredSpec × StoredStatus)

abbrev pub rest_layout : Layout Cell Rest (Option Timestamp × (SpecView × StatusView))
rest_layout = both time_pointer (both spec_layout status_layout)

abbrev pub rest_of : StoredGroup → Rest
rest_of sg = (sg.object_meta.deletion_timestamp, (sg.spec, sg.status))

-- The annotations of `sg` are the map `m` at `a`, which nothing else of it refers to.
pub record OwnsMap (h : Store Cell) (p a : Address) (sg : StoredGroup) (m : GoMap) : Type 0 where
  pub map_at : sg.object_meta.annotations ≡ some a
  pub map_held : h.cells a ≡ Cell.labels m
  pub alone : rest_layout.Within (λ b. (b < h.next) × (b ≢ p) × (b ≢ a)) h (rest_of sg)

-- A view with other annotations.
abbrev pub view_annotations : Option LabelsView → GroupView → GroupView
view_annotations v (t, ((names, (deletion, _)), rest)) = (t, ((names, (deletion, v)), rest))

record Deleted (a : Address) (m : GoMap) (h g : Store Cell) : Type 0 where
  map_after : g.cells a ≡ Cell.labels m
  others : SameOn (λ b. b ≢ a) h g

delete_keys_lem :
    (keys : List String) (a : Address) (m : GoMap) (h : Store Cell)
    → h.cells a ≡ Cell.labels m
    → Deleted a (erase_all keys m) h (delete_keys keys (some a) h)
unfolding delete_keys delete_key erase_all write
delete_keys_lem [] a m h e = record { map_after = e; others = λ b q. refl }
delete_keys_lem (k ∷ ks) a m h e =
    let g = delete_key k (some a) h in
    let at : g.cells a ≡ Cell.labels (erase k m) =
      (ground arith) ∙ ap (λ c. Cell.labels (erase k (labels_of c))) e in
    let rest = delete_keys_lem ks a (erase k m) g at in
    record { map_after = rest.map_after; others = λ b q. rest.others b q ∙ ground arith }

module _ (M : MetaV1) (laws : IsMetaV1 M) where
  -- What the deletions leave where the object and the copy stand.
  record Consumed (h : Store Cell) (p a : Address) (sg : StoredGroup) (m : GoMap) (k : Store Cell)
      : Type 0 where
    group_after : k.cells p ≡ Cell.group sg
    map_after : k.cells a ≡ Cell.labels m
    others : SameOn (λ b. (b < h.next) × (b ≢ p) × (b ≢ a)) h k
    copy_kept : SameOn (λ b. h.next ≤ b) (group_copy M (some p) h).1 k

  consumed :
      (keys : List String) (h : Store Cell) (p a : Address) (sg : StoredGroup) (m : GoMap)
      → IsStored h p sg
      → OwnsMap h p a sg m
      → Consumed h p a sg (erase_all keys m) (consume_stored M p keys h).1
  unfolding consume_stored
  consumed keys h p a sg m s o =
      let base = (group_copy M (some p) h).1 in
      let c = (all_deep M laws).group h (some p) (reached M laws h p sg s) in
      let at =
        subst (λ x. label_pointer.Within (λ b. (b < h.next) × (b ≢ p)) h x) o.map_at
          s.within.1.0.1.1 in
      let below = at.0.0 in
      let apart = at.0.1 in
      let held : base.cells p ≡ Cell.group sg = c.kept p s.below ∙ s.held in
      let d = delete_keys_lem keys a m base (c.kept a below ∙ o.map_held) in
      let final : Option Address → Store Cell = λ x.
        let deleted = delete_keys keys x base in
        write p (Cell.group (set_annotations x (group_of (deleted.cells p)))) deleted in
      let done : Consumed h p a sg (erase_all keys m) (final (some a)) = record {
        group_after =
            write-same p _ (delete_keys keys (some a) base)
            ∙ ap (λ c. Cell.group (set_annotations (some a) (group_of c)))
                (d.others p (λ e. apart (sym e)) ∙ held)
            ∙ ap (λ x. Cell.group (set_annotations x sg)) (sym o.map_at);
        map_after = write-other p a _ (delete_keys keys (some a) base) apart ∙ d.map_after;
        others = λ b q.
            write-other p b _ (delete_keys keys (some a) base) q.1 ∙ d.others b q.2 ∙ c.kept b q.0;
        copy_kept = λ b q.
            write-other p b _ (delete_keys keys (some a) base) (omega (arith, s.below))
            ∙ d.others b (omega arith);
      } in
      subst (λ x. Consumed h p a sg (erase_all keys m) (final x))
        (sym (ap (λ c. (group_of c).object_meta.annotations) held ∙ o.map_at)) done

  -- With references, the patch of `consumeAnnotations` starts from the object as it was, and the
  -- object ends as it was but for the deleted keys, as it does in the model without references.
  -- The object reaches allocated cells, and its annotations are a map that nothing else of it
  -- refers to.
  pub consume_stored_lem :
      (keys : List String) (h : Store Cell) (p a : Address) (sg : StoredGroup) (m : GoMap)
      → IsStored h p sg
      → OwnsMap h p a sg m
      → (group_pointer.view (consume_stored M p keys h).1 (consume_stored M p keys h).0
          ≡ some (group_layout.view h sg))
        × (group_pointer.view (consume_stored M p keys h).1 (some p)
            ≡ some
                (view_annotations (some λ k. lookup k (erase_all keys m)) (group_layout.view h sg)))
  unfolding consume_stored
  consume_stored_lem keys h p a sg m s o =
      let k = (consume_stored M p keys h).1 in
      let c = consumed keys h p a sg m s o in
      let rest = rest_layout.keep h k (rest_of sg) o.alone c.others in
      let names : String × String = (sg.object_meta.namespace, sg.object_meta.name) in
      let before : Option Timestamp × (SpecView × StatusView) = rest_layout.view h (rest_of sg) in
      let view : Option LabelsView → Option Timestamp × (SpecView × StatusView) → Option GroupView =
        λ v q. some (sg.type_meta, ((names, (q.0, v)), q.1)) in
      let v = label_pointer.view k sg.object_meta.annotations in
      let read : v ≡ some (λ j. lookup j (erase_all keys m)) =
        ap (λ x. label_pointer.view k x) o.map_at
        ∙ ap (λ c. some λ j. lookup j (labels_of c)) c.map_after in
      (
        base_kept M laws h k p sg s (λ b q. c.copy_kept b q.0),
        ap (λ c. some (group_layout.view k (group_of c))) c.group_after
            ∙ ap (λ q. view v q) rest.1
            ∙ ap (λ x. view x before) read,
      )
