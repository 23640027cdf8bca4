-- ===== src/Controller/Stored/Append.antt =====
-- The two ends of the patch that `appendHistory` sends.
use kshutdown.Base.{
  String, ◌<◌, ◌≡◌, ◌≢◌, refl, ◌∙◌, ap, Option, none, some, List, [], ◌∷◌, map, arith,
}
use kshutdown.Api.{Timestamp, HistoryEntry, ResourceSnapshot}
use kshutdown.Store.{Address, Store, alloc}
use kshutdown.Store.Layout.{SameOn, Layout, both, pointer, items}
use kshutdown.Store.Deep.{Between, write-same, write-other}
use kshutdown.Api.DeepCopy.{MetaV1, group_copy}
use kshutdown.Api.DeepCopy.Cells.{
  Cell, StoredGroup, ObjectMeta, StoredSpec, entries_of, group_of, entries_slot, snapshots_slot,
}
use kshutdown.Api.DeepCopy.Layouts.{
  GroupView, MetaView, SpecView, as_is, meta_layout, time_pointer, spec_layout, group_layout,
}
use kshutdown.Api.DeepCopy.Laws.{IsMetaV1}
use kshutdown.Api.DeepCopy.Later.{group_pointer, all_deep}
use kshutdown.Controller.Group.{cap_history}
use kshutdown.Controller.Stored.{set_history, entries_at, append_stored}
use kshutdown.Controller.Stored.Laws.{IsStored, reached, base_kept}

-- A view with another history.
abbrev pub view_history : List HistoryEntry → GroupView → GroupView
view_history es (t, (m, (s, (texts, (since, (snapshot, _)))))) =
    (t, (m, (s, (texts, (since, (snapshot, some es))))))

abbrev Rest : Type 0
Rest = ObjectMeta × (StoredSpec × (Option Address × Option Address))

abbrev rest_layout :
    Layout Cell Rest (MetaView × (SpecView × (Option Timestamp × Option (List ResourceSnapshot))))
rest_layout = both meta_layout (both spec_layout (both time_pointer (pointer as_is snapshots_slot)))

abbrev rest_of : StoredGroup → Rest
rest_of sg = (sg.object_meta, (sg.spec, (sg.status.since, sg.status.snapshot)))

map_same : {A : Type 0} (xs : List A) → map (λ x. x) xs ≡ xs
map_same [] = refl
map_same (x ∷ xs) = ap (λ r. x ∷ r) (map_same xs)

entries_kept :
    (P : Address → Type 0) (h g : Store Cell) (x : Option Address)
    → (pointer (items as_is) entries_slot).Within P h x
    → SameOn P h g
    → entries_at g x ≡ entries_at h x
entries_kept P h g none w same = refl
entries_kept P h g (some a) w same = ap entries_of (same a w.0)

module _ (M : MetaV1) (laws : IsMetaV1 M) where
  -- What the new history leaves where the object and the copy stand.
  record Appended (h : Store Cell) (p : Address) (sg : StoredGroup) (es : List HistoryEntry)
      (k : Store Cell) : Type 0 where
    made : Address
    group_after : k.cells p ≡ Cell.group (set_history (some made) sg)
    history_after : k.cells made ≡ Cell.entries es
    others : SameOn (λ b. (b < h.next) × (b ≢ p)) h k
    copy_kept :
        SameOn (Between h.next (group_copy M (some p) h).1.next) (group_copy M (some p) h).1 k

  appended :
      (entry : HistoryEntry) (h : Store Cell) (p : Address) (sg : StoredGroup)
      → IsStored h p sg
      → Appended h p sg
          (cap_history (entry ∷ entries_at h sg.status.history))
          (append_stored M p entry h).1
  unfolding append_stored alloc
  appended entry h p sg s =
      let base = (group_copy M (some p) h).1 in
      let c = (all_deep M laws).group h (some p) (reached M laws h p sg s) in
      let held : base.cells p ≡ Cell.group sg = c.kept p s.below ∙ s.held in
      let es = cap_history (entry ∷ entries_at base (group_of (base.cells p)).status.history) in
      let made = alloc (Cell.entries es) base in
      let same : SameOn (λ b. b < base.next) base made =
        λ b q. write-other base.next b (Cell.entries es) base (omega arith) in
      let kept : entries_at base sg.status.history ≡ entries_at h sg.status.history =
        entries_kept (λ b. (b < h.next) × (b ≢ p)) h base sg.status.history s.within.1.1.1.1.1.1
          (λ b q. c.kept b q.0) in
      record {
        made = base.next;
        group_after =
            write-same p _ made
            ∙ ap (λ x. Cell.group (set_history (some base.next) (group_of x))) held;
        history_after =
            write-other p base.next _ made (omega (arith, s.below, c.grows))
            ∙ write-same base.next (Cell.entries es) base
            ∙ ap
                (λ x.
                  Cell.entries (cap_history (entry ∷ entries_at base (group_of x).status.history)))
                held
            ∙ ap (λ x. Cell.entries (cap_history (entry ∷ x))) kept;
        others =
            λ b q. write-other p b _ made q.1 ∙ same b (omega (arith, q.0, c.grows)) ∙ c.kept b q.0;
        copy_kept = λ b q.
            write-other p b _ made (omega (arith, q.0, s.below)) ∙ same b (omega (arith, q.1));
      }

  -- With references, the patch of `appendHistory` starts from the object as it was, and the object
  -- ends as it was but for the capped history with the new entry in front. The object reaches
  -- allocated cells other than its own.
  pub append_stored_lem :
      (entry : HistoryEntry) (h : Store Cell) (p : Address) (sg : StoredGroup)
      → IsStored h p sg
      → (group_pointer.view (append_stored M p entry h).1 (append_stored M p entry h).0
          ≡ some (group_layout.view h sg))
        × (group_pointer.view (append_stored M p entry h).1 (some p)
            ≡ some (
                view_history
                  (cap_history (entry ∷ entries_at h sg.status.history))
                  (group_layout.view h sg)))
  unfolding append_stored
  append_stored_lem entry h p sg s =
      let k = (append_stored M p entry h).1 in
      let c = appended entry h p sg s in
      let w = s.within in
      let rest =
        rest_layout.keep h k (rest_of sg) (w.1.0, (w.1.1.0, (w.1.1.1.1.0, w.1.1.1.1.1.0)))
          c.others in
      let before = rest_layout.view h (rest_of sg) in
      let texts : String × String × String =
        (sg.status.state, sg.status.operator, sg.status.reason) in
      let view : MetaView × (SpecView × (Option Timestamp × Option (List ResourceSnapshot)))
          → List HistoryEntry
          → Option GroupView =
        λ q es. some (sg.type_meta, (q.0, (q.1.0, (texts, (q.1.1.0, (q.1.1.1, some es)))))) in
      let read : map (λ x. x) (entries_of (k.cells c.made)) ≡ _ =
        ap (λ x. map (λ x. x) (entries_of x)) c.history_after ∙ map_same _ in
      (
        base_kept M laws h k p sg s c.copy_kept,
        ap (λ x. some (group_layout.view k (group_of x))) c.group_after
            ∙ ap (λ q. view q (map (λ x. x) (entries_of (k.cells c.made)))) rest.1
            ∙ ap (view before) read,
      )
