-- ===== src/Controller/Stored/Laws.antt =====
-- An object in the store, and the copy of it that a patch starts from.
use kshutdown.Base.{◌<◌, ◌≡◌, ◌≢◌, sym, ◌∙◌, ap, subst, some}
use kshutdown.Store.{Address, Store}
use kshutdown.Store.Layout.{SameOn}
use kshutdown.Store.Deep.{Below, Between}
use kshutdown.Api.DeepCopy.{MetaV1, group_copy}
use kshutdown.Api.DeepCopy.Cells.{Cell, StoredGroup, group_of}
use kshutdown.Api.DeepCopy.Layouts.{group_layout}
use kshutdown.Api.DeepCopy.Laws.{IsMetaV1}
use kshutdown.Api.DeepCopy.Later.{group_pointer, all_deep}

-- The object `sg` stands at `p`, and reaches allocated cells other than its own.
pub record IsStored (h : Store Cell) (p : Address) (sg : StoredGroup) : Type 0 where
  pub held : h.cells p ≡ Cell.group sg
  pub below : p < h.next
  pub within : group_layout.Within (λ b. (b < h.next) × (b ≢ p)) h sg

module _ (M : MetaV1) (laws : IsMetaV1 M) where
  pub reached :
      (h : Store Cell) (p : Address) (sg : StoredGroup)
      → IsStored h p sg
      → group_pointer.Within (Below h.next) h (some p)
  reached h p sg s = (
    s.below,
    subst (λ g. group_layout.Within (Below h.next) h g) (sym (ap group_of s.held))
        (group_layout.widen h sg s.within λ b q. q.0),
  )

  -- The copy is not changed by what spares its cells.
  pub base_kept :
      (h k : Store Cell) (p : Address) (sg : StoredGroup)
      → IsStored h p sg
      → SameOn (Between h.next (group_copy M (some p) h).1.next) (group_copy M (some p) h).1 k
      → group_pointer.view k (group_copy M (some p) h).0 ≡ some (group_layout.view h sg)
  base_kept h k p sg s spared =
      let r = group_copy M (some p) h in
      let c = (all_deep M laws).group h (some p) (reached h p sg s) in
      (group_pointer.keep r.1 k r.0 c.fresh spared).1
      ∙ c.same
      ∙ ap (λ x. some (group_layout.view h (group_of x))) s.held
