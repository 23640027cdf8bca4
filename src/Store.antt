-- ===== src/Store.antt =====
-- A store of what Go's pointers, slices and maps refer to, and the loops of
-- api/v1alpha1/zz_generated.deepcopy.go over them. A value that holds no reference stands outside
-- the store, and a function that fills `*out` returns what it leaves there.
pub mod Layout
pub mod Deep
use kshutdown.Base.{ℕ, ◌+◌, ◌≡◌, eqb, if◌then◌else◌, Option, none, some, List, [], ◌∷◌, map}

abbrev pub Address : Type 0
Address = ℕ

-- What stands at each address. The addresses from `next` on are unused.
pub record Store (C : Type 0) : Type 0 where
  pub next : Address
  pub cells : Address → C

-- Values of type `A` in the cells: `get` is what a read of a cell gives.
pub record Slot (C A : Type 0) : Type 0 where
  pub put : A → C
  pub get : C → A
  pub get-put : (a : A) → get (put a) ≡ a

-- A `DeepCopyInto`: the value that it leaves in `*out`, and the store.
abbrev pub Copier : Type 0 → Type 0 → Type 0
Copier C A = A → Store C → A × Store C

module _ {C : Type 0} where
  -- `*p = c`
  unfoldable pub write : Address → C → Store C → Store C
  write p c h = record h { cells = λ a. if eqb a p then c else h.cells a }

  -- `new` and `make`: the next address, with a zero value there.
  unfoldable pub alloc : C → Store C → Store C
  unfolding write
  alloc c h = record (write h.next c h) { next = h.next + 1 }

  -- A copy of what holds no reference, as `copy` and an assignment make it.
  abbrev pub copy_plain : {A : Type 0} → Copier C A
  copy_plain a h = (a, h)

  module _ {A : Type 0} where
    -- `for i := range *in { (*in)[i].DeepCopyInto(&(*out)[i]) }`
    unfoldable pub copy_items : Copier C A → Copier C (List A)
    copy_items copy [] h = ([], h)
    copy_items copy (x ∷ xs) h =
        let first = copy x h in let rest = copy_items copy xs first.1 in (first.0 ∷ rest.0, rest.1)

    -- Nil stays nil. Else a new cell with a zero value, which the copy of the old cell's content
    -- then fills.
    unfoldable pub copy_pointer : Slot C A → A → Copier C A → Copier C (Option Address)
    unfolding write alloc
    copy_pointer slot zero_value copy none h = (none, h)
    copy_pointer slot zero_value copy (some p) h =
        let content = copy (slot.get (h.cells p)) (alloc (slot.put zero_value) h) in
        (some h.next, write h.next (slot.put content.0) content.1)
