-- ===== src/Store/Deep.antt =====
-- Deep copies: the view of the original, in cells that were unused before.
use kshutdown.Base.{ℕ, ◌<◌, ◌≤◌, ◌≡◌, ◌≢◌, refl, subst, sym, ◌∙◌, ap, none, some, [], ◌∷◌, arith}
use kshutdown.Store.{
  Address, Store, Slot, Copier, write, alloc, copy_plain, copy_items, copy_pointer,
}
use kshutdown.Store.Layout.{SameOn, Layout, plain, both, items, pointer}

abbrev pub Below : ℕ → Address → Type 0
Below n a = a < n

abbrev pub Between : ℕ → ℕ → Address → Type 0
Between m n a = (m ≤ a) × (a < n)

-- `r` is a copy of `x`, which was read in `h`, with the store that the copying left.
pub record Copied {C A V : Type 0} (L : Layout C A V) (h : Store C) (x : A) (r : A × Store C)
    : Type 0 where
  pub grows : h.next ≤ r.1.next
  pub kept : SameOn (Below h.next) h r.1
  pub same : L.view r.1 r.0 ≡ L.view h x
  pub fresh : L.Within (Between h.next r.1.next) r.1 r.0

-- Every value that reaches allocated addresses alone is copied.
abbrev pub IsDeep : {C A V : Type 0} → Layout C A V → Copier C A → Type 0
IsDeep {C} {A} L copy =
    (h : Store C) (x : A) → L.Within (Below h.next) h x → Copied L h x (copy x h)

-- What was allocated before stays within what is allocated after.
pub old_kept :
    {C A V : Type 0} (L : Layout C A V) (h g : Store C) (x : A)
    → L.Within (Below h.next) h x
    → SameOn (Below h.next) h g
    → h.next ≤ g.next
    → L.Within (Below g.next) g x × (L.view g x ≡ L.view h x)
old_kept L h g x w same grows =
    let k = L.keep h g x w same in (L.widen g x k.0 λ a p. omega arith, k.1)

pub copy_plain-IsDeep : {C A V : Type 0} (f : A → V) → IsDeep (plain {C = C} f) copy_plain
copy_plain-IsDeep f h x w = record {
  grows = omega arith;
  kept = λ a p. refl;
  same = refl;
  fresh = tt;
}

module _ {C : Type 0} where
  -- Two copies in a row, of which the second needs only that its original was allocated.
  pub Copied-both :
      {A V B W : Type 0} (L : Layout C A V) (M : Layout C B W) (h : Store C) (x : A) (y : B)
      (r : A × Store C) (s : B × Store C)
      → M.Within (Below h.next) h y
      → Copied L h x r
      → (M.Within (Below r.1.next) r.1 y → Copied M r.1 y s)
      → Copied (both L M) h (x, y) ((r.0, s.0), s.1)
  Copied-both L M h x y r s w a next =
      let old = old_kept M h r.1 y w a.kept a.grows in
      let b = next old.0 in
      let first = L.keep r.1 s.1 r.0 a.fresh λ p q. b.kept p q.1 in
      record {
        grows = omega (arith, a.grows, b.grows);
        kept = λ p q. b.kept p (omega (arith, a.grows)) ∙ a.kept p q;
        same = rw (first.1, a.same, b.same, old.1);
        fresh = (
          L.widen s.1 r.0 first.0 λ p q. (q.0, omega (arith, b.grows)),
          M.widen s.1 s.0 b.fresh λ p q. (omega (arith, a.grows), q.1),
        );
      }

  pub write-same : (p : Address) (c : C) (h : Store C) → (write p c h).cells p ≡ c
  unfolding write
  write-same p c h = ground arith

  pub write-other :
      (p a : Address) (c : C) (h : Store C) → a ≢ p → (write p c h).cells a ≡ h.cells a
  unfolding write
  write-other p a c h apart = ground arith

module _ {C A V : Type 0} (L : Layout C A V) (copy : Copier C A) (deep : IsDeep L copy) where
  pub copy_items-IsDeep : IsDeep (items L) (copy_items copy)
  unfolding copy_items
  copy_items-IsDeep h [] w = record {
    grows = omega arith;
    kept = λ a p. refl;
    same = refl;
    fresh = tt;
  }
  copy_items-IsDeep h (x ∷ xs) w =
      let r = copy x h in
      let two =
        Copied-both L (items L) h x xs r (copy_items copy xs r.1) w.1 (deep h x w.0)
          (copy_items-IsDeep r.1 xs) in
      record {
        grows = two.grows;
        kept = two.kept;
        same = rw (ap (λ q. q.0) two.same, ap (λ q. q.1) two.same);
        fresh = two.fresh;
      }

  pub copy_pointer-IsDeep :
      (slot : Slot C A) (z : A) → IsDeep (pointer L slot) (copy_pointer slot z copy)
  unfolding copy_pointer write alloc
  copy_pointer-IsDeep slot z h none w = record {
    grows = omega arith;
    kept = λ a p. refl;
    same = refl;
    fresh = tt;
  }
  copy_pointer-IsDeep slot z h (some p) w =
      let x = slot.get (h.cells p) in
      let h₁ = alloc (slot.put z) h in
      let zeroed : SameOn (Below h.next) h h₁ =
        λ a q. write-other h.next a (slot.put z) h (omega arith) in
      let old = old_kept L h h₁ x w.1 zeroed (omega arith) in
      let r = copy x h₁ in
      let a = deep h₁ x old.0 in
      let g = write h.next (slot.put r.0) r.1 in
      let got : slot.get (g.cells h.next) ≡ r.0 =
        ap slot.get (write-same h.next (slot.put r.0) r.1) ∙ slot.get-put r.0 in
      let spared =
        L.keep r.1 g r.0 a.fresh
          λ b q. write-other h.next b (slot.put r.0) r.1 (omega (arith, q.0)) in
      record {
        grows = omega (arith, a.grows);
        kept = λ b q.
            write-other h.next b (slot.put r.0) r.1 (omega arith)
            ∙ a.kept b (omega arith)
            ∙ zeroed b q;
        same = ap (λ v. some (L.view g v)) got ∙ ap some (spared.1 ∙ a.same ∙ old.1);
        fresh = (
          (omega arith, omega (arith, a.grows)),
          subst (λ v. L.Within (Between h.next r.1.next) g v) (sym got)
              (L.widen g r.0 spared.0 λ b q. (omega (arith, q.0), q.1)),
        );
      }
