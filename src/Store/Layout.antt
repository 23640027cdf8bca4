-- ===== src/Store/Layout.antt =====
-- How a value is read through a store: what it stands for, and which addresses it reaches.
use kshutdown.Base.{◌≡◌, refl, ap, Option, none, some, List, [], ◌∷◌, map, All}
use kshutdown.Store.{Address, Store, Slot}

-- `g` holds what `h` holds at the addresses in `P`.
abbrev pub SameOn : {C : Type 0} → (Address → Type 0) → Store C → Store C → Type 0
SameOn P h g = (a : Address) → P a → g.cells a ≡ h.cells a

-- `view` forgets the addresses. `Within P` says that only addresses in `P` are reached, so that a
-- change of the store elsewhere keeps the view.
pub record Layout (C A V : Type 0) : Type 1 where
  pub view : Store C → A → V
  pub Within : (Address → Type 0) → Store C → A → Type 0
  pub keep :
      {P : Address → Type 0} (h g : Store C) (x : A)
      → Within P h x
      → SameOn P h g
      → Within P g x × (view g x ≡ view h x)
  pub widen :
      {P Q : Address → Type 0} (h : Store C) (x : A)
      → Within P h x
      → ((a : Address) → P a → Q a)
      → Within Q h x

module _ {C : Type 0} where
  -- A value without references, up to a function `f` of it.
  abbrev pub plain : {A V : Type 0} → (A → V) → Layout C A V
  plain f = record {
    view = λ h x. f x;
    Within = λ P h x. Unit {0};
    keep = λ h g x w same. (tt, refl);
    widen = λ h x w into. tt;
  }

  -- A struct is read as its parts are.
  abbrev pub via : {A B V : Type 0} → (A → B) → Layout C B V → Layout C A V
  via f L = record {
    view = λ h x. L.view h (f x);
    Within = λ P h x. L.Within P h (f x);
    keep = λ h g x w same. L.keep h g (f x) w same;
    widen = λ h x w into. L.widen h (f x) w into;
  }

  abbrev pub both : {A B V W : Type 0} → Layout C A V → Layout C B W → Layout C (A × B) (V × W)
  both L M = record {
    view = λ h x. (L.view h x.0, M.view h x.1);
    Within = λ P h x. L.Within P h x.0 × M.Within P h x.1;
    keep = λ h g x w same.
        let a = L.keep h g x.0 w.0 same in
        let b = M.keep h g x.1 w.1 same in ((a.0, b.0), rw (a.1, b.1));
    widen = λ h x w into. (L.widen h x.0 w.0 into, M.widen h x.1 w.1 into);
  }

  module _ {A V : Type 0} (L : Layout C A V) where
    pub keep_items :
        {P : Address → Type 0} (h g : Store C) (xs : List A)
        → All (L.Within P h) xs
        → SameOn P h g
        → All (L.Within P g) xs × (map (L.view g) xs ≡ map (L.view h) xs)
    keep_items h g [] w same = (tt, refl)
    keep_items h g (x ∷ xs) w same =
        let a = L.keep h g x w.0 same in
        let b = keep_items h g xs w.1 same in ((a.0, b.0), rw (a.1, b.1))

    pub widen_items :
        {P Q : Address → Type 0} (h : Store C) (xs : List A)
        → All (L.Within P h) xs
        → ((a : Address) → P a → Q a)
        → All (L.Within Q h) xs
    widen_items h [] w into = tt
    widen_items h (x ∷ xs) w into = (L.widen h x w.0 into, widen_items h xs w.1 into)

    abbrev pub items : Layout C (List A) (List V)
    items = record {
      view = λ h xs. map (L.view h) xs;
      Within = λ P h xs. All (L.Within P h) xs;
      keep = λ h g xs w same. keep_items h g xs w same;
      widen = λ h xs w into. widen_items h xs w into;
    }

    module _ (slot : Slot C A) where
      abbrev pub read : Store C → Option Address → Option V
      read h none = none
      read h (some p) = some (L.view h (slot.get (h.cells p)))

      abbrev pub Reaches : (Address → Type 0) → Store C → Option Address → Type 0
      Reaches P h none = Unit
      Reaches P h (some p) = P p × L.Within P h (slot.get (h.cells p))

      pub keep_pointer :
          {P : Address → Type 0} (h g : Store C) (x : Option Address)
          → Reaches P h x
          → SameOn P h g
          → Reaches P g x × (read g x ≡ read h x)
      keep_pointer h g none w same = (tt, refl)
      keep_pointer h g (some p) w same =
          let a = L.keep h g (slot.get (h.cells p)) w.1 same in
          rw (same p w.0) ((w.0, a.0), ap some a.1)

      pub widen_pointer :
          {P Q : Address → Type 0} (h : Store C) (x : Option Address)
          → Reaches P h x
          → ((a : Address) → P a → Q a)
          → Reaches Q h x
      widen_pointer h none w into = tt
      widen_pointer h (some p) w into = (into p w.0, L.widen h (slot.get (h.cells p)) w.1 into)

      -- A pointer, a slice or a map: nil, or what its cell holds.
      abbrev pub pointer : Layout C (Option Address) (Option V)
      pointer = record {
        view = λ h x. read h x;
        Within = λ P h x. Reaches P h x;
        keep = λ h g x w same. keep_pointer h g x w same;
        widen = λ h x w into. widen_pointer h x w into;
      }
