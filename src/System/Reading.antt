-- ===== src/System/Reading.antt =====
-- The first read of `Reconcile`, and its switch on the command, where calls do not fail.
use kshutdown.Base.{
  String, ◌≡◌, refl, sym, ◌∙◌, ap, subst, ◌⊎◌, inl, inr, true, false, Option, none, some, List, [],
  ◌∷◌, Any, Result, ok, err, Ensures, Bool, is_empty, ◌==◌, if◌then◌else◌, pure,
}
use mathlib.Core.Option.{some-injective}
use kshutdown.Base.GoMap.{index}
use kshutdown.Api.{
  ShutdownGroup, ResourceSnapshot, Timestamp, Int32, command_up, command_down, annotation_command,
}
use kshutdown.Api.Client.{Client, World, IsLawful, Ref}
use kshutdown.Authz.{Check}
use kshutdown.Controller.Workloads.Levels.{level, level_of, Names}
use kshutdown.Controller.Workloads.Up.{Captured}
use kshutdown.Controller.Group.{captured}
use kshutdown.Controller.Group.Laws.{Stored}
use kshutdown.Controller.Reconcile.{
  dispatch, reconcile_down, reconcile_up, reconcile_found, reconcile,
}
use kshutdown.Controller.Reconcile.Shutdown.{begun}
use kshutdown.Controller.Collect.Laws.{expected_snapshot}
use kshutdown.System.Invariant.{Accounts}

-- The workloads that the snapshot names exist.
Captured-named :
    (w₀ : World) (es : List ResourceSnapshot) (r : Ref)
    → Captured w₀ es
    → Any (Names r) es
    → (n : Int32) × (level w₀ r ≡ some n)
Captured-named w₀ (e ∷ es) r c (inl named) = (e.previous_replicas, c.0 r named)
Captured-named w₀ (e ∷ es) r c (inr later) = Captured-named w₀ es r c.1 later
Captured-named w₀ [] r c h = absurd h

none_ne_some : {A : Type 0} (o : Option A) (a : A) → o ≡ none → o ≡ some a → ⊥
none_ne_some o a h k = cc (sym h ∙ k)

pub Accounts-present :
    (w₀ w : World) (es : List ResourceSnapshot) (r : Ref)
    → Accounts w₀ w es
    → Any (Names r) es
    → w.spec r ≡ none
    → ⊥
Accounts-present w₀ w es r a named gone = elim (a.accounted r) [
  | inl h ↦
      let (n, at) = Captured-named w₀ es r a.levels named in
      none_ne_some (level w r) n (ap (level_of r.resource) gone) (h ∙ at)
  | inr (_, is_off) ↦ none_ne_some (w.spec r) _ gone is_off
]

module _ (C : Client) (MayFail : Type 0) (L : IsLawful C MayFail) (check : Check C)
    (reliable : MayFail → ⊥) (now : Timestamp) (ns name : String) (s : C.State)
    (sg : ShutdownGroup) where
  -- The run reads the object.
  pub record Reads : Type 0 where
    pub state : C.State
    pub same : C.world state ≡ C.world s
    pub stored : Stored sg (C.world state)
    pub own : (sg.namespace ≡ ns) × (sg.name ≡ name)
    pub runs : reconcile C check now ns name s ≡ reconcile_found C check now (ok sg, state)

  pub reconcile-Reads : (C.world s).group ns name ≡ some sg → Reads
  unfolding reconcile
  reconcile-Reads there = go (C.get_group ns name s) (L.get_group_lem ns name s) refl
    where
      go :
          (x : Result ShutdownGroup × C.State)
          → Ensures
              (λ g s'.
                (C.world s' ≡ C.world s)
                × ((C.world s).group ns name ≡ some g)
                × (g.namespace ≡ ns)
                × (g.name ≡ name))
              (λ s'. (C.world s' ≡ C.world s) × (MayFail ⊎ ((C.world s).group ns name ≡ none)))
              x
          → C.get_group ns name s ≡ x
          → Reads
      go (err e, s') (_, inl failed) got = absurd (reliable failed)
      go (err e, s') (_, inr gone) got = absurd (none_ne_some _ sg gone there)
      go (ok g, s') h got = record {
        state = s';
        same = h.0;
        stored = subst (λ x. Stored x (C.world s')) same_group st;
        own =
            (ap (λ x. x.namespace) (sym same_group) ∙ h.2, ap (λ x. x.name) (sym same_group) ∙ h.3);
        runs =
            ap (reconcile_found C check now) got
            ∙ ap (λ x. reconcile_found C check now (ok x, s')) same_group;
      }
        where
          same_group : g ≡ sg
          same_group = some-injective g sg (sym h.1 ∙ there)

          st : Stored g (C.world s')
          st =
              ap (λ w. w.group g.namespace g.name) h.0
              ∙ ap (λ n. (C.world s).group n g.name) h.2
              ∙ ap (λ n. (C.world s).group ns n) h.3
              ∙ h.1

  pub at_own :
      (w : World) (n m : String) (g : ShutdownGroup)
      → n ≡ ns
      → m ≡ name
      → w.group n m ≡ some g
      → w.group ns name ≡ some g
  at_own w n m g p q h = ap (λ x. w.group x name) (sym p) ∙ ap (w.group n) (sym q) ∙ h

  -- The run up to the switch on the command.
  pub found_down :
      (state : C.State)
      → sg.deleting ≡ false
      → index sg.annotations annotation_command ≡ command_down
      → reconcile_found C check now (ok sg, state) ≡ reconcile_down C check now sg state
  unfolding reconcile_found dispatch
  found_down state present down =
      ap (λ b. (if b then pure tt else dispatch C check now sg) state) present
      ∙ ap
          (λ c.
            (if c == command_down
                then reconcile_down C check now sg
                else (if c == command_up then reconcile_up C check now sg else pure tt))
              state)
          down

  pub found_up :
      (state : C.State)
      → sg.deleting ≡ false
      → index sg.annotations annotation_command ≡ command_up
      → reconcile_found C check now (ok sg, state) ≡ reconcile_up C check now sg state
  unfolding reconcile_found dispatch
  found_up state present up =
      ap (λ b. (if b then pure tt else dispatch C check now sg) state) present
      ∙ ap
          (λ c.
            (if c == command_down
                then reconcile_down C check now sg
                else (if c == command_up then reconcile_up C check now sg else pure tt))
              state)
          up

  pub begun_own :
      (w : World) → ((begun w sg).namespace ≡ sg.namespace) × ((begun w sg).name ≡ sg.name)
  begun_own w = go (is_empty sg.status.snapshot)
    where
      go :
          (b : Bool)
          → let g : ShutdownGroup = if b then captured (expected_snapshot w sg) sg else sg in
            (g.namespace ≡ sg.namespace) × (g.name ≡ sg.name)
      go true = (refl, refl)
      go false = (refl, refl)

  pub begun_history : (w : World) → (begun w sg).status.history ≡ sg.status.history
  begun_history w = go (is_empty sg.status.snapshot)
    where
      go :
          (b : Bool)
          → let g : ShutdownGroup = if b then captured (expected_snapshot w sg) sg else sg in
            g.status.history ≡ sg.status.history
      go true = refl
      go false = refl
