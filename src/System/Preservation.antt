-- ===== src/System/Preservation.antt =====
-- Every run of the reconciler keeps the accounts, however it ends.
use kshutdown.Base.{
  String, ◌≡◌, refl, sym, ap, subst, inl, inr, true, false, some, List, [], ◌∷◌, Any, ◌≤◌, length,
  ok, Ensures, Ensures-state, Bool-cases, is_empty, ◌==◌, if◌then◌else◌, Bool, pure,
}
use kshutdown.Base.GoMap.{index}
use kshutdown.Api.{
  ShutdownGroup, ResourceSnapshot, Timestamp, state_up, state_down, command_up, command_down,
  annotation_command, max_history_entries,
}
use kshutdown.Api.Client.{Client, World, IsLawful, Ref, GroupPatched}
use kshutdown.Authz.{Check, IsFaithful}
use kshutdown.Controller.Collect.Laws.{expected_snapshot}
use kshutdown.Controller.Workloads.Levels.{Names}
use kshutdown.Controller.Workloads.Up.{Settled}
use kshutdown.Controller.Group.{captured, without, down_keys, up_keys}
use kshutdown.Controller.Group.Laws.{Stored, length-cap_history_le}
use kshutdown.Controller.Reconcile.{dispatch, reconcile_down, reconcile_up, reconcile_found}
use kshutdown.Controller.Reconcile.Down.{DownWorld, scaling, marked, recorded}
use kshutdown.Controller.Reconcile.Shutdown.{
  begun, begun-fresh, begun-kept, Shutdown, ShutdownFails, reconcile_down_lem,
}
use kshutdown.Controller.Reconcile.Up
use kshutdown.Controller.Reconcile.Up.{
  UpWorld, UpStage, AllSettled, EndsUp, UpFails, reconcile_up_lem,
}
use kshutdown.Controller.Reconcile.Levels.{expected_snapshot-Captured}
use kshutdown.Controller.Reconcile.Safety.{Holds}
use kshutdown.Controller.Reconcile.Dispatch.{reconcile_down_again, reconcile_up_again}
use kshutdown.System.Invariant.{
  Accounts, IsKept, Accounts-world, Accounts-DownWorld, IsBetween-Accounts, Accounts-UpWorld,
  Accounts-AllSettled, Captured-world,
}

none_named : (es : List ResourceSnapshot) (r : Ref) → is_empty es ≡ true → Any (Names r) es → ⊥
none_named [] r e h = h
none_named (_ ∷ _) r e h = cc

module _ (C : Client) (MayFail : Type 0) (L : IsLawful C MayFail) (w₀ : World) (sg : ShutdownGroup)
    (s : C.State) (a : Accounts w₀ (C.world s) sg.status.snapshot) where
  -- A new snapshot is only taken where all is in place, so it has the levels of `w₀`.
  Accounts-fresh :
      is_empty sg.status.snapshot ≡ true
      → Accounts w₀ (C.world s) (expected_snapshot (C.world s) sg)
  Accounts-fresh fresh = record {
    levels = Captured-world w₀ (C.world s) _ settled (expected_snapshot-Captured C MayFail L s sg);
    accounted = λ r. inl (settled r);
  }
    where
      settled : (r : Ref) → Settled w₀ (C.world s) r
      settled r = elim (a.accounted r) [
        | inl h ↦ h
        | inr (named, _) ↦ absurd (none_named sg.status.snapshot r fresh named)
      ]

  -- The accounts of the group that the scaling starts from.
  pub Accounts-begun : Accounts w₀ (C.world s) (begun (C.world s) sg).status.snapshot
  Accounts-begun = elim (Bool-cases (is_empty sg.status.snapshot)) [
    | inl fresh ↦
        subst (λ g. Accounts w₀ (C.world s) g.status.snapshot)
          (sym (begun-fresh (C.world s) sg fresh)) (Accounts-fresh fresh)
    | inr kept ↦
        subst (λ g. Accounts w₀ (C.world s) g.status.snapshot)
          (sym (begun-kept (C.world s) sg kept)) a
  ]

module _ (C : Client) (MayFail : Type 0) (L : IsLawful C MayFail) (check : Check C)
    (F : IsFaithful C MayFail check) (w₀ : World) (now : Timestamp) (sg : ShutdownGroup)
    (s : C.State) (stored : Stored sg (C.world s)) (k : IsKept w₀ (C.world s) sg) where
  -- The stored object keeps the accounts of the world after a run.
  abbrev pub Keeps : C.State → Type 0
  Keeps s' = Holds sg (IsKept w₀ (C.world s')) (C.world s')

  Keeps-same : (s' : C.State) → C.world s' ≡ C.world s → Keeps s'
  Keeps-same s' same =
      (sg, rw same stored, (Accounts-world w₀ _ _ _ (ap (λ w. w.spec) same) k.0, k.1))

  -- A write of the annotations.
  Keeps-without :
      (keys : List String) (s' : C.State)
      → GroupPatched (without keys sg) (C.world s) (C.world s')
      → Keeps s'
  Keeps-without keys s' p =
      (without keys sg, p.stored, (Accounts-world w₀ _ _ _ p.spec_same k.0, k.1))

  -- A shutdown that works from the group `g`.
  Keeps-Shutdown :
      (g : ShutdownGroup)
      → Accounts w₀ (C.world s) g.status.snapshot
      → g.namespace ≡ sg.namespace
      → g.name ≡ sg.name
      → g.status.history ≡ sg.status.history
      → Ensures
          (Shutdown C MayFail L check F now sg g (C.world s))
          (ShutdownFails C MayFail L check F now sg g (C.world s))
          (reconcile_down C check now sg s)
      → Keeps (reconcile_down C check now sg s).1
  Keeps-Shutdown g a same_ns same_name same_history h =
      Ensures-state (Shutdown C MayFail L check F now sg g (C.world s))
        (ShutdownFails C MayFail L check F now sg g (C.world s)) Keeps
        (reconcile_down C check now sg s) h
        (λ _ s' d. held s' _ d.stored d.down_world refl (length-cap_history_le _))
        (λ s'. elim [
          | inl (same, _) ↦ Keeps-same s' same
          | inr (scaling st d, _) ↦ held s' _ st d refl short
          | inr (marked st _ d, _) ↦ held s' _ st d refl short
          | inr (recorded st _ d, _) ↦ held s' _ st d refl (length-cap_history_le _)
        ])
    where
      short : length g.status.history ≤ max_history_entries
      short = rw same_history k.1

      held :
          (s' : C.State) (g' : ShutdownGroup)
          → (C.world s').group g.namespace g.name ≡ some g'
          → DownWorld g (C.world s) (C.world s')
          → g'.status.snapshot ≡ g.status.snapshot
          → length g'.status.history ≤ max_history_entries
          → Keeps s'
      held s' g' st d same bounded =
          (g', rw (← same_ns, ← same_name) st, (rw same (Accounts-DownWorld w₀ _ _ g a d), bounded))

  Keeps-reconcile_down : Keeps (reconcile_down C check now sg s).1
  Keeps-reconcile_down = elim (Bool-cases (sg.status.state == state_down)) [
    | inl is_down ↦
        Ensures-state (λ _ s'. GroupPatched (without down_keys sg) (C.world s) (C.world s'))
          (λ s'. (C.world s' ≡ C.world s) × MayFail) Keeps (reconcile_down C check now sg s)
          (reconcile_down_again C MayFail L check now sg s is_down stored)
          (λ _ s' p. Keeps-without down_keys s' p) (λ s' f. Keeps-same s' f.0)
    | inr not_down ↦ elim (Bool-cases (is_empty sg.status.snapshot)) [
      | inl fresh ↦
          Keeps-Shutdown (captured (expected_snapshot (C.world s) sg) sg)
            (Accounts-fresh C MayFail L w₀ sg s k.0 fresh) refl refl refl
            (subst Run (begun-fresh (C.world s) sg fresh)
              (reconcile_down_lem C MayFail L check F now sg s not_down stored))
      | inr kept ↦ Keeps-Shutdown sg k.0 refl refl refl (
          subst Run (begun-kept (C.world s) sg kept)
            (reconcile_down_lem C MayFail L check F now sg s not_down stored))
    ]
  ]
    where
      Run : ShutdownGroup → Type 0
      Run g =
          Ensures (Shutdown C MayFail L check F now sg g (C.world s))
            (ShutdownFails C MayFail L check F now sg g (C.world s))
            (reconcile_down C check now sg s)

  Keeps-restoring :
      (s' : C.State) → Stored sg (C.world s') → UpWorld w₀ sg (C.world s) (C.world s') → Keeps s'
  Keeps-restoring s' st u = (sg, st, (Accounts-UpWorld w₀ _ _ sg k.0 u, k.1))

  -- The snapshot is cleared: all that it named is settled.
  Keeps-cleared :
      (s' : C.State) (g : ShutdownGroup)
      → (C.world s').group sg.namespace sg.name ≡ some g
      → g.status.snapshot ≡ []
      → length g.status.history ≤ max_history_entries
      → AllSettled w₀ sg.status.snapshot (C.world s')
      → UpWorld w₀ sg (C.world s) (C.world s')
      → Keeps s'
  Keeps-cleared s' g st cleared bounded all u =
      (g, st, (rw cleared (Accounts-AllSettled w₀ _ _ sg k.0 u all), bounded))

  Keeps-startup :
      (sg.status.state == state_up) ≡ false
      → is_empty sg.status.snapshot ≡ false
      → Keeps (reconcile_up C check now sg s).1
  Keeps-startup not_up has =
      Ensures-state (EndsUp C MayFail L check w₀ now sg s) (UpFails C MayFail L check w₀ now sg s)
        Keeps (reconcile_up C check now sg s)
        (reconcile_up_lem C MayFail L check w₀ now sg s not_up has stored k.0.levels
          (IsBetween-Accounts w₀ _ _ k.0))
        (λ _ s' u.
          Keeps-cleared s' _ u.stored refl (length-cap_history_le _) u.all_settled u.up_world)
        (λ s' f. elim f.0 [
          | Up.restoring st u ↦ Keeps-restoring s' st u
          | Up.marked st all u ↦ Keeps-cleared s' _ st refl k.1 all u
          | Up.recorded st all u ↦ Keeps-cleared s' _ st refl (length-cap_history_le _) all u
        ])

  Keeps-reconcile_up : Keeps (reconcile_up C check now sg s).1
  unfolding reconcile_up
  Keeps-reconcile_up = elim (Bool-cases (sg.status.state == state_up)) [
    | inl is_up ↦
        Ensures-state (λ _ s'. GroupPatched (without up_keys sg) (C.world s) (C.world s'))
          (λ s'. (C.world s' ≡ C.world s) × MayFail) Keeps (reconcile_up C check now sg s)
          (reconcile_up_again C MayFail L check now sg s is_up stored)
          (λ _ s' p. Keeps-without up_keys s' p) (λ s' f. Keeps-same s' f.0)
    | inr not_up ↦ elim (Bool-cases (is_empty sg.status.snapshot)) [
      | inl empty ↦ Keeps-same (reconcile_up C check now sg s).1 (rw (not_up, empty) refl)
      | inr has ↦ Keeps-startup not_up has
    ]
  ]

  Keeps-dispatch : Keeps (dispatch C check now sg s).1
  unfolding dispatch
  Keeps-dispatch = elim (Bool-cases (index sg.annotations annotation_command == command_down)) [
    | inl down ↦ rw down Keeps-reconcile_down
    | inr not_down ↦ elim (Bool-cases (index sg.annotations annotation_command == command_up)) [
      | inl up ↦ rw (not_down, up) Keeps-reconcile_up
      | inr not_up ↦ rw (not_down, not_up) (Keeps-same s refl)
    ]
  ]

  pub Keeps-found : Keeps (reconcile_found C check now (ok sg, s)).1
  unfolding reconcile_found
  Keeps-found = by_test sg.deleting
    where
      by_test : (b : Bool) → Keeps ((if b then pure tt else dispatch C check now sg) s).1
      by_test true = Keeps-same s refl
      by_test false = Keeps-dispatch
