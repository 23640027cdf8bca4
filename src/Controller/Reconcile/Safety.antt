-- ===== src/Controller/Reconcile/Safety.antt =====
-- What holds after every run of the reconciler, also one that a failing call has stopped.
use kshutdown.Base.{
  ◌≡◌, refl, subst, ◌⊎◌, inl, inr, Bool-cases, false, ◌==◌, eq_iff, some, length, ◌≤◌, arith,
  Ensures, Ensures-state, is_empty, String,
}
use kshutdown.Api.{ShutdownGroup, Timestamp, state_down, state_up, max_history_entries}
use kshutdown.Api.Client.{Client, World, IsLawful}
use kshutdown.Authz.{Check, IsFaithful}
use kshutdown.Controller.Workloads.Down.{AllOff}
use kshutdown.Controller.Workloads.Up.{Captured, IsBetween}
use kshutdown.Controller.Group.{captured}
use kshutdown.Controller.Group.Laws.{Stored, length-cap_history_le}
use kshutdown.Controller.Collect.Laws.{expected_snapshot}
use kshutdown.Controller.Reconcile.{reconcile_down, reconcile_up}
use kshutdown.Controller.Reconcile.Down.{scaling, marked, recorded}
use kshutdown.Controller.Reconcile.Shutdown.{
  begun, begun-fresh, begun-kept, Shutdown, ShutdownFails, reconcile_down_lem,
}
use kshutdown.Controller.Reconcile.Up.{
  AllSettled, EndsUp, UpFails, UpStage, restoring, reconcile_up_lem,
}

-- The group that the world holds, with a property of it.
abbrev pub Holds : ShutdownGroup → (ShutdownGroup → Type 0) → World → Type 0
Holds sg P w = (g : ShutdownGroup) × (w.group sg.namespace sg.name ≡ some g) × P g

-- A group that is marked down has everything that its snapshot names shut down, and its history is
-- within the bound.
pub record IsHealthy (w : World) (g : ShutdownGroup) : Type 0 where
  pub shut : g.status.state ≡ state_down → AllOff g.status.snapshot w
  pub bounded : length g.status.history ≤ max_history_entries

ne-of-eqb : (a b : String) → (a == b) ≡ false → a ≡ b → ⊥
ne-of-eqb a b differ same = ground (arith, eq_iff a b)

module _ (C : Client) (MayFail : Type 0) (L : IsLawful C MayFail) (check : Check C)
    (F : IsFaithful C MayFail check) (now : Timestamp) (sg : ShutdownGroup) (s : C.State)
    (not_down : (sg.status.state == state_down) ≡ false) (stored : Stored sg (C.world s)) where
  -- A snapshot is written once: where the stored group is not down and has a snapshot, a shutdown
  -- leaves that snapshot in the stored group, however it ends.
  pub snapshot-reconcile_down :
      is_empty sg.status.snapshot ≡ false
      → Holds sg
          (λ g. g.status.snapshot ≡ sg.status.snapshot)
          (C.world (reconcile_down C check now sg s).1)
  snapshot-reconcile_down kept =
      Ensures-state (Shutdown C MayFail L check F now sg sg (C.world s))
        (ShutdownFails C MayFail L check F now sg sg (C.world s))
        (λ s'. Holds sg (λ g. g.status.snapshot ≡ sg.status.snapshot) (C.world s'))
        (reconcile_down C check now sg s)
        (subst Run (begun-kept (C.world s) sg kept)
          (reconcile_down_lem C MayFail L check F now sg s not_down stored))
        (λ _ s' d. (_, d.stored, refl))
        (λ s'. elim [
          | inl (same, _) ↦ (sg, rw same stored, refl)
          | inr (scaling st _, _) ↦ (_, st, refl)
          | inr (marked st _ _, _) ↦ (_, st, refl)
          | inr (recorded st _ _, _) ↦ (_, st, refl)
        ])
    where
      Run : ShutdownGroup → Type 0
      Run g =
          Ensures (Shutdown C MayFail L check F now sg g (C.world s))
            (ShutdownFails C MayFail L check F now sg g (C.world s))
            (reconcile_down C check now sg s)

  -- The same for the group `g` that the run works from.
  IsHealthy-from :
      (g : ShutdownGroup)
      → (g.status.state == state_down) ≡ false
      → length g.status.history ≤ max_history_entries
      → Stored g (C.world s) ⊎ ((C.world s).group g.namespace g.name ≡ some sg)
      → g.status.history ≡ sg.status.history
      → g.status.state ≡ sg.status.state
      → Ensures
          (Shutdown C MayFail L check F now sg g (C.world s))
          (ShutdownFails C MayFail L check F now sg g (C.world s))
          (reconcile_down C check now sg s)
      → let w' = C.world (reconcile_down C check now sg s).1 in Holds g (IsHealthy w') w'
  IsHealthy-from g up short before same_history same_state h =
      Ensures-state (Shutdown C MayFail L check F now sg g (C.world s))
        (ShutdownFails C MayFail L check F now sg g (C.world s))
        (λ s'. Holds g (IsHealthy (C.world s')) (C.world s')) (reconcile_down C check now sg s) h
        (λ _ s' d.
          (_, d.stored, record { shut = λ _. d.all_off; bounded = length-cap_history_le _ }))
        (λ s'. elim [
          | inl (same, _) ↦ unchanged s' same before
          | inr (scaling st _, _) ↦
              (_, st, record { shut = λ e. absurd (ne-of-eqb _ _ up e); bounded = short })
          | inr (marked st off _, _) ↦ (_, st, record { shut = λ _. off; bounded = short })
          | inr (recorded st off _, _) ↦
              (_, st, record { shut = λ _. off; bounded = length-cap_history_le _ })
        ])
    where
      unchanged :
          (s' : C.State)
          → C.world s' ≡ C.world s
          → Stored g (C.world s) ⊎ ((C.world s).group g.namespace g.name ≡ some sg)
          → Holds g (IsHealthy (C.world s')) (C.world s')
      unchanged s' same (inl st) =
          (g, rw same st, record { shut = λ e. absurd (ne-of-eqb _ _ up e); bounded = short })
      unchanged s' same (inr st) = (
        sg,
        rw same st,
        record {
          shut = λ e. absurd (ne-of-eqb _ _ not_down e);
          bounded = rw same_history at short;
        },
      )

  -- Where the stored group is not down and its history is within the bound: however a shutdown ends,
  -- the group is stored, its history is within the bound, and if it is marked down, everything that
  -- its snapshot names is shut down.
  pub reconcile_down-IsHealthy :
      length sg.status.history ≤ max_history_entries
      → let w' = C.world (reconcile_down C check now sg s).1 in Holds sg (IsHealthy w') w'
  reconcile_down-IsHealthy short = elim (Bool-cases (is_empty sg.status.snapshot)) [
    | inl fresh ↦
        IsHealthy-from (captured (expected_snapshot (C.world s) sg) sg) not_down short (inr stored)
          refl refl (subst Run (begun-fresh (C.world s) sg fresh) run)
    | inr kept ↦
        IsHealthy-from sg not_down short (inl stored) refl refl
          (subst Run (begun-kept (C.world s) sg kept) run)
  ]
    where
      Run : ShutdownGroup → Type 0
      Run g =
          Ensures (Shutdown C MayFail L check F now sg g (C.world s))
            (ShutdownFails C MayFail L check F now sg g (C.world s))
            (reconcile_down C check now sg s)

      run : Run (begun (C.world s) sg)
      run = reconcile_down_lem C MayFail L check F now sg s not_down stored

module _ (C : Client) (MayFail : Type 0) (L : IsLawful C MayFail) (check : Check C) (w₀ : World)
    (now : Timestamp) (sg : ShutdownGroup) (s : C.State) where
  -- A group that is marked up has lost its snapshot, and what that named is restored.
  pub record IsRestored (w : World) (g : ShutdownGroup) : Type 0 where
    pub settled : g.status.state ≡ state_up → AllSettled w₀ sg.status.snapshot w
    pub kept : (g.status.state ≡ state_up) ⊎ (g.status.snapshot ≡ sg.status.snapshot)
    pub bounded : length g.status.history ≤ max_history_entries

  -- Where the stored group is not up, its history is within the bound, its snapshot is not empty and
  -- records levels of the world `w₀`, and every workload is at its level there or shut down: however a
  -- startup ends, the group is marked up only if everything that the snapshot named is at its level,
  -- it keeps the snapshot until then, and the history stays within the bound.
  pub reconcile_up-IsRestored :
      (sg.status.state == state_up) ≡ false
      → is_empty sg.status.snapshot ≡ false
      → Stored sg (C.world s)
      → Captured w₀ sg.status.snapshot
      → IsBetween w₀ (C.world s)
      → length sg.status.history ≤ max_history_entries
      → let w' = C.world (reconcile_up C check now sg s).1 in Holds sg (IsRestored w') w'
  reconcile_up-IsRestored not_up has stored levels between short =
      Ensures-state (EndsUp C MayFail L check w₀ now sg s) (UpFails C MayFail L check w₀ now sg s)
        (λ s'. Holds sg (IsRestored (C.world s')) (C.world s')) (reconcile_up C check now sg s)
        (reconcile_up_lem C MayFail L check w₀ now sg s not_up has stored levels between)
        (λ _ s' d. (
          _,
          d.stored,
          record {
            settled = λ _. d.all_settled;
            kept = inl refl;
            bounded = length-cap_history_le _;
          },
        ))
        (λ s' f. stopped s' f.0)
    where
      stopped :
          (s' : C.State)
          → UpStage w₀ now sg (C.world s) (C.world s')
          → Holds sg (IsRestored (C.world s')) (C.world s')
      stopped s' (restoring st _) = (
        sg,
        st,
        record { settled = λ e. absurd (ne-of-eqb _ _ not_up e); kept = inr refl; bounded = short },
      )
      stopped s' (UpStage.marked st h _) =
          (_, st, record { settled = λ _. h; kept = inl refl; bounded = short })
      stopped s' (UpStage.recorded st h _) =
          (_, st, record { settled = λ _. h; kept = inl refl; bounded = length-cap_history_le _ })
