-- ===== src/Controller/Reconcile/Ends.antt =====
-- How `reconcileDown` and `reconcileUp` end: the stored group field by field, and the workloads.
use kshutdown.Base.{
  ◌≡◌, refl, ◌∙◌, ◌⊎◌, inl, inr, true, false, All, Ensures, Ensures-mono, is_empty, ◌==◌,
}
use kshutdown.Base.GoMap.{contains}
use kshutdown.Api.{
  ShutdownGroup, HistoryEntry, Timestamp, state_up, state_down, command_up, command_down,
}
use kshutdown.Api.Client.{Client, World, IsLawful}
use kshutdown.Authz.{Check, IsFaithful}
use kshutdown.Controller.Workloads.Down.{AllOff, Stops}
use kshutdown.Controller.Workloads.Up.{Captured, IsBetween}
use kshutdown.Controller.Group.{up_keys}
use kshutdown.Controller.Group.Laws.{Stored}
use kshutdown.Controller.Reconcile.{entry_of, reconcile_up}
use kshutdown.Controller.Reconcile.Down.{DownWorld, marked, recorded}
use kshutdown.Controller.Reconcile.Shutdown.{begun, Shutdown}
use kshutdown.Controller.Reconcile.Up
use kshutdown.Controller.Reconcile.Up.{
  UpWorld, UpStage, AllSettled, EndsUp, UpFails, up_marked, up_recorded, up_finished,
  reconcile_up_lem,
}
use kshutdown.Controller.Reconcile.Safety.{Holds}
use kshutdown.Controller.Reconcile.Written.{
  IsBegun, IsMarked, IsNoted, IsClosed, HasSnapshot, HasCleared, shutdown_request, startup_request,
  up_marked-IsMarked, with_entry-IsNoted, without-IsClosed,
}

startup_keys : All (λ k. contains startup_request k ≡ true) startup_request
unfolding contains
startup_keys = (refl, (refl, (refl, (refl, tt))))

module _ (w : World) (now : Timestamp) (sg : ShutdownGroup) where
  abbrev pub Marked : ShutdownGroup → Type 0
  Marked = IsMarked state_down command_down (HasSnapshot w sg) now sg

  abbrev pub Noted : ShutdownGroup → Type 0
  Noted = IsNoted state_down command_down (HasSnapshot w sg) now sg

  abbrev pub Closed : ShutdownGroup → Type 0
  Closed g = IsClosed state_down command_down (HasSnapshot w sg) now sg g shutdown_request

  -- Where a shutdown that fails can have stopped: before the state is written, with workloads left to
  -- shut down, or with all of them shut down and the state, or also the history, written.
  abbrev pub StopsDown : World → ShutdownGroup → Type 0
  StopsDown w' g =
      DownWorld g w w' × (IsBegun w sg g ⊎ (AllOff g.status.snapshot w' × (Marked g ⊎ Noted g)))

  abbrev pub EndsDown : World → ShutdownGroup → Type 0
  EndsDown w' g = DownWorld g w w' × AllOff g.status.snapshot w' × Closed g

  abbrev g₀ : ShutdownGroup
  g₀ = begun w sg

  entry : HistoryEntry
  entry = entry_of command_down now sg

module _ (C : Client) (MayFail : Type 0) (L : IsLawful C MayFail) (check : Check C)
    (F : IsFaithful C MayFail check) (now : Timestamp) (sg : ShutdownGroup) (s : C.State) where
  abbrev pub DownFails : C.State → Type 0
  DownFails s' =
      ((C.world s' ≡ C.world s) × MayFail)
      ⊎ Holds sg
          (λ g.
            StopsDown (C.world s) now sg (C.world s') g
            × Stops C MayFail L g.status.snapshot (C.world s))
          (C.world s')

module _ (now : Timestamp) (sg : ShutdownGroup) where
  abbrev pub MarkedUp : ShutdownGroup → Type 0
  MarkedUp = IsMarked state_up command_up (HasCleared sg) now sg

  abbrev pub NotedUp : ShutdownGroup → Type 0
  NotedUp = IsNoted state_up command_up (HasCleared sg) now sg

  abbrev pub ClosedUp : ShutdownGroup → Type 0
  ClosedUp g = IsClosed state_up command_up (HasCleared sg) now sg g startup_request

  cleared :
      (g g' : ShutdownGroup)
      → g'.status.snapshot ≡ g.status.snapshot
      → g'.status.operator ≡ g.status.operator
      → g'.status.reason ≡ g.status.reason
      → HasCleared sg g
      → HasCleared sg g'
  cleared g g' snap operator reason (none, o) = (
    snap ∙ none,
    record { operator_is = operator ∙ o.operator_is; reason_is = reason ∙ o.reason_is },
  )

  noted_up : NotedUp (up_recorded now sg)
  noted_up =
      with_entry-IsNoted state_up command_up (HasCleared sg) now sg (up_marked now sg)
        (λ h. cleared (up_marked now sg) (up_recorded now sg) refl refl refl h)
        (up_marked-IsMarked now sg)

  closed_up : ClosedUp (up_finished now sg)
  closed_up =
      without-IsClosed state_up command_up (HasCleared sg) now sg (up_recorded now sg) up_keys
        (λ h. cleared (up_recorded now sg) (up_finished now sg) refl refl refl h) startup_keys
        noted_up

module _ (C : Client) (MayFail : Type 0) (L : IsLawful C MayFail) (check : Check C) (w₀ : World)
    (now : Timestamp) (sg : ShutdownGroup) (s : C.State) where
  abbrev pub EndsUpWith : C.State → ShutdownGroup → Type 0
  EndsUpWith s' g =
      UpWorld w₀ sg (C.world s) (C.world s')
      × AllSettled w₀ sg.status.snapshot (C.world s')
      × ClosedUp now sg g

  -- Where a startup that fails can have stopped: before the object is written, or with all that the
  -- snapshot names restored and the state, or also the history, written.
  abbrev pub StopsUp : C.State → ShutdownGroup → Type 0
  StopsUp s' g =
      UpWorld w₀ sg (C.world s) (C.world s')
      × ((g ≡ sg)
          ⊎ (AllSettled w₀ sg.status.snapshot (C.world s')
              × (MarkedUp now sg g ⊎ NotedUp now sg g)))

  UpStage-StopsUp :
      (s' : C.State)
      → UpStage w₀ now sg (C.world s) (C.world s')
      → Holds sg (StopsUp s') (C.world s')
  UpStage-StopsUp s' (Up.restoring st u) = (sg, st, (u, inl refl))
  UpStage-StopsUp s' (Up.marked st all u) = (_, st, (u, inr (all, inl (up_marked-IsMarked now sg))))
  UpStage-StopsUp s' (Up.recorded st all u) = (_, st, (u, inr (all, inr (noted_up now sg))))

  -- Where the group is stored with a snapshot of levels of `w₀`, is not marked up, and every workload
  -- is at its level in `w₀` or shut down: a run that succeeds brings all that the snapshot names to
  -- its level in `w₀`, keeps what is at its level there, and leaves the object up with the run's
  -- time, the operator and the reason of the request and no snapshot, the entry of the startup first
  -- in the history with its twenty newest entries, and the four annotations of the request gone, the
  -- others and the rest of the object as they were. A run that fails has stopped before the object is
  -- written, after the state is or after the history is, with no later write; then a call failed.
  pub reconcile_up-Ends :
      (sg.status.state == state_up) ≡ false
      → is_empty sg.status.snapshot ≡ false
      → Stored sg (C.world s)
      → Captured w₀ sg.status.snapshot
      → IsBetween w₀ (C.world s)
      → Ensures
          (λ _ s'. Holds sg (EndsUpWith s') (C.world s'))
          (λ s'. Holds sg (StopsUp s') (C.world s') × MayFail)
          (reconcile_up C check now sg s)
  reconcile_up-Ends not_up has stored levels between =
      Ensures-mono (EndsUp C MayFail L check w₀ now sg s) (UpFails C MayFail L check w₀ now sg s) _
        _ (reconcile_up C check now sg s)
        (reconcile_up_lem C MayFail L check w₀ now sg s not_up has stored levels between)
        (λ _ s' u. (_, u.stored, (u.up_world, u.all_settled, closed_up now sg)))
        (λ s' f. (UpStage-StopsUp s' f.0, f.1))
