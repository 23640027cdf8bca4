-- ===== src/Controller/Reconcile/Shutdown.antt =====
-- The whole of `reconcileDown`, from the capture of the snapshot on.
use kshutdown.Base.{
  String, ◌≡◌, ◌∙◌, sym, ap, subst, ◌⊎◌, inl, inr, true, false, Bool-cases, ◌==◌, if◌then◌else◌,
  List, Ensures, Ensures-bind, Ensures-mono, Ensures-rewrap, context, is_empty, ◌>>=◌,
}
use kshutdown.Api.{
  ShutdownGroup, HistoryEntry, Timestamp, ResourceSnapshot, state_down, command_down,
}
use kshutdown.Api.Client.{Client, World, IsLawful, GroupPatched}
use kshutdown.Authz.{Check, IsFaithful}
use kshutdown.Controller.Collect.{collect_targets}
use kshutdown.Controller.Collect.Laws.{expected_snapshot, collect_targets_lem}
use kshutdown.Controller.Workloads.Down.{Stops}
use kshutdown.Controller.Group.{captured}
use kshutdown.Controller.Group.Laws.{Stored, Writes, WriteFails, patch_status_lem}
use kshutdown.Controller.Reconcile.{entry_of, capture, finish_down, shut_down, reconcile_down}
use kshutdown.Controller.Reconcile.Down.{
  DownStage, IsDown, DownStage-after, IsDown-after, DownFails, EndsDown, finish_down_lem,
}

-- The group that the scaling starts from: with the snapshot of the world, if it had none.
abbrev pub begun : World → ShutdownGroup → ShutdownGroup
begun w sg = if is_empty sg.status.snapshot then captured (expected_snapshot w sg) sg else sg

pub begun-fresh :
    (w : World) (sg : ShutdownGroup)
    → is_empty sg.status.snapshot ≡ true
    → begun w sg ≡ captured (expected_snapshot w sg) sg
begun-fresh w sg fresh = rw fresh

pub begun-kept :
    (w : World) (sg : ShutdownGroup) → is_empty sg.status.snapshot ≡ false → begun w sg ≡ sg
begun-kept w sg kept = ap (λ b. if b then captured (expected_snapshot w sg) sg else sg) kept

Stops-write :
    (C : Client) (MayFail : Type 0) (L : IsLawful C MayFail) (g : ShutdownGroup) (w w' : World)
    → GroupPatched g w w'
    → Stops C MayFail L g.status.snapshot w'
    → Stops C MayFail L g.status.snapshot w
Stops-write C MayFail L g w w' p (inl failed) = inl failed
Stops-write C MayFail L g w w' p (inr (r, named, gone)) =
    inr (r, named, ap (λ f. f r) (sym p.spec_same) ∙ gone)

module _ (C : Client) (MayFail : Type 0) (L : IsLawful C MayFail) (check : Check C)
    (F : IsFaithful C MayFail check) (now : Timestamp) (sg : ShutdownGroup) where
  -- A run from the group `g` that fails has changed nothing, or has stopped at one of the stages.
  abbrev pub ShutdownFails : ShutdownGroup → World → C.State → Type 0
  ShutdownFails g w s' =
      ((C.world s' ≡ w) × MayFail)
      ⊎ (DownStage now (entry_of command_down now sg) g w (C.world s')
          × Stops C MayFail L g.status.snapshot w)

  abbrev pub Shutdown : ShutdownGroup → World → Unit {0} → C.State → Type 0
  Shutdown g w _ s' = IsDown now (entry_of command_down now sg) g w (C.world s')

  capture_step :
      (s : C.State)
      → Stored sg (C.world s)
      → Ensures
          (Writes C MayFail L (captured (expected_snapshot (C.world s) sg) sg) (C.world s))
          (WriteFails C MayFail L (C.world s))
          ((do
            es ← context "collecting targets" (collect_targets C check sg)
            context "patching snapshot into status" (C.patch_status sg (captured es sg)))
            s)
  capture_step s st =
      Ensures-bind IsExpected (WriteFails C MayFail L w) (Writes C MayFail L g w)
        (WriteFails C MayFail L w) (context _ (collect_targets C check sg) s) _
        (Ensures-rewrap IsExpected (WriteFails C MayFail L w) _ (collect_targets C check sg s)
          (collect_targets_lem C MayFail L check F sg s))
        (λ es s' p.
          rw p.1 (rw p.0 at (patch_status_lem C MayFail L message sg g.status s' (rw p.0 st))))
        (λ s' f. f)
    where
      w : World
      w = C.world s

      g : ShutdownGroup
      g = captured (expected_snapshot w sg) sg

      message : String
      message = "patching snapshot into status"

      IsExpected : List ResourceSnapshot → C.State → Type 0
      IsExpected es s' = (C.world s' ≡ w) × (es ≡ expected_snapshot w sg)

  -- A first run, which captures the snapshot.
  first_run :
      (s : C.State)
      → is_empty sg.status.snapshot ≡ true
      → Stored sg (C.world s)
      → let g = captured (expected_snapshot (C.world s) sg) sg in
        Ensures (Shutdown g (C.world s)) (ShutdownFails g (C.world s)) (shut_down C check now sg s)
  unfolding shut_down capture
  first_run s fresh st = rw fresh (
      Ensures-bind (Writes C MayFail L g w) (WriteFails C MayFail L w) (Shutdown g w)
        (ShutdownFails g w) _ (finish_down C check now entry) (capture_step s st)
        (λ g' s' p. rw p.0 (
          Ensures-mono (EndsDown C MayFail L check now entry g s')
            (DownFails C MayFail L check now entry g s') (Shutdown g w) (ShutdownFails g w)
            (finish_down C check now entry g s')
            (finish_down_lem C MayFail L check now entry g s' p.1.stored)
            (λ _ s'' d. IsDown-after now entry g w (C.world s') (C.world s'') p.1 d)
            (λ s'' f. inr (
              DownStage-after now entry g w (C.world s') (C.world s'') p.1 f.0,
              Stops-write C MayFail L g w (C.world s') p.1 f.1,
            ))))
        (λ s' f. inl f))
    where
      entry : HistoryEntry
      entry = entry_of command_down now sg

      w : World
      w = C.world s

      g : ShutdownGroup
      g = captured (expected_snapshot w sg) sg

  -- A run after one that stopped, which keeps the snapshot.
  later_run :
      (s : C.State)
      → is_empty sg.status.snapshot ≡ false
      → Stored sg (C.world s)
      → Ensures
          (Shutdown sg (C.world s))
          (ShutdownFails sg (C.world s))
          (shut_down C check now sg s)
  unfolding shut_down capture
  later_run s kept st = rw kept (
      Ensures-mono (EndsDown C MayFail L check now entry sg s)
        (DownFails C MayFail L check now entry sg s) (Shutdown sg (C.world s))
        (ShutdownFails sg (C.world s)) (finish_down C check now entry sg s)
        (finish_down_lem C MayFail L check now entry sg s st) (λ _ s' d. d) (λ s' f. inr f))
    where
      entry : HistoryEntry
      entry = entry_of command_down now sg

  -- Where the group is stored and not marked down, a run that succeeds has captured the snapshot if
  -- there was none, has shut down all that it names and nothing else, and has written the state,
  -- the history entry and the annotations. A run that fails has changed nothing or has stopped at
  -- one of the stages, and then a call failed or a workload of the snapshot is gone.
  pub reconcile_down_lem :
      (s : C.State)
      → (sg.status.state == state_down) ≡ false
      → Stored sg (C.world s)
      → let g = begun (C.world s) sg in
        Ensures
          (Shutdown g (C.world s))
          (ShutdownFails g (C.world s))
          (reconcile_down C check now sg s)
  unfolding reconcile_down
  reconcile_down_lem s not_down st = rw not_down (elim (Bool-cases (is_empty sg.status.snapshot)) [
    | inl fresh ↦ subst Run (sym (begun-fresh (C.world s) sg fresh)) (first_run s fresh st)
    | inr kept ↦ subst Run (sym (begun-kept (C.world s) sg kept)) (later_run s kept st)
  ])
    where
      Run : ShutdownGroup → Type 0
      Run g =
          Ensures (Shutdown g (C.world s)) (ShutdownFails g (C.world s))
            (shut_down C check now sg s)
