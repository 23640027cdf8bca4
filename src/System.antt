-- ===== src/System.antt =====
-- A ShutdownGroup over time: runs of `Reconcile` (internal/controller/shutdowngroup_controller.go),
-- with what users do to the object between them.
pub mod Invariant
pub mod Preservation
pub mod Trace
pub mod Reading
pub mod Progress
pub mod Cycle
pub mod Shown
pub mod Restarted
pub mod Triggered
pub mod Unmutated
pub mod Unreviewed
use kshutdown.Base.{String, ◌≡◌, some}
use kshutdown.Api.{ShutdownGroup, Timestamp}
use kshutdown.Api.Client.{Client}
use kshutdown.Authz.{Check}
use kshutdown.Controller.Reconcile.{reconcile}

module _ (C : Client) (check : Check C) (ns name : String) where
  -- One step: a run of the reconciler, which a failing call may stop anywhere, or a change of the
  -- object that keeps its status, such as a new command or new targets. What else changes in the
  -- world is free, but for the workloads.
  pub data Step (s s' : C.State) : Type 0 where
    reconciled : (now : Timestamp) → s' ≡ (reconcile C check now ns name s).1 → Step s s'
    edited :
        (g g' : ShutdownGroup)
        → (C.world s).group ns name ≡ some g
        → (C.world s').group ns name ≡ some g'
        → g'.status ≡ g.status
        → (C.world s').spec ≡ (C.world s).spec
        → Step s s'

  pub data Run (s : C.State) : C.State → Type 0 where
    here : Run s s
    next : {u v : C.State} → Run s u → Step u v → Run s v
