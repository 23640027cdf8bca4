-- ===== src/Controller/Reconcile/Kept.antt =====
-- A shutdown of a group that has a snapshot already
-- (internal/controller/shutdowngroup_controller.go, `reconcileDown`).
use kshutdown.Base.{
  ◌≡◌, subst, ◌⊎◌, inl, inr, false, Any, ok, Ensures-returns, is_empty, none, ◌==◌,
}
use kshutdown.Api.{ShutdownGroup, Timestamp, state_down, command_down}
use kshutdown.Api.Client.{Client, IsLawful, Ref}
use kshutdown.Authz.{Check, IsFaithful}
use kshutdown.Controller.Workloads.Levels.{Names}
use kshutdown.Controller.Workloads.Down.{AllOff}
use kshutdown.Controller.Group.Laws.{Stored}
use kshutdown.Controller.Reconcile.{entry_of, reconcile_down}
use kshutdown.Controller.Reconcile.Down.{finished, IsDown}
use kshutdown.Controller.Reconcile.Shutdown.{
  begun, begun-kept, Shutdown, ShutdownFails, reconcile_down_lem,
}

-- Where calls do not fail and the workloads that the snapshot names are there, a shutdown of a stored
-- group that is not down and has a snapshot succeeds and marks the group down: everything that the
-- snapshot names is then shut down and nothing else has changed, whatever the targets are now, who
-- asks, and what this user may patch.
pub reconcile_down-kept :
    (C : Client) (MayFail : Type 0) (L : IsLawful C MayFail) (check : Check C)
    (F : IsFaithful C MayFail check) (reliable : MayFail → ⊥) (now : Timestamp) (sg : ShutdownGroup)
    (s : C.State)
    → (sg.status.state == state_down) ≡ false
    → is_empty sg.status.snapshot ≡ false
    → Stored sg (C.world s)
    → ((r : Ref) → Any (Names r) sg.status.snapshot → (C.world s).spec r ≡ none → ⊥)
    → (s' : C.State) × (reconcile_down C check now sg s ≡ (ok tt, s'))
      × Stored (finished now (entry_of command_down now sg) sg) (C.world s')
      × AllOff sg.status.snapshot (C.world s')
      × ((r : Ref) → ((C.world s').spec r ≡ (C.world s).spec r) ⊎ Any (Names r) sg.status.snapshot)
reconcile_down-kept C MayFail L check F reliable now sg s not_down kept stored there = (
  ran.0,
  ran.1,
  ran.2.stored,
  ran.2.all_off,
  λ r. elim (ran.2.down_world.frame r) [ inl same ↦ inl same | inr (named, _) ↦ inr named ],
)
  where
    Done : ShutdownGroup → Type 0
    Done g =
        (s' : C.State) × (reconcile_down C check now sg s ≡ (ok tt, s'))
        × IsDown now (entry_of command_down now sg) g (C.world s) (C.world s')

    g : ShutdownGroup
    g = begun (C.world s) sg

    same : g ≡ sg
    same = begun-kept (C.world s) sg kept

    began : Done g
    began =
        Ensures-returns (Shutdown C MayFail L check F now sg g (C.world s))
          (ShutdownFails C MayFail L check F now sg g (C.world s)) (reconcile_down C check now sg s)
          (reconcile_down_lem C MayFail L check F now sg s not_down stored)
          (λ s'. elim [
            | inl (_, failed) ↦ reliable failed
            | inr (_, inl failed) ↦ reliable failed
            | inr (_, inr (r, named, gone)) ↦
                there r (subst (λ h. Any (Names r) h.status.snapshot) same named) gone
          ])

    ran : Done sg
    ran = subst Done same began
