-- ===== src/System/Cycle.antt =====
-- A shutdown and the startup after it, each by one run of `Reconcile`
-- (internal/controller/shutdowngroup_controller.go), with an edit of the object between them.
use mathlib.Core.Option.{some-injective}
use kshutdown.Base.{
  String, ◌≡◌, refl, sym, ◌∙◌, ap, subst, false, true, some, ok, is_empty, length, ◌≤◌, ◌==◌,
}
use kshutdown.Base.GoMap.{index}
use kshutdown.Api.{
  ShutdownGroup, Timestamp, annotation_command, command_down, command_up, max_history_entries,
  state_down, state_up,
}
use kshutdown.Api.Client.{Client, IsLawful, Ref}
use kshutdown.Authz.{Check, IsFaithful}
use kshutdown.Controller.Collect.Laws.{expected_snapshot}
use kshutdown.Controller.Workloads.Down.{AllOff}
use kshutdown.Controller.Workloads.Up.{Settled}
use kshutdown.Controller.Reconcile.{reconcile}
use kshutdown.Controller.Reconcile.Shutdown.{begun, begun-fresh}
use kshutdown.System.{here, next, reconciled, edited}
use kshutdown.System.Invariant.{Accounts, Accounts-fresh}
use kshutdown.System.Progress.{IsDone, IsRecorded, reconcile-IsDone_down, reconcile-IsDone_up}
use kshutdown.System.Trace.{Run-IsAccounted}

module _ (C : Client) (MayFail : Type 0) (L : IsLawful C MayFail) (check : Check C)
    (F : IsFaithful C MayFail check) (reliable : MayFail → ⊥) (now later : Timestamp)
    (ns name : String) (s u : C.State) (sg kept asking : ShutdownGroup) where
  abbrev after : C.State
  after = (reconcile C check now ns name s).1

  -- The accounts after the run and the edit.
  reached :
      (C.world s).group ns name ≡ some sg
      → is_empty sg.status.snapshot ≡ true
      → length sg.status.history ≤ max_history_entries
      → (C.world after).group ns name ≡ some kept
      → (C.world u).group ns name ≡ some asking
      → asking.status ≡ kept.status
      → (C.world u).spec ≡ (C.world after).spec
      → Accounts (C.world s) (C.world u) asking.status.snapshot
  reached there fresh short left there' same spec =
      let edit = edited kept asking left there' same spec in
      let (x, found, k) =
        Run-IsAccounted C MayFail L check F ns name (C.world s) s u
          (next (next here (reconciled now refl)) edit)
          (sg, there, (Accounts-fresh (C.world s) sg.status.snapshot fresh, short)) in
      subst (λ g. Accounts (C.world s) (C.world u) g.status.snapshot)
        (some-injective x asking (sym found ∙ there')) k.0

  -- Where calls do not fail: let the stored object have a shutdown command, no snapshot, at most twenty
  -- history entries and targets that select something, less what partial mode skips, and neither be down
  -- nor being deleted. Then a run of Reconcile returns without an error and shuts down everything that
  -- the targets selected, less what partial mode skips. And once the object has been edited to have a
  -- startup command, with its status as it was, not being deleted and the workloads untouched, a run of Reconcile returns without an error and leaves the object up, without
  -- a command, and every workload of the cluster at the level that it had before the shutdown.
  pub reconcile-cycle :
      (C.world s).group ns name ≡ some sg
      → sg.deleting ≡ false
      → is_empty sg.status.snapshot ≡ true
      → length sg.status.history ≤ max_history_entries
      → index sg.annotations annotation_command ≡ command_down
      → (sg.status.state == state_down) ≡ false
      → is_empty (expected_snapshot (C.world s) sg) ≡ false
      → (C.world u).group ns name ≡ some asking
      → (C.world after).group ns name ≡ some kept
      → asking.status ≡ kept.status
      → (C.world u).spec ≡ (C.world after).spec
      → asking.deleting ≡ false
      → index asking.annotations annotation_command ≡ command_up
      → ((reconcile C check now ns name s).0 ≡ ok tt)
        × AllOff (expected_snapshot (C.world s) sg) (C.world after)
        × IsDone C MayFail L check F reliable later ns name
            (C.world s)
            u
            asking
            state_up
            (λ g s'. (r : Ref) → Settled (C.world s) (C.world s') r)
  reconcile-cycle there present fresh short down not_down some_targets there' left same spec
        present' up =
      let (s', g, ran, stored, state, _, (off, _, snap)) = first in
      let ended : after ≡ s' = ap (λ x. x.1) ran in
      let kept-g : g ≡ kept =
        some-injective g kept
          (sym stored ∙ sym (ap (λ v. (C.world v).group ns name) ended) ∙ left) in
      let takes : g.status.snapshot ≡ expected_snapshot (C.world s) sg =
        snap ∙ ap (λ h. h.status.snapshot) (begun-fresh (C.world s) sg fresh) in
      let asks : asking.status ≡ g.status = same ∙ sym (ap (λ h. h.status) kept-g) in
      let (s₂, h, ran', stored', state', idle, (settled, _, _)) =
        reconcile-IsDone_up C MayFail L check F reliable later ns name (C.world s) u asking there'
          present' (reached there fresh short left there' same spec) up
          (ap (λ st. st.state == state_up) asks ∙ ap (λ t. t == state_up) state)
          (ap (λ st. is_empty st.snapshot) asks ∙ ap is_empty takes ∙ some_targets) in
      (
        ap (λ x. x.0) ran,
        subst (λ es. AllOff es (C.world after)) takes
            (subst (λ v. AllOff g.status.snapshot (C.world v)) (sym ended) off),
        (s₂, h, ran', stored', state', idle, settled),
      )
    where
      first : IsDone C MayFail L check F reliable now ns name (C.world s) s sg state_down (λ g s'.
          AllOff g.status.snapshot (C.world s')
          × IsRecorded C MayFail L check F reliable now ns name (C.world s) s sg command_down g
          × (g.status.snapshot ≡ (begun (C.world s) sg).status.snapshot))
      first =
          reconcile-IsDone_down C MayFail L check F reliable now ns name (C.world s) s sg there
            present (Accounts-fresh (C.world s) sg.status.snapshot fresh) down not_down
