-- ===== src/System/Progress.antt =====
-- Where calls do not fail, one run of the reconciler carries out the command.
use kshutdown.Base.{
  String, ◌≡◌, refl, sym, ◌∙◌, ap, subst, inl, inr, false, some, [], ◌∷◌, ok, Ensures-returns,
  is_empty, ◌==◌,
}
use kshutdown.Base.GoMap.{index}
use kshutdown.Api.{
  ShutdownGroup, Timestamp, state_up, state_down, command_up, command_down, annotation_command,
}
use kshutdown.Api.Client.{Client, World, IsLawful, Ref}
use kshutdown.Authz.{Check, IsFaithful}
use kshutdown.Controller.Workloads.Down.{AllOff}
use kshutdown.Controller.Workloads.Up.{Settled}
use kshutdown.Controller.Group.{cap_history, marked_down, with_entry, down_keys, up_keys}
use kshutdown.Controller.Group.Laws.{no_command, down_keys-command, up_keys-command}
use kshutdown.Controller.Reconcile.{entry_of, reconcile_down, reconcile_up, reconcile}
use kshutdown.Controller.Reconcile.Shutdown.{begun, Shutdown, ShutdownFails, reconcile_down_lem}
use kshutdown.Controller.Reconcile.Up.{
  EndsUp, UpFails, IsUp, up_finished, up_recorded, reconcile_up_lem,
}
use kshutdown.Controller.Reconcile.Down.{finished, IsDown}
use kshutdown.System.Invariant.{Accounts, IsBetween-Accounts}
use kshutdown.System.Preservation.{Accounts-begun}
use kshutdown.System.Reading.{
  Accounts-present, Reads, reconcile-Reads, at_own, found_down, found_up, begun_own, begun_history,
}

module _ (C : Client) (MayFail : Type 0) (L : IsLawful C MayFail) (check : Check C)
    (F : IsFaithful C MayFail check) (reliable : MayFail → ⊥) (now : Timestamp) (ns name : String)
    (w₀ : World) (s : C.State) (sg : ShutdownGroup) where
  -- The time of the change, and the command's entry at the head of the history.
  abbrev pub IsRecorded : String → ShutdownGroup → Type 0
  IsRecorded command g =
      (g.status.since ≡ some now)
      × (g.status.history ≡ cap_history (entry_of command now sg ∷ sg.status.history))

  -- What a command that was carried out leaves: the state, no command, and a statement of the object.
  abbrev pub IsDone : String → (ShutdownGroup → C.State → Type 0) → Type 0
  IsDone state P =
      (s' : C.State) × (g : ShutdownGroup) × (reconcile C check now ns name s ≡ (ok tt, s'))
      × ((C.world s').group ns name ≡ some g)
      × (g.status.state ≡ state)
      × (index g.annotations annotation_command ≡ "")
      × P g s'

  module _ (there : (C.world s).group ns name ≡ some sg) (present : sg.deleting ≡ false)
      (a : Accounts w₀ (C.world s) sg.status.snapshot) where
    -- Where calls do not fail, the accounts hold and the stored object is not being deleted: one run for
    -- the command "down", of an object that is not down, returns without an error and leaves it down,
    -- with everything that its snapshot names shut down, the snapshot that it had or else the one of the
    -- world, the run's time and its entry of the history recorded, and no command.
    pub reconcile-IsDone_down :
        index sg.annotations annotation_command ≡ command_down
        → (sg.status.state == state_down) ≡ false
        → IsDone state_down (λ g s'.
          AllOff g.status.snapshot (C.world s')
          × IsRecorded command_down g
          × (g.status.snapshot ≡ (begun (C.world s) sg).status.snapshot))
    reconcile-IsDone_down down not_down = (
      ran.0,
      finished now (entry_of command_down now sg) g,
      read.runs
          ∙ found_down C MayFail L check reliable now ns name s sg read.state present down
          ∙ ran.1,
      at_own C MayFail L check reliable now ns name s sg (C.world ran.0) _ _ _
          ((begun_own C MayFail L check reliable now ns name s sg w).0 ∙ read.own.0)
          ((begun_own C MayFail L check reliable now ns name s sg w).1 ∙ read.own.1) ran.2.stored,
      refl,
      no_command (with_entry (entry_of command_down now sg) (marked_down now g)) down_keys
          down_keys-command,
      (
        ran.2.all_off,
        (
          refl,
          ap (λ h. cap_history (entry_of command_down now sg ∷ h))
              (begun_history C MayFail L check reliable now ns name s sg w),
        ),
        ap (λ v. (begun v sg).status.snapshot) read.same,
      ),
    )
      where
        read : Reads C MayFail L check reliable now ns name s sg
        read = reconcile-Reads C MayFail L check reliable now ns name s sg there

        w : World
        w = C.world read.state

        g : ShutdownGroup
        g = begun w sg

        accounts : Accounts w₀ w g.status.snapshot
        accounts =
            Accounts-begun C MayFail L w₀ sg read.state
              (subst (λ v. Accounts w₀ v sg.status.snapshot) (sym read.same) a)

        ran :
            (s' : C.State) × (reconcile_down C check now sg read.state ≡ (ok tt, s'))
            × IsDown now (entry_of command_down now sg) g w (C.world s')
        ran =
            Ensures-returns (Shutdown C MayFail L check F now sg g w)
              (ShutdownFails C MayFail L check F now sg g w)
              (reconcile_down C check now sg read.state)
              (reconcile_down_lem C MayFail L check F now sg read.state not_down read.stored)
              (λ s'. elim [
                | inl (_, failed) ↦ reliable failed
                | inr (_, inl failed) ↦ reliable failed
                | inr (_, inr (r, named, gone)) ↦
                    Accounts-present w₀ w g.status.snapshot r accounts named gone
              ])

    -- The same for the command "up", of an object that is not up and has a snapshot: it leaves every
    -- workload at its level in `w₀`, and the object without a snapshot.
    pub reconcile-IsDone_up :
        index sg.annotations annotation_command ≡ command_up
        → (sg.status.state == state_up) ≡ false
        → is_empty sg.status.snapshot ≡ false
        → IsDone state_up (λ g s'.
          ((r : Ref) → Settled w₀ (C.world s') r)
          × (g.status.snapshot ≡ [])
          × IsRecorded command_up g)
    reconcile-IsDone_up up not_up has = (
      ran.0,
      up_finished now sg,
      read.runs
          ∙ found_up C MayFail L check reliable now ns name s sg read.state present up
          ∙ ran.1,
      at_own C MayFail L check reliable now ns name s sg (C.world ran.0) _ _ _ read.own.0 read.own.1
          ran.2.stored,
      refl,
      no_command (up_recorded now sg) up_keys up_keys-command,
      (
        λ r. elim (accounts.accounted r) [
          | inl h ↦ ran.2.up_world.settled r h
          | inr (named, _) ↦ ran.2.all_settled r named
        ],
        refl,
        (refl, refl),
      ),
    )
      where
        read : Reads C MayFail L check reliable now ns name s sg
        read = reconcile-Reads C MayFail L check reliable now ns name s sg there

        accounts : Accounts w₀ (C.world read.state) sg.status.snapshot
        accounts = subst (λ v. Accounts w₀ v sg.status.snapshot) (sym read.same) a

        ran :
            (s' : C.State) × (reconcile_up C check now sg read.state ≡ (ok tt, s'))
            × IsUp w₀ now sg (C.world read.state) (C.world s')
        ran =
            Ensures-returns (EndsUp C MayFail L check w₀ now sg read.state)
              (UpFails C MayFail L check w₀ now sg read.state)
              (reconcile_up C check now sg read.state)
              (reconcile_up_lem C MayFail L check w₀ now sg read.state not_up has read.stored
                accounts.levels (IsBetween-Accounts w₀ _ _ accounts))
              (λ s' f. reliable f.1)
