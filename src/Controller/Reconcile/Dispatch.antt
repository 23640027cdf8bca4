-- ===== src/Controller/Reconcile/Dispatch.antt =====
-- The branches of `Reconcile` outside a shutdown and a startup.
use kshutdown.Base.{
  String, ◌≡◌, refl, sym, ap, ◌∙◌, ◌⊎◌, inl, inr, true, false, ◌==◌, some, none, [], Error, Result,
  ok, err, Ensures, Ensures-ok, is_empty, Bool-cases, Option-cases, errorf,
}
use mathlib.Core.Option.{some-injective}
use kshutdown.Base.GoMap.{index}
use kshutdown.Api.{
  ShutdownGroup, Timestamp, state_down, state_up, command_down, command_up, annotation_command,
}
use kshutdown.Api.Client.{Client, IsLawful, GroupPatched}
use kshutdown.Authz.{Check, IsFaithful}
use kshutdown.Controller.Collect.Laws.{expected_snapshot}
use kshutdown.Controller.Group.{without, down_keys, up_keys}
use kshutdown.Controller.Group.Laws.{
  Stored, WriteFails, consume_annotations_lem, down_keys-command, up_keys-command,
}
use kshutdown.Controller.Reconcile.{
  entry_of, reconcile_down, reconcile_up, ignored, reconcile_found, reconcile,
}
use kshutdown.Controller.Reconcile.Down.{finished, IsDown}
use kshutdown.Controller.Reconcile.Shutdown.{Shutdown, ShutdownFails}
use kshutdown.Controller.Reconcile.RoundTrip.{taken, fresh_run}

module _ (C : Client) (MayFail : Type 0) (L : IsLawful C MayFail) (check : Check C) where
  -- A shutdown of a stored group that is down already consumes the annotations, and changes nothing else:
  -- the status with its history, and the workloads, stay. If it fails, it has written nothing.
  pub reconcile_down_again :
      (now : Timestamp) (sg : ShutdownGroup) (s : C.State)
      → (sg.status.state == state_down) ≡ true
      → Stored sg (C.world s)
      → Ensures
          (λ _ s'. GroupPatched (without down_keys sg) (C.world s) (C.world s'))
          (WriteFails C MayFail L (C.world s))
          (reconcile_down C check now sg s)
  unfolding reconcile_down
  reconcile_down_again now sg s is_down stored =
      rw is_down (consume_annotations_lem C MayFail L sg down_keys s down_keys-command stored)

  -- A startup of a stored group that is marked up consumes the annotations, and changes nothing else:
  -- the workloads stay, and so does the snapshot, also one that a shutdown left that stopped before it
  -- marked the group down. If it fails, it has written nothing.
  pub reconcile_up_again :
      (now : Timestamp) (sg : ShutdownGroup) (s : C.State)
      → (sg.status.state == state_up) ≡ true
      → Stored sg (C.world s)
      → Ensures
          (λ _ s'. GroupPatched (without up_keys sg) (C.world s) (C.world s'))
          (WriteFails C MayFail L (C.world s))
          (reconcile_up C check now sg s)
  unfolding reconcile_up
  reconcile_up_again now sg s is_up stored =
      rw is_up (consume_annotations_lem C MayFail L sg up_keys s up_keys-command stored)

  -- Which groups `Reconcile` leaves alone: those on their way out, and those whose command is neither
  -- of the two.
  abbrev pub IsIdle : ShutdownGroup → Type 0
  IsIdle sg =
      (sg.deleting ≡ true)
      ⊎ (((index sg.annotations annotation_command == command_down) ≡ false)
          × ((index sg.annotations annotation_command == command_up) ≡ false))

  pub ignored-same : (e : Error) (s : C.State) → (ignored C check e s).1 ≡ s
  unfolding ignored
  ignored-same e s = elim (Option-cases (C.ignore_not_found e)) [
    | inl found ↦ rw (found, ignored) refl
    | inr (e', kept) ↦ rw (kept, ignored) refl
  ]

  found_idle :
      (now : Timestamp) (sg : ShutdownGroup) (s : C.State)
      → IsIdle sg
      → reconcile_found C check now (ok sg, s) ≡ (ok tt, s)
  unfolding reconcile_found
  found_idle now sg s (inl deleting) = rw deleting refl
  found_idle now sg s (inr (not_down, not_up)) = elim (Bool-cases sg.deleting) [
    | inl deleting ↦ rw deleting refl
    | inr present ↦ rw (present, not_down, not_up) refl
  ]

  -- `Reconcile` writes nothing where the group is missing or, if it is stored, is being deleted or
  -- asks for neither command, whether or not the read fails.
  pub reconcile_idle :
      (now : Timestamp) (ns name : String) (s : C.State)
      → ((sg : ShutdownGroup) → (C.world s).group ns name ≡ some sg → IsIdle sg)
      → C.world (reconcile C check now ns name s).1 ≡ C.world s
  unfolding reconcile
  reconcile_idle now ns name s idle = go (C.get_group ns name s) (L.get_group_lem ns name s)
    where
      go :
          (x : Result ShutdownGroup × C.State)
          → Ensures
              (λ g s'.
                (C.world s' ≡ C.world s)
                × ((C.world s).group ns name ≡ some g)
                × (g.namespace ≡ ns)
                × (g.name ≡ name))
              (λ s'. (C.world s' ≡ C.world s) × (MayFail ⊎ ((C.world s).group ns name ≡ none)))
              x
          → C.world (reconcile_found C check now x).1 ≡ C.world s
      go (ok sg, s') h = rw (found_idle now sg s' (idle sg h.1)) h.0
      go (err e, s') h = rw (ignored-same e s') h.0

module _ (C : Client) (MayFail : Type 0) (L : IsLawful C MayFail) (check : Check C)
    (F : IsFaithful C MayFail check) (now : Timestamp) (sg : ShutdownGroup) (s : C.State)
    (not_down : (sg.status.state == state_down) ≡ false)
    (fresh : is_empty sg.status.snapshot ≡ true) (stored : Stored sg (C.world s)) where
  -- A shutdown of a stored group that is not down, has no snapshot, and whose targets select nothing,
  -- marks the stored group down if it succeeds, and from the status that it leaves no startup
  -- succeeds: each returns an error and changes nothing.
  pub empty_group_stuck :
      (s₁ s₂ : C.State) (now' : Timestamp) (g₁ g₂ : ShutdownGroup)
      → expected_snapshot (C.world s) sg ≡ []
      → reconcile_down C check now sg s ≡ (ok tt, s₁)
      → (C.world s₁).group sg.namespace sg.name ≡ some g₁
      → g₂.status ≡ g₁.status
      → (g₁.status.state ≡ state_down)
        × (reconcile_up C check now' g₂ s₂
            ≡ (err (errorf "cannot reconcileUp from state \"down\" with empty snapshot"), s₂))
  unfolding reconcile_up
  empty_group_stuck s₁ s₂ now' g₁ g₂ empty ran found same =
      (ap (λ h. h.status.state) is_finished, rw (same, is_finished, empty) refl)
    where
      g : ShutdownGroup
      g = taken C MayFail L check F now sg s not_down fresh stored

      down : IsDown now (entry_of command_down now sg) g (C.world s) (C.world s₁)
      down =
          Ensures-ok (Shutdown C MayFail L check F now sg g (C.world s))
            (ShutdownFails C MayFail L check F now sg g (C.world s))
            (reconcile_down C check now sg s) tt s₁
            (fresh_run C MayFail L check F now sg s not_down fresh stored) ran

      is_finished : g₁ ≡ finished now (entry_of command_down now sg) g
      is_finished = some-injective g₁ _ (sym found ∙ down.stored)
