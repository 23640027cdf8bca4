-- ===== src/Controller/Reconcile/RoundTrip.antt =====
-- A shutdown and the startup after it: every workload comes back to its level.
use kshutdown.Base.{
  ◌≡◌, refl, ◌∙◌, ap, inl, inr, ◌≢◌, true, false, ◌==◌, none, ok, List, ◌∷◌, [], Any, Ensures,
  Ensures-ok, Ensures-total, is_empty, subst,
}
use kshutdown.Api.{state_up, ShutdownGroup, Timestamp, state_down, command_down, ResourceSnapshot}
use kshutdown.Api.Client.{Client, World, IsLawful, Ref}
use kshutdown.Authz.{Check, IsFaithful}
use kshutdown.Controller.Collect.Laws.{expected_snapshot}
use kshutdown.Controller.Workloads.Levels.{level, level_of, Names}
use kshutdown.Controller.Workloads.Up.{Captured, IsBetween}
use kshutdown.Controller.Group.{captured}
use kshutdown.Controller.Group.Laws.{Stored}
use kshutdown.Controller.Reconcile.{entry_of, reconcile_down, reconcile_up}
use kshutdown.Controller.Reconcile.Down.{finished, DownWorld, IsDown}
use kshutdown.Controller.Reconcile.Shutdown.{
  Shutdown, ShutdownFails, begun-fresh, reconcile_down_lem,
}
use kshutdown.Controller.Reconcile.Up.{IsUp, EndsUp, UpFails, reconcile_up_lem}
use kshutdown.Controller.Reconcile.Levels.{expected_snapshot-Captured}

-- The workloads of a captured snapshot exist.
Captured-present :
    (w : World) (es : List ResourceSnapshot) (r : Ref)
    → Captured w es
    → Any (Names r) es
    → w.spec r ≢ none
Captured-present w [] r levels h gone = absurd h
Captured-present w (e ∷ es) r levels (inl named) gone =
    let at_none : level w r ≡ none = ap (level_of r.resource) gone in cc (levels.0 r named)
Captured-present w (e ∷ es) r levels (inr later) gone = Captured-present w es r levels.1 later gone

-- After a shutdown every workload is at its level or shut down.
pub IsBetween-DownWorld : (sg : ShutdownGroup) (w w' : World) → DownWorld sg w w' → IsBetween w w'
IsBetween-DownWorld sg w w' d q = elim (d.frame q) [
  | inl same ↦ inl (ap (level_of q.resource) same)
  | inr (_, is_off) ↦ inr is_off
]

module _ (C : Client) (MayFail : Type 0) (L : IsLawful C MayFail) (check : Check C)
    (F : IsFaithful C MayFail check) (now : Timestamp) (sg : ShutdownGroup) (s : C.State)
    (not_down : (sg.status.state == state_down) ≡ false)
    (fresh : is_empty sg.status.snapshot ≡ true) (stored : Stored sg (C.world s)) where
  -- The group with the snapshot that a first shutdown takes.
  abbrev pub taken : ShutdownGroup
  taken = captured (expected_snapshot (C.world s) sg) sg

  pub fresh_run :
      Ensures
        (Shutdown C MayFail L check F now sg taken (C.world s))
        (ShutdownFails C MayFail L check F now sg taken (C.world s))
        (reconcile_down C check now sg s)
  fresh_run =
      subst Run (begun-fresh (C.world s) sg fresh)
        (reconcile_down_lem C MayFail L check F now sg s not_down stored)
    where
      Run : ShutdownGroup → Type 0
      Run g =
          Ensures (Shutdown C MayFail L check F now sg g (C.world s))
            (ShutdownFails C MayFail L check F now sg g (C.world s))
            (reconcile_down C check now sg s)

  -- A shutdown of a stored group that is not down and has no snapshot yet can only fail because a
  -- call fails: where calls do not fail, it succeeds.
  pub reconcile_down_total : (MayFail → ⊥) → (reconcile_down C check now sg s).0 ≡ ok tt
  reconcile_down_total reliable =
      Ensures-total (Shutdown C MayFail L check F now sg taken w)
        (ShutdownFails C MayFail L check F now sg taken w) (reconcile_down C check now sg s)
        fresh_run
        (λ s'. elim [
          | inl (_, failed) ↦ reliable failed
          | inr (_, inl failed) ↦ reliable failed
          | inr (_, inr (r, named, gone)) ↦
              Captured-present w taken.status.snapshot r
                (expected_snapshot-Captured C MayFail L s sg) named gone
        ])
    where
      w : World
      w = C.world s

  -- A shutdown of a stored group that is not down and has no snapshot yet, and a startup from a world
  -- that has the workloads and the group's status as the shutdown left them, where the targets
  -- selected some workload: if both succeed, every workload of the cluster is at the level that it
  -- had before the shutdown.
  pub reconcile_up-reconcile_down :
      (now' : Timestamp) (sg' : ShutdownGroup) (s₁ s₂ s₃ : C.State)
      → reconcile_down C check now sg s ≡ (ok tt, s₁)
      → (C.world s₂).spec ≡ (C.world s₁).spec
      → Stored sg' (C.world s₂)
      → sg'.status ≡ (finished now (entry_of command_down now sg) taken).status
      → is_empty (expected_snapshot (C.world s) sg) ≡ false
      → reconcile_up C check now' sg' s₂ ≡ (ok tt, s₃)
      → (r : Ref) → level (C.world s₃) r ≡ level (C.world s) r
  reconcile_up-reconcile_down now' sg' s₁ s₂ s₃ ran same stored' status has ran' r =
      elim (down.down_world.frame r) [
        | inl unchanged ↦ up.up_world.settled r (ap (level_of r.resource) (at r ∙ unchanged))
        | inr (named, _) ↦ up.all_settled r (rw status named)
      ]
    where
      w : World
      w = C.world s

      down : IsDown now (entry_of command_down now sg) taken w (C.world s₁)
      down =
          Ensures-ok (Shutdown C MayFail L check F now sg taken w)
            (ShutdownFails C MayFail L check F now sg taken w) (reconcile_down C check now sg s) tt
            s₁ fresh_run ran

      at : (q : Ref) → (C.world s₂).spec q ≡ (C.world s₁).spec q
      at q = ap (λ f. f q) same

      between : IsBetween w (C.world s₂)
      between q = elim (IsBetween-DownWorld taken w (C.world s₁) down.down_world q) [
        | inl settled ↦ inl (ap (level_of q.resource) (at q) ∙ settled)
        | inr is_off ↦ inr (at q ∙ is_off)
      ]

      up : IsUp w now' sg' (C.world s₂) (C.world s₃)
      up =
          Ensures-ok (EndsUp C MayFail L check w now' sg' s₂)
            (UpFails C MayFail L check w now' sg' s₂) (reconcile_up C check now' sg' s₂) tt s₃
            (reconcile_up_lem C MayFail L check w now' sg' s₂ (rw status refl) (rw status has)
              stored' (rw status (expected_snapshot-Captured C MayFail L s sg)) between)
            ran'

-- A startup of a stored group that is not up, whose snapshot is not empty and records levels of the
-- world `w₀`, where every workload is at its level there or shut down, can only fail because a call
-- fails: where calls do not fail, it succeeds.
pub reconcile_up_total :
    (C : Client) (MayFail : Type 0) (L : IsLawful C MayFail) (check : Check C) (w₀ : World)
    (now : Timestamp) (sg : ShutdownGroup) (s : C.State)
    → (sg.status.state == state_up) ≡ false
    → is_empty sg.status.snapshot ≡ false
    → Stored sg (C.world s)
    → Captured w₀ sg.status.snapshot
    → IsBetween w₀ (C.world s)
    → (MayFail → ⊥)
    → (reconcile_up C check now sg s).0 ≡ ok tt
reconcile_up_total C MayFail L check w₀ now sg s not_up has stored levels between reliable =
    Ensures-total (EndsUp C MayFail L check w₀ now sg s) (UpFails C MayFail L check w₀ now sg s)
      (reconcile_up C check now sg s)
      (reconcile_up_lem C MayFail L check w₀ now sg s not_up has stored levels between)
      (λ s' f. reliable f.1)
