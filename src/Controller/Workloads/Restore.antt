-- ===== src/Controller/Workloads/Restore.antt =====
-- The loop of `reconcileUp` brings every workload of the snapshot back to the level that the
-- snapshot took it at.
use kshutdown.Base.{
  ◌≡◌, refl, ◌≢◌, ◌∙◌, ap, inl, inr, none, List, [], ◌∷◌, Any, Ensures, Ensures-bind, Ensures-mono,
}
use kshutdown.Api.{ResourceSnapshot}
use kshutdown.Api.Client.{Client, World, IsLawful, Ref}
use kshutdown.Controller.Workloads.{restore_entry, restore_all}
use kshutdown.Controller.Workloads.Levels.{level, level_of, Names}
use kshutdown.Controller.Workloads.Up.{
  Settled, Captured, IsCaptured, IsBetween, Towards, IsRound, RoundFails, restore_entry_lem,
  Towards-refl, Round-Towards, Round-group_same,
}

module _ (C : Client) (MayFail : Type 0) (L : IsLawful C MayFail) where
  -- Whatever the snapshot holds, the loop writes no ShutdownGroup.
  pub restore_all-group_same :
      (es : List ResourceSnapshot) (s : C.State)
      → Ensures
          (λ _ s'. (C.world s').group ≡ (C.world s).group)
          (λ s'. (C.world s').group ≡ (C.world s).group)
          (restore_all C es s)
  unfolding restore_all
  restore_all-group_same [] s = refl
  restore_all-group_same (e ∷ es) s =
      Ensures-bind (IsRound C MayFail L e w) (RoundFails C MayFail L e w)
        (λ _ s'. (C.world s').group ≡ w.group) (λ s'. (C.world s').group ≡ w.group)
        (restore_entry C e s) _ (restore_entry_lem C MayFail L e s)
        (λ _ s' round. rw (Round-group_same e round) at (restore_all-group_same es s'))
        (λ s' f. rw f.0 refl)
    where
      w : World
      w = C.world s

module _ (C : Client) (MayFail : Type 0) (L : IsLawful C MayFail) (w₀ : World) where
  abbrev pub Restores : List ResourceSnapshot → World → Unit {0} → C.State → Type 0
  Restores es w _ s' =
      Towards w₀ w (C.world s') × ((r : Ref) → Any (Names r) es → Settled w₀ (C.world s') r)

  abbrev pub RestoreFails : World → C.State → Type 0
  RestoreFails w s' = Towards w₀ w (C.world s') × MayFail

  Towards-trans : {w w' w'' : World} → Towards w₀ w w' → Towards w₀ w' w'' → Towards w₀ w w''
  Towards-trans t u = record {
    between = u.between;
    settled = λ q p. u.settled q (t.settled q p);
    group_same = u.group_same ∙ t.group_same;
    allowed_same = u.allowed_same ∙ t.allowed_same;
  }

  -- While every workload is at its level or shut down, those of the snapshot exist.
  not_missing :
      (e : ResourceSnapshot) (w : World) (r : Ref)
      → IsCaptured w₀ e
      → IsBetween w₀ w
      → Names r e
      → w.spec r ≢ none
  not_missing e w r cap b names gone = elim (b r) [
    | inl p ↦ let at_none : level w r ≡ none = ap (level_of r.resource) gone in cc (cap r names)
    | inr is_off ↦ cc
  ]

  -- From a world in which every workload is at its level in `w₀` or shut down, the loop settles
  -- all that the snapshot names; where it fails, it has only made progress.
  pub restore_all_lem :
      (es : List ResourceSnapshot) (s : C.State)
      → Captured w₀ es
      → IsBetween w₀ (C.world s)
      → Ensures (Restores es (C.world s)) (RestoreFails (C.world s)) (restore_all C es s)
  unfolding restore_all
  restore_all_lem [] s cap b = (
    record { between = b; settled = λ q p. p; group_same = refl; allowed_same = refl },
    λ r h. absurd h,
  )
  restore_all_lem (e ∷ es) s cap b =
      Ensures-bind (IsRound C MayFail L e w) (RoundFails C MayFail L e w) (Restores (e ∷ es) w)
        (RestoreFails w) (restore_entry C e s) _ (restore_entry_lem C MayFail L e s)
        (λ _ s' round.
          let first = Round-Towards w₀ e w (C.world s') cap.0 b round in
          Ensures-mono (Restores es (C.world s')) (RestoreFails (C.world s')) _ _
            (restore_all C es s') (restore_all_lem es s' cap.1 first.0.between)
            (λ _ s'' rest. (
              Towards-trans first.0 rest.0,
              λ r. elim [
                | inl named ↦ rest.0.settled r (first.1 r named)
                | inr later ↦ rest.1 r later
              ],
            ))
            (λ s'' rest. (Towards-trans first.0 rest.0, rest.1)))
        (λ s' f. (
          Towards-refl w₀ e f.0 b,
          elim f.1 [
            | inl failed ↦ failed
            | inr (r, names, gone) ↦ absurd (not_missing e w r cap.0 b names gone)
          ],
        ))
    where
      w : World
      w = C.world s
