-- ===== src/Controller/Workloads/Up.antt =====
-- One round of the loop of `reconcileUp` brings the workload of an entry back to the level that the
-- snapshot took it at.
use kshutdown.Base.{
  String, ◌≡◌, refl, ◌≢◌, ◌∙◌, sym, ap, subst, ◌⊎◌, inl, inr, true, false, Bool-cases, ◌==◌, eqb,
  Option, none, some, List, arith, All, Ensures, Ensures-mono, Ensures-rewrap, context, Effect,
}
use mathlib.Core.Option.{some-injective}
use kshutdown.Api.{ResourceSnapshot, Int32}
use kshutdown.Api.Client.{
  Client, World, IsLawful, Scaled, scaled, deployment, statefulset, cronjob, Ref, ref, Patched,
}
use kshutdown.Controller.Workloads.{set_replicas, unsuspend, unsuspend_cronjob, restore_entry}
use kshutdown.Controller.Workloads.Levels.{
  level, level_of, IsOff, entry_ref, Names, Touches, Touches-of-Patched,
}
use kshutdown.Controller.Workloads.Calls.{Fails, set_replicas_lem, unsuspend_lem}

-- What one round does: nothing at an unknown kind; it sets the level of the entry's workload; or it
-- leaves a CronJob that was suspended before the shutdown.
pub data Round (e : ResourceSnapshot) (w w' : World) : Type 0 where
  unknown : entry_ref e ≡ none → w' ≡ w → Round e w w'
  restored :
      (r : Ref) → Names r e → Touches r w w' → level w' r ≡ some e.previous_replicas → Round e w w'
  kept : Names (ref cronjob e.namespace e.name) e → e.previous_replicas ≢ 0 → w' ≡ w → Round e w w'

-- A workload is at the level that it has in `w₀`.
abbrev pub Settled : World → World → Ref → Type 0
Settled w₀ w q = level w q ≡ level w₀ q

-- The snapshot holds the levels of `w₀`.
abbrev pub Captured : World → List ResourceSnapshot → Type 0
Captured w₀ = All λ e. (r : Ref) → Names r e → level w₀ r ≡ some e.previous_replicas

-- Every workload is at its level in `w₀` or shut down.
abbrev pub IsBetween : World → World → Type 0
IsBetween w₀ w = (q : Ref) → Settled w₀ w q ⊎ IsOff w q

-- Progress: what is settled stays so, and nothing leaves the two levels.
pub record Towards (w₀ w w' : World) : Type 0 where
  pub between : IsBetween w₀ w'
  pub settled : (q : Ref) → Settled w₀ w q → Settled w₀ w' q
  pub group_same : w'.group ≡ w.group
  pub allowed_same : w'.allowed ≡ w.allowed

level_same : (w w' : World) (r : Ref) → w'.spec r ≡ w.spec r → level w' r ≡ level w r
level_same w w' r h = ap (level_of r.resource) h

eqb_eq : (a b : Int32) → eqb a b ≡ true → a ≡ b
eqb_eq a b h = ground arith

eqb_ne : (a b : Int32) → eqb a b ≡ false → a ≢ b
eqb_ne a b h = ground arith

-- A CronJob's level is 0 or 1.
cronjob_level :
    (o : Option (Option _)) (n : Int32) → level_of cronjob o ≡ some n → n ≢ 0 → some n ≡ some 1
cronjob_level none n h ne = cc
cronjob_level (some none) n h ne = absurd (ne (some-injective n 0 (sym h)))
cronjob_level (some (some false)) n h ne = absurd (ne (some-injective n 0 (sym h)))
cronjob_level (some (some true)) n h ne = sym h

module _ (w₀ : World) (e : ResourceSnapshot) where
  abbrev pub IsCaptured : Type 0
  IsCaptured = (r : Ref) → Names r e → level w₀ r ≡ some e.previous_replicas

  pub Towards-refl : {w w' : World} → w' ≡ w → IsBetween w₀ w → Towards w₀ w w'
  Towards-refl h b = record {
    between = rw h b;
    settled = rw h (λ q p. p);
    group_same = rw h refl;
    allowed_same = rw h refl;
  }

  Towards-Touches :
      (r : Ref) {w w' : World} → Touches r w w' → Settled w₀ w' r → IsBetween w₀ w → Towards w₀ w w'
  Towards-Touches r {w} {w'} t h b = record {
    between = λ q. elim (t.others q) [
      | inl here ↦ inl (subst (Settled w₀ w') (sym here) h)
      | inr same ↦ elim (b q) [
        | inl p ↦ inl (level_same w w' q same ∙ p)
        | inr is_off ↦ inr (same ∙ is_off)
      ]
    ];
    settled = λ q p. elim (t.others q) [
      | inl here ↦ subst (Settled w₀ w') (sym here) h
      | inr same ↦ level_same w w' q same ∙ p
    ];
    group_same = t.group_same;
    allowed_same = t.allowed_same;
  }

  -- A CronJob that the snapshot saw suspended is settled while it is shut down.
  Settled-kept :
      (w : World)
      → IsCaptured
      → IsBetween w₀ w
      → Names (ref cronjob e.namespace e.name) e
      → e.previous_replicas ≢ 0
      → Settled w₀ w (ref cronjob e.namespace e.name)
  Settled-kept w cap b names ne = elim (b r) [
    | inl p ↦ p
    | inr is_off ↦
        ap (level_of cronjob) is_off
        ∙ sym (cap r names ∙ cronjob_level (w₀.spec r) e.previous_replicas (cap r names) ne)
  ]
    where
      r : Ref
      r = ref cronjob e.namespace e.name

  pub Round-Towards :
      (w w' : World)
      → IsCaptured
      → IsBetween w₀ w
      → Round e w w'
      → Towards w₀ w w' × ((r : Ref) → Names r e → Settled w₀ w' r)
  Round-Towards w w' cap b (unknown no_ref same) = (Towards-refl same b, λ r names. cc)
  Round-Towards w w' cap b (restored r names t h) = (
    Towards-Touches r t (h ∙ sym (cap r names)) b,
    λ q names'.
        subst (Settled w₀ w') (some-injective r q (sym names ∙ names')) (h ∙ sym (cap r names)),
  )
  Round-Towards w w' cap b (kept names ne same) = (
    Towards-refl same b,
    λ q names'.
        subst (Settled w₀ w') (some-injective _ q (sym names ∙ names'))
          (rw same (Settled-kept w cap b names ne)),
  )

pub Round-group_same : (e : ResourceSnapshot) {w w' : World} → Round e w w' → w'.group ≡ w.group
Round-group_same e (unknown _ same) = rw same refl
Round-group_same e (restored r _ t _) = t.group_same
Round-group_same e (kept _ _ same) = rw same refl

module _ (C : Client) (MayFail : Type 0) (L : IsLawful C MayFail) where
  abbrev pub IsRound : ResourceSnapshot → World → Unit {0} → C.State → Type 0
  IsRound e w _ s' = Round e w (C.world s')

  abbrev pub RoundFails : ResourceSnapshot → World → C.State → Type 0
  RoundFails e w s' = (C.world s' ≡ w) × (MayFail ⊎ ((r : Ref) × Names r e × (w.spec r ≡ none)))

  -- One round, given the law of the call on the entry's workload.
  restore_call :
      (e : ResourceSnapshot) (r : Ref) (message : String) (m : Effect C.State (Unit {0}))
      (s : C.State)
      → Names r e
      → Ensures (IsRound e (C.world s)) (Fails C MayFail L (C.world s) r) (m s)
      → Ensures (IsRound e (C.world s)) (RoundFails e (C.world s)) (context message m s)
  restore_call e r message m s names h =
      Ensures-rewrap (IsRound e w) (RoundFails e w) message (m s) (
        Ensures-mono (IsRound e w) (Fails C MayFail L w r) (IsRound e w) (RoundFails e w) (m s) h
          (λ _ s' round. round)
          (λ s' f. (f.0, elim f.1 [ inl failed ↦ inl failed | inr gone ↦ inr (r, names, gone) ])))
    where
      w : World
      w = C.world s

  replicas_call :
      (e : ResourceSnapshot) (getting patching : String) (k : Scaled) (s : C.State)
      → Names (ref (scaled k) e.namespace e.name) e
      → Ensures
          (IsRound e (C.world s))
          (Fails C MayFail L (C.world s) (ref (scaled k) e.namespace e.name))
          (set_replicas C getting patching k e e.previous_replicas s)
  replicas_call e getting patching k s names =
      Ensures-mono (λ _ s'. Patched r (some e.previous_replicas) w (C.world s'))
        (Fails C MayFail L w r) (IsRound e w) (Fails C MayFail L w r)
        (set_replicas C getting patching k e e.previous_replicas s)
        (set_replicas_lem C MayFail L getting patching k e e.previous_replicas s)
        (λ _ s' p. restored r names (Touches-of-Patched p) (ap (level_of (scaled k)) p.stored))
        (λ s' f. f)
    where
      w : World
      w = C.world s

      r : Ref
      r = ref (scaled k) e.namespace e.name

  cronjob_call :
      (e : ResourceSnapshot) (s : C.State)
      → Names (ref cronjob e.namespace e.name) e
      → Ensures
          (IsRound e (C.world s))
          (Fails C MayFail L (C.world s) (ref cronjob e.namespace e.name))
          (unsuspend_cronjob C e s)
  unfolding unsuspend_cronjob
  cronjob_call e s names = elim (Bool-cases (eqb e.previous_replicas 0)) [
    | inl active ↦ rw active (
        Ensures-mono (λ _ s'. (level (C.world s') r ≡ some 0) × Touches r (C.world s) (C.world s'))
          (Fails C MayFail L (C.world s) r) (IsRound e (C.world s))
          (Fails C MayFail L (C.world s) r) (unsuspend C e s) (unsuspend_lem C MayFail L e s)
          (λ _ s' h. restored r names h.1 (h.0 ∙ ap some (sym (eqb_eq _ _ active)))) (λ s' f. f))
    | inr suspended ↦ rw suspended (kept names (eqb_ne _ _ suspended) refl)
  ]
    where
      r : Ref
      r = ref cronjob e.namespace e.name

  pub restore_entry_lem :
      (e : ResourceSnapshot) (s : C.State)
      → Ensures (IsRound e (C.world s)) (RoundFails e (C.world s)) (restore_entry C e s)
  unfolding restore_entry
  restore_entry_lem e s = elim (Bool-cases (e.kind == "CronJob")) [
    | inl is_cronjob ↦ rw is_cronjob (
        restore_call e (ref cronjob e.namespace e.name) _ (unsuspend_cronjob C e) s
          (rw is_cronjob refl) (cronjob_call e s (rw is_cronjob refl)))
    | inr not_cronjob ↦ elim (Bool-cases (e.kind == "Deployment")) [
      | inl is_deployment ↦
          rw (not_cronjob, is_deployment)
            (restore_call e (ref (scaled deployment) e.namespace e.name) _
              (set_replicas C _ _ deployment e e.previous_replicas) s
              (rw (not_cronjob, is_deployment) refl)
              (replicas_call e _ _ deployment s (rw (not_cronjob, is_deployment) refl)))
      | inr not_deployment ↦ elim (Bool-cases (e.kind == "StatefulSet")) [
        | inl is_statefulset ↦
            rw (not_cronjob, not_deployment, is_statefulset)
              (restore_call e (ref (scaled statefulset) e.namespace e.name) _
                (set_replicas C _ _ statefulset e e.previous_replicas) s
                (rw (not_cronjob, not_deployment, is_statefulset) refl)
                (replicas_call e _ _ statefulset s
                  (rw (not_cronjob, not_deployment, is_statefulset) refl)))
        | inr other ↦
            rw (not_cronjob, not_deployment, other)
              (unknown (rw (not_cronjob, not_deployment, other) refl) refl)
      ]
    ]
  ]
