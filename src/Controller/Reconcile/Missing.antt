-- ===== src/Controller/Reconcile/Missing.antt =====
-- A startup whose snapshot names a workload that was deleted
-- (internal/controller/shutdowngroup_controller.go, `reconcileUp` and `restoreReplicas`).
use kshutdown.Base.{
  String, ◌≡◌, refl, sym, ◌∙◌, inl, inr, Bool-cases, false, ◌==◌, is_empty, if◌then◌else◌, pure,
  subst, none, some, List, [], ◌∷◌, ◌++◌, All, Ensures, Ensures-bind, Ensures-mono, Ensures-rewrap,
  context,
}
use mathlib.Core.Option.{some-injective}
use kshutdown.Api.{ShutdownGroup, ResourceSnapshot, Timestamp, state_up}
use kshutdown.Api.Client.{
  Client, World, IsLawful, Ref, ref, Scaled, scaled, cronjob, deployment, statefulset,
}
use kshutdown.Authz.{Check}
use kshutdown.Controller.Workloads.{at_replicas, set_replicas, restore_entry, restore_all}
use kshutdown.Controller.Workloads.Levels.{Names}
use kshutdown.Controller.Workloads.Calls.{Fails, get-bind}
use kshutdown.Controller.Workloads.Up.{
  Round, unknown, restored, kept, IsRound, RoundFails, restore_entry_lem,
}
use kshutdown.Controller.Reconcile.{start_up, reconcile_up}
use kshutdown.Controller.Reconcile.Frame.{Frame, Frame-refl, Frame-Round}

-- Another entry's round leaves a missing workload missing.
still_missing :
    (e : ResourceSnapshot) (r : Ref) (w w' : World)
    → (Names r e → ⊥)
    → Round e w w'
    → w.spec r ≡ none
    → w'.spec r ≡ none
still_missing e r w w' other (unknown _ same) gone = rw same gone
still_missing e r w w' other (restored q names t _) gone = elim (t.others r) [
  | inl here ↦ absurd (other (rw here names))
  | inr same ↦ same ∙ gone
]
still_missing e r w w' other (kept _ _ same) gone = rw same gone

module _ (C : Client) (MayFail : Type 0) (L : IsLawful C MayFail) where
  set_replicas-missing :
      (getting patching : String) (k : Scaled) (e : ResourceSnapshot) (n : _) (s : C.State)
      → (C.world s).spec (ref (scaled k) e.namespace e.name) ≡ none
      → Ensures (λ _ _. ⊥) (λ s'. C.world s' ≡ C.world s) (set_replicas C getting patching k e n s)
  unfolding set_replicas
  set_replicas-missing getting patching k e n s gone =
      Ensures-mono (λ _ _. ⊥) (Fails C MayFail L (C.world s) r) (λ _ _. ⊥)
        (λ s'. C.world s' ≡ C.world s) (set_replicas C getting patching k e n s)
        (get-bind C MayFail L r s getting (λ _ _. ⊥)
          (λ obj.
            if at_replicas obj n
            then pure tt
            else context patching (C.patch (ref (scaled k) e.namespace e.name) obj (some n)))
          (λ v s' same there. absurd (cc (there, gone))))
        (λ _ _ h. h) (λ _ f. f.0)
    where
      r : Ref
      r = ref (scaled k) e.namespace e.name

  restore_entry-missing :
      (e : ResourceSnapshot) (k : Scaled) (s : C.State)
      → Names (ref (scaled k) e.namespace e.name) e
      → (C.world s).spec (ref (scaled k) e.namespace e.name) ≡ none
      → Ensures (λ _ _. ⊥) (λ s'. C.world s' ≡ C.world s) (restore_entry C e s)
  unfolding restore_entry
  restore_entry-missing e k s named gone = elim (Bool-cases (e.kind == "CronJob")) [
    | inl is_cronjob ↦ absurd (scaled_is_no_cronjob k (rw is_cronjob at named))
    | inr not_cronjob ↦ elim (Bool-cases (e.kind == "Deployment")) [
      | inl is_deployment ↦
          rw (not_cronjob, is_deployment)
            (Ensures-rewrap _ _ _ (set_replicas C _ _ deployment e e.previous_replicas s) (
              set_replicas-missing _ _ deployment e e.previous_replicas s
                (at_kind k deployment (rw (not_cronjob, is_deployment) at named) gone)))
      | inr not_deployment ↦ elim (Bool-cases (e.kind == "StatefulSet")) [
        | inl is_statefulset ↦
            rw (not_cronjob, not_deployment, is_statefulset)
              (Ensures-rewrap _ _ _ (set_replicas C _ _ statefulset e e.previous_replicas s) (
                set_replicas-missing _ _ statefulset e e.previous_replicas s (
                  at_kind k statefulset (rw (not_cronjob, not_deployment, is_statefulset) at named)
                    gone)))
        | inr other ↦ absurd (nothing (rw (not_cronjob, not_deployment, other) at named))
      ]
    ]
  ]
    where
      nothing : {r : Ref} → none ≡ some r → ⊥
      nothing h = cc

      scaled_is_no_cronjob :
          (k : Scaled)
          → some (ref cronjob e.namespace e.name) ≡ some (ref (scaled k) e.namespace e.name)
          → ⊥
      scaled_is_no_cronjob k h = cc

      at_kind :
          (k k' : Scaled)
          → some (ref (scaled k') e.namespace e.name) ≡ some (ref (scaled k) e.namespace e.name)
          → (C.world s).spec (ref (scaled k) e.namespace e.name) ≡ none
          → (C.world s).spec (ref (scaled k') e.namespace e.name) ≡ none
      at_kind k k' h gone = subst (λ r. (C.world s).spec r ≡ none) (sym (some-injective _ _ h)) gone

  -- The loop goes no further than a missing Deployment or StatefulSet.
  restore_all-missing :
      (before after : List ResourceSnapshot) (e : ResourceSnapshot) (k : Scaled) (s : C.State)
      → Names (ref (scaled k) e.namespace e.name) e
      → (C.world s).spec (ref (scaled k) e.namespace e.name) ≡ none
      → All (λ b. Names (ref (scaled k) e.namespace e.name) b → ⊥) before
      → Ensures
          (λ _ _. ⊥)
          (λ s'. Frame before (C.world s) (C.world s'))
          (restore_all C (before ++ (e ∷ after)) s)
  unfolding restore_all
  restore_all-missing [] after e k s named gone others =
      Ensures-bind (λ _ _. ⊥) (λ s'. C.world s' ≡ C.world s) (λ _ _. ⊥)
        (λ s'. Frame [] (C.world s) (C.world s')) (restore_entry C e s) (λ _. restore_all C after)
        (restore_entry-missing e k s named gone) (λ _ _ h. absurd h) (λ s' same. Frame-refl [] same)
  restore_all-missing (b ∷ before) after e k s named gone others =
      Ensures-bind (IsRound C MayFail L b w) (RoundFails C MayFail L b w) (λ _ _. ⊥)
        (λ s'. Frame (b ∷ before) w (C.world s')) (restore_entry C b s)
        (λ _. restore_all C (before ++ (e ∷ after))) (restore_entry_lem C MayFail L b s)
        (λ _ s' round.
          Ensures-mono _ _ _ _ (restore_all C (before ++ (e ∷ after)) s')
            (restore_all-missing before after e k s' named
              (still_missing b (ref (scaled k) e.namespace e.name) w (C.world s') others.0 round
                gone)
              others.1)
            (λ _ _ h. h) (λ s'' f. Frame-Round b before w (C.world s') (C.world s'') round f))
        (λ s' f. Frame-refl (b ∷ before) f.0)
    where
      w : World
      w = C.world s

  -- Where the snapshot of a group that is not up names a Deployment or a StatefulSet that is
  -- missing, no startup succeeds: it returns an error, leaves every group as it is, and changes no
  -- workload but those that the entries before the missing one name.
  pub reconcile_up-missing :
      (check : Check C) (now : Timestamp) (sg : ShutdownGroup)
      (before after : List ResourceSnapshot) (e : ResourceSnapshot) (k : Scaled) (s : C.State)
      → (sg.status.state == state_up) ≡ false
      → sg.status.snapshot ≡ before ++ (e ∷ after)
      → Names (ref (scaled k) e.namespace e.name) e
      → (C.world s).spec (ref (scaled k) e.namespace e.name) ≡ none
      → All (λ b. Names (ref (scaled k) e.namespace e.name) b → ⊥) before
      → Ensures
          (λ _ _. ⊥)
          (λ s'. Frame before (C.world s) (C.world s'))
          (reconcile_up C check now sg s)
  unfolding reconcile_up start_up
  reconcile_up-missing check now sg before after e k s not_up holds named gone others =
      rw (not_up, holds, has before)
        (Ensures-bind (λ _ _. ⊥) (λ s'. Frame before (C.world s) (C.world s')) (λ _ _. ⊥)
          (λ s'. Frame before (C.world s) (C.world s')) (restore_all C (before ++ (e ∷ after)) s) _
          (restore_all-missing before after e k s named gone others) (λ _ _ h. absurd h) (λ _ f. f))
    where
      has : (before : List ResourceSnapshot) → is_empty (before ++ (e ∷ after)) ≡ false
      has [] = refl
      has (b ∷ before) = refl
