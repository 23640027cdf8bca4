-- ===== src/Controller/Workloads/Calls.antt =====
-- The calls on one workload: get it, and patch it unless it has the value already.
use kshutdown.Base.{
  String, ◌≡◌, refl, ◌⊎◌, inl, inr, Bool, true, false, Bool-cases, Option, none, some, arith,
  Ensures, Ensures-bind, Ensures-mono, Ensures-rewrap, context, Result, ◌>>=◌, ap,
}
use kshutdown.Api.{Int32, ResourceSnapshot}
use kshutdown.Api.Client.{Client, World, IsLawful, Scaled, scaled, cronjob, Spec, Ref, ref, Patched}
use kshutdown.Controller.Workloads.{
  at_replicas, is_suspended, set_replicas, suspend_cronjob, unsuspend,
}
use kshutdown.Controller.Workloads.Levels.{
  level, level_of, Touches, Touches-refl, Touches-of-Patched,
}

at_replicas_eq : (o : Option Int32) (n : Int32) → at_replicas o n ≡ true → o ≡ some n
at_replicas_eq none n h = cc
at_replicas_eq (some m) n h = ground arith

is_suspended_eq : (o : Option Bool) → is_suspended o ≡ true → o ≡ some true
is_suspended_eq none h = cc
is_suspended_eq (some b) h = rw h

level-active : (o : Option Bool) → is_suspended o ≡ false → level_of cronjob (some o) ≡ some 0
level-active none h = refl
level-active (some true) h = cc
level-active (some false) h = refl

module _ (C : Client) (MayFail : Type 0) (L : IsLawful C MayFail) where
  -- What a failed call on a workload leaves and shows.
  abbrev pub Fails : World → Ref → C.State → Type 0
  Fails w r s' = (C.world s' ≡ w) × (MayFail ⊎ (w.spec r ≡ none))

  -- Get an object, then go on with it.
  pub get-bind :
      (r : Ref) (s : C.State) (message : String) (P : Unit {0} → C.State → Type 0)
      (f : Spec r.resource → C.State → Result (Unit {0}) × C.State)
      → ((v : Spec r.resource) (s' : C.State)
          → C.world s' ≡ C.world s
          → (C.world s).spec r ≡ some v
          → Ensures P (Fails (C.world s) r) (f v s'))
      → Ensures P (Fails (C.world s) r) ((context message (C.get r) >>= f) s)
  get-bind r s message P f k =
      Ensures-bind IsGot (Fails w r) P (Fails w r) (context message (C.get r) s) f
        (Ensures-rewrap IsGot (Fails w r) message (C.get r s) (L.get_lem r s))
        (λ v s' h. k v s' h.0 h.1) (λ s' h. h)
    where
      w : World
      w = C.world s

      IsGot : Spec r.resource → C.State → Type 0
      IsGot v s' = (C.world s' ≡ w) × (w.spec r ≡ some v)

  -- The patch that follows a get.
  patch_after :
      (r : Ref) (v new : Spec r.resource) (message : String) (s s' : C.State)
      → C.world s' ≡ C.world s
      → (C.world s).spec r ≡ some v
      → Ensures
          (λ _ s''. Patched r new (C.world s) (C.world s''))
          (Fails (C.world s) r)
          (context message (C.patch r v new) s')
  patch_after r v new message s s' same found =
      Ensures-rewrap IsPatched (Fails w r) message (C.patch r v new s') (
        Ensures-mono IsPatched (λ s''. (C.world s'' ≡ w) × MayFail) IsPatched (Fails w r)
          (C.patch r v new s') (rw same at (L.patch_lem r v new s' (rw same found))) (λ _ s'' p. p)
          (λ s'' h. (h.0, inl h.1)))
    where
      w : World
      w = C.world s

      IsPatched : Unit {0} → C.State → Type 0
      IsPatched _ s'' = Patched r new w (C.world s'')

  -- No patch is needed where the value is there already.
  Patched-same :
      (r : Ref) (v : Spec r.resource) {w w' : World} → w' ≡ w → w.spec r ≡ some v → Patched r v w w'
  Patched-same r v same found = record {
    stored = rw same found;
    others = λ q. inr (rw same refl);
    group_same = rw same refl;
    allowed_same = rw same refl;
  }

  pub set_replicas_lem :
      (getting patching : String) (k : Scaled) (e : ResourceSnapshot) (n : Int32) (s : C.State)
      → let r = ref (scaled k) e.namespace e.name in
        Ensures
          (λ _ s'. Patched r (some n) (C.world s) (C.world s'))
          (Fails (C.world s) r)
          (set_replicas C getting patching k e n s)
  unfolding set_replicas
  set_replicas_lem getting patching k e n s =
      get-bind r s getting (λ _ s'. Patched r (some n) (C.world s) (C.world s')) _
        λ v s' same found. elim (Bool-cases (at_replicas v n)) [
          | inl there ↦
              rw there (Patched-same r (some n) same (rw (at_replicas_eq v n there) at found))
          | inr differs ↦ rw differs (patch_after r v (some n) patching s s' same found)
        ]
    where
      r : Ref
      r = ref (scaled k) e.namespace e.name

  pub suspend_cronjob_lem :
      (e : ResourceSnapshot) (s : C.State)
      → let r = ref cronjob e.namespace e.name in
        Ensures
          (λ _ s'. Patched r (some true) (C.world s) (C.world s'))
          (Fails (C.world s) r)
          (suspend_cronjob C e s)
  unfolding suspend_cronjob
  suspend_cronjob_lem e s =
      get-bind r s _ (λ _ s'. Patched r (some true) (C.world s) (C.world s')) _
        λ v s' same found. elim (Bool-cases (is_suspended v)) [
          | inl there ↦
              rw there (Patched-same r (some true) same (rw (is_suspended_eq v there) at found))
          | inr differs ↦ rw differs (patch_after r v (some true) _ s s' same found)
        ]
    where
      r : Ref
      r = ref cronjob e.namespace e.name

  -- An active CronJob is left as it is, whether its pointer is nil or false.
  pub unsuspend_lem :
      (e : ResourceSnapshot) (s : C.State)
      → let r = ref cronjob e.namespace e.name in
        Ensures
          (λ _ s'. (level (C.world s') r ≡ some 0) × Touches r (C.world s) (C.world s'))
          (Fails (C.world s) r)
          (unsuspend C e s)
  unfolding unsuspend
  unsuspend_lem e s = get-bind r s _ IsActive _ λ v s' same found.
      elim (Bool-cases (is_suspended v)) [
        | inl there ↦ rw there (
            Ensures-mono (λ _ s''. Patched r (some false) (C.world s) (C.world s''))
              (Fails (C.world s) r) IsActive (Fails (C.world s) r)
              (context _ (C.patch r v (some false)) s')
              (patch_after r v (some false) _ s s' same found)
              (λ _ s'' p. (ap (level_of cronjob) p.stored, Touches-of-Patched p)) (λ s'' h. h))
        | inr active ↦ rw active ((rw (same, found) (level-active v active)), Touches-refl r same)
      ]
    where
      r : Ref
      r = ref cronjob e.namespace e.name

      IsActive : Unit {0} → C.State → Type 0
      IsActive _ s' = (level (C.world s') r ≡ some 0) × Touches r (C.world s) (C.world s')
