-- ===== src/Controller/Workloads/Down.antt =====
-- The loop of `reconcileDown` shuts every workload of the snapshot down, and touches no other.
use kshutdown.Base.{
  String, ◌≡◌, refl, ◌∙◌, sym, subst, ◌⊎◌, inl, inr, Bool-cases, ◌==◌, none, List, [], ◌∷◌, Any,
  Ensures, Ensures-bind, Ensures-mono, Ensures-rewrap, context, Effect,
}
use mathlib.Core.Option.{some-injective}
use kshutdown.Api.{ResourceSnapshot}
use kshutdown.Api.Client.{
  Client, World, IsLawful, scaled, deployment, statefulset, cronjob, Ref, ref, Patched,
}
use kshutdown.Controller.Workloads.{set_replicas, suspend_cronjob, scale_entry, scale_all}
use kshutdown.Controller.Workloads.Levels.{off, IsOff, entry_ref, Names}
use kshutdown.Controller.Workloads.Calls.{Fails, set_replicas_lem, suspend_cronjob_lem}

-- Between two worlds, workloads that the entries name were shut down, and nothing else happened.
pub record ScaleFrame (es : List ResourceSnapshot) (w w' : World) : Type 0 where
  pub frame : (q : Ref) → (w'.spec q ≡ w.spec q) ⊎ (Any (Names q) es × IsOff w' q)
  pub group_same : w'.group ≡ w.group
  pub allowed_same : w'.allowed ≡ w.allowed

-- Every workload that the entries name is shut down.
abbrev pub AllOff : List ResourceSnapshot → World → Type 0
AllOff es w = (r : Ref) → Any (Names r) es → IsOff w r

pub ScaleFrame-refl : (es : List ResourceSnapshot) {w w' : World} → w' ≡ w → ScaleFrame es w w'
ScaleFrame-refl es h = record {
  frame = λ q. inl (rw h refl);
  group_same = rw h refl;
  allowed_same = rw h refl;
}

ScaleFrame-trans :
    (e : ResourceSnapshot) (es : List ResourceSnapshot) (w w' w'' : World)
    → ScaleFrame (e ∷ []) w w'
    → ScaleFrame es w' w''
    → ScaleFrame (e ∷ es) w w''
ScaleFrame-trans e es w w' w'' f g = record {
  frame = λ q. elim (g.frame q) [
    | inr (named, is_off) ↦ inr (inr named, is_off)
    | inl same ↦ elim (f.frame q) [
      | inl same' ↦ inl (same ∙ same')
      | inr (inl named, is_off) ↦ inr (inl named, same ∙ is_off)
      | inr (inr h, _) ↦ absurd h
    ]
  ];
  group_same = g.group_same ∙ f.group_same;
  allowed_same = g.allowed_same ∙ f.allowed_same;
}

-- What is shut down stays shut down.
IsOff-ScaleFrame :
    (es : List ResourceSnapshot) (w w' : World) (r : Ref)
    → ScaleFrame es w w'
    → IsOff w r
    → IsOff w' r
IsOff-ScaleFrame es w w' r f h = elim (f.frame r) [ inl same ↦ same ∙ h | inr (_, is_off) ↦ is_off ]

-- A patch of the entry's own workload.
module _ (e : ResourceSnapshot) (r : Ref) (names : Names r e) {w w' : World}
    (p : Patched r (off r.resource) w w') where
  ScaleFrame-of-Patched : ScaleFrame (e ∷ []) w w'
  ScaleFrame-of-Patched = record {
    frame = λ q. elim (p.others q) [
      | inl here ↦ inr (inl (rw here names), subst (IsOff w') (sym here) p.stored)
      | inr same ↦ inl same
    ];
    group_same = p.group_same;
    allowed_same = p.allowed_same;
  }

  AllOff-of-Patched : AllOff (e ∷ []) w'
  AllOff-of-Patched q (inl named) =
      subst (IsOff w') (some-injective r q (sym names ∙ named)) p.stored
  AllOff-of-Patched q (inr h) = absurd h

AllOff-unknown : (e : ResourceSnapshot) (w : World) → entry_ref e ≡ none → AllOff (e ∷ []) w
AllOff-unknown e w unknown r (inl named) = cc
AllOff-unknown e w unknown r (inr h) = absurd h

AllOff-cons :
    (e : ResourceSnapshot) (es : List ResourceSnapshot) (w w' : World)
    → AllOff (e ∷ []) w
    → AllOff es w'
    → ScaleFrame es w w'
    → AllOff (e ∷ es) w'
AllOff-cons e es w w' h k f r (inl named) = IsOff-ScaleFrame es w w' r f (h r (inl named))
AllOff-cons e es w w' h k f r (inr later) = k r later

ScaleFrame-widen :
    (e : ResourceSnapshot) (es : List ResourceSnapshot) (w w' : World)
    → ScaleFrame (e ∷ []) w w'
    → ScaleFrame (e ∷ es) w w'
ScaleFrame-widen e es w w' f = ScaleFrame-trans e es w w' w' f (ScaleFrame-refl es refl)

-- A workload that is gone after some were shut down was gone before.
missing_before :
    (es : List ResourceSnapshot) (w w' : World) (r : Ref)
    → ScaleFrame es w w'
    → w'.spec r ≡ none
    → w.spec r ≡ none
missing_before es w w' r f h = elim (f.frame r) [ inl same ↦ sym same ∙ h | inr (_, is_off) ↦ cc ]

module _ (C : Client) (MayFail : Type 0) (L : IsLawful C MayFail) where
  abbrev Scales : List ResourceSnapshot → World → Unit {0} → C.State → Type 0
  Scales es w _ s' = AllOff es (C.world s') × ScaleFrame es w (C.world s')

  -- Why a loop stops: a call failed, or a workload is gone.
  abbrev pub Stops : List ResourceSnapshot → World → Type 0
  Stops es w = MayFail ⊎ ((r : Ref) × Any (Names r) es × (w.spec r ≡ none))

  abbrev pub ScaleFails : List ResourceSnapshot → World → C.State → Type 0
  ScaleFails es w s' = ScaleFrame es w (C.world s') × Stops es w

  Stops-first :
      (e : ResourceSnapshot) (es : List ResourceSnapshot) (w : World)
      → Stops (e ∷ []) w
      → Stops (e ∷ es) w
  Stops-first e es w (inl failed) = inl failed
  Stops-first e es w (inr (r, inl named, gone)) = inr (r, inl named, gone)
  Stops-first e es w (inr (r, inr h, gone)) = absurd h

  Stops-later :
      (e : ResourceSnapshot) (es : List ResourceSnapshot) (w w' : World)
      → ScaleFrame (e ∷ []) w w'
      → Stops es w'
      → Stops (e ∷ es) w
  Stops-later e es w w' f (inl failed) = inl failed
  Stops-later e es w w' f (inr (r, named, gone)) =
      inr (r, inr named, missing_before (e ∷ []) w w' r f gone)

  -- One entry, given the law of the call on its workload.
  scale_call :
      (e : ResourceSnapshot) (r : Ref) (message : String) (m : Effect C.State (Unit {0}))
      (s : C.State)
      → Names r e
      → Ensures
          (λ _ s'. Patched r (off r.resource) (C.world s) (C.world s'))
          (Fails C MayFail L (C.world s) r)
          (m s)
      → Ensures
          (Scales (e ∷ []) (C.world s))
          (ScaleFails (e ∷ []) (C.world s))
          (context message m s)
  scale_call e r message m s names h =
      Ensures-rewrap (Scales (e ∷ []) w) (ScaleFails (e ∷ []) w) message (m s) (
        Ensures-mono (λ _ s'. Patched r (off r.resource) w (C.world s')) (Fails C MayFail L w r)
          (Scales (e ∷ []) w) (ScaleFails (e ∷ []) w) (m s) h
          (λ _ s' p. (AllOff-of-Patched e r names p, ScaleFrame-of-Patched e r names p))
          (λ s' f. (
            ScaleFrame-refl (e ∷ []) f.0,
            elim f.1 [ inl failed ↦ inl failed | inr gone ↦ inr (r, inl names, gone) ],
          )))
    where
      w : World
      w = C.world s

  scale_entry_lem :
      (e : ResourceSnapshot) (s : C.State)
      → Ensures (Scales (e ∷ []) (C.world s)) (ScaleFails (e ∷ []) (C.world s)) (scale_entry C e s)
  unfolding scale_entry
  scale_entry_lem e s = elim (Bool-cases (e.kind == "CronJob")) [
    | inl is_cronjob ↦ rw is_cronjob (
        scale_call e (ref cronjob e.namespace e.name) _ (suspend_cronjob C e) s (rw is_cronjob refl)
          (suspend_cronjob_lem C MayFail L e s))
    | inr not_cronjob ↦ elim (Bool-cases (e.kind == "Deployment")) [
      | inl is_deployment ↦
          rw (not_cronjob, is_deployment)
            (scale_call e (ref (scaled deployment) e.namespace e.name) _
              (set_replicas C _ _ deployment e 0) s (rw (not_cronjob, is_deployment) refl)
              (set_replicas_lem C MayFail L _ _ deployment e 0 s))
      | inr not_deployment ↦ elim (Bool-cases (e.kind == "StatefulSet")) [
        | inl is_statefulset ↦
            rw (not_cronjob, not_deployment, is_statefulset)
              (scale_call e (ref (scaled statefulset) e.namespace e.name) _
                (set_replicas C _ _ statefulset e 0) s
                (rw (not_cronjob, not_deployment, is_statefulset) refl)
                (set_replicas_lem C MayFail L _ _ statefulset e 0 s))
        | inr unknown ↦
            rw (not_cronjob, not_deployment, unknown)
              (
                AllOff-unknown e (C.world s) (rw (not_cronjob, not_deployment, unknown) refl),
                ScaleFrame-refl _ refl,
              )
      ]
    ]
  ]

  -- The loop shuts down all that the snapshot names, or stops with some of it shut down.
  pub scale_all_lem :
      (es : List ResourceSnapshot) (s : C.State)
      → Ensures (Scales es (C.world s)) (ScaleFails es (C.world s)) (scale_all C es s)
  unfolding scale_all
  scale_all_lem [] s = (λ r h. absurd h, ScaleFrame-refl [] refl)
  scale_all_lem (e ∷ es) s =
      Ensures-bind (Scales (e ∷ []) w) (ScaleFails (e ∷ []) w) (Scales (e ∷ es) w)
        (ScaleFails (e ∷ es) w) (scale_entry C e s) _ (scale_entry_lem e s)
        (λ _ s' first.
          Ensures-mono (Scales es (C.world s')) (ScaleFails es (C.world s')) _ _ (scale_all C es s')
            (scale_all_lem es s')
            (λ _ s'' rest. (
              AllOff-cons e es _ _ first.0 rest.0 rest.1,
              ScaleFrame-trans e es _ _ _ first.1 rest.1,
            ))
            (λ s'' rest.
              (ScaleFrame-trans e es _ _ _ first.1 rest.0, Stops-later e es _ _ first.1 rest.1)))
        (λ s' first. (ScaleFrame-widen e es _ _ first.0, Stops-first e es w first.1))
    where
      w : World
      w = C.world s
