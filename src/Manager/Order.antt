-- ===== src/Manager/Order.antt =====
-- The manager starts with all its parts (cmd/main.go).
use kshutdown.Base.{
  ◌≡◌, ok, Effect, Ensures, Ensures-bind, Ensures-mono, Ensures-ok, Ensures-self, ◌>>◌, List, [],
  ◌∷◌, All,
}
use kshutdown.Manager.{
  Flags, Framework, Part, controller, mutator, validator, healthz, readyz, manager_options, main,
}

-- What is relied on: a part that was set up without an error is registered, and stays so.
pub record IsRegistering (F : Framework) : Type 0 where
  pub setup_lem :
      (p : Part) (mgr : F.Manager) (s : F.State)
      → Ensures
          (λ _ s'. F.registered p s' × ((q : Part) → F.registered q s → F.registered q s'))
          (λ _. Unit {0})
          (F.setup p mgr s)

module _ (F : Framework) (R : IsRegistering F) where
  -- A start of the manager while every part is registered with it.
  abbrev pub IsStarted : F.State → Type 0
  IsStarted s' =
      (mgr : F.Manager) × (s : F.State) × ((p : Part) → F.registered p s)
      × (F.start mgr s ≡ (ok tt, s'))

  Registered : List Part → F.State → Type 0
  Registered ps s = All (λ p. F.registered p s) ps

  still :
      (ps : List Part) (s s' : F.State)
      → ((q : Part) → F.registered q s → F.registered q s')
      → Registered ps s
      → Registered ps s'
  unfolding Registered
  still [] s s' keeps h = tt
  still (p ∷ ps) s s' keeps h = (keeps p h.0, still ps s s' keeps h.1)

  -- One part more, and what follows.
  set_up :
      (p : Part) (ps : List Part) (mgr : F.Manager) (next : Effect F.State (Unit {0})) (s : F.State)
      → Registered ps s
      → ((s' : F.State)
          → Registered (p ∷ ps) s'
          → Ensures (λ _. IsStarted) (λ _. Unit {0}) (next s'))
      → Ensures (λ _. IsStarted) (λ _. Unit {0}) ((F.setup p mgr >> next) s)
  unfolding Registered
  set_up p ps mgr next s h k =
      Ensures-bind _ _ (λ _. IsStarted) (λ _. Unit {0}) (F.setup p mgr s) (λ _. next)
        (R.setup_lem p mgr s) (λ _ s' q. k s' (q.0, still ps s s' q.1 h)) (λ _ _. tt)

  every_part :
      (s : F.State)
      → Registered (readyz ∷ healthz ∷ validator ∷ mutator ∷ controller ∷ []) s
      → (p : Part) → F.registered p s
  unfolding Registered
  every_part s h readyz = h.0
  every_part s h healthz = h.1.0
  every_part s h validator = h.1.1.0
  every_part s h mutator = h.1.1.1.0
  every_part s h controller = h.1.1.1.1.0

  main_lem :
      (flags : Flags) (s : F.State) → Ensures (λ _. IsStarted) (λ _. Unit {0}) (main F flags s)
  unfolding main Registered
  main_lem flags s =
      Ensures-bind (λ _ _. Unit {0}) (λ _. Unit {0}) (λ _. IsStarted) (λ _. Unit {0})
        (F.new_manager (manager_options flags) s) _
        (Ensures-mono _ _ _ _ (F.new_manager (manager_options flags) s)
          (Ensures-self (F.new_manager (manager_options flags) s)) (λ _ _ _. tt) (λ _ _. tt))
        (λ mgr s₁ _. set_up controller [] mgr _ s₁ tt (λ s₂ h₂.
          set_up mutator (controller ∷ []) mgr _ s₂ h₂ (λ s₃ h₃.
            set_up validator (mutator ∷ controller ∷ []) mgr _ s₃ h₃ (λ s₄ h₄.
              set_up healthz (validator ∷ mutator ∷ controller ∷ []) mgr _ s₄ h₄ (λ s₅ h₅.
                set_up readyz (healthz ∷ validator ∷ mutator ∷ controller ∷ []) mgr (F.start mgr) s₅
                  h₅
                  (λ s₆ h₆.
                    Ensures-mono _ _ _ _ (F.start mgr s₆) (Ensures-self (F.start mgr s₆))
                      (λ _ s' ran. (mgr, s₆, every_part s₆ h₆, ran)) (λ _ _. tt)))))))
        (λ _ _. tt)

  -- Where a part that is set up without an error is registered and stays so, a run of `main` that
  -- ends without an error has started the manager while the reconciler, the two webhooks and the
  -- two checks were registered with it.
  pub main-IsStarted :
      (flags : Flags) (s s' : F.State) → main F flags s ≡ (ok tt, s') → IsStarted s'
  main-IsStarted flags s s' ran =
      Ensures-ok (λ _. IsStarted) (λ _. Unit {0}) (main F flags s) tt s' (main_lem flags s) ran
