-- ===== src/Tests/Manager.antt =====
-- The manager on a framework that lists what is registered.
use kshutdown.Base.{◌≡◌, refl, inl, inr, List, [], ◌∷◌, Any, ok}
use kshutdown.Manager.{
  Framework, Part, default_flags, main, controller, mutator, validator, healthz, readyz,
}
use kshutdown.Manager.Order.{IsRegistering, IsStarted, main-IsStarted}

abbrev framework : Framework
framework = record {
  State = List Part;
  Manager = Unit;
  new_manager = λ options parts. (ok tt, parts);
  setup = λ p mgr parts. (ok tt, p ∷ parts);
  start = λ mgr parts. (ok tt, parts);
  registered = λ p parts. Any (λ q. q ≡ p) parts;
}

framework-IsRegistering : IsRegistering framework
framework-IsRegistering = record { setup_lem = λ p mgr parts. (inl refl, λ q h. inr h) }

parts : List Part
parts = readyz ∷ healthz ∷ validator ∷ mutator ∷ controller ∷ []

main_run : main framework default_flags [] ≡ (ok tt, parts)
unfolding main parts
main_run = refl

main-IsStarted_example : IsStarted framework framework-IsRegistering parts
main-IsStarted_example =
    main-IsStarted framework framework-IsRegistering default_flags [] parts main_run
