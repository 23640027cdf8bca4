-- ===== src/Api/Reads.antt =====
-- Calls that only read: they leave the world as it was, also where they fail.
use kshutdown.Base.{String, ◌≡◌, Result, ok, err, Effect, bind, rewrap, Ensures}
use kshutdown.Api.Client.{Client, World}

module _ (C : Client) (MayFail : Type 0) (w : World) where
  -- What holds of a result; the world is `w` after it.
  abbrev pub Reads : {A : Type 0} → (A → Type 0) → Result A × C.State → Type 0
  Reads P x = Ensures (λ a s. (C.world s ≡ w) × P a) (λ s. (C.world s ≡ w) × MayFail) x

  pub Reads-bind :
      {A B : Type 0} (P : A → Type 0) (Q : B → Type 0) (x : Result A × C.State)
      (f : A → Effect C.State B)
      → Reads P x
      → ((a : A) (s : C.State) → C.world s ≡ w → P a → Reads Q (f a s))
      → Reads Q (bind x f)
  Reads-bind P Q (ok a, s) f h k = k a s h.0 h.1
  Reads-bind P Q (err e, s) f h k = h

  pub Reads-rewrap :
      {A : Type 0} (P : A → Type 0) (message : String) (x : Result A × C.State)
      → Reads P x
      → Reads P (rewrap message x)
  Reads-rewrap P message (ok a, s) h = h
  Reads-rewrap P message (err e, s) h = h

  pub Reads-mono :
      {A : Type 0} (P Q : A → Type 0) (x : Result A × C.State)
      → Reads P x
      → ((a : A) → P a → Q a)
      → Reads Q x
  Reads-mono P Q (ok a, s) h k = (h.0, k a h.1)
  Reads-mono P Q (err e, s) h k = h
