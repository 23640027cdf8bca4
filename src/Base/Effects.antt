-- ===== src/Base/Effects.antt =====
-- Calls that can fail and change a state: the state comes back after an error too.
use mathlib.Core.Path.{◌≡◌, refl, subst}
use Prim.Native.String.{String}
use Prim.Native.Nat.{ℕ}

-- A Go `error`. `wrap` is `fmt.Errorf("…: %w", err)`, which keeps the wrapped error; `api` is an
-- error that a client call returned; the others are the leaf errors that carry a number or a list.
pub data Error : Type 0 where
  api : String → Error
  errorf : String → Error
  wrap : String → Error → Error
  insufficient : ℕ → String → Error
  count_mismatch : ℕ → ℕ → Error

pub data Result (A : Type 0) : Type 0 where
  ok : A → Result A
  err : Error → Result A

-- A call: from a state to its result and the state that it leaves.
abbrev pub Effect : Type 0 → Type 0 → Type 0
Effect S A = S → Result A × S

module _ {S : Type 0} where
  abbrev pub pure : {A : Type 0} → A → Effect S A
  pure a s = (ok a, s)

  abbrev pub fail : {A : Type 0} → Error → Effect S A
  fail e s = (err e, s)

  abbrev pub bind : {A B : Type 0} → Result A × S → (A → Effect S B) → Result B × S
  bind (ok a, s) f = f a s
  bind (err e, s) f = (err e, s)

  infixl 5 ◌>>=◌ ◌>>◌
  abbrev pub ◌>>=◌ : {A B : Type 0} → Effect S A → (A → Effect S B) → Effect S B
  ◌>>=◌ m f s = bind (m s) f

  abbrev pub ◌>>◌ : {A B : Type 0} → Effect S A → Effect S B → Effect S B
  m >> k = m >>= λ _. k

  abbrev pub rewrap : {A : Type 0} → String → Result A × S → Result A × S
  rewrap message (ok a, s) = (ok a, s)
  rewrap message (err e, s) = (err (wrap message e), s)

  -- `if err := m; err != nil { return fmt.Errorf("message: %w", err) }`
  abbrev pub context : {A : Type 0} → String → Effect S A → Effect S A
  context message m s = rewrap message (m s)

  -- What holds of a result and of an error, each with the state left behind.
  abbrev pub Ensures : {A : Type 0} → (A → S → Type 0) → (S → Type 0) → Result A × S → Type 0
  Ensures P Q (ok a, s) = P a s
  Ensures P Q (err e, s) = Q s

  pub Ensures-bind :
      {A B : Type 0} (P : A → S → Type 0) (Q : S → Type 0) (P' : B → S → Type 0) (Q' : S → Type 0)
      (x : Result A × S) (f : A → Effect S B)
      → Ensures P Q x
      → ((a : A) (s : S) → P a s → Ensures P' Q' (f a s))
      → ((s : S) → Q s → Q' s)
      → Ensures P' Q' (bind x f)
  Ensures-bind P Q P' Q' (ok a, s) f h k q = k a s h
  Ensures-bind P Q P' Q' (err e, s) f h k q = q s h

  pub Ensures-rewrap :
      {A : Type 0} (P : A → S → Type 0) (Q : S → Type 0) (message : String) (x : Result A × S)
      → Ensures P Q x
      → Ensures P Q (rewrap message x)
  Ensures-rewrap P Q message (ok a, s) h = h
  Ensures-rewrap P Q message (err e, s) h = h

  pub Ensures-mono :
      {A : Type 0} (P : A → S → Type 0) (Q : S → Type 0) (P' : A → S → Type 0) (Q' : S → Type 0)
      (x : Result A × S)
      → Ensures P Q x
      → ((a : A) (s : S) → P a s → P' a s)
      → ((s : S) → Q s → Q' s)
      → Ensures P' Q' x
  Ensures-mono P Q P' Q' (ok a, s) h p q = p a s h
  Ensures-mono P Q P' Q' (err e, s) h p q = q s h

  -- What a call ensures of the result that it returned.
  pub Ensures-ok :
      {A : Type 0} (P : A → S → Type 0) (Q : S → Type 0) (x : Result A × S) (a : A) (s : S)
      → Ensures P Q x
      → x ≡ (ok a, s)
      → P a s
  Ensures-ok P Q x a s h e = subst (Ensures P Q) e h

  -- A call whose failures are impossible succeeds.
  pub Ensures-total :
      (P : Unit {0} → S → Type 0) (Q : S → Type 0) (x : Result (Unit {0}) × S)
      → Ensures P Q x
      → ((s : S) → Q s → ⊥)
      → x.0 ≡ ok tt
  Ensures-total P Q (ok a, s) h never = refl
  Ensures-total P Q (err e, s) h never = absurd (never s h)

  -- What holds of the state that a call leaves, however it ends.
  pub Ensures-state :
      {A : Type 0} (P : A → S → Type 0) (Q : S → Type 0) (R : S → Type 0) (x : Result A × S)
      → Ensures P Q x
      → ((a : A) (s : S) → P a s → R s)
      → ((s : S) → Q s → R s)
      → R x.1
  Ensures-state P Q R (ok a, s) h p q = p a s h
  Ensures-state P Q R (err e, s) h p q = q s h

  -- A call whose failures are impossible returns, with what it ensures of its state.
  pub Ensures-returns :
      (P : Unit {0} → S → Type 0) (Q : S → Type 0) (x : Result (Unit {0}) × S)
      → Ensures P Q x
      → ((s : S) → Q s → ⊥)
      → (s : S) × (x ≡ (ok tt, s)) × P tt s
  Ensures-returns P Q (ok a, s) h never = (s, refl, h)
  Ensures-returns P Q (err e, s) h never = absurd (never s h)

  -- The result of a call is what it returned.
  pub Ensures-self :
      {A : Type 0} (x : Result A × S) → Ensures (λ a s. x ≡ (ok a, s)) (λ _. Unit {0}) x
  Ensures-self (ok a, s) = refl
  Ensures-self (err e, s) = tt
