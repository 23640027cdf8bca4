-- ===== src/Base/Text/Pair.antt =====
-- `SplitN` at the first `=`, and `TrimSpace`, of a text `key=value`.
use Prim.Native.Char.{Char, code}
use Prim.Native.Nat.{ℕ}
use Prim.Native.String.{String, ◌++◌ as ◌<>◌}
use text.Mathlib.Text.{◌==◌}
use text.Mathlib.TextEquality.{eq_iff}
use text.Mathlib.TextLemmas.{nil-append, cons-append, append-eq-nil_iff}
use mathlib.Core.Path.{◌≡◌, refl, sym, ◌∙◌, ap}
use mathlib.Core.Bool.{Bool, true, false, ◌||◌}
use mathlib.Core.Option.{Option, none, some}
use mathlib.Core.Logic.{inl, inr}
use native.Mathlib.Omega.{arith}
use kshutdown.Base.Tests.{eqb, Bool-cases}
use kshutdown.Base.Text.{cut, cut_later, is_space, trim_left, trim_right, trim_space, keep_right}
use kshutdown.Base.Text.Laws.{has_byte}

abbrev equals : Char
equals = Char.char b'=' tt

equals-append : (t : String) → "=" <> t ≡ String.◌∷◌ equals t
equals-append t = cons-append equals "" t ∙ ap (String.◌∷◌ equals) (nil-append t)

-- A key without `=` is cut off.
pub cut-pair :
    (key value : String)
    → has_byte b'=' key ≡ false
    → cut b'=' (key <> ("=" <> value)) ≡ some (key, value)
unfolding cut has_byte
cut-pair String.[] value h = rw (nil-append, equals-append) refl
cut-pair (String.◌∷◌ c s) value h = rw cons-append (elim (Bool-cases (eqb (code c) b'=')) [
  | inl same ↦ ground (arith, same, h)
  | inr other ↦ rw (other, cut-pair s value (rw other at h)) refl
])

pub has_byte-append :
    (sep : ℕ) (s t : String) → has_byte sep (s <> t) ≡ has_byte sep s || has_byte sep t
unfolding has_byte
has_byte-append sep String.[] t = rw nil-append refl
has_byte-append sep (String.◌∷◌ c s) t = rw cons-append (elim (Bool-cases (eqb (code c) sep)) [
  | inl same ↦ rw same refl
  | inr other ↦ rw (other, has_byte-append sep s t) refl
])

abbrev pub starts_with_space : String → Bool
starts_with_space String.[] = false
starts_with_space (String.◌∷◌ c s) = is_space (code c)

trim_left-plain :
    (s t : String) → (s == "") ≡ false → starts_with_space s ≡ false → trim_left (s <> t) ≡ s <> t
unfolding trim_left
trim_left-plain String.[] t h k = cc
trim_left-plain (String.◌∷◌ c s) t h k = rw (cons-append, k) refl

keep_right-full :
    (c : Char) (w : String) (b : Bool) → (w == "") ≡ false → keep_right c w b ≡ String.◌∷◌ c w
keep_right-full c String.[] b h = cc
keep_right-full c (String.◌∷◌ d s) b h = refl

-- A text with something after it is not empty.
pub append_not_empty : (s t : String) → (t == "") ≡ false → (s <> t == "") ≡ false
append_not_empty s t h = elim (Bool-cases (s <> t == "")) [
  | inl same ↦ absurd (empty same)
  | inr other ↦ other
]
  where
    empty : (s <> t == "") ≡ true → ⊥
    empty e = ground (arith, eq_iff t "", (append-eq-nil_iff.0 ((eq_iff (s <> t) "").0 e)).1, h)

trim_right-append :
    (s t : String) → (t == "") ≡ false → trim_right t ≡ t → trim_right (s <> t) ≡ s <> t
unfolding trim_right
trim_right-append String.[] t h k = rw nil-append k
trim_right-append (String.◌∷◌ c s) t h k =
    rw (cons-append, trim_right-append s t h k)
      (keep_right-full c (s <> t) (is_space (code c)) (append_not_empty s t h))

trim_right-equals :
    (value : String) → trim_right value ≡ value → trim_right ("=" <> value) ≡ "=" <> value
unfolding trim_right
trim_right-equals value h = rw (equals-append, h) (keep value)
  where
    keep : (w : String) → keep_right equals w (is_space b'=') ≡ String.◌∷◌ equals w
    keep String.[] = refl
    keep (String.◌∷◌ d s) = refl

cons_not_empty : (c : Char) (s : String) → (String.◌∷◌ c s == "") ≡ false
cons_not_empty c s = elim (Bool-cases (String.◌∷◌ c s == "")) [
  | inl same ↦ absurd (empty ((eq_iff (String.◌∷◌ c s) "").0 same))
  | inr other ↦ other
]
  where
    empty : String.◌∷◌ c s ≡ "" → ⊥
    empty e = cc

pub equals_not_empty : (value : String) → ("=" <> value == "") ≡ false
equals_not_empty value = rw (equals-append value) (cons_not_empty equals value)

-- A pair that neither starts nor ends with a space stays as it is.
pub trim_space-pair :
    (key value : String)
    → (key == "") ≡ false
    → starts_with_space key ≡ false
    → trim_right value ≡ value
    → trim_space (key <> ("=" <> value)) ≡ key <> ("=" <> value)
unfolding trim_space
trim_space-pair key value h k t =
    ap trim_right (trim_left-plain key ("=" <> value) h k)
    ∙ trim_right-append key ("=" <> value) (equals_not_empty value) (trim_right-equals value t)

abbrev pub starts_with : ℕ → String → Bool
starts_with sep String.[] = false
starts_with sep (String.◌∷◌ c s) = eqb (code c) sep

-- What `cut` says of a text: its key is empty exactly where the separator comes first.
pub data CutSays (sep : ℕ) (s : String) : Option (String × String) → Type 0 where
  whole : has_byte sep s ≡ false → CutSays sep s none
  parted :
      (key value : String)
      → has_byte sep s ≡ true
      → (key == "") ≡ starts_with sep s
      → CutSays sep s (some (key, value))

CutSays-cut_later :
    (sep : ℕ) (c : Char) (s : String) (o : Option (String × String))
    → eqb (code c) sep ≡ false
    → CutSays sep s o
    → CutSays sep (String.◌∷◌ c s) (cut_later c o)
unfolding has_byte
CutSays-cut_later sep c s none h (whole k) = whole (rw h k)
CutSays-cut_later sep c s (some _) h (parted key value k e) =
    parted (String.◌∷◌ c key) value (rw h k) (cons_not_empty c key ∙ sym h)

pub cut-CutSays : (sep : ℕ) (s : String) → CutSays sep s (cut sep s)
unfolding cut has_byte
cut-CutSays sep String.[] = whole refl
cut-CutSays sep (String.◌∷◌ c s) = elim (Bool-cases (eqb (code c) sep)) [
  | inl same ↦ rw same (parted "" s (rw same refl) (sym same))
  | inr other ↦ rw other (CutSays-cut_later sep c s (cut sep s) other (cut-CutSays sep s))
]
