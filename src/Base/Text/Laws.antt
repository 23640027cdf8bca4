-- ===== src/Base/Text/Laws.antt =====
-- `Split` after `Join`.
use Prim.Native.Char.{Char, code}
use Prim.Native.Nat.{ℕ}
use Prim.Native.String.{String, ◌++◌ as ◌<>◌}
use text.Mathlib.Text.{◌==◌}
use text.Mathlib.TextEquality.{eq_iff}
use text.Mathlib.TextLemmas.{nil-append, cons-append, append-eq-nil_iff}
use mathlib.Core.Path.{◌≡◌, refl, ◌∙◌, ap}
use mathlib.Core.Bool.{Bool, true, false}
use mathlib.Core.Logic.{inl, inr}
use mathlib.Core.List.{List, [], ◌∷◌, ◌++◌, append-nil as list_append-nil}
use native.Mathlib.Omega.{arith}
use kshutdown.Base.Lists.{All}
use kshutdown.Base.Tests.{eqb, if◌then◌else◌, Bool-cases}
use kshutdown.Base.Text.{split, join, cons_head}

-- A list with a first item: what `split` gives.
record Pieces (ws : List String) : Type 0 where
  first : String
  others : List String
  is : ws ≡ first ∷ others

Pieces-cons_head : (c : Char) (ws : List String) → Pieces ws → Pieces (cons_head c ws)
Pieces-cons_head c ws p = record {
  first = String.◌∷◌ c p.first;
  others = p.others;
  is = rw p.is refl;
}

split-Pieces : (sep : ℕ) (s : String) → Pieces (split sep s)
unfolding split
split-Pieces sep String.[] = record { first = ""; others = []; is = refl }
split-Pieces sep (String.◌∷◌ c s) = elim (Bool-cases (eqb (code c) sep)) [
  | inl same ↦ record { first = ""; others = split sep s; is = rw same refl }
  | inr other ↦ rw other (Pieces-cons_head c (split sep s) (split-Pieces sep s))
]

cons_head-append :
    (c : Char) (ws vs : List String) → Pieces ws → cons_head c (ws ++ vs) ≡ cons_head c ws ++ vs
cons_head-append c ws vs p = rw p.is refl

abbrev comma : Char
comma = Char.char b',' tt

comma-append : (t : String) → "," <> t ≡ String.◌∷◌ comma t
comma-append t = cons-append comma "" t ∙ ap (String.◌∷◌ comma) (nil-append t)

-- A comma cuts whatever stands before and after it.
split-append : (s t : String) → split b',' (s <> ("," <> t)) ≡ split b',' s ++ split b',' t
unfolding split
split-append String.[] t = rw (nil-append, comma-append) refl
split-append (String.◌∷◌ c s) t = rw cons-append (elim (Bool-cases (eqb (code c) b',')) [
  | inl same ↦ rw (same, split-append s t) refl
  | inr other ↦
      rw (other, split-append s t)
        (cons_head-append c (split b',' s) (split b',' t) (split-Pieces b',' s))
])

-- The pieces of every text, one after another.
abbrev pub all_pieces : List String → List String
all_pieces [] = []
all_pieces (w ∷ ws) = split b',' w ++ all_pieces ws

pub split-join :
    (w : String) (ws : List String) → split b',' (join "," (w ∷ ws)) ≡ all_pieces (w ∷ ws)
unfolding join
split-join w [] = rw list_append-nil refl
split-join w (v ∷ ws) = rw (split-append w (join "," (v ∷ ws)), split-join v ws) refl

-- Whether a byte occurs.
unfoldable pub has_byte : ℕ → String → Bool
has_byte sep String.[] = false
has_byte sep (String.◌∷◌ c s) = if eqb (code c) sep then true else has_byte sep s

abbrev pub has_comma : String → Bool
has_comma s = has_byte b',' s

pub split-plain : (w : String) → has_comma w ≡ false → split b',' w ≡ w ∷ []
unfolding split has_byte
split-plain String.[] h = refl
split-plain (String.◌∷◌ c s) h = elim (Bool-cases (eqb (code c) b',')) [
  | inl same ↦ ground (arith, same, h)
  | inr other ↦ rw (other, split-plain s (rw other at h)) refl
]

-- Names without a comma come back from `Split` of `Join`.
pub split-join_plain :
    (w : String) (ws : List String)
    → All (λ v. has_comma v ≡ false) (w ∷ ws)
    → split b',' (join "," (w ∷ ws)) ≡ w ∷ ws
split-join_plain w ws h = split-join w ws ∙ pieces (w ∷ ws) h
  where
    pieces : (vs : List String) → All (λ v. has_comma v ≡ false) vs → all_pieces vs ≡ vs
    pieces [] h = refl
    pieces (v ∷ vs) h = rw (split-plain v h.0, pieces vs h.1) refl

-- A joined text is empty only where nothing, or one empty text, was joined.
pub join_not_empty :
    (w : String) (ws : List String) → (w == "") ≡ false → (join "," (w ∷ ws) == "") ≡ false
unfolding join
join_not_empty w [] h = h
join_not_empty w (v ∷ ws) h = elim (Bool-cases (w <> rest == "")) [
  | inl same ↦ absurd (not_empty same)
  | inr other ↦ other
]
  where
    rest : String
    rest = "," <> join "," (v ∷ ws)

    not_empty : (w <> rest == "") ≡ true → ⊥
    not_empty e =
        ground (arith, eq_iff w "", (append-eq-nil_iff.0 ((eq_iff (w <> rest) "").0 e)).0, h)
