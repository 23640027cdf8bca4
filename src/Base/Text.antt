-- ===== src/Base/Text.antt =====
pub mod Laws
pub mod Pair
-- `strings.Split`, `strings.SplitN(s, sep, 2)` and `strings.Join` with a one-byte separator, and
-- `strings.TrimSpace`.
use Prim.Native.Char.{Char, code}
use Prim.Native.Nat.{ℕ}
use Prim.Native.String.{String, ◌++◌ as ◌<>◌}
use mathlib.Core.Bool.{Bool, true, false, ◌&&◌, ◌||◌}
use mathlib.Core.Option.{Option, none, some}
use mathlib.Core.List.{List, [], ◌∷◌}
use kshutdown.Base.Tests.{eqb, leb, if◌then◌else◌}

abbrev cons_head : Char → List String → List String
cons_head c [] = String.◌∷◌ c "" ∷ []
cons_head c (w ∷ ws) = String.◌∷◌ c w ∷ ws

-- `strings.Split(s, sep)`: never empty, and "" gives one empty text.
unfoldable pub split : ℕ → String → List String
split sep String.[] = "" ∷ []
split sep (String.◌∷◌ c s) =
    let rest = split sep s in if eqb (code c) sep then "" ∷ rest else cons_head c rest

-- `strings.Join(ws, sep)`
unfoldable pub join : String → List String → String
join sep [] = ""
join sep (w ∷ []) = w
join sep (w ∷ v ∷ ws) = w <> (sep <> join sep (v ∷ ws))

-- Before the first separator, and after it; `none` where `SplitN` gives one part.
abbrev pub cut_later : Char → Option (String × String) → Option (String × String)
cut_later c none = none
cut_later c (some (before, after)) = some (String.◌∷◌ c before, after)

unfoldable pub cut : ℕ → String → Option (String × String)
cut sep String.[] = none
cut sep (String.◌∷◌ c s) =
    let rest = cut sep s in if eqb (code c) sep then some ("", s) else cut_later c rest

-- `unicode.IsSpace`
unfoldable pub is_space : ℕ → Bool
is_space n =
    (leb 9 n && leb n 13)
    || eqb n 32
    || eqb n 133
    || eqb n 160
    || eqb n 5760
    || (leb 8192 n && leb n 8202)
    || eqb n 8232
    || eqb n 8233
    || eqb n 8239
    || eqb n 8287
    || eqb n 12288

unfoldable pub trim_left : String → String
unfolding is_space
trim_left String.[] = ""
trim_left (String.◌∷◌ c s) =
    let rest = trim_left s in if is_space (code c) then rest else String.◌∷◌ c s

-- The character goes if it is a space and nothing but spaces follows.
abbrev pub keep_right : Char → String → Bool → String
keep_right c String.[] true = ""
keep_right c String.[] false = String.◌∷◌ c ""
keep_right c (String.◌∷◌ d s) space = String.◌∷◌ c (String.◌∷◌ d s)

unfoldable pub trim_right : String → String
unfolding is_space
trim_right String.[] = ""
trim_right (String.◌∷◌ c s) = keep_right c (trim_right s) (is_space (code c))

unfoldable pub trim_space : String → String
unfolding trim_left trim_right
trim_space s = trim_right (trim_left s)
