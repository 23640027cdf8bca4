-- ===== src/Base/GoMap.antt =====
-- A Go `map[string]string` as an association list. A nil map is `[]`: to read, range over and
-- delete from it is the same as for an empty one, and the code makes a map before it writes.
use Prim.Native.String.{String}
use mathlib.Core.Path.{◌≡◌, refl}
use mathlib.Core.Bool.{Bool, true, false}
use mathlib.Core.Option.{Option, none, some}
use mathlib.Core.List.{List, [], ◌∷◌}
use native.Mathlib.Omega.{arith}
use text.Mathlib.Text.{◌==◌}
use text.Mathlib.TextEquality.{eq_iff}
use kshutdown.Base.Tests.{if◌then◌else◌}

abbrev pub GoMap : Type 0
GoMap = List (String × String)

-- The first entry counts: `insert` leaves one entry for its key.
unfoldable pub lookup : String → GoMap → Option String
lookup key [] = none
lookup key (entry ∷ rest) = if entry.0 == key then some entry.1 else lookup key rest

-- The zero value, "", for a missing key.
abbrev pub or_zero : Option String → String
or_zero none = ""
or_zero (some v) = v

-- `m[k]`
unfoldable pub index : GoMap → String → String
index m k = or_zero (lookup k m)

-- `delete(m, k)`
unfoldable pub erase : String → GoMap → GoMap
erase key [] = []
erase key (entry ∷ rest) =
    let others = erase key rest in if entry.0 == key then others else entry ∷ others

-- `m[k] = v`: the old entry goes, since the order of a Go map does not count.
unfoldable pub insert : String → String → GoMap → GoMap
unfolding erase
insert key value m = (key, value) ∷ erase key m

pub lookup-erase :
    (key other : String) (m : GoMap)
    → lookup other (erase key m) ≡ (if key == other then none else lookup other m)
unfolding lookup erase
lookup-erase key other [] = ground arith
lookup-erase key other ((found, v) ∷ rest) =
    ground
      (arith, lookup-erase key other rest, eq_iff found key, eq_iff found other, eq_iff key other)

pub lookup-insert :
    (key other value : String) (m : GoMap)
    → lookup other (insert key value m) ≡ (if key == other then some value else lookup other m)
unfolding lookup insert
lookup-insert key other value m = ground (arith, lookup-erase key other m)

-- `for _, key := range keys { delete(m, key) }`
unfoldable pub erase_all : List String → GoMap → GoMap
unfolding erase
erase_all [] m = m
erase_all (k ∷ ks) m = erase_all ks (erase k m)

unfoldable pub contains : List String → String → Bool
contains [] j = false
contains (k ∷ ks) j = if k == j then true else contains ks j

pub lookup-erase_all :
    (ks : List String) (j : String) (m : GoMap)
    → lookup j (erase_all ks m) ≡ (if contains ks j then none else lookup j m)
unfolding erase_all contains
lookup-erase_all [] j m = refl
lookup-erase_all (k ∷ ks) j m =
    ground (arith, lookup-erase_all ks j (erase k m), lookup-erase k j m)

pub index-insert :
    (k j v : String) (m : GoMap) → index (insert k v m) j ≡ (if k == j then v else index m j)
unfolding index
index-insert k j v m = rw (lookup-insert k j v m) (ground arith)

pub index-erase_all :
    (ks : List String) (j : String) (m : GoMap)
    → index (erase_all ks m) j ≡ (if contains ks j then "" else index m j)
unfolding index
index-erase_all ks j m = rw (lookup-erase_all ks j m) (ground arith)
