-- ===== src/Tests/Parser.antt =====
-- A parser of flags for the examples. It reads `-n` and the long spellings of the flags that take a
-- value.
pub mod Laws
use kshutdown.Base.{
  ℕ, String, ◌<>◌, ◌==◌, eqb, not, if◌then◌else◌, ◌≡◌, refl, sym, ◌∙◌, ap, ◌≢◌, ◌↔◌, ◌⊎◌, inl, inr,
  Bool, Bool-cases, Option-cases, true, false, Option, none, some, List, [], ◌∷◌, ◌++◌, Error,
  errorf, Result, ok, err, subst, eq_iff, Any, All, length, select, arith,
}
use kshutdown.Command.Line.{Variable, Kind, Flag, Variables, Value, value_of}
use kshutdown.Command.Main.{Parsed, help, parsed, Cobra, IsIn, IsCobra, TakesN}

unfoldable pub has_name : String → List Flag → Bool
has_name n [] = false
has_name n (g ∷ gs) = let rest = has_name n gs in if g.name == n then true else rest

unfoldable pub add : List Flag → List Flag → List Flag
unfolding has_name
add own new = own ++ select (λ f. not (has_name f.name own)) new

abbrev pub spelled : String → Flag → Bool
spelled a g = if a == "-n" then g.shorthand == "n" else (a == "--" <> g.name)

unfoldable pub find : String → List Flag → Option Flag
find a [] = none
find a (g ∷ gs) = let rest = find a gs in if spelled a g then some g else rest

unfoldable pub assign : Variable → String → Variables → Variables
assign Variable.kubeconfig v vs = record vs { kubeconfig = v }
assign Variable.namespace v vs = record vs { namespace = v }
assign Variable.reason v vs = record vs { reason = v }
assign Variable.namespaces v vs = record vs { namespaces = vs.namespaces ++ (v ∷ []) }
assign Variable.selectors v vs = record vs { selectors = vs.selectors ++ (v ∷ []) }
assign _ v vs = vs

abbrev pub word : String → Result Parsed → Result Parsed
word a (ok (parsed vs args)) = ok (parsed vs (a ∷ args))
word a (ok help) = ok help
word a (err e) = err e

-- A flag's value and what follows, or a word.
abbrev pub taken :
    Option Flag
    → String
    → String
    → Variables
    → (Variables → Result Parsed)
    → Result Parsed
    → Result Parsed
taken none a v vs go skip = if a == "-n" then err (errorf "unknown shorthand flag") else word a skip
taken (some f) a v vs go skip = go (assign f.variable v vs)

unfoldable pub read : List Flag → List String → Variables → Result Parsed
unfolding find assign
read set [] vs = ok (parsed vs [])
read set (a ∷ []) vs = if a == "--help" then ok help else ok (parsed vs (a ∷ []))
read set (a ∷ v ∷ rest) vs =
    let skip = read set (v ∷ rest) vs in taken (find a set) a v vs (read set rest) skip

unfoldable pub exactly : ℕ → List String → Option Error
exactly n args = if eqb (length args) n then none else some (errorf "wrong number of arguments")

unfoldable pub parser : Cobra
unfolding add read exactly
parser = record { add_flag_set = add; parse = read; exact_args = exactly }
