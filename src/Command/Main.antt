-- ===== src/Command/Main.antt =====
-- cmd/kubectl-kshutdown/main.go: `main`, which puts the flags and the commands together. cobra's
-- part is a parameter: the merging of the flag sets, the parsing, and `ExactArgs`.
pub mod Laws
use kshutdown.Base.{
  ℕ, String, Bool, ◌==◌, ◌≡◌, ◌≢◌, ◌⊎◌, ◌↔◌, true, false, Option, none, some, List, [], ◌∷◌, Error,
  Result, ok, err, Effect, pure, fail, Any, All, length, ◌>>=◌,
}
use kshutdown.Api.{ShutdownGroup}
use kshutdown.Api.Client.{Client}
use kshutdown.Authz.Caller.{Caller}
use kshutdown.Command.{Outcome, Flags, down_command, up_command}
use kshutdown.Command.Define.{define_command}
use kshutdown.Command.Export.{Manifest, export_command}
use kshutdown.Command.Line.{
  Variable, Kind, Flag, Subcommand, root_flags, own_flags, Variables, defaults, Value, value_of,
}
use kshutdown.Command.Show.{Row, Report, Operation, list_command, status_command, history_command}

-- What a parsed command line asks for: the help, or a run with these variables and arguments.
pub data Parsed : Type 0 where
  help : Parsed
  parsed : Variables → List String → Parsed

pub record Cobra : Type 0 where
  -- `FlagSet.AddFlagSet`, with which a command takes in its parents' persistent flags
  pub add_flag_set : List Flag → List Flag → List Flag
  pub parse : List Flag → List String → Variables → Result Parsed
  pub exact_args : ℕ → List String → Option Error

abbrev pub IsIn : Flag → List Flag → Type 0
IsIn f fs = Any (λ g. g ≡ f) fs

-- What pflag does with `-n`: it sets the variable of the flag with that shorthand, and goes on.
pub record TakesN (B : Cobra) (set : List Flag) (f : Flag) (v : String) (vs : Variables)
    : Type 0 where
  pub after : Variables
  pub set_value : value_of f.variable after ≡ Value.of_text v
  pub others : (x : Variable) → x ≢ f.variable → value_of x after ≡ value_of x vs
  pub goes_on : (rest : List String) → B.parse set ("-n" ∷ v ∷ rest) vs ≡ B.parse set rest after

-- The documented behaviour: a flag that is already there by name hides the one that is added, only
-- flags of the set are parsed, and a text flag with a shorthand is set by it, where its variable
-- holds a text.
pub record IsCobra (B : Cobra) : Type 0 where
  pub added :
      (own new : List Flag) (f : Flag)
      → IsIn f (B.add_flag_set own new)
        ↔ (IsIn f own ⊎ (IsIn f new × All (λ g. (g.name == f.name) ≡ false) own))
  pub kept :
      (set : List Flag) (args : List String) (vs vs' : Variables) (rest : List String)
      (x : Variable)
      → B.parse set args vs ≡ ok (parsed vs' rest)
      → ((f : Flag) → IsIn f set → f.variable ≢ x)
      → value_of x vs' ≡ value_of x vs
  pub short_n :
      (set : List Flag) (f : Flag) (v : String) (vs : Variables)
      → IsIn f set
      → f.kind ≡ Kind.text
      → f.shorthand ≡ "n"
      → (w : String) → value_of f.variable vs ≡ Value.of_text w
      → ((g : Flag) → IsIn g set → g.shorthand ≡ "n" → g ≡ f)
      → TakesN B set f v vs
  pub exact : (n : ℕ) (args : List String) → (B.exact_args n args ≡ none) ↔ (length args ≡ n)

-- What a command prints.
pub data Printed (Yaml : Type 0) : Type 0 where
  usage created : Printed Yaml
  outcome : Outcome → Printed Yaml
  rows : List Row → Printed Yaml
  report : Report → Printed Yaml
  operations : List Operation → Printed Yaml
  yaml : Yaml → Printed Yaml

-- `args[0]`
abbrev pub first : List String → String
first [] = ""
first (a ∷ _) = a

module _ (B : Cobra) where
  -- The flags that a command parses.
  unfoldable pub flags_of : Subcommand → List Flag
  unfolding own_flags
  flags_of c = B.add_flag_set (own_flags c) root_flags

  -- `Args`, which `list` does not set.
  unfoldable pub check_args : Subcommand → List String → Option Error
  check_args Subcommand.list args = none
  check_args _ args = B.exact_args 1 args

module _ (C : Client) (caller : Caller C) (factory : String → Effect C.State (Unit {0}))
    (create : ShutdownGroup → Effect C.State (Unit {0}))
    (list_groups : Option String → Effect C.State (List ShutdownGroup)) (now : ℕ)
    {Extra Yaml : Type 0} (get : String → String → Effect C.State (Manifest Extra))
    (marshal : Manifest Extra → Result Yaml) where
  abbrev given : Variables → Flags
  given vs = record { reason = vs.reason; partial = vs.partial; dry = vs.dry_run }

  abbrev pub printing :
      {A : Type 0} → (A → Printed Yaml) → Effect C.State A → Effect C.State (Printed Yaml)
  printing form m = m >>= λ a. pure (form a)

  -- `RunE` of each command.
  unfoldable pub run_subcommand :
      Subcommand → Variables → List String → Effect C.State (Printed Yaml)
  unfolding down_command up_command status_command list_command history_command define_command
      export_command
  run_subcommand c vs args =
      let connect = factory vs.kubeconfig in
      let ns = vs.namespace in
      let name = first args in
      elim c [
        | Subcommand.down ↦ printing outcome (down_command C caller connect (given vs) ns name)
        | Subcommand.up ↦ printing outcome (up_command C caller connect vs.dry_run ns name)
        | Subcommand.status ↦ printing report (status_command C connect now ns name)
        | Subcommand.list ↦ printing rows (list_command C connect list_groups now ns)
        | Subcommand.history ↦ printing operations (history_command C connect ns name)
        | Subcommand.define ↦
            printing (λ _. created)
              (define_command C connect create ns name vs.namespaces vs.selectors)
        | Subcommand.export ↦ printing yaml (export_command C connect get marshal ns name)
      ]

  module _ (B : Cobra) where
    abbrev pub checked :
        Subcommand → Variables → List String → Option Error → Effect C.State (Printed Yaml)
    checked c vs args (some e) = fail e
    checked c vs args none = run_subcommand c vs args

    abbrev pub after_parse : Subcommand → Result Parsed → Effect C.State (Printed Yaml)
    after_parse c (err e) = fail e
    after_parse c (ok help) = pure usage
    after_parse c (ok (parsed vs args)) = checked c vs args (check_args B c args)

    -- `root.Execute` for one command, with the other words of the command line.
    unfoldable pub execute : Subcommand → List String → Effect C.State (Printed Yaml)
    unfolding run_subcommand flags_of check_args
    execute c args = after_parse c (B.parse (flags_of B c) args defaults)

-- Prints the usage or fails, and calls nothing.
abbrev pub IsUnused : {S Yaml : Type 0} → Result (Printed Yaml) × S → S → Type 0
IsUnused r s = (r ≡ (ok usage, s)) ⊎ ((e : Error) × (r ≡ (err e, s)))

-- `if err := root.Execute(); err != nil { os.Exit(1) }`
abbrev pub exit_code : {A S : Type 0} → Result A × S → ℕ
exit_code (ok a, s) = 0
exit_code (err e, s) = 1
