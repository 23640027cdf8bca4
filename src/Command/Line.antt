-- ===== src/Command/Line.antt =====
-- cmd/kubectl-kshutdown: the flags that main.go and the commands' constructors register, with the
-- variables that they set.
use kshutdown.Base.{String, Bool, false, List, [], ◌∷◌}

-- The package's variables `kubeconfig` and `namespace`, and those local to a command.
pub data Variable : Type 0 where
  kubeconfig namespace reason partial dry_run namespaces selectors : Variable

-- `StringVar` and `StringVarP`, `BoolVar`, `StringArrayVar`.
pub data Kind : Type 0 where
  text switch texts : Kind

pub record Flag : Type 0 where
  pub name : String
  pub shorthand : String
  pub kind : Kind
  pub variable : Variable

abbrev pub flag : String → String → Kind → Variable → Flag
flag name shorthand kind variable = record {
  name = name;
  shorthand = shorthand;
  kind = kind;
  variable = variable;
}

pub data Subcommand : Type 0 where
  down up status list history define export : Subcommand

-- `root.PersistentFlags()`
abbrev pub root_flags : List Flag
root_flags =
    flag "kubeconfig" "" Kind.text Variable.kubeconfig
    ∷ flag "namespace" "n" Kind.text Variable.namespace
    ∷ []

-- `cmd.Flags()` of `down`, `up` and `define`.
abbrev pub down_flags : List Flag
down_flags =
    flag "reason" "" Kind.text Variable.reason
    ∷ flag "partial" "" Kind.switch Variable.partial
    ∷ flag "dry-run" "" Kind.switch Variable.dry_run
    ∷ []

abbrev pub up_flags : List Flag
up_flags = flag "dry-run" "" Kind.switch Variable.dry_run ∷ []

abbrev pub define_flags : List Flag
define_flags =
    flag "namespace" "" Kind.texts Variable.namespaces
    ∷ flag "selector" "" Kind.texts Variable.selectors
    ∷ []

unfoldable pub own_flags : Subcommand → List Flag
own_flags Subcommand.down = down_flags
own_flags Subcommand.up = up_flags
own_flags Subcommand.define = define_flags
own_flags _ = []

-- What the variables hold.
pub record Variables : Type 0 where
  pub kubeconfig : String
  pub namespace : String
  pub reason : String
  pub partial : Bool
  pub dry_run : Bool
  pub namespaces : List String
  pub selectors : List String

-- The defaults, with which the flags are registered.
abbrev pub defaults : Variables
defaults = record {
  kubeconfig = "";
  namespace = "";
  reason = "";
  partial = false;
  dry_run = false;
  namespaces = [];
  selectors = [];
}

pub data Value : Type 0 where
  of_text : String → Value
  of_switch : Bool → Value
  of_texts : List String → Value

abbrev pub value_of : Variable → Variables → Value
value_of Variable.kubeconfig vs = Value.of_text vs.kubeconfig
value_of Variable.namespace vs = Value.of_text vs.namespace
value_of Variable.reason vs = Value.of_text vs.reason
value_of Variable.partial vs = Value.of_switch vs.partial
value_of Variable.dry_run vs = Value.of_switch vs.dry_run
value_of Variable.namespaces vs = Value.of_texts vs.namespaces
value_of Variable.selectors vs = Value.of_texts vs.selectors
