-- ===== src/Tests/Line.antt =====
-- The flags of the plugin, with the parser of the examples.
use kshutdown.Base.{String, ◌≡◌, refl, arith, Option, List, [], ◌∷◌, ok, err, errorf, Effect}
use kshutdown.Api.{ShutdownGroup}
use kshutdown.Command.Define.{define_command}
use kshutdown.Command.Export.{Manifest}
use kshutdown.Command.Line.{own_flags, Subcommand, defaults}
use kshutdown.Command.Main.{IsUnused, check_args, flags_of, run_subcommand, execute}
use kshutdown.Command.Main.Laws.{define-IsUnused, execute-run_subcommand}
use kshutdown.Tests.Cluster.{Cluster, cluster_client}
use kshutdown.Tests.Data.{cluster}
use kshutdown.Tests.Command.{caller}
use kshutdown.Tests.Define.{connect, create}
use kshutdown.Tests.Parser.{parser, has_name, add, read, find, assign, exactly}
use kshutdown.Tests.Parser.Laws.{parser-IsCobra}

abbrev factory : String → Effect Cluster (Unit {0})
factory kubeconfig = connect

abbrev list_groups : Option String → Effect Cluster (List ShutdownGroup)
list_groups ns c = (ok c.groups, c)

abbrev get : String → String → Effect Cluster (Manifest (Unit {0}))
get ns name c = (err (errorf "not found"), c)

abbrev args : List String
args = "--namespace" ∷ "pay" ∷ "--selector" ∷ "app=pay" ∷ "stop" ∷ []

execute_define :
    execute cluster_client caller factory create list_groups 5 get ok parser Subcommand.define args
      cluster
    ≡ (
      err (errorf "--namespace / -n is required (namespace for the ShutdownGroup itself)"),
      cluster,
    )
unfolding execute flags_of own_flags check_args run_subcommand define_command parser has_name add
    read find assign exactly
execute_define = refl

define-IsUnused_example :
    IsUnused
      (execute cluster_client caller factory create list_groups 5 get ok parser Subcommand.define
        args cluster)
      cluster
define-IsUnused_example =
    define-IsUnused cluster_client caller factory create list_groups 5 get ok parser parser-IsCobra
      args cluster

execute-run_subcommand_example :
    execute cluster_client caller factory create list_groups 5 get ok parser Subcommand.status
      ("-n" ∷ "shop" ∷ "pay" ∷ [])
      cluster
    ≡ run_subcommand cluster_client caller factory create list_groups 5 get ok Subcommand.status
        (record defaults { namespace = "shop" })
        ("pay" ∷ [])
        cluster
unfolding parser read find flags_of add has_name own_flags
execute-run_subcommand_example =
    execute-run_subcommand cluster_client caller factory create list_groups 5 get ok parser
      parser-IsCobra Subcommand.status "shop" "pay" cluster (λ e. ground (arith, e)) λ vs. refl
