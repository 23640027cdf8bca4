-- ===== src/Tests/Show.antt =====
-- The commands that show an object, at concrete objects of the example cluster.
use kshutdown.Base.{String, ◌≡◌, refl, some, List, [], ◌∷◌, ok, Effect, arith}
use kshutdown.Base.GoMap
use kshutdown.Api.{Target, command_down, state_down}
use kshutdown.Controller.Reconcile.{reconcile}
use kshutdown.Command.Age.{pos, negsuc, age, seconds, hours, days, format_age}
use kshutdown.Command.Age.Bounds.{IsAge, format_age-IsAge}
use kshutdown.Command.Define.{defined}
use kshutdown.Command.Show.{status_command, report_of, read_named}
use kshutdown.Command.Show.Laws.{Connects, Answers, status_command-Answers}
use kshutdown.Command.Export.{Manifest, export_command}
use kshutdown.Command.Export.RoundTrip.{Readable, sent, IsFilled, export_command-sent}
use kshutdown.System.Shown.{IsShown, IsShown-reconcile_down}
use kshutdown.Tests.Cluster.{Cluster, cluster_client, view}
use kshutdown.Tests.Data.{group, cluster, check, faithful, lawful, snapshot}
use kshutdown.Tests.Define.{connect}
use kshutdown.Tests.System.{start, steady, start_found, start-Accounts}

ages :
    ((format_age 7199000000000 0 ≡ age (pos 1) hours)
      × (format_age 172800000000000 0 ≡ age (pos 2) days)
      × (format_age 0 3 ≡ age (negsuc 2) seconds))
unfolding format_age
ages = (refl, refl, refl)

format_age-IsAge_example : IsAge 150000000000 (format_age 160000000000 10)
format_age-IsAge_example = format_age-IsAge 160000000000 10 (omega arith) (omega arith)

connects : Connects cluster_client connect
connects c = (c, refl, refl)

status_command-Answers_example :
    Answers cluster_client connect
      (status_command cluster_client connect 5 "shop" "pay")
      start
      (report_of 5 steady)
status_command-Answers_example =
    status_command-Answers cluster_client connect ⊥ lawful (λ h. h) connects "shop" "pay" steady
      start refl start_found 5

IsShown-reconcile_down_example :
    IsShown cluster_client ⊥ lawful check faithful
      (λ h. h)
      connect
      connects
      40
      7
      (omega arith)
      "shop"
      "pay"
      refl
      (view start)
      start
      steady
      command_down
      state_down
      (reconcile cluster_client check 40 "shop" "pay" start).1
unfolding GoMap.index GoMap.lookup
IsShown-reconcile_down_example =
    IsShown-reconcile_down cluster_client ⊥ lawful check faithful (λ h. h) connect connects 40 7
      (omega arith) "shop" "pay" refl (view start) start steady start_found refl start-Accounts refl
      refl

abbrev targets : List Target
targets = record { namespace = "pay"; label_selector = ("app", "pay") ∷ [] } ∷ []

-- The object some time after its creation: the server has numbered it, and it is down.
abbrev filled : Manifest (Unit {0})
filled = record (sent tt "ops" "stop" targets) {
  group = record (defined "ops" "stop" targets) {
    status = record group.status { state = state_down; snapshot = snapshot };
  };
  resource_version = "1234";
  uid = "7f0c";
  generation = 2;
  creation_timestamp = some 17;
}

abbrev get : String → String → Effect Cluster (Manifest (Unit {0}))
get ns name c = (ok filled, c)

filled-IsFilled : IsFilled (sent tt "ops" "stop" targets) filled
filled-IsFilled = record {
  namespace = refl;
  name = refl;
  deleting = refl;
  annotations = refl;
  targets = refl;
  labels = refl;
  extra = refl;
}

readable : Readable cluster_client connect get ok ok
readable m = (m, refl, refl)

filled_read : read_named cluster_client connect get "ops" "stop" cluster ≡ (ok filled, cluster)
unfolding read_named
filled_read = refl

export_command-sent_example :
    (text : Manifest (Unit {0})) × (export_command cluster_client connect get ok "ops" "stop"
        cluster
      ≡ (ok text, cluster))
    × (ok text ≡ ok (sent tt "ops" "stop" targets))
export_command-sent_example =
    export_command-sent cluster_client connect get ok ok readable tt "ops" "stop" targets filled
      cluster cluster filled_read filled-IsFilled
