-- ===== src/Tests/Restarted.antt =====
-- A startup of the example group by the plugin, after a shutdown, where everything is permitted.
use mathlib.Core.Option.{some-injective}
use kshutdown.Base.{
  String, ◌==◌, ◌≡◌, refl, sym, ◌∙◌, subst, arith, inr, true, false, some, [], ◌∷◌, All, Result, ok,
}
use kshutdown.Base.GoMap
use kshutdown.Base.Text.Laws.{has_byte}
use kshutdown.Api.{ShutdownGroup, annotation_command, command_down, command_up}
use kshutdown.Authz.{check_for}
use kshutdown.Controller.Group.{captured, cap_history}
use kshutdown.Controller.Reconcile.{entry_of, reconcile}
use kshutdown.Controller.Reconcile.Down.{finished}
use kshutdown.Webhook.{AdmissionRequest, default, with_identity}
use kshutdown.Webhook.Mutator.{IsPlain, Writes}
use kshutdown.Command.{triggered, asking_up, up_found}
use kshutdown.System.{here, next, reconciled}
use kshutdown.System.Invariant.{Accounts, Accounts-fresh, Accounts-world}
use kshutdown.System.Restarted.{IsRestarted, up_found-IsRestarted}
use kshutdown.System.Trace.{Run-IsAccounted}
use kshutdown.Tests.Cluster.{
  cluster_client, Cluster, find_group, spec_at, items, view, answer, put, patched,
}
use kshutdown.Tests.Command.{caller, caller-IsCaller}
use kshutdown.Tests.Data.{cluster, snapshot, lawful, check, faithful}
use kshutdown.Tests.System.{steady}

abbrev request : AdmissionRequest
request = record { operation = "UPDATE"; username = "ann"; groups = "devs" ∷ []; old_object = "{}" }

abbrev start : Cluster
start = record cluster { groups = steady ∷ []; may = λ r. true }

start_found : (view start).group "shop" "pay" ≡ some steady
unfolding view find_group
start_found = refl

abbrev down : Cluster
down = (reconcile cluster_client check 40 "shop" "pay" start).1

abbrev kept : ShutdownGroup
kept = finished 40 (entry_of command_down 40 steady) (captured snapshot steady)

kept_found : (view down).group "shop" "pay" ≡ some kept
unfolding reconcile view items spec_at answer patched put find_group GoMap.index GoMap.lookup
    GoMap.erase check_for cap_history
kept_found = refl

abbrev sent : ShutdownGroup
sent = asking_up "ann" kept

abbrev stored : Cluster
stored = record down { groups = with_identity request sent ∷ down.groups }

stored_found : (view stored).group "shop" "pay" ≡ some (with_identity request sent)
unfolding view find_group
stored_found = refl

abbrev asked : Cluster
asked = (up_found cluster_client caller false "shop" "pay" kept down).1

up_run : up_found cluster_client caller false "shop" "pay" kept down ≡ (ok triggered, asked)
unfolding up_found reconcile view items spec_at answer patched put find_group GoMap.index
    GoMap.lookup GoMap.erase check_for cap_history
up_run = refl

plain : All IsPlain request.groups
unfolding has_byte
plain = ((refl, refl), tt)

decode : String → Result ShutdownGroup
decode text = ok kept

writes : Writes decode request sent
unfolding decode GoMap.index GoMap.lookup GoMap.insert GoMap.erase GoMap.erase_all
writes = inr (kept, refl, refl)

sent_run : default decode (ok request) sent ≡ (ok tt, with_identity request sent)
unfolding decode default GoMap.index GoMap.lookup GoMap.insert GoMap.erase GoMap.erase_all
sent_run = refl

consumed : (command_up == GoMap.index kept.annotations annotation_command) ≡ false
unfolding GoMap.index GoMap.lookup GoMap.erase_all GoMap.erase
consumed = refl

same_allowed : (view stored).allowed ≡ (view down).allowed
unfolding view
same_allowed = refl

same_spec : (view stored).spec ≡ (view down).spec
unfolding view spec_at
same_spec = refl

stored-Accounts : Accounts (view start) (view stored) kept.status.snapshot
stored-Accounts =
    let (x, found, k) =
      Run-IsAccounted cluster_client ⊥ lawful check faithful "shop" "pay" (view start) start down
        (next here (reconciled 40 refl))
        (steady, start_found, (Accounts-fresh (view start) [] refl, omega arith)) in
    Accounts-world (view start) (view down) (view stored) kept.status.snapshot same_spec (
      subst (λ g. Accounts (view start) (view down) g.status.snapshot)
        (some-injective x kept (sym found ∙ kept_found)) k.0)

up_found-IsRestarted_example :
    IsRestarted cluster_client ⊥ lawful
      (λ h. h)
      check
      check
      faithful
      faithful
      caller
      request
      caller-IsCaller
      50
      "shop"
      "pay"
      (view start)
      kept
      (with_identity request sent)
      down
      asked
      stored
up_found-IsRestarted_example =
    up_found-IsRestarted cluster_client ⊥ lawful (λ h. h) check check faithful faithful caller
      request caller-IsCaller decode false 50 "shop" "pay" (view start) kept
      (with_identity request sent) down asked stored up_run plain writes sent_run consumed
      stored_found refl same_allowed stored-Accounts
