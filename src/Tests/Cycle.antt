-- ===== src/Tests/Cycle.antt =====
-- A shutdown and a startup of the example group, where calls do not fail.
use kshutdown.Base.{◌≡◌, refl, arith, false, is_empty, some, [], ◌∷◌, ok}
use kshutdown.Base.GoMap
use kshutdown.Api.{
  ShutdownGroup, annotation_command, annotation_operator, command_down, command_up, state_up,
}
use kshutdown.Api.Client.{Ref}
use kshutdown.Authz.{check_for}
use kshutdown.Targets.{targeted}
use kshutdown.Controller.Collect.Laws.{expected_snapshot}
use kshutdown.Controller.Workloads.Down.{AllOff}
use kshutdown.Controller.Workloads.Up.{Settled}
use kshutdown.Controller.Group.{captured, cap_history}
use kshutdown.Controller.Reconcile.{entry_of, reconcile}
use kshutdown.Controller.Reconcile.Down.{finished}
use kshutdown.System.Progress.{IsDone}
use kshutdown.System.Cycle.{reconcile-cycle}
use kshutdown.Tests.Cluster.{
  cluster_client, Cluster, find_group, spec_at, items, view, answer, put, patched,
}
use kshutdown.Tests.Data.{snapshot, lawful, check, faithful}
use kshutdown.Tests.System.{steady, start, start_found}

abbrev kept : ShutdownGroup
kept = finished 40 (entry_of command_down 40 steady) (captured snapshot steady)

abbrev asking : ShutdownGroup
asking = record kept {
  annotations = (annotation_command, command_up) ∷ (annotation_operator, "bob") ∷ [];
}

abbrev down : Cluster
down = (reconcile cluster_client check 40 "shop" "pay" start).1

abbrev edited : Cluster
edited = record down { groups = asking ∷ down.groups }

down_found : (view down).group "shop" "pay" ≡ some kept
unfolding reconcile view items spec_at answer patched put find_group GoMap.index GoMap.lookup
    GoMap.erase check_for cap_history
down_found = refl

edited_found : (view edited).group "shop" "pay" ≡ some asking
unfolding view find_group
edited_found = refl

edited_spec : (view edited).spec ≡ (view down).spec
unfolding view spec_at
edited_spec = refl

some_targets : is_empty (expected_snapshot (view start) steady) ≡ false
unfolding view items spec_at targeted GoMap.index GoMap.lookup
some_targets = refl

reconcile-cycle_example :
    ((reconcile cluster_client check 40 "shop" "pay" start).0 ≡ ok tt)
    × AllOff (expected_snapshot (view start) steady) (view down)
    × IsDone cluster_client ⊥ lawful check faithful
        (λ h. h)
        50
        "shop"
        "pay"
        (view start)
        edited
        asking
        state_up
        (λ g c. (r : Ref) → Settled (view start) (view c) r)
unfolding GoMap.index GoMap.lookup
reconcile-cycle_example =
    reconcile-cycle cluster_client ⊥ lawful check faithful (λ h. h) 40 50 "shop" "pay" start edited
      steady kept asking start_found refl refl (omega arith) refl refl some_targets edited_found
      down_found refl edited_spec refl refl
