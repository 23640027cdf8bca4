-- ===== src/Tests/Controller.antt =====
-- A shutdown and a startup of a small cluster, and the controller's theorems there.
use kshutdown.Base.{
  ◌≡◌, refl, some, [], ◌∷◌, ok, err, errorf, arith, subst, inr, Ensures, Ensures-ok,
}
use kshutdown.Base.GoMap
use kshutdown.Base.GoMap.{GoMap}
use kshutdown.Api.{
  ShutdownGroup, annotation_command, annotation_operator, command_down, command_up, state_down,
}
use kshutdown.Api.Client.{scaled, deployment, ref}
use mathlib.Core.Option.{some-injective}
use kshutdown.Api.Reads.{Reads}
use kshutdown.Controller.Collect.{collect_targets}
use kshutdown.Controller.Workloads.Up.{Captured, IsBetween}
use kshutdown.Controller.Reconcile.Levels.{expected_snapshot-Captured}
use kshutdown.Controller.Reconcile.Ends.{EndsUpWith, StopsUp, reconcile_up-Ends}
use kshutdown.Controller.Reconcile.Safety.{
  Holds, IsHealthy, IsRestored, reconcile_down-IsHealthy, snapshot-reconcile_down,
  reconcile_up-IsRestored,
}
use kshutdown.Controller.Reconcile.Dispatch.{IsIdle, reconcile_idle, empty_group_stuck}
use kshutdown.Targets.{targeted}
use kshutdown.Controller.Workloads.Levels.{level}
use kshutdown.Controller.Collect.Laws.{expected_snapshot, collect_targets_lem}
use kshutdown.Controller.Reconcile.{reconcile_down, reconcile_up, reconcile, entry_of}
use kshutdown.Controller.Reconcile.Down.{finished, IsDown}
use kshutdown.Controller.Reconcile.RoundTrip.{
  taken, IsBetween-DownWorld, reconcile_up-reconcile_down,
}
use kshutdown.Controller.Reconcile.Shutdown.{Shutdown, ShutdownFails, reconcile_down_lem}
use kshutdown.Controller.Group.{captured, cap_history}
use kshutdown.Controller.Group.Laws.{Stored, length-cap_history_le}
use kshutdown.Tests.Cluster.{
  Cluster, find_group, spec_at, items, view, answer, put, patched, cluster_client,
}
use kshutdown.Tests.Data.{snapshot, group, cluster, check, lawful, faithful}

snapshot_run : expected_snapshot (view cluster) group ≡ snapshot
unfolding targeted view items spec_at GoMap.index GoMap.lookup
snapshot_run = refl

-- The cluster after the shutdown.
down : Cluster
unfolding reconcile_down
down = (reconcile_down cluster_client check 10 group cluster).1

down_run : reconcile_down cluster_client check 10 group cluster ≡ (ok tt, down)
unfolding down view items spec_at answer patched put GoMap.index GoMap.lookup GoMap.erase
down_run = refl

down_web : spec_at down (scaled deployment) "shop" "web" ≡ some (some 0)
unfolding down view items spec_at answer patched put GoMap.index GoMap.lookup GoMap.erase
down_web = refl

stored : Stored group (view cluster)
unfolding view find_group
stored = refl

-- The group that the shutdown left, when somebody asks for a startup.
abbrev down_group : ShutdownGroup
down_group = record (finished 10 (entry_of command_down 10 group) (captured snapshot group)) {
  annotations = (annotation_command, command_up) ∷ (annotation_operator, "bob") ∷ [];
}

abbrev asked : Cluster
asked = record down { groups = down_group ∷ [] }

up : Cluster
unfolding reconcile_up
up = (reconcile_up cluster_client check 20 down_group asked).1

up_run : reconcile_up cluster_client check 20 down_group asked ≡ (ok tt, up)
unfolding up down view items spec_at answer patched put GoMap.index GoMap.lookup GoMap.erase
up_run = refl

up_web : spec_at up (scaled deployment) "shop" "web" ≡ some (some 3)
unfolding up down view items spec_at answer patched put GoMap.index GoMap.lookup GoMap.erase
up_web = refl

stored_down : Stored down_group (view asked)
unfolding view find_group
stored_down = refl

status_same :
    down_group.status
    ≡ (finished 10
        (entry_of command_down 10 group)
        (taken cluster_client ⊥ lawful check faithful 10 group cluster refl refl stored)).status
unfolding GoMap.index GoMap.lookup targeted view items spec_at
status_same = refl

reconcile_up-reconcile_down_example :
    level (view up) (ref (scaled deployment) "shop" "web")
    ≡ level (view cluster) (ref (scaled deployment) "shop" "web")
unfolding targeted view items spec_at GoMap.index GoMap.lookup
reconcile_up-reconcile_down_example =
    reconcile_up-reconcile_down cluster_client ⊥ lawful check faithful 10 group cluster refl refl
      stored 20 down_group down asked up down_run refl stored_down status_same refl up_run
      (ref (scaled deployment) "shop" "web")

-- The startup's assumptions, seen from the cluster before the shutdown.
levels : Captured (view cluster) snapshot
unfolding targeted view items spec_at GoMap.index GoMap.lookup
levels = expected_snapshot-Captured cluster_client ⊥ lawful cluster group

abbrev taken_group : ShutdownGroup
taken_group = captured snapshot group

is_down : IsDown 10 (entry_of command_down 10 group) taken_group (view cluster) (view down)
unfolding targeted view items spec_at GoMap.index GoMap.lookup
is_down =
    Ensures-ok (Shutdown cluster_client ⊥ lawful check faithful 10 group taken_group (view cluster))
      (ShutdownFails cluster_client ⊥ lawful check faithful 10 group taken_group (view cluster))
      (reconcile_down cluster_client check 10 group cluster) tt down
      (reconcile_down_lem cluster_client ⊥ lawful check faithful 10 group cluster refl stored)
      down_run

between : IsBetween (view cluster) (view asked)
unfolding view
between = IsBetween-DownWorld taken_group (view cluster) (view down) is_down.down_world

reconcile_up-Ends_example :
    Ensures
      (λ _ s'.
        Holds down_group
          (EndsUpWith cluster_client ⊥ lawful check (view cluster) 20 down_group asked s')
          (cluster_client.world s'))
      (λ s'.
        Holds down_group
          (StopsUp cluster_client ⊥ lawful check (view cluster) 20 down_group asked s')
          (cluster_client.world s')
        × ⊥)
      (reconcile_up cluster_client check 20 down_group asked)
reconcile_up-Ends_example =
    reconcile_up-Ends cluster_client ⊥ lawful check (view cluster) 20 down_group asked refl refl
      stored_down levels between

reconcile_down-IsHealthy_example :
    let w' = view (reconcile_down cluster_client check 10 group cluster).1 in
    Holds group (IsHealthy w') w'
reconcile_down-IsHealthy_example =
    reconcile_down-IsHealthy cluster_client ⊥ lawful check faithful 10 group cluster refl stored
      (omega arith)

-- A group whose shutdown stopped after the capture.
abbrev stopped : ShutdownGroup
stopped = captured snapshot group

abbrev interrupted : Cluster
interrupted = record cluster { groups = stopped ∷ [] }

stored_stopped : Stored stopped (view interrupted)
unfolding view find_group
stored_stopped = refl

snapshot-reconcile_down_example :
    Holds stopped
      (λ g. g.status.snapshot ≡ snapshot)
      (view (reconcile_down cluster_client check 11 stopped interrupted).1)
snapshot-reconcile_down_example =
    snapshot-reconcile_down cluster_client ⊥ lawful check faithful 11 stopped interrupted refl
      stored_stopped refl

reconcile_up-IsRestored_example :
    let w' = view (reconcile_up cluster_client check 20 down_group asked).1 in
    Holds down_group
      (IsRestored cluster_client ⊥ lawful check (view cluster) 20 down_group asked w')
      w'
reconcile_up-IsRestored_example =
    reconcile_up-IsRestored cluster_client ⊥ lawful check (view cluster) 20 down_group asked refl
      refl stored_down levels between (length-cap_history_le _)

collect_targets_lem_example :
    Reads cluster_client ⊥
      (view cluster)
      (λ es. es ≡ expected_snapshot (view cluster) group)
      (collect_targets cluster_client check group cluster)
collect_targets_lem_example =
    collect_targets_lem cluster_client ⊥ lawful check faithful group cluster

-- A group without a command.
abbrev quiet : ShutdownGroup
quiet = record group { annotations = [] }

abbrev quiet_cluster : Cluster
quiet_cluster = record cluster { groups = quiet ∷ [] }

IsIdle-quiet : IsIdle cluster_client ⊥ lawful check quiet
unfolding GoMap.index GoMap.lookup
IsIdle-quiet = inr (refl, refl)

quiet-IsIdle :
    (g : ShutdownGroup)
    → (view quiet_cluster).group "shop" "pay" ≡ some g
    → IsIdle cluster_client ⊥ lawful check g
unfolding view find_group
quiet-IsIdle g h =
    subst (IsIdle cluster_client ⊥ lawful check) (some-injective quiet g h) IsIdle-quiet

reconcile_idle_example :
    view (reconcile cluster_client check 40 "shop" "pay" quiet_cluster).1 ≡ view quiet_cluster
reconcile_idle_example =
    reconcile_idle cluster_client ⊥ lawful check 40 "shop" "pay" quiet_cluster quiet-IsIdle

-- A group whose targets select nothing.
abbrev empty_group : ShutdownGroup
empty_group = record group { targets = [] }

abbrev empty_cluster : Cluster
empty_cluster = record cluster { groups = empty_group ∷ [] }

stored_empty : Stored empty_group (view empty_cluster)
unfolding view find_group
stored_empty = refl

stuck : Cluster
unfolding reconcile_down
stuck = (reconcile_down cluster_client check 10 empty_group empty_cluster).1

stuck_run : reconcile_down cluster_client check 10 empty_group empty_cluster ≡ (ok tt, stuck)
unfolding stuck view items spec_at answer patched put GoMap.index GoMap.lookup GoMap.erase
stuck_run = refl

abbrev stuck_group : ShutdownGroup
stuck_group = finished 10 (entry_of command_down 10 empty_group) (captured [] empty_group)

stuck_found : (view stuck).group "shop" "pay" ≡ some stuck_group
unfolding stuck view items spec_at answer patched put find_group GoMap.index GoMap.lookup
    GoMap.erase cap_history
stuck_found = refl

empty_group_stuck_example :
    (state_down ≡ state_down)
    × (reconcile_up cluster_client check 20 stuck_group stuck
        ≡ (err (errorf "cannot reconcileUp from state \"down\" with empty snapshot"), stuck))
unfolding targeted
empty_group_stuck_example =
    empty_group_stuck cluster_client ⊥ lawful check faithful 10 empty_group empty_cluster refl refl
      stored_empty stuck stuck 20 stuck_group stuck_group refl stuck_run stuck_found refl
