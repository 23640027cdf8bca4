-- ===== src/Tests/System.antt =====
-- A shutdown that a failing call stops, its retry, and the startup.
use mathlib.Core.Option.{some-injective}
use kshutdown.Base.{
  sym, subst, ◌∙◌, ◌≡◌, refl, Bool, false, ◌&&◌, eqb, length, inl, some, [], ◌∷◌, ok, ◌==◌, arith,
}
use kshutdown.Base.GoMap
use kshutdown.Api.{
  ShutdownGroup, annotation_command, annotation_operator, command_up, command_down, state_down,
  state_up,
}
use kshutdown.Api.Client.{Client, IsLawful, Ref, ref, scaled, statefulset, deployment}
use kshutdown.Authz.{Check, IsFaithful, check_for, check_for-IsFaithful}
use kshutdown.Controller.Workloads.Up.{Settled}
use kshutdown.Controller.Group.Laws.{Stored}
use kshutdown.Controller.Reconcile.{entry_of, reconcile, reconcile_up}
use kshutdown.System.{Step, reconciled, edited, Run, here, next}
use kshutdown.System.Trace.{IsAccounted, Run-IsAccounted, Run-reconcile_up}
use kshutdown.System.Invariant.{Accounts}
use kshutdown.System.Progress.{IsDone, IsRecorded, reconcile-IsDone_down, reconcile-IsDone_up}
use kshutdown.Controller.Workloads.Down.{AllOff}
use kshutdown.Tests.Data
use kshutdown.Tests.Cluster.{
  cluster_client, Cluster, find_group, spec_at, items, view, answer, put, patched,
}
use kshutdown.Tests.Data.{group, cluster, snapshot, lawful}
use kshutdown.Controller.Group.{captured, cap_history}
use kshutdown.Controller.Reconcile.Down.{finished}
use kshutdown.Controller.Reconcile.Shutdown.{begun}
use kshutdown.Tests.Faulty.{faulty_client, faulty-IsLawful}

-- The patch of the database fails right after the snapshot is written.
abbrev breaks : Cluster → Ref → Bool
breaks c r = (r.name == "db") && eqb (length c.groups) 2

abbrev client : Client
client = faulty_client breaks (λ g. false)

abbrev may_fail : IsLawful client Unit
may_fail = faulty-IsLawful breaks (λ g. false)

abbrev check : Check client
check = check_for client

abbrev faithful : IsFaithful client Unit check
faithful = check_for-IsFaithful client Unit may_fail

abbrev pub steady : ShutdownGroup
steady = record group { status = record group.status { state = state_up } }

abbrev pub start : Cluster
start = record cluster { groups = steady ∷ [] }

half : Cluster
unfolding reconcile
half = (reconcile client check 10 "shop" "pay" start).1

half_state : spec_at half (scaled deployment) "shop" "web" ≡ some (some 0)
unfolding half view items spec_at answer patched put find_group GoMap.index GoMap.lookup GoMap.erase
    check_for
half_state = refl

half_db : spec_at half (scaled statefulset) "shop" "db" ≡ some (some 2)
unfolding half view items spec_at answer patched put find_group GoMap.index GoMap.lookup GoMap.erase
    check_for
half_db = refl

-- The group that the first run leaves: the snapshot is written, and the state is still up.
abbrev half_group : ShutdownGroup
half_group = captured snapshot steady

-- A user changes the object, and the retry succeeds.
abbrev touched : Cluster
touched = record half { groups = half_group ∷ half.groups }

retried : Cluster
unfolding reconcile
retried = (reconcile client check 20 "shop" "pay" touched).1

retried_db : spec_at retried (scaled statefulset) "shop" "db" ≡ some (some 0)
unfolding retried half view items spec_at answer patched put find_group GoMap.index GoMap.lookup
    GoMap.erase check_for
retried_db = refl

abbrev retried_group : ShutdownGroup
retried_group = finished 20 (entry_of command_down 20 half_group) half_group

abbrev asking : ShutdownGroup
asking = record retried_group {
  annotations = (annotation_command, command_up) ∷ (annotation_operator, "bob") ∷ [];
}

abbrev asked : Cluster
asked = record retried { groups = asking ∷ retried.groups }

first_run : Step client check "shop" "pay" start half
unfolding half
first_run = reconciled 10 refl

touch : Step client check "shop" "pay" half touched
unfolding half view items spec_at answer patched put find_group GoMap.index GoMap.lookup GoMap.erase
    check_for
touch = edited half_group half_group refl refl refl refl

second_run : Step client check "shop" "pay" touched retried
unfolding retried
second_run = reconciled 20 refl

ask : Step client check "shop" "pay" retried asked
unfolding retried half view items spec_at answer patched put find_group GoMap.index GoMap.lookup
    GoMap.erase check_for cap_history
ask = edited retried_group asking refl refl refl refl

run : Run client check "shop" "pay" start asked
run = next (next (next (next here first_run) touch) second_run) ask

back : Cluster
unfolding reconcile_up
back = (reconcile_up client check 30 asking asked).1

back_run : reconcile_up client check 30 asking asked ≡ (ok tt, back)
unfolding back retried half view items spec_at answer patched put find_group GoMap.index
    GoMap.lookup GoMap.erase check_for cap_history
back_run = refl

pub start_found : (view start).group "shop" "pay" ≡ some steady
unfolding view find_group
start_found = refl

asked_stored : Stored asking (view asked)
unfolding view find_group
asked_stored = refl

Run-reconcile_up_example : Settled (view start) (view back) (ref (scaled statefulset) "shop" "db")
Run-reconcile_up_example =
    Run-reconcile_up client Unit may_fail check faithful 30 steady asking start asked back
      start_found refl (omega arith) run asked_stored refl refl back_run
      (ref (scaled statefulset) "shop" "db")

pub start-Accounts : Accounts (view start) (view start) []
start-Accounts = record { levels = tt; accounted = λ r. inl refl }

start-IsAccounted : IsAccounted "shop" "pay" (view start) (view start)
start-IsAccounted = (steady, start_found, (start-Accounts, omega arith))

Run-IsAccounted_example : IsAccounted "shop" "pay" (view start) (view asked)
Run-IsAccounted_example =
    Run-IsAccounted client Unit may_fail check faithful "shop" "pay" (view start) start asked run
      start-IsAccounted

reconcile-IsDone_down_example :
    IsDone cluster_client ⊥ lawful Data.check Data.faithful
      (λ h. h)
      40
      "shop"
      "pay"
      (view start)
      start
      steady
      state_down
      (λ g c.
        AllOff g.status.snapshot (view c)
        × IsRecorded cluster_client ⊥ lawful Data.check Data.faithful
            (λ h. h)
            40
            "shop"
            "pay"
            (view start)
            start
            steady
            command_down
            g
        × (g.status.snapshot ≡ (begun (view start) steady).status.snapshot))
unfolding GoMap.index GoMap.lookup
reconcile-IsDone_down_example =
    reconcile-IsDone_down cluster_client ⊥ lawful Data.check Data.faithful (λ h. h) 40 "shop" "pay"
      (view start) start steady start_found refl start-Accounts refl refl

asked-Accounts : Accounts (view start) (view asked) asking.status.snapshot
asked-Accounts =
    subst (λ g. Accounts (view start) (view asked) g.status.snapshot)
      (some-injective Run-IsAccounted_example.0 asking
        (sym Run-IsAccounted_example.1 ∙ asked_stored))
      Run-IsAccounted_example.2.0

reconcile-IsDone_up_example :
    IsDone cluster_client ⊥ lawful Data.check Data.faithful
      (λ h. h)
      50
      "shop"
      "pay"
      (view start)
      asked
      asking
      state_up
      (λ g c.
        ((r : Ref) → Settled (view start) (view c) r)
        × (g.status.snapshot ≡ [])
        × IsRecorded cluster_client ⊥ lawful Data.check Data.faithful
            (λ h. h)
            50
            "shop"
            "pay"
            (view start)
            asked
            asking
            command_up
            g)
unfolding GoMap.index GoMap.lookup
reconcile-IsDone_up_example =
    reconcile-IsDone_up cluster_client ⊥ lawful Data.check Data.faithful (λ h. h) 50 "shop" "pay"
      (view start) asked asking asked_stored refl asked-Accounts refl refl refl
