-- ===== src/Tests/Kept.antt =====
-- A shutdown of a group whose earlier shutdown stopped after it had written the snapshot. The targets
-- have been removed since, and the one who asks may patch nothing.
use kshutdown.Base.{◌≡◌, refl, sym, subst, ◌⊎◌, inl, inr, none, some, [], ◌∷◌, Any, false, ok}
use mathlib.Core.Option.{some-injective}
use kshutdown.Api.{ShutdownGroup, ResourceSnapshot, command_down}
use kshutdown.Api.Client.{Ref, ref, scaled, deployment}
use kshutdown.Controller.Workloads.Levels.{Names}
use kshutdown.Controller.Workloads.Down.{AllOff}
use kshutdown.Controller.Group.Laws.{Stored}
use kshutdown.Controller.Reconcile.{entry_of, reconcile_down}
use kshutdown.Controller.Reconcile.Down.{finished}
use kshutdown.Controller.Reconcile.Kept.{reconcile_down-kept}
use kshutdown.Tests.Cluster.{Cluster, find_group, spec_at, view, cluster_client}
use kshutdown.Tests.Data.{group, cluster, check, lawful, faithful}

abbrev web : ResourceSnapshot
web = record { namespace = "shop"; name = "web"; kind = "Deployment"; previous_replicas = 3 }

abbrev stopped : ShutdownGroup
stopped = record group { targets = []; status = record group.status { snapshot = web ∷ [] } }

abbrev shut : Cluster
shut = record cluster { groups = stopped ∷ []; may = λ r. false }

stopped_stored : Stored stopped (view shut)
unfolding view find_group
stopped_stored = refl

present : (view shut).spec (ref (scaled deployment) "shop" "web") ≡ some (some 3)
unfolding view spec_at
present = refl

there : (r : Ref) → Any (Names r) (web ∷ []) → (view shut).spec r ≡ none → ⊥
there r (inl named) gone = cc (present, absent)
  where
    absent : (view shut).spec (ref (scaled deployment) "shop" "web") ≡ none
    absent =
        subst (λ q. (view shut).spec q ≡ none)
          (sym (some-injective (ref (scaled deployment) "shop" "web") r named)) gone
there r (inr later) gone = later

reconcile_down-kept_example :
    (c : Cluster) × (reconcile_down cluster_client check 10 stopped shut ≡ (ok tt, c))
    × Stored (finished 10 (entry_of command_down 10 stopped) stopped) (view c)
    × AllOff (web ∷ []) (view c)
    × ((r : Ref) → ((view c).spec r ≡ (view shut).spec r) ⊎ Any (Names r) (web ∷ []))
reconcile_down-kept_example =
    reconcile_down-kept cluster_client ⊥ lawful check faithful (λ h. h) 10 stopped shut refl refl
      stopped_stored there
