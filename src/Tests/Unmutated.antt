-- ===== src/Tests/Unmutated.antt =====
-- A partial shutdown that the mutator has not seen: the user may patch the Deployments alone.
use kshutdown.Base.{◌≡◌, refl, inl, some, List, [], ◌∷◌, map, Any, ok}
use kshutdown.Base.GoMap
use kshutdown.Api.{ShutdownGroup, annotation_command, annotation_partial, command_down, state_down}
use kshutdown.Controller.Collect.{snapshot_of}
use kshutdown.Controller.Workloads.Down.{AllOff}
use kshutdown.Targets.{targeted}
use kshutdown.System.Progress.{IsDone}
use kshutdown.System.Unmutated.{unmutated-IsFull}
use kshutdown.Webhook.{AdmissionRequest, Warning, validate_create}
use kshutdown.Webhook.Counts.{down_answers}
use kshutdown.Webhook.Gate.{IsPermitted}
use kshutdown.Tests.Cluster.{Cluster, cluster_client, view, items, spec_at, find_group}
use kshutdown.Tests.Data.{group, cluster, check, lawful, faithful}

abbrev ann : AdmissionRequest
ann = record { operation = "CREATE"; username = "ann"; groups = "devs" ∷ []; old_object = "" }

abbrev partial : ShutdownGroup
partial = record group {
  annotations = (annotation_command, command_down) ∷ (annotation_partial, "true") ∷ [];
}

abbrev world : Cluster
world = record cluster { groups = partial ∷ [] }

found : (view world).group "shop" "pay" ≡ some partial
unfolding view find_group
found = refl

permitted : Any IsPermitted (down_answers (view world) ann partial)
unfolding targeted view items spec_at GoMap.index GoMap.lookup
permitted = inl refl

unmutated-IsFull_example :
    ((warnings : List Warning) × (c : Cluster) × (validate_create cluster_client check
          (ok ann)
          partial
          world
        ≡ (ok warnings, c)))
    × IsDone cluster_client ⊥ lawful check faithful
        (λ h. h)
        40
        "shop"
        "pay"
        (view world)
        world
        partial
        state_down
        (λ g c. AllOff (map snapshot_of (targeted (view world) "shop" partial.targets)) (view c))
unfolding GoMap.index GoMap.lookup
unmutated-IsFull_example =
    unmutated-IsFull cluster_client ⊥ lawful (λ h. h) check check faithful faithful ann 40 "shop"
      "pay" partial world found refl refl refl refl refl refl permitted
