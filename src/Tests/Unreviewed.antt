-- ===== src/Tests/Unreviewed.antt =====
-- An update of a pending shutdown by a user who may patch nothing.
use kshutdown.Base.{String, ◌≡◌, refl, false, some, [], ◌∷◌, map, Result, ok}
use kshutdown.Base.GoMap
use kshutdown.Api.{ShutdownGroup, annotation_command, command_down, state_down}
use kshutdown.Controller.Collect.{snapshot_of}
use kshutdown.Controller.Workloads.Down.{AllOff}
use kshutdown.Targets.{targeted}
use kshutdown.System.Progress.{IsDone}
use kshutdown.System.Unreviewed.{unreviewed-IsFull}
use kshutdown.Webhook.{AdmissionRequest, default, validate_update}
use kshutdown.Tests.Cluster.{Cluster, cluster_client, view, find_group}
use kshutdown.Tests.Data.{group, cluster, check, lawful, faithful}

abbrev eve : AdmissionRequest
eve = record { operation = "UPDATE"; username = "eve"; groups = []; old_object = "{}" }

-- The pending command selected nothing before the update.
abbrev pending : ShutdownGroup
pending = record group { annotations = (annotation_command, command_down) ∷ []; targets = [] }

abbrev retargeted : ShutdownGroup
retargeted = record pending { targets = group.targets }

abbrev forbidding : Cluster
forbidding = record cluster { groups = retargeted ∷ []; may = λ r. false }

found : (view forbidding).group "shop" "pay" ≡ some retargeted
unfolding view find_group
found = refl

decode : String → Result ShutdownGroup
decode text = ok pending

decoded : decode eve.old_object ≡ ok pending
unfolding decode
decoded = refl

unreviewed-IsFull_example :
    (default decode (ok eve) retargeted ≡ (ok tt, retargeted))
    × (validate_update cluster_client check (ok eve) pending retargeted cluster ≡ (ok [], cluster))
    × IsDone cluster_client ⊥ lawful check faithful
        (λ h. h)
        40
        "shop"
        "pay"
        (view forbidding)
        forbidding
        retargeted
        state_down
        (λ g c. AllOff (map snapshot_of (targeted (view forbidding) "shop" group.targets)) (view c))
unfolding GoMap.index GoMap.lookup
unreviewed-IsFull_example =
    unreviewed-IsFull cluster_client ⊥ lawful (λ h. h) check check faithful eve 40 "shop" "pay"
      pending retargeted cluster forbidding decode refl refl decoded refl refl refl found refl refl
      refl
