-- ===== src/Tests/Webhook.antt =====
-- A partial shutdown that is admitted, and the webhooks' theorems there.
use kshutdown.Base.{
  String, ◌≡◌, refl, ◌⊎◌, inl, true, List, [], ◌∷◌, map, All, Result, ok, is_empty, Ensures, ◌==◌,
}
use kshutdown.Base.GoMap
use kshutdown.Base.GoMap.{index}
use kshutdown.Base.Text.{join}
use kshutdown.Base.Text.Laws.{has_byte}
use kshutdown.Api.{
  ShutdownGroup, annotation_command, annotation_partial, annotation_operator, command_down,
}
use kshutdown.Api.Client.{ref, scaled, statefulset}
use kshutdown.Api.Reads.{Reads}
use kshutdown.Targets.{targeted}
use kshutdown.Controller.Collect.{snapshot_of, collect_targets}
use kshutdown.Controller.Group.Laws.{Stored}
use kshutdown.Controller.Reconcile.{reconcile_down}
use kshutdown.Webhook.{
  AdmissionRequest, Warning, skipped, with_identity, default, validate_create, check_down_targets,
}
use kshutdown.Webhook.Mutator.{IsPlain, Identifies, default-Identifies}
use kshutdown.Webhook.Counts.{down_answers, counted, check_down_targets_lem}
use kshutdown.Webhook.Gate.{Passes, Stops, validate_create_lem}
use kshutdown.Webhook.Admission.{MayPatch, patchable}
use kshutdown.Webhook.Collected.{collect_targets-patchable}
use kshutdown.Webhook.Permission.{reconcile_down-MayPatch}
use kshutdown.Authz.{check_for}
use kshutdown.Tests.Cluster.{Cluster, find_group, spec_at, items, view, cluster_client}
use kshutdown.Tests.Data.{group, cluster, check, lawful, faithful}

abbrev request : AdmissionRequest
request = record {
  operation = "CREATE";
  username = "ann";
  groups = "devs" ∷ "ops" ∷ [];
  old_object = "";
}

-- What the user writes: a partial shutdown, with a forged operator.
abbrev written : ShutdownGroup
written = record group {
  annotations =
      (annotation_command, command_down)
      ∷ (annotation_partial, "true")
      ∷ (annotation_operator, "root")
      ∷ [];
}

abbrev mutated : ShutdownGroup
mutated = with_identity request written

abbrev no_decoder : String → Result ShutdownGroup
no_decoder raw = ok group

-- The operator may patch deployments only.
abbrev warnings : List Warning
warnings = skipped 3 "StatefulSet shop/db, CronJob shop/report, CronJob shop/old" ∷ []

admitted_run :
    validate_create cluster_client check (ok request) mutated cluster ≡ (ok warnings, cluster)
unfolding validate_create check_for view items spec_at GoMap.index GoMap.lookup GoMap.erase
    GoMap.insert join
admitted_run = refl

abbrev stored_cluster : Cluster
stored_cluster = record cluster { groups = mutated ∷ [] }

stored_mutated : Stored mutated (view stored_cluster)
unfolding view find_group
stored_mutated = refl

plain : All IsPlain request.groups
unfolding has_byte
plain = ((refl, refl), ((refl, refl), tt))

mutated_run : default no_decoder (ok request) written ≡ (ok tt, mutated)
unfolding default GoMap.index GoMap.lookup
mutated_run = refl

reconcile_down-MayPatch_example :
    let w' = view (reconcile_down cluster_client check 10 mutated stored_cluster).1 in
    (w'.spec (ref (scaled statefulset) "shop" "db")
      ≡ (view stored_cluster).spec (ref (scaled statefulset) "shop" "db"))
    ⊎ MayPatch (view cluster) request (ref (scaled statefulset) "shop" "db")
unfolding view GoMap.index GoMap.lookup
reconcile_down-MayPatch_example =
    reconcile_down-MayPatch cluster_client ⊥ lawful check check faithful faithful 10 request
      no_decoder written mutated cluster stored_cluster refl refl plain (inl refl) mutated_run
      (warnings, cluster, inl admitted_run) refl refl refl refl stored_mutated
      (ref (scaled statefulset) "shop" "db")

validate_create_lem_example :
    let command = index mutated.annotations annotation_command in
    Ensures
      (λ ws c.
        (view c ≡ view cluster)
        × ((((command == "") ≡ true) × (ws ≡ []))
            ⊎ Passes (view cluster) request command mutated ws))
      (λ c. (view c ≡ view cluster) × (⊥ ⊎ Stops (view cluster) request command mutated))
      (validate_create cluster_client check (ok request) mutated cluster)
validate_create_lem_example =
    validate_create_lem cluster_client ⊥ lawful check faithful request mutated cluster

default-Identifies_example :
    Ensures (λ _ g. Identifies request written g) (λ _. ⊥) (default no_decoder (ok request) written)
unfolding GoMap.index GoMap.lookup
default-Identifies_example = default-Identifies no_decoder request written refl (inl refl) plain

collect_targets-patchable_example :
    Reads cluster_client ⊥
      (view stored_cluster)
      (λ es.
        (es ≡ map snapshot_of (patchable (view stored_cluster) request mutated))
        × (is_empty es ≡ true → targeted (view stored_cluster) "shop" mutated.targets ≡ []))
      (collect_targets cluster_client check mutated stored_cluster)
unfolding view GoMap.index GoMap.lookup
collect_targets-patchable_example =
    collect_targets-patchable cluster_client ⊥ lawful check check faithful faithful request
      no_decoder written mutated cluster stored_cluster refl refl plain (inl refl) mutated_run
      (warnings, cluster, inl admitted_run) refl refl

check_down_targets_lem_example :
    Reads cluster_client ⊥
      (view cluster)
      (λ t. t ≡ counted (down_answers (view cluster) request mutated))
      (check_down_targets cluster_client check mutated "ann" ("devs" ∷ "ops" ∷ []) cluster)
check_down_targets_lem_example =
    check_down_targets_lem cluster_client ⊥ lawful check faithful (view cluster) request mutated
      cluster refl
