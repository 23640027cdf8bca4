-- ===== src/Tests/Startup.antt =====
-- A startup that is admitted, and one that stops at a workload that was deleted.
use kshutdown.Base.{none, Ensures, String, ◌≡◌, refl, ◌⊎◌, inl, [], ◌∷◌, All, Result, ok}
use kshutdown.Controller.Workloads.Levels.{Names}
use kshutdown.Controller.Reconcile.Frame.{Frame}
use kshutdown.Controller.Reconcile.Missing.{reconcile_up-missing}
use kshutdown.Base.GoMap
use kshutdown.Base.Text.Laws.{has_byte}
use kshutdown.Api.{
  ResourceSnapshot, ShutdownGroup, annotation_command, annotation_operator, command_up, state_down,
}
use kshutdown.Api.Client.{ref, scaled, deployment}
use kshutdown.Authz.{check_for}
use kshutdown.Controller.Group.Laws.{Stored}
use kshutdown.Controller.Reconcile.{reconcile_up}
use kshutdown.Webhook.{AdmissionRequest, with_identity, default, validate_create}
use kshutdown.Webhook.Mutator.{IsPlain}
use kshutdown.Webhook.Admission.{MayPatch}
use kshutdown.Webhook.Startup.{reconcile_up-MayPatch}
use kshutdown.Tests.Cluster.{spec_at, Cluster, find_group, view, cluster_client}
use kshutdown.Tests.Data.{group, cluster, check, lawful, faithful}

abbrev request : AdmissionRequest
request = record { operation = "CREATE"; username = "bob"; groups = "devs" ∷ []; old_object = "" }

-- The snapshot has two deployments, which is what the user may patch.
abbrev written : ShutdownGroup
written = record group {
  annotations = (annotation_command, command_up) ∷ (annotation_operator, "root") ∷ [];
  status = record group.status {
    state = state_down;
    snapshot =
        record { namespace = "shop"; name = "api"; kind = "Deployment"; previous_replicas = 1 }
        ∷ record { namespace = "shop"; name = "web"; kind = "Deployment"; previous_replicas = 3 }
        ∷ [];
  };
}

abbrev mutated : ShutdownGroup
mutated = with_identity request written

abbrev no_decoder : String → Result ShutdownGroup
no_decoder raw = ok group

admitted_run : validate_create cluster_client check (ok request) mutated cluster ≡ (ok [], cluster)
unfolding validate_create check_for view GoMap.index GoMap.lookup GoMap.erase GoMap.insert
admitted_run = refl

abbrev stored_cluster : Cluster
stored_cluster = record cluster { groups = mutated ∷ [] }

stored : Stored mutated (view stored_cluster)
unfolding view find_group
stored = refl

plain : All IsPlain request.groups
unfolding has_byte
plain = ((refl, refl), tt)

mutated_run : default no_decoder (ok request) written ≡ (ok tt, mutated)
unfolding default GoMap.index GoMap.lookup
mutated_run = refl

reconcile_up-MayPatch_example :
    let w' = view (reconcile_up cluster_client check 10 mutated stored_cluster).1 in
    (w'.spec (ref (scaled deployment) "shop" "web")
      ≡ (view stored_cluster).spec (ref (scaled deployment) "shop" "web"))
    ⊎ MayPatch (view cluster) request (ref (scaled deployment) "shop" "web")
unfolding GoMap.index GoMap.lookup
reconcile_up-MayPatch_example =
    reconcile_up-MayPatch cluster_client ⊥ lawful check check faithful 10 request no_decoder written
      mutated cluster stored_cluster refl plain (inl refl) mutated_run
      ([], cluster, inl admitted_run) stored (ref (scaled deployment) "shop" "web")

-- A snapshot whose second entry names a deployment that is not there.
abbrev first : ResourceSnapshot
first = record { namespace = "shop"; name = "web"; kind = "Deployment"; previous_replicas = 3 }

abbrev deleted : ResourceSnapshot
deleted = record { namespace = "shop"; name = "gone"; kind = "Deployment"; previous_replicas = 2 }

abbrev last : ResourceSnapshot
last = record { namespace = "shop"; name = "db"; kind = "StatefulSet"; previous_replicas = 2 }

abbrev halted : ShutdownGroup
halted = record written {
  status = record written.status { snapshot = first ∷ deleted ∷ last ∷ [] };
}

deleted_missing : (view cluster).spec (ref (scaled deployment) "shop" "gone") ≡ none
unfolding view spec_at
deleted_missing = refl

others : All (λ b. Names (ref (scaled deployment) "shop" "gone") b → ⊥) (first ∷ [])
others = ((λ h. cc), tt)

reconcile_up-missing_example :
    Ensures
      (λ _ _. ⊥)
      (λ c. Frame (first ∷ []) (view cluster) (view c))
      (reconcile_up cluster_client check 20 halted cluster)
reconcile_up-missing_example =
    reconcile_up-missing cluster_client ⊥ lawful check 20 halted (first ∷ []) (last ∷ []) deleted
      deployment cluster refl refl refl deleted_missing others
