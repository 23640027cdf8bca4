-- ===== src/Tests/Data.antt =====
-- A group and a cluster for the examples.
use kshutdown.Base.{
  String, Bool, Option, none, some, List, [], ◌∷◌, ◌==◌, if◌then◌else◌, true, false,
}
use kshutdown.Base.GoMap.{GoMap}
use kshutdown.Api.{
  Int32, ShutdownGroup, ResourceSnapshot, empty_status, annotation_command, annotation_operator,
  annotation_reason, command_down,
}
use kshutdown.Api.Client.{IsLawful, Resource, Scaled, scaled, cronjob, deployment, statefulset}
use kshutdown.Authz.{Check, IsFaithful, check_for, check_for-IsFaithful}
use kshutdown.Tests.Cluster.{Cluster, cluster_client}
use kshutdown.Tests.Cluster.Laws.{cluster-IsLawful}

abbrev replicas : Scaled → String → String → Option (Option Int32)
replicas deployment ns n =
    if n == "api" then some none else (if n == "web" then some (some 3) else none)
replicas statefulset ns n = if n == "db" then some (some 2) else none

abbrev suspends : String → String → Option (Option Bool)
suspends ns n = if n == "report" then some none else (if n == "old" then some (some true) else none)

abbrev matching : Resource → String → GoMap → List String
matching (scaled deployment) ns labels = "api" ∷ "web" ∷ []
matching (scaled statefulset) ns labels = "db" ∷ []
matching cronjob ns labels = "report" ∷ "old" ∷ []

abbrev pub group : ShutdownGroup
group = record {
  namespace = "shop";
  name = "pay";
  deleting = false;
  annotations =
      (annotation_command, command_down)
      ∷ (annotation_reason, "incident")
      ∷ (annotation_operator, "ann")
      ∷ [];
  targets = record { namespace = ""; label_selector = ("app", "pay") ∷ [] } ∷ [];
  status = empty_status;
}

abbrev pub cluster : Cluster
cluster = record {
  groups = group ∷ [];
  replicas = replicas;
  suspends = suspends;
  matching = matching;
  may = λ r. r.resource == "deployments";
}

abbrev pub check : Check cluster_client
check = check_for cluster_client

abbrev pub lawful : IsLawful cluster_client ⊥
lawful = cluster-IsLawful ⊥

abbrev pub faithful : IsFaithful cluster_client ⊥ check
faithful = check_for-IsFaithful cluster_client ⊥ lawful

abbrev pub snapshot : List ResourceSnapshot
snapshot =
    record { namespace = "shop"; name = "api"; kind = "Deployment"; previous_replicas = 1 }
    ∷ record { namespace = "shop"; name = "web"; kind = "Deployment"; previous_replicas = 3 }
    ∷ record { namespace = "shop"; name = "db"; kind = "StatefulSet"; previous_replicas = 2 }
    ∷ record { namespace = "shop"; name = "report"; kind = "CronJob"; previous_replicas = 0 }
    ∷ record { namespace = "shop"; name = "old"; kind = "CronJob"; previous_replicas = 1 }
    ∷ []
