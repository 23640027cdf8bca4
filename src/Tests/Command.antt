-- ===== src/Tests/Command.antt =====
-- The plugin's check beside the validator's, on the example cluster.
use kshutdown.Base.{All, inr, true, false, String, ◌≡◌, refl, List, [], ◌∷◌, Result, ok}
use kshutdown.Api.{ShutdownGroup}
use kshutdown.Authz.{check_for}
use kshutdown.Authz.Caller.{Caller, IsCaller, as_review}
use kshutdown.Webhook.{
  AdmissionRequest, Tally, with_identity, default, check_down_targets, check_up_targets,
}
use kshutdown.System.Triggered.{IsCarriedOut, down_found-IsCarriedOut}
use kshutdown.Webhook.Mutator.{IsPlain, Writes}
use kshutdown.Base.GoMap.{index, lookup, insert, erase}
use kshutdown.Base.Text.Laws.{has_byte}
use kshutdown.Command.{
  Flags, triggered, asking_down, down_found, check_down_permissions, check_snapshot,
}
use kshutdown.Command.Laws.{
  check_down_permissions-check_down_targets, check_snapshot-check_up_targets,
}
use kshutdown.Tests.Cluster.{Cluster, put, view, items, spec_at, cluster_client}
use kshutdown.Tests.Data.{group, cluster, check, lawful, faithful}

abbrev ann : AdmissionRequest
ann = record { operation = "CREATE"; username = "ann"; groups = "devs" ∷ []; old_object = "" }

abbrev pub caller : Caller cluster_client
caller = record {
  create_self_review = λ r c. (ok (c.may (as_review "ann" ("devs" ∷ []) r)), c);
  create_subject_review = λ c. (ok "ann", c);
}

pub caller-IsCaller : IsCaller cluster_client ⊥ caller "ann" ("devs" ∷ [])
unfolding view
caller-IsCaller = record {
  self_review_lem = λ r c. (refl, refl);
  subject_review_lem = λ c. (refl, refl);
}

abbrev forbidden : List String
forbidden = "StatefulSet shop/db" ∷ "CronJob shop/report" ∷ "CronJob shop/old" ∷ []

abbrev tallied : Tally
tallied = record { forbidden = forbidden; authorized = 2 }

listed_run : check_down_permissions cluster_client caller group cluster ≡ (ok forbidden, cluster)
unfolding check_down_permissions items spec_at
listed_run = refl

counted_run :
    check_down_targets cluster_client check group "ann" ("devs" ∷ []) cluster
    ≡ (ok tallied, cluster)
unfolding check_down_targets check_for items spec_at
counted_run = refl

check_down_permissions-check_down_targets_example : tallied.forbidden ≡ forbidden
check_down_permissions-check_down_targets_example =
    check_down_permissions-check_down_targets cluster_client ⊥ lawful caller ann caller-IsCaller
      check faithful group forbidden tallied cluster cluster cluster cluster listed_run refl
      counted_run

abbrev saved : ShutdownGroup
saved = record group {
  status = record group.status {
    snapshot =
        record { namespace = "shop"; name = "web"; kind = "Deployment"; previous_replicas = 3 }
        ∷ record { namespace = "shop"; name = "db"; kind = "StatefulSet"; previous_replicas = 2 }
        ∷ [];
  };
}

abbrev up_tally : Tally
up_tally = record { forbidden = "StatefulSet shop/db" ∷ []; authorized = 1 }

snapshot_run :
    check_snapshot cluster_client caller saved.status.snapshot [] cluster
    ≡ (ok ("StatefulSet shop/db" ∷ []), cluster)
unfolding check_snapshot
snapshot_run = refl

up_run :
    check_up_targets cluster_client check saved "ann" ("devs" ∷ []) cluster ≡ (ok up_tally, cluster)
unfolding check_up_targets check_for
up_run = refl

check_snapshot-check_up_targets_example : up_tally.forbidden ≡ "StatefulSet shop/db" ∷ []
check_snapshot-check_up_targets_example =
    check_snapshot-check_up_targets cluster_client ⊥ lawful caller ann caller-IsCaller check
      faithful saved ("StatefulSet shop/db" ∷ []) up_tally cluster cluster cluster cluster
      snapshot_run refl up_run

-- A cluster where everything is permitted.
abbrev open_cluster : Cluster
open_cluster = record cluster { may = λ r. true }

abbrev flags : Flags
flags = record { reason = "incident"; partial = false; dry = false }

-- The request that the plugin's patch makes.
abbrev patching : AdmissionRequest
patching = record ann { operation = "UPDATE"; old_object = "{}" }

-- The group before, without a command.
abbrev idle : ShutdownGroup
idle = record group { annotations = [] }

abbrev sent : ShutdownGroup
sent = asking_down "incident" "ann" false idle

idle_cluster : Cluster
idle_cluster = (down_found cluster_client caller flags "shop" "pay" idle open_cluster).1

idle_run :
    down_found cluster_client caller flags "shop" "pay" idle open_cluster
    ≡ (ok triggered, idle_cluster)
unfolding idle_cluster down_found items spec_at put
idle_run = refl

plain : All IsPlain ann.groups
unfolding has_byte
plain = ((refl, refl), tt)

decode : String → Result ShutdownGroup
decode text = ok idle

writes : Writes decode patching sent
unfolding decode index lookup insert erase
writes = inr (idle, refl, refl)

sent_run : default decode (ok patching) sent ≡ (ok tt, with_identity patching sent)
unfolding decode default index lookup insert erase
sent_run = refl

-- The object as the webhooks leave it, stored.
abbrev sent_cluster : Cluster
sent_cluster = record open_cluster { groups = with_identity patching sent ∷ [] }

down_found-IsCarriedOut_example :
    IsCarriedOut cluster_client ⊥ lawful
      (λ h. h)
      check
      check
      faithful
      faithful
      caller
      patching
      caller-IsCaller
      40
      "incident"
      "shop"
      "pay"
      idle
      (with_identity patching sent)
      open_cluster
      idle_cluster
      sent_cluster
unfolding view index lookup
down_found-IsCarriedOut_example =
    down_found-IsCarriedOut cluster_client ⊥ lawful (λ h. h) check check faithful faithful caller
      patching caller-IsCaller 40 decode flags "shop" "pay" idle (with_identity patching sent)
      open_cluster idle_cluster sent_cluster refl idle_run refl plain writes sent_run refl refl refl
      refl refl
