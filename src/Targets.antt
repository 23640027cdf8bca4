-- ===== src/Targets.antt =====
-- The loops over the workloads that a ShutdownGroup's targets select. Three functions of the
-- program hold the same loops round different bodies: `collectTargets`
-- (internal/controller/shutdowngroup_controller.go), `checkDownTargets`
-- (internal/webhook/shutdowngroup_webhook.go) and `checkDownPermissions`
-- (cmd/kubectl-kshutdown/down.go). Here the body is an argument.
pub mod Laws
use kshutdown.Base.{
  String, ◌<>◌, ◌==◌, if◌then◌else◌, List, [], ◌∷◌, ◌++◌, Effect, pure, context, ◌>>=◌,
}
use kshutdown.Base.GoMap.{GoMap}
use kshutdown.Api.{Target}
use kshutdown.Api.Client.{Client, World, Resource, scaled, cronjob, deployment, statefulset, Item}

-- The value of `kind` in a snapshot.
abbrev pub kind_of : Resource → String
kind_of (scaled deployment) = "Deployment"
kind_of (scaled statefulset) = "StatefulSet"
kind_of cronjob = "CronJob"

-- The API group and the resource's name, as a SubjectAccessReview wants them.
abbrev pub api_group : Resource → String
api_group (scaled _) = "apps"
api_group cronjob = "batch"

abbrev pub resource_name : Resource → String
resource_name (scaled deployment) = "deployments"
resource_name (scaled statefulset) = "statefulsets"
resource_name cronjob = "cronjobs"

-- `ns := target.Namespace; if ns == "" { ns = sg.Namespace }`
abbrev pub target_namespace : String → Target → String
target_namespace own t = if t.namespace == "" then own else t.namespace

-- A workload that a target selects.
pub record Workload : Type 0 where
  pub resource : Resource
  pub namespace : String
  pub item : Item resource

module _ (C : Client) {A : Type 0} (visit : Workload → A → Effect C.State A) where
  unfoldable pub for_items : (k : Resource) → String → List (Item k) → A → Effect C.State A
  for_items k ns [] acc = pure acc
  for_items k ns (i ∷ items) acc =
      visit (record { resource = k; namespace = ns; item = i }) acc >>= for_items k ns items

  -- List the objects of one type, and loop over them.
  unfoldable pub for_resource : Resource → String → GoMap → A → Effect C.State A
  unfolding for_items
  for_resource k ns labels acc = do
    items ← context ("listing " <> resource_name k <> " in " <> ns) (C.list k ns labels)
    for_items k ns items acc

  unfoldable pub for_target : String → Target → A → Effect C.State A
  unfolding for_resource
  for_target own t acc = do
    let ns = target_namespace own t
    a ← for_resource (scaled deployment) ns t.label_selector acc
    b ← for_resource (scaled statefulset) ns t.label_selector a
    for_resource cronjob ns t.label_selector b

  unfoldable pub for_targets : String → List Target → A → Effect C.State A
  unfolding for_target
  for_targets own [] acc = pure acc
  for_targets own (t ∷ ts) acc = for_target own t acc >>= for_targets own ts

-- The workloads that the loops visit, in their order, read off the world.
workloads_of : (k : Resource) → String → List (Item k) → List Workload
workloads_of k ns [] = []
workloads_of k ns (i ∷ items) =
    record { resource = k; namespace = ns; item = i } ∷ workloads_of k ns items

selected : World → Resource → String → GoMap → List Workload
unfolding workloads_of
selected w k ns labels = workloads_of k ns (w.listing k ns labels)

target_workloads : World → String → Target → List Workload
unfolding selected
target_workloads w own t =
    selected w (scaled deployment) (target_namespace own t) t.label_selector
    ++ (selected w (scaled statefulset) (target_namespace own t) t.label_selector
        ++ selected w cronjob (target_namespace own t) t.label_selector)

unfoldable pub targeted : World → String → List Target → List Workload
unfolding target_workloads
targeted w own [] = []
targeted w own (t ∷ ts) = target_workloads w own t ++ targeted w own ts
