-- ===== src/Controller/Collect.antt =====
-- `collectTargets`: the snapshot of the targeted workloads.
pub mod Laws
use kshutdown.Base.{
  ℕ, String, ◌<>◌, ◌==◌, if◌then◌else◌, Bool, true, false, not, ◌&&◌, Option, none, some, List, [],
  ◌∷◌, ◌++◌, Effect, pure, context, ◌>>=◌,
}
use kshutdown.Base.Text.{split}
use kshutdown.Base.GoMap.{index}
use kshutdown.Api.{
  Int32, ShutdownGroup, ResourceSnapshot, annotation_partial, annotation_operator,
  annotation_operator_groups,
}
use kshutdown.Api.Client.{Client, Review, Resource, scaled, cronjob, Spec}
use kshutdown.Authz.{Check}
use kshutdown.Targets.{Workload, kind_of, api_group, resource_name, for_targets}

-- The replicas that the snapshot keeps: 1 where the pointer is nil, and for a CronJob 1 if it is
-- suspended already.
abbrev pub previous_replicas : (k : Resource) → Spec k → Int32
previous_replicas (scaled _) none = 1
previous_replicas (scaled _) (some n) = n
previous_replicas cronjob none = 0
previous_replicas cronjob (some false) = 0
previous_replicas cronjob (some true) = 1

abbrev pub snapshot_of : Workload → ResourceSnapshot
snapshot_of x = record {
  namespace = x.namespace;
  name = x.item.name;
  kind = kind_of x.resource;
  previous_replicas = previous_replicas x.resource x.item.spec;
}

-- `if g := …; g != "" { groups = strings.Split(g, ",") }`
unfoldable pub parse_groups : String → List String
unfolding split
parse_groups g = if g == "" then [] else split b',' g

-- Whether permissions are checked: partial mode with a known operator.
abbrev pub partial_mode : ShutdownGroup → Bool
partial_mode sg =
    (index sg.annotations annotation_partial == "true")
    && not (index sg.annotations annotation_operator == "")

-- The review of a patch of a workload by a user.
abbrev pub patch_review : String → List String → Workload → Review
patch_review user groups x = record {
  user = user;
  groups = groups;
  namespace = x.namespace;
  group = api_group x.resource;
  resource = resource_name x.resource;
  name = x.item.name;
  verb = "patch";
}

abbrev pub describe : Workload → String
describe x = kind_of x.resource <> " " <> x.namespace <> "/" <> x.item.name

module _ (C : Client) (check : Check C) where
  -- One round of the three inner loops.
  unfoldable pub collect_one :
      Bool
      → String
      → List String
      → Workload
      → List ResourceSnapshot
      → Effect C.State (List ResourceSnapshot)
  collect_one false operator groups x acc = pure (acc ++ (snapshot_of x ∷ []))
  collect_one true operator groups x acc = do
    allowed ←
        context ("checking patch permission for " <> describe x)
          (check (patch_review operator groups x))
    pure (if allowed then acc ++ (snapshot_of x ∷ []) else acc)

  unfoldable pub collect_targets : ShutdownGroup → Effect C.State (List ResourceSnapshot)
  unfolding collect_one parse_groups for_targets
  collect_targets sg =
      let operator = index sg.annotations annotation_operator in
      let groups = parse_groups (index sg.annotations annotation_operator_groups) in
      for_targets C (collect_one (partial_mode sg) operator groups) sg.namespace sg.targets []
