-- ===== src/Tests/Cluster.antt =====
-- A cluster in memory as an instance of the client: calls fail only on missing objects.
pub mod Laws
use kshutdown.Base.{
  String, ◌≡◌, refl, sym, ◌⊎◌, inl, inr, Bool, true, false, ◌&&◌, ◌==◌, eq_iff, if◌then◌else◌,
  Bool-cases, Option-cases, Option, none, some, List, [], ◌∷◌, arith, All, Error, api, Result, ok,
  err, Effect,
}
use kshutdown.Base.GoMap.{GoMap, index}
use kshutdown.Api.{Int32, ShutdownGroup, annotation_command}
use kshutdown.Api.Client.{
  Client, World, IsLawful, Resource, Scaled, scaled, cronjob, deployment, statefulset, Spec, Ref,
  ref, Item, Review, Patched, GroupPatched,
}

pub record Cluster : Type 0 where
  pub groups : List ShutdownGroup
  pub replicas : Scaled → String → String → Option (Option Int32)
  pub suspends : String → String → Option (Option Bool)
  pub matching : Resource → String → GoMap → List String
  pub may : Review → Bool

abbrev pub same_scaled : Scaled → Scaled → Bool
same_scaled deployment deployment = true
same_scaled statefulset statefulset = true
same_scaled _ _ = false

abbrev pub at_key : String → String → String → String → Bool
at_key ns n ns' n' = (ns == ns') && (n == n')

unfoldable pub find_group : String → String → List ShutdownGroup → Option ShutdownGroup
find_group ns n [] = none
find_group ns n (g ∷ gs) = if at_key g.namespace g.name ns n then some g else find_group ns n gs

unfoldable pub spec_at : Cluster → (k : Resource) → String → String → Option (Spec k)
spec_at c (scaled k) ns n = c.replicas k ns n
spec_at c cronjob ns n = c.suspends ns n

abbrev pub add_item : (k : Resource) → String → Option (Spec k) → List (Item k) → List (Item k)
add_item k n none rest = rest
add_item k n (some v) rest = record { name = n; spec = v } ∷ rest

unfoldable pub items : Cluster → (k : Resource) → String → List String → List (Item k)
unfolding spec_at
items c k ns [] = []
items c k ns (n ∷ names) = add_item k n (spec_at c k ns n) (items c k ns names)

unfoldable pub view : Cluster → World
unfolding find_group spec_at items
view c = record {
  group = λ ns n. find_group ns n c.groups;
  spec = λ r. spec_at c r.resource r.namespace r.name;
  listing = λ k ns labels. items c k ns (c.matching k ns labels);
  allowed = c.may;
}

unfoldable pub answer : {A : Type 0} → Option A → Effect Cluster A
answer none c = (err (api "not found"), c)
answer (some a) c = (ok a, c)

unfoldable pub write : Cluster → (k : Resource) → String → String → Spec k → Cluster
write c (scaled k) ns n v = record c {
  replicas =
      λ k' ns' n'. if same_scaled k k' && at_key ns n ns' n' then some v else c.replicas k' ns' n';
}
write c cronjob ns n v = record c {
  suspends = λ ns' n'. if at_key ns n ns' n' then some v else c.suspends ns' n';
}

unfoldable pub put : ShutdownGroup → Effect Cluster ShutdownGroup
put g c = (ok g, record c { groups = g ∷ c.groups })

unfoldable pub patched :
    (k : Resource) → Option (Spec k) → String → String → Spec k → Effect Cluster (Unit {0})
unfolding write
patched k none ns n v c = (err (api "not found"), c)
patched k (some _) ns n v c = (ok tt, write c k ns n v)

abbrev pub cluster_client : Client
cluster_client = record {
  State = Cluster;
  get_group = λ ns n c. answer (find_group ns n c.groups) c;
  get = λ r c. answer (spec_at c r.resource r.namespace r.name) c;
  list = λ k ns labels c. (ok (items c k ns (c.matching k ns labels)), c);
  patch = λ r old new c.
      patched r.resource (spec_at c r.resource r.namespace r.name) r.namespace r.name new c;
  patch_status = λ base g. put (record base { status = g.status });
  patch_group = λ base g. put (record base { annotations = g.annotations });
  create_review = λ r c. (ok (c.may r), c);
  ignore_not_found = λ _. none;
  world = view;
}
