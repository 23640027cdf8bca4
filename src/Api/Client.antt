-- ===== src/Api/Client.antt =====
-- The Kubernetes client, which the code calls and does not implement: its operations are a
-- parameter, and what the code relies on is stated over the world that the API server shows.
use kshutdown.Base.{String, ◌≡◌, ◌⊎◌, Bool, Option, none, some, List, Error, Effect, Ensures, All}
use kshutdown.Base.GoMap.{GoMap, index}
use kshutdown.Api.{Int32, ShutdownGroup, ShutdownGroupStatus, annotation_command}

-- The types whose objects hold replicas, and all the workload types: `appsv1.Deployment`,
-- `appsv1.StatefulSet` and `batchv1.CronJob`.
pub data Scaled : Type 0 where
  deployment statefulset : Scaled

pub data Resource : Type 0 where
  scaled : Scaled → Resource
  cronjob : Resource

-- The part of an object's spec that the code reads and writes: the pointer `spec.replicas`, or
-- the pointer `spec.suspend`.
abbrev pub Spec : Resource → Type 0
Spec (scaled k) = Option Int32
Spec cronjob = Option Bool

-- The address of a workload.
pub record Ref : Type 0 where
  pub resource : Resource
  pub namespace : String
  pub name : String

abbrev pub ref : Resource → String → String → Ref
ref k ns n = record { resource = k; namespace = ns; name = n }

-- An item of a list.
pub record Item (k : Resource) : Type 0 where
  pub name : String
  pub spec : Spec k

-- `SubjectAccessReviewSpec`: may the user do this to that resource?
pub record Review : Type 0 where
  pub user : String
  pub groups : List String
  pub namespace : String
  pub group : String
  pub resource : String
  pub name : String
  pub verb : String

-- What the API server shows: the ShutdownGroups by namespace and name, the workloads, which of
-- them a namespace and a label selector list, and the answers of the authorizer.
pub record World : Type 0 where
  pub group : String → String → Option ShutdownGroup
  pub spec : (r : Ref) → Option (Spec r.resource)
  pub listing : (k : Resource) → String → GoMap → List (Item k)
  pub allowed : Review → Bool

-- `client.Client`, with a hidden state (the cluster, the network) from which a call takes its
-- answer. `patch` and the two patches of a group are given the object before and after the change,
-- as `client.MergeFrom` is; the latter return the object as the server answers it, which the
-- library writes back into the caller's variable. `ignore_not_found` is `client.IgnoreNotFound`.
pub record Client : Type 1 where
  pub State : Type 0
  pub get_group : String → String → Effect State ShutdownGroup
  pub get : (r : Ref) → Effect State (Spec r.resource)
  pub list : (k : Resource) → String → GoMap → Effect State (List (Item k))
  pub patch : (r : Ref) → Spec r.resource → Spec r.resource → Effect State (Unit {0})
  pub patch_status : ShutdownGroup → ShutdownGroup → Effect State ShutdownGroup
  pub patch_group : ShutdownGroup → ShutdownGroup → Effect State ShutdownGroup
  pub create_review : Review → Effect State Bool
  pub ignore_not_found : Error → Option Error
  pub world : State → World

-- A patch of one workload: it holds the new value, and nothing else has changed.
pub record Patched (r : Ref) (v : Spec r.resource) (w w' : World) : Type 0 where
  pub stored : w'.spec r ≡ some v
  pub others : (q : Ref) → (q ≡ r) ⊎ (w'.spec q ≡ w.spec q)
  pub group_same : w'.group ≡ w.group
  pub allowed_same : w'.allowed ≡ w.allowed

-- A write of one ShutdownGroup.
pub record GroupPatched (g : ShutdownGroup) (w w' : World) : Type 0 where
  pub stored : w'.group g.namespace g.name ≡ some g
  pub others :
      (ns n : String) → ((ns ≡ g.namespace) × (n ≡ g.name)) ⊎ (w'.group ns n ≡ w.group ns n)
  pub spec_same : w'.spec ≡ w.spec
  pub allowed_same : w'.allowed ≡ w.allowed

-- The documented behaviour of the API server, where nobody else writes during a call: a read
-- answers from the world and leaves it; a call that fails leaves it too; a patch changes the
-- addressed object alone; a patch of the status subresource changes the status alone, and a
-- patch of the object leaves the status. The last is stated for objects without a command, since
-- the admission webhooks have a say in the others. `MayFail` is what a failed call shows: with
-- `Unit` any call can fail at any time, with `⊥` only a read of a missing object fails.
pub record IsLawful (C : Client) (MayFail : Type 0) : Type 0 where
  pub get_group_lem :
      (ns n : String) (s : C.State)
      → Ensures
          (λ g s'.
            (C.world s' ≡ C.world s)
            × ((C.world s).group ns n ≡ some g)
            × (g.namespace ≡ ns)
            × (g.name ≡ n))
          (λ s'. (C.world s' ≡ C.world s) × (MayFail ⊎ ((C.world s).group ns n ≡ none)))
          (C.get_group ns n s)
  pub get_lem :
      (r : Ref) (s : C.State)
      → Ensures
          (λ v s'. (C.world s' ≡ C.world s) × ((C.world s).spec r ≡ some v))
          (λ s'. (C.world s' ≡ C.world s) × (MayFail ⊎ ((C.world s).spec r ≡ none)))
          (C.get r s)
  pub list_lem :
      (k : Resource) (ns : String) (labels : GoMap) (s : C.State)
      → Ensures
          (λ items s'. (C.world s' ≡ C.world s) × (items ≡ (C.world s).listing k ns labels))
          (λ s'. (C.world s' ≡ C.world s) × MayFail)
          (C.list k ns labels s)
  pub listing_lem :
      (s : C.State) (k : Resource) (ns : String) (labels : GoMap)
      → All
          (λ (i : Item k). (C.world s).spec (ref k ns i.name) ≡ some i.spec)
          ((C.world s).listing k ns labels)
  pub patch_lem :
      (r : Ref) (old new : Spec r.resource) (s : C.State)
      → (C.world s).spec r ≡ some old
      → Ensures
          (λ _ s'. Patched r new (C.world s) (C.world s'))
          (λ s'. (C.world s' ≡ C.world s) × MayFail)
          (C.patch r old new s)
  pub patch_status_lem :
      (base : ShutdownGroup) (status : ShutdownGroupStatus) (s : C.State)
      → (C.world s).group base.namespace base.name ≡ some base
      → let g : ShutdownGroup = record base { status = status } in
        Ensures
          (λ g' s'. (g' ≡ g) × GroupPatched g (C.world s) (C.world s'))
          (λ s'. (C.world s' ≡ C.world s) × MayFail)
          (C.patch_status base g s)
  pub patch_group_lem :
      (base : ShutdownGroup) (annotations : GoMap) (s : C.State)
      → (C.world s).group base.namespace base.name ≡ some base
      → index annotations annotation_command ≡ ""
      → let g : ShutdownGroup = record base { annotations = annotations } in
        Ensures
          (λ g' s'. (g' ≡ g) × GroupPatched g (C.world s) (C.world s'))
          (λ s'. (C.world s' ≡ C.world s) × MayFail)
          (C.patch_group base g s)
  pub create_review_lem :
      (r : Review) (s : C.State)
      → Ensures
          (λ b s'. (C.world s' ≡ C.world s) × (b ≡ (C.world s).allowed r))
          (λ s'. (C.world s' ≡ C.world s) × MayFail)
          (C.create_review r s)
