-- ===== src/Targets/Laws.antt =====
-- What the loops over the targets compute.
use kshutdown.Base.{
  String, ◌≡◌, refl, some, List, [], ◌∷◌, ◌++◌, foldl, foldl-append, Effect, Ensures, Ensures-bind,
  Ensures-mono, Ensures-rewrap, context, bind, All,
}
use kshutdown.Base.GoMap.{GoMap}
use kshutdown.Api.{Target}
use kshutdown.Api.Client.{
  Client, World, IsLawful, Resource, scaled, cronjob, deployment, statefulset, Item, ref,
}
use kshutdown.Targets.{
  Workload, for_items, for_resource, for_target, for_targets, target_namespace, workloads_of,
  selected, target_workloads, targeted,
}

-- If the body only reads, and computes `f` in the world `w`, then the loops fold `f` over the
-- targeted workloads, or fail and have only read.
module _ (C : Client) (MayFail : Type 0) (L : IsLawful C MayFail) (w : World) {A : Type 0}
    (visit : Workload → A → Effect C.State A) (f : A → Workload → A)
    (visits : (x : Workload) (acc : A) (s : C.State)
      → C.world s ≡ w
      → Ensures
          (λ acc' s'. (C.world s' ≡ w) × (acc' ≡ f acc x))
          (λ s'. (C.world s' ≡ w) × MayFail)
          (visit x acc s)) where
  -- A loop's result: the fold of `f` over `xs`.
  abbrev Folds : A → List Workload → A → C.State → Type 0
  Folds acc xs acc' s' = (C.world s' ≡ w) × (acc' ≡ foldl f acc xs)

  abbrev Stays : C.State → Type 0
  Stays s' = (C.world s' ≡ w) × MayFail

  for_items_lem :
      (k : Resource) (ns : String) (items : List (Item k)) (acc : A) (s : C.State)
      → C.world s ≡ w
      → Ensures (Folds acc (workloads_of k ns items)) Stays (for_items C visit k ns items acc s)
  unfolding for_items workloads_of
  for_items_lem k ns [] acc s h = (h, refl)
  for_items_lem k ns (i ∷ items) acc s h =
      Ensures-bind _ Stays _ Stays (visit x acc s) _ (visits x acc s h)
        (λ acc' s' p. rw p.1 (for_items_lem k ns items (f acc x) s' p.0)) (λ s' q. q)
    where
      x : Workload
      x = record { resource = k; namespace = ns; item = i }

  for_resource_lem :
      (k : Resource) (ns : String) (labels : GoMap) (acc : A) (s : C.State)
      → C.world s ≡ w
      → Ensures (Folds acc (selected w k ns labels)) Stays (for_resource C visit k ns labels acc s)
  unfolding for_resource selected
  for_resource_lem k ns labels acc s h =
      Ensures-bind (λ items s'. (C.world s' ≡ w) × (items ≡ w.listing k ns labels)) Stays _ Stays
        (context _ (C.list k ns labels) s) _
        (Ensures-rewrap _ Stays _ (C.list k ns labels s) (rw h at (L.list_lem k ns labels s)))
        (λ items s' p. rw p.1 (for_items_lem k ns (w.listing k ns labels) acc s' p.0)) (λ s' q. q)

  -- One loop after another folds over the concatenation.
  Folds-bind :
      (xs ys : List Workload) (acc : A) (m : Effect C.State A) (g : A → Effect C.State A)
      (s : C.State)
      → Ensures (Folds acc xs) Stays (m s)
      → ((a : A) (s' : C.State) → C.world s' ≡ w → Ensures (Folds a ys) Stays (g a s'))
      → Ensures (Folds acc (xs ++ ys)) Stays (bind (m s) g)
  Folds-bind xs ys acc m g s h k =
      Ensures-bind (Folds acc xs) Stays _ Stays (m s) g h
        (λ a s' p.
          Ensures-mono (Folds a ys) Stays _ Stays (g a s') (k a s' p.0)
            (λ b s'' q. (q.0, rw (foldl-append, ← p.1) q.1)) (λ s'' q. q))
        (λ s' q. q)

  for_target_lem :
      (own : String) (t : Target) (acc : A) (s : C.State)
      → C.world s ≡ w
      → Ensures (Folds acc (target_workloads w own t)) Stays (for_target C visit own t acc s)
  unfolding for_target target_workloads
  for_target_lem own t acc s h =
      Folds-bind xs (ys ++ zs) acc (for_resource C visit (scaled deployment) ns ls acc) _ s
        (for_resource_lem (scaled deployment) ns ls acc s h)
        λ a s₁ h₁.
          Folds-bind ys zs a (for_resource C visit (scaled statefulset) ns ls a) _ s₁
            (for_resource_lem (scaled statefulset) ns ls a s₁ h₁)
            (λ b s₂ h₂. for_resource_lem cronjob ns ls b s₂ h₂)
    where
      ns : String
      ns = target_namespace own t

      ls : GoMap
      ls = t.label_selector

      xs : List Workload
      xs = selected w (scaled deployment) ns ls

      ys : List Workload
      ys = selected w (scaled statefulset) ns ls

      zs : List Workload
      zs = selected w cronjob ns ls

  pub for_targets_lem :
      (own : String) (ts : List Target) (acc : A) (s : C.State)
      → C.world s ≡ w
      → Ensures (Folds acc (targeted w own ts)) Stays (for_targets C visit own ts acc s)
  unfolding for_targets targeted
  for_targets_lem own [] acc s h = (h, refl)
  for_targets_lem own (t ∷ ts) acc s h =
      Folds-bind (target_workloads w own t) (targeted w own ts) acc (for_target C visit own t acc) _
        s (for_target_lem own t acc s h) (λ a s' h'. for_targets_lem own ts a s' h')

-- Every targeted workload is in the world, with the spec that the listing shows.
abbrev pub IsPresent : World → Workload → Type 0
IsPresent w x = w.spec (ref x.resource x.namespace x.item.name) ≡ some x.item.spec

All-append : {A : Type 0} (P : A → Type 0) (xs ys : List A) → All P xs → All P ys → All P (xs ++ ys)
All-append P [] ys h k = k
All-append P (x ∷ xs) ys h k = (h.0, All-append P xs ys h.1 k)

module _ (C : Client) (MayFail : Type 0) (L : IsLawful C MayFail) (s : C.State) where
  workloads_of-IsPresent :
      (k : Resource) (ns : String) (items : List (Item k))
      → All (λ (i : Item k). (C.world s).spec (ref k ns i.name) ≡ some i.spec) items
      → All (IsPresent (C.world s)) (workloads_of k ns items)
  unfolding workloads_of
  workloads_of-IsPresent k ns [] h = tt
  workloads_of-IsPresent k ns (i ∷ items) h = (h.0, workloads_of-IsPresent k ns items h.1)

  selected-IsPresent :
      (k : Resource) (ns : String) (ls : GoMap)
      → All (IsPresent (C.world s)) (selected (C.world s) k ns ls)
  unfolding selected
  selected-IsPresent k ns ls = workloads_of-IsPresent k ns _ (L.listing_lem s k ns ls)

  pub targeted-IsPresent :
      (own : String) (ts : List Target) → All (IsPresent (C.world s)) (targeted (C.world s) own ts)
  unfolding targeted target_workloads
  targeted-IsPresent own [] = tt
  targeted-IsPresent own (t ∷ ts) =
      All-append _ _ _
        (All-append _ _ _ (selected-IsPresent _ _ _)
          (All-append _ _ _ (selected-IsPresent _ _ _) (selected-IsPresent _ _ _)))
        (targeted-IsPresent own ts)

-- The targeted workloads depend on the listings only.
pub targeted-listing :
    (w w' : World) (own : String) (ts : List Target)
    → w'.listing ≡ w.listing
    → targeted w' own ts ≡ targeted w own ts
unfolding targeted target_workloads selected
targeted-listing w w' own [] same = refl
targeted-listing w w' own (t ∷ ts) same = rw (same, targeted-listing w w' own ts same) refl
