-- ===== src/Tests/Cluster/Laws.antt =====
-- The cluster in memory meets the assumptions on the client.
use kshutdown.Base.{
  String, ◌≡◌, refl, sym, ap, ◌⊎◌, inl, inr, true, false, eq_iff, Bool-cases, Option, none, some,
  List, [], ◌∷◌, arith, All, Ensures,
}
use kshutdown.Api.{ShutdownGroup}
use kshutdown.Api.Client.{
  IsLawful, Resource, scaled, cronjob, deployment, statefulset, Spec, Ref, ref, Item, Patched,
  GroupPatched,
}
use kshutdown.Tests.Cluster.{
  Cluster, at_key, find_group, spec_at, add_item, items, view, answer, write, put, patched,
  cluster_client,
}

module _ (MayFail : Type 0) where
  answer_lem :
      {A : Type 0} (o : Option A) (c : Cluster)
      → Ensures
          (λ v c'. (view c' ≡ view c) × (o ≡ some v))
          (λ c'. (view c' ≡ view c) × (MayFail ⊎ (o ≡ none)))
          (answer o c)
  unfolding answer
  answer_lem none c = (refl, inr refl)
  answer_lem (some v) c = (refl, refl)

  find_group_key :
      (ns n : String) (gs : List ShutdownGroup) (g : ShutdownGroup)
      → find_group ns n gs ≡ some g
      → (g.namespace ≡ ns) × (g.name ≡ n)
  unfolding find_group
  find_group_key ns n [] g h = cc
  find_group_key ns n (x ∷ gs) g h =
      ground (arith, eq_iff x.namespace ns, eq_iff x.name n, find_group_key ns n gs g)

  get_group_lem :
      (ns n : String) (o : Option ShutdownGroup) (c : Cluster)
      → find_group ns n c.groups ≡ o
      → Ensures
          (λ g c'.
            (view c' ≡ view c) × ((view c).group ns n ≡ some g) × (g.namespace ≡ ns) × (g.name ≡ n))
          (λ c'. (view c' ≡ view c) × (MayFail ⊎ ((view c).group ns n ≡ none)))
          (answer o c)
  unfolding answer view
  get_group_lem ns n none c h = (refl, inr h)
  get_group_lem ns n (some g) c h =
      let key = find_group_key ns n c.groups g h in (refl, h, key.0, key.1)

  listing_lem :
      (c : Cluster) (k : Resource) (ns : String) (names : List String)
      → All (λ (i : Item k). spec_at c k ns i.name ≡ some i.spec) (items c k ns names)
  unfolding items
  listing_lem c k ns [] = tt
  listing_lem c k ns (n ∷ names) = add (spec_at c k ns n) refl (listing_lem c k ns names)
    where
      add :
          (o : Option (Spec k))
          → spec_at c k ns n ≡ o
          → All (λ (i : Item k). spec_at c k ns i.name ≡ some i.spec) (items c k ns names)
          → All
              (λ (i : Item k). spec_at c k ns i.name ≡ some i.spec)
              (add_item k n o (items c k ns names))
      add none e rest = rest
      add (some v) e rest = (e, rest)

  at_key_eq : (a b c d : String) → at_key a b c d ≡ true → (a ≡ c) × (b ≡ d)
  at_key_eq a b c d h = ground (arith, eq_iff a c, eq_iff b d)

  at_key_refl : (a b : String) → at_key a b a b ≡ true
  at_key_refl a b = ground (arith, eq_iff a a, eq_iff b b)

  spec_at-write_self :
      (c : Cluster) (k : Resource) (ns n : String) (v : Spec k)
      → spec_at (write c k ns n v) k ns n ≡ some v
  unfolding spec_at write
  spec_at-write_self c (scaled deployment) ns n v = rw (at_key_refl ns n) refl
  spec_at-write_self c (scaled statefulset) ns n v = rw (at_key_refl ns n) refl
  spec_at-write_self c cronjob ns n v = rw (at_key_refl ns n) refl

  -- Two addresses in one type are the same, or a write at one leaves the other.
  ref_or_other :
      (k : Resource) (ns n ns' n' : String)
      → (ref k ns' n' ≡ ref k ns n) ⊎ (at_key ns n ns' n' ≡ false)
  ref_or_other k ns n ns' n' = elim (Bool-cases (at_key ns n ns' n')) [
    | inl here ↦ let e = at_key_eq ns n ns' n' here in inl (rw (e.0, e.1) refl)
    | inr other ↦ inr other
  ]

  spec_at-write :
      (c : Cluster) (k k' : Resource) (ns n ns' n' : String) (v : Spec k)
      → (ref k' ns' n' ≡ ref k ns n) ⊎ (spec_at (write c k ns n v) k' ns' n' ≡ spec_at c k' ns' n')
  unfolding spec_at write
  spec_at-write c (scaled deployment) (scaled deployment) ns n ns' n' v =
      elim (ref_or_other (scaled deployment) ns n ns' n') [
        | inl here ↦ inl here
        | inr other ↦ inr (rw other refl)
      ]
  spec_at-write c (scaled statefulset) (scaled statefulset) ns n ns' n' v =
      elim (ref_or_other (scaled statefulset) ns n ns' n') [
        | inl here ↦ inl here
        | inr other ↦ inr (rw other refl)
      ]
  spec_at-write c (scaled deployment) (scaled statefulset) ns n ns' n' v = inr refl
  spec_at-write c (scaled statefulset) (scaled deployment) ns n ns' n' v = inr refl
  spec_at-write c (scaled _) cronjob ns n ns' n' v = inr refl
  spec_at-write c cronjob (scaled _) ns n ns' n' v = inr refl
  spec_at-write c cronjob cronjob ns n ns' n' v = elim (ref_or_other cronjob ns n ns' n') [
    | inl here ↦ inl here
    | inr other ↦ inr (rw other refl)
  ]

  write-frame :
      (c : Cluster) (k : Resource) (ns n : String) (v : Spec k)
      → ((write c k ns n v).groups ≡ c.groups) × ((write c k ns n v).may ≡ c.may)
  unfolding write
  write-frame c (scaled _) ns n v = (refl, refl)
  write-frame c cronjob ns n v = (refl, refl)

  patched_lem :
      (r : Ref) (v : Spec r.resource) (o : Option (Spec r.resource)) (old : Spec r.resource)
      (c : Cluster)
      → o ≡ some old
      → Ensures
          (λ _ c'. Patched r v (view c) (view c'))
          (λ c'. (view c' ≡ view c) × MayFail)
          (patched r.resource o r.namespace r.name v c)
  unfolding patched view
  patched_lem r v none old c h = cc
  patched_lem r v (some _) old c h = record {
    stored = spec_at-write_self c r.resource r.namespace r.name v;
    others = λ q. spec_at-write c r.resource q.resource r.namespace r.name q.namespace q.name v;
    group_same =
        ap (λ gs ns n. find_group ns n gs) (write-frame c r.resource r.namespace r.name v).0;
    allowed_same = (write-frame c r.resource r.namespace r.name v).1;
  }

  put_lem :
      (g : ShutdownGroup) (c : Cluster)
      → Ensures
          (λ g' c'. (g' ≡ g) × GroupPatched g (view c) (view c'))
          (λ c'. (view c' ≡ view c) × MayFail)
          (put g c)
  unfolding put view find_group
  put_lem g c = (
    refl,
    record {
      stored = rw (at_key_refl g.namespace g.name) refl;
      others = λ ns n. elim (Bool-cases (at_key g.namespace g.name ns n)) [
        | inl here ↦ let e = at_key_eq g.namespace g.name ns n here in inl (sym e.0, sym e.1)
        | inr other ↦ inr (rw other refl)
      ];
      spec_same = refl;
      allowed_same = refl;
    },
  )

  -- The cluster behaves as the client's laws say.
  pub cluster-IsLawful : IsLawful cluster_client MayFail
  unfolding view
  cluster-IsLawful = record {
    get_group_lem = λ ns n c. get_group_lem ns n (find_group ns n c.groups) c refl;
    get_lem = λ r c. answer_lem (spec_at c r.resource r.namespace r.name) c;
    list_lem = λ k ns labels c. (refl, refl);
    listing_lem = λ c k ns labels. listing_lem c k ns (c.matching k ns labels);
    patch_lem =
        λ r old new c h. patched_lem r new (spec_at c r.resource r.namespace r.name) old c h;
    patch_status_lem = λ base status c h. put_lem (record base { status = status }) c;
    patch_group_lem =
        λ base annotations c h e. put_lem (record base { annotations = annotations }) c;
    create_review_lem = λ r c. (refl, refl);
  }
