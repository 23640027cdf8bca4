-- ===== src/Tests/Faulty.antt =====
-- The in-memory client with calls that fail: a test on the cluster and the address says which patch
-- of a workload does, and a test on the new object which patch of a status.
use kshutdown.Base.{◌≡◌, refl, Bool, true, false, err, api, Effect, Ensures, if◌then◌else◌}
use kshutdown.Api.{ShutdownGroup}
use kshutdown.Api.Client.{Client, IsLawful, Ref, Patched, GroupPatched}
use kshutdown.Tests.Cluster.{Cluster, view, cluster_client}
use kshutdown.Tests.Cluster.Laws.{cluster-IsLawful}

module _ (breaks : Cluster → Ref → Bool) (loses : ShutdownGroup → Bool) where
  abbrev failing : {A : Type 0} → Bool → Effect Cluster A → Effect Cluster A
  failing broken m c = if broken then (err (api "timeout"), c) else m c

  abbrev pub faulty_client : Client
  faulty_client = record cluster_client {
    patch = λ r old new c. failing (breaks c r) (cluster_client.patch r old new) c;
    patch_status = λ base g. failing (loses g) (cluster_client.patch_status base g);
  }

  failing_lem :
      {A : Type 0} (P : A → Cluster → Type 0) (broken : Bool) (m : Effect Cluster A) (c : Cluster)
      → Ensures P (λ c'. (view c' ≡ view c) × Unit {0}) (m c)
      → Ensures P (λ c'. (view c' ≡ view c) × Unit {0}) (failing broken m c)
  failing_lem P true m c h = (refl, tt)
  failing_lem P false m c h = h

  -- Any call may fail, and the others behave as before.
  pub faulty-IsLawful : IsLawful faulty_client Unit
  faulty-IsLawful = record {
    get_group_lem = lawful.get_group_lem;
    get_lem = lawful.get_lem;
    list_lem = lawful.list_lem;
    listing_lem = lawful.listing_lem;
    patch_lem = λ r old new c h.
        failing_lem (λ _ c'. Patched r new (view c) (view c')) (breaks c r)
          (cluster_client.patch r old new) c (lawful.patch_lem r old new c h);
    patch_status_lem = λ base status c h.
        let g : ShutdownGroup = record base { status = status } in
        failing_lem (λ g' c'. (g' ≡ g) × GroupPatched g (view c) (view c')) (loses g)
          (cluster_client.patch_status base g) c (lawful.patch_status_lem base status c h);
    patch_group_lem = lawful.patch_group_lem;
    create_review_lem = lawful.create_review_lem;
  }
    where
      lawful : IsLawful cluster_client Unit
      lawful = cluster-IsLawful Unit
