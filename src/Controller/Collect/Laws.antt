-- ===== src/Controller/Collect/Laws.antt =====
-- The snapshot is the list of the targeted workloads, less those that partial mode skips, with the
-- replicas that the world shows.
use kshutdown.Base.{
  String, ◌≡◌, refl, ◌∙◌, Bool, true, false, List, [], ◌∷◌, ◌++◌, map, foldl, select, if◌then◌else◌,
  Bool-cases, inl, inr, context,
}
use mathlib.Core.List.{append_assoc, append-nil}
use kshutdown.Base.GoMap.{index}
use kshutdown.Api.{ShutdownGroup, ResourceSnapshot, annotation_operator, annotation_operator_groups}
use kshutdown.Api.Client.{Client, World, IsLawful, Review}
use kshutdown.Api.Reads.{Reads, Reads-bind, Reads-rewrap, Reads-mono}
use kshutdown.Authz.{Check, IsFaithful}
use kshutdown.Targets.{Workload, targeted}
use kshutdown.Targets.Laws.{for_targets_lem}
use kshutdown.Controller.Collect.{
  snapshot_of, parse_groups, partial_mode, patch_review, collect_one, collect_targets,
}

-- Whether the snapshot takes a workload: always in full mode, and if the operator may patch it in
-- partial mode.
abbrev pub takes : World → Bool → String → List String → Workload → Bool
takes w false operator groups x = true
takes w true operator groups x = w.allowed (patch_review operator groups x)

-- The snapshot as the world defines it.
abbrev pub expected_snapshot : World → ShutdownGroup → List ResourceSnapshot
expected_snapshot w sg = map snapshot_of (
    select
      (takes w (partial_mode sg) (index sg.annotations annotation_operator)
        (parse_groups (index sg.annotations annotation_operator_groups)))
      (targeted w sg.namespace sg.targets))

abbrev collect_step :
    World → Bool → String → List String → List ResourceSnapshot → Workload → List ResourceSnapshot
collect_step w p operator groups acc x =
    if takes w p operator groups x then acc ++ (snapshot_of x ∷ []) else acc

foldl-collect_step :
    (w : World) (p : Bool) (operator : String) (groups : List String) (acc : List ResourceSnapshot)
    (xs : List Workload)
    → foldl (collect_step w p operator groups) acc xs
      ≡ acc ++ map snapshot_of (select (takes w p operator groups) xs)
foldl-collect_step w p operator groups acc [] = rw append-nil
foldl-collect_step w p operator groups acc (x ∷ xs) =
    elim (Bool-cases (takes w p operator groups x)) [
      | inl taken ↦
          rw (taken, foldl-collect_step w p operator groups (acc ++ (snapshot_of x ∷ [])) xs)
            (append_assoc acc _ _)
      | inr skipped ↦ rw (skipped, foldl-collect_step w p operator groups acc xs)
    ]

module _ (C : Client) (MayFail : Type 0) (L : IsLawful C MayFail) (check : Check C)
    (F : IsFaithful C MayFail check) where
  collect_one_lem :
      (w : World) (p : Bool) (operator : String) (groups : List String) (x : Workload)
      (acc : List ResourceSnapshot) (s : C.State)
      → C.world s ≡ w
      → Reads C MayFail w
          (λ acc'. acc' ≡ collect_step w p operator groups acc x)
          (collect_one C check p operator groups x acc s)
  unfolding collect_one
  collect_one_lem w false operator groups x acc s h = (h, refl)
  collect_one_lem w true operator groups x acc s h =
      Reads-bind C MayFail w IsAnswer _ (context _ (check r) s) _
        (Reads-rewrap C MayFail w IsAnswer _ (check r s) (rw h at (F r s)))
        (λ b s' same answer. (same, rw answer refl))
    where
      r : Review
      r = patch_review operator groups x

      IsAnswer : Bool → Type 0
      IsAnswer b = b ≡ w.allowed r

  -- Collecting changes nothing. A snapshot that it returns is the expected one: the targeted
  -- workloads in order, less those that partial mode skips because the operator may not patch them.
  -- It fails only where calls fail.
  pub collect_targets_lem :
      (sg : ShutdownGroup) (s : C.State)
      → Reads C MayFail
          (C.world s)
          (λ es. es ≡ expected_snapshot (C.world s) sg)
          (collect_targets C check sg s)
  unfolding collect_targets
  collect_targets_lem sg s =
      Reads-mono C MayFail w (λ es. es ≡ foldl step [] (targeted w sg.namespace sg.targets)) _ _
        (for_targets_lem C MayFail L w _ step (collect_one_lem w p operator groups) sg.namespace
          sg.targets [] s refl)
        (λ es e. e ∙ foldl-collect_step w p operator groups [] _)
    where
      w : World
      w = C.world s

      p : Bool
      p = partial_mode sg

      operator : String
      operator = index sg.annotations annotation_operator

      groups : List String
      groups = parse_groups (index sg.annotations annotation_operator_groups)

      step : List ResourceSnapshot → Workload → List ResourceSnapshot
      step = collect_step w p operator groups
