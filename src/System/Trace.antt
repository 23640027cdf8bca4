-- ===== src/System/Trace.antt =====
-- The accounts over every run of the system.
use kshutdown.Base.{
  String, ◌≡◌, refl, sym, ◌∙◌, ap, subst, ◌⊎◌, inl, inr, none, some, [], ◌≤◌, length, Result, ok,
  err, Ensures, Ensures-ok, false, is_empty, ◌==◌,
}
use mathlib.Core.Option.{some-injective}
use kshutdown.Api.{state_up, ShutdownGroup, ShutdownGroupStatus, Timestamp, max_history_entries}
use kshutdown.Api.Client.{Client, World, IsLawful, Ref}
use kshutdown.Authz.{Check, IsFaithful}
use kshutdown.Controller.Workloads.Up.{Settled}
use kshutdown.Controller.Group.Laws.{Stored}
use kshutdown.Controller.Reconcile.{reconcile_up, reconcile, reconcile_found}
use kshutdown.Controller.Reconcile.Up.{IsUp, EndsUp, UpFails, reconcile_up_lem}
use kshutdown.Controller.Reconcile.Dispatch.{ignored-same}
use kshutdown.System.Invariant.{Accounts, IsKept, Accounts-world, IsBetween-Accounts}
use kshutdown.System.Preservation.{Keeps, Keeps-found}
use kshutdown.System.{Step, reconciled, edited, Run, here, next}

-- The object is stored, and the accounts hold of it.
abbrev pub IsAccounted : String → String → World → World → Type 0
IsAccounted ns name w₀ w = (g : ShutdownGroup) × (w.group ns name ≡ some g) × IsKept w₀ w g

module _ (C : Client) (MayFail : Type 0) (L : IsLawful C MayFail) (check : Check C)
    (F : IsFaithful C MayFail check) (ns name : String) (w₀ : World) where
  reconcile-IsAccounted :
      (now : Timestamp) (s : C.State)
      → IsAccounted ns name w₀ (C.world s)
      → IsAccounted ns name w₀ (C.world (reconcile C check now ns name s).1)
  unfolding reconcile
  reconcile-IsAccounted now s (g, there, k) = go (C.get_group ns name s) (L.get_group_lem ns name s)
    where
      go :
          (x : Result ShutdownGroup × C.State)
          → Ensures
              (λ sg s'.
                (C.world s' ≡ C.world s)
                × ((C.world s).group ns name ≡ some sg)
                × (sg.namespace ≡ ns)
                × (sg.name ≡ name))
              (λ s'. (C.world s' ≡ C.world s) × (MayFail ⊎ ((C.world s).group ns name ≡ none)))
              x
          → IsAccounted ns name w₀ (C.world (reconcile_found C check now x).1)
      go (err e, s') h = rw (ignored-same C MayFail L check e s', h.0) (g, there, k)
      go (ok sg, s') h =
          subst (λ n. (x : ShutdownGroup) × (w'.group n name ≡ some x) × IsKept w₀ w' x) h.2
            (subst (λ n. (x : ShutdownGroup) × (w'.group sg.namespace n ≡ some x) × IsKept w₀ w' x)
              h.3 kept)
        where
          w' : World
          w' = C.world (reconcile_found C check now (ok sg, s')).1

          same : g ≡ sg
          same = some-injective g sg (sym there ∙ h.1)

          st : Stored sg (C.world s')
          st =
              ap (λ w. w.group sg.namespace sg.name) h.0
              ∙ ap (λ n. (C.world s).group n sg.name) h.2
              ∙ ap (λ n. (C.world s).group ns n) h.3
              ∙ h.1

          k' : IsKept w₀ (C.world s') sg
          k' = subst (λ w. IsKept w₀ w sg) (sym h.0) (subst (IsKept w₀ (C.world s)) same k)

          kept :
              Keeps C MayFail L check F w₀ now sg s' st k'
                (reconcile_found C check now (ok sg, s')).1
          kept = Keeps-found C MayFail L check F w₀ now sg s' st k'

  Step-IsAccounted :
      (s t : C.State)
      → Step C check ns name s t
      → IsAccounted ns name w₀ (C.world s)
      → IsAccounted ns name w₀ (C.world t)
  Step-IsAccounted s t (reconciled now e) a = rw e (reconcile-IsAccounted now s a)
  Step-IsAccounted s t (edited g g' there there' same spec_same) (x, found, k) =
      (g', there', subst Kept (sym same) (Accounts-world w₀ _ _ _ spec_same k'.0, k'.1))
    where
      Kept : ShutdownGroupStatus → Type 0
      Kept st = Accounts w₀ (C.world t) st.snapshot × (length st.history ≤ max_history_entries)

      k' : IsKept w₀ (C.world s) g
      k' = subst (IsKept w₀ (C.world s)) (some-injective x g (sym found ∙ there)) k

  -- However long the system runs, with failures, retries and changes of the object between them, every
  -- workload is at the level that it had at the start, or it is shut down and the stored snapshot has
  -- that level; and the history is within its bound. This holds where the object is stored, and so at
  -- the start.
  pub Run-IsAccounted :
      (s t : C.State)
      → Run C check ns name s t
      → IsAccounted ns name w₀ (C.world s)
      → IsAccounted ns name w₀ (C.world t)
  Run-IsAccounted s t here a = a
  Run-IsAccounted s t (next {u} run step) a = Step-IsAccounted u t step (Run-IsAccounted s u run a)

-- From a start where the stored object has no snapshot and at most twenty history entries, after any
-- run of the system with its failures: a startup of the stored object, which is not up and has a
-- snapshot, brings every workload to the level that it had at the start, if it succeeds.
pub Run-reconcile_up :
    (C : Client) (MayFail : Type 0) (L : IsLawful C MayFail) (check : Check C)
    (F : IsFaithful C MayFail check) (now : Timestamp) (sg₀ sg : ShutdownGroup) (s₀ s s' : C.State)
    → (C.world s₀).group sg.namespace sg.name ≡ some sg₀
    → sg₀.status.snapshot ≡ []
    → length sg₀.status.history ≤ max_history_entries
    → Run C check sg.namespace sg.name s₀ s
    → Stored sg (C.world s)
    → (sg.status.state == state_up) ≡ false
    → is_empty sg.status.snapshot ≡ false
    → reconcile_up C check now sg s ≡ (ok tt, s')
    → (r : Ref) → Settled (C.world s₀) (C.world s') r
Run-reconcile_up C MayFail L check F now sg₀ sg s₀ s s' start fresh short run stored not_up has ran
      r =
    elim (accounts.accounted r) [
      | inl h ↦ up.up_world.settled r h
      | inr (named, _) ↦ up.all_settled r named
    ]
  where
    w₀ : World
    w₀ = C.world s₀

    reached : IsAccounted sg.namespace sg.name w₀ (C.world s)
    reached =
        Run-IsAccounted C MayFail L check F sg.namespace sg.name w₀ s₀ s run
          (sg₀, start, (rw fresh (record { levels = tt; accounted = λ q. inl refl }), short))

    accounts : Accounts w₀ (C.world s) sg.status.snapshot
    accounts =
        subst (λ g. Accounts w₀ (C.world s) g.status.snapshot)
          (some-injective reached.0 sg (sym reached.1 ∙ stored)) reached.2.0

    up : IsUp w₀ now sg (C.world s) (C.world s')
    up =
        Ensures-ok (EndsUp C MayFail L check w₀ now sg s) (UpFails C MayFail L check w₀ now sg s)
          (reconcile_up C check now sg s) tt s'
          (reconcile_up_lem C MayFail L check w₀ now sg s not_up has stored accounts.levels
            (IsBetween-Accounts w₀ _ _ accounts))
          ran
