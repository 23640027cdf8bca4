-- ===== src/System/Invariant.antt =====
-- No run loses a workload's level: it is in place, or the stored snapshot has it.
use kshutdown.Base.{
  ◌≡◌, refl, true, is_empty, arith, sym, ◌∙◌, ap, ◌⊎◌, inl, inr, List, [], ◌∷◌, Any, ◌≤◌, length,
}
use kshutdown.Api.{ShutdownGroup, ResourceSnapshot, max_history_entries}
use kshutdown.Api.Client.{World, Ref}
use kshutdown.Controller.Workloads.Levels.{level_of, IsOff, Names}
use kshutdown.Controller.Workloads.Up.{Settled, Captured, IsBetween}
use kshutdown.Controller.Reconcile.Down.{DownWorld}
use kshutdown.Controller.Reconcile.Up.{UpWorld, AllSettled}

-- Every workload is at its level in `w₀`, or it is shut down and an entry of the snapshot names it;
-- and the entries have the levels of `w₀`.
pub record Accounts (w₀ w : World) (es : List ResourceSnapshot) : Type 0 where
  pub levels : Captured w₀ es
  pub accounted : (r : Ref) → Settled w₀ w r ⊎ (Any (Names r) es × IsOff w r)

-- The same for the stored object, whose history is within its bound.
abbrev pub IsKept : World → World → ShutdownGroup → Type 0
IsKept w₀ w g = Accounts w₀ w g.status.snapshot × (length g.status.history ≤ max_history_entries)

pub Accounts-world :
    (w₀ w w' : World) (es : List ResourceSnapshot)
    → w'.spec ≡ w.spec
    → Accounts w₀ w es
    → Accounts w₀ w' es
Accounts-world w₀ w w' es same a = record {
  levels = a.levels;
  accounted = λ r. elim (a.accounted r) [
    | inl h ↦ inl (ap (λ f. level_of r.resource (f r)) same ∙ h)
    | inr (named, is_off) ↦ inr (named, ap (λ f. f r) same ∙ is_off)
  ];
}

-- What a shutdown changes, it has in its snapshot.
pub Accounts-DownWorld :
    (w₀ w w' : World) (g : ShutdownGroup)
    → Accounts w₀ w g.status.snapshot
    → DownWorld g w w'
    → Accounts w₀ w' g.status.snapshot
Accounts-DownWorld w₀ w w' g a d = record {
  levels = a.levels;
  accounted = λ r. elim (d.frame r) [
    | inl same ↦ elim (a.accounted r) [
      | inl h ↦ inl (ap (level_of r.resource) same ∙ h)
      | inr (named, is_off) ↦ inr (named, same ∙ is_off)
    ]
    | inr (named, is_off) ↦ inr (named, is_off)
  ];
}

pub IsBetween-Accounts :
    (w₀ w : World) (es : List ResourceSnapshot) → Accounts w₀ w es → IsBetween w₀ w
IsBetween-Accounts w₀ w es a r = elim (a.accounted r) [
  | inl h ↦ inl h
  | inr (_, is_off) ↦ inr is_off
]

-- Part of a startup: what it has not settled stays in the snapshot.
pub Accounts-UpWorld :
    (w₀ w w' : World) (sg : ShutdownGroup)
    → Accounts w₀ w sg.status.snapshot
    → UpWorld w₀ sg w w'
    → Accounts w₀ w' sg.status.snapshot
Accounts-UpWorld w₀ w w' sg a u = record {
  levels = a.levels;
  accounted = λ r. elim (a.accounted r) [
    | inl h ↦ inl (u.settled r h)
    | inr (named, _) ↦ elim (u.between r) [ inl h ↦ inl h | inr is_off ↦ inr (named, is_off) ]
  ];
}

-- A startup that has settled all that the snapshot names can do without the snapshot.
pub Accounts-AllSettled :
    (w₀ w w' : World) (sg : ShutdownGroup)
    → Accounts w₀ w sg.status.snapshot
    → UpWorld w₀ sg w w'
    → AllSettled w₀ sg.status.snapshot w'
    → Accounts w₀ w' []
Accounts-AllSettled w₀ w w' sg a u all = record {
  levels = tt;
  accounted = λ r. elim (a.accounted r) [
    | inl h ↦ inl (u.settled r h)
    | inr (named, _) ↦ inl (all r named)
  ];
}

-- With an empty snapshot all is in place, so a new snapshot has the levels of `w₀` too.
pub Captured-world :
    (w₀ w : World) (es : List ResourceSnapshot)
    → ((r : Ref) → Settled w₀ w r)
    → Captured w es
    → Captured w₀ es
Captured-world w₀ w [] h c = tt
Captured-world w₀ w (e ∷ es) h c =
    (λ r named. sym (h r) ∙ c.0 r named, Captured-world w₀ w es h c.1)

-- A world accounts for itself where there is no snapshot.
pub Accounts-fresh : (w : World) (es : List ResourceSnapshot) → is_empty es ≡ true → Accounts w w es
Accounts-fresh w [] fresh = record { levels = tt; accounted = λ r. inl refl }
Accounts-fresh w (e ∷ es) fresh = ground (arith, fresh)
