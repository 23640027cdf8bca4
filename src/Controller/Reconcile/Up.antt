-- ===== src/Controller/Reconcile/Up.antt =====
-- `reconcileUp`: what a run that succeeds leaves, and where a run that fails can stop.
use kshutdown.Base.{
  String, ◌≡◌, refl, ◌∙◌, ap, ◌⊎◌, inl, inr, false, ◌==◌, List, Any, Ensures, Ensures-bind,
  Ensures-mono, Ensures-rewrap, context, is_empty, ◌>>=◌,
}
use kshutdown.Api.{ShutdownGroup, HistoryEntry, Timestamp, ResourceSnapshot, state_up, command_up}
use kshutdown.Api.Client.{Client, World, IsLawful, Ref, GroupPatched}
use kshutdown.Authz.{Check}
use kshutdown.Controller.Workloads.{restore_all}
use kshutdown.Controller.Workloads.Levels.{level_of, Names}
use kshutdown.Controller.Workloads.Up.{Settled, Captured, IsBetween, Towards}
use kshutdown.Controller.Workloads.Restore.{Restores, RestoreFails, restore_all_lem}
use kshutdown.Controller.Group.{
  up_keys, operator_of, reason_of, marked_up, with_entry, without, append_history,
  consume_annotations,
}
use kshutdown.Controller.Group.Laws.{
  Stored, Writes, WriteFails, patch_status_lem, append_history_lem, consume_annotations_lem,
  up_keys-command,
}
use kshutdown.Controller.Reconcile.{entry_of, start_up, reconcile_up}

-- What a startup changes, seen from the world `w₀` whose levels it restores.
pub record UpWorld (w₀ : World) (sg : ShutdownGroup) (w w' : World) : Type 0 where
  pub between : IsBetween w₀ w'
  pub settled : (q : Ref) → Settled w₀ w q → Settled w₀ w' q
  pub others :
      (ns n : String) → ((ns ≡ sg.namespace) × (n ≡ sg.name)) ⊎ (w'.group ns n ≡ w.group ns n)
  pub allowed_same : w'.allowed ≡ w.allowed

UpWorld-of-Towards :
    (w₀ : World) (sg : ShutdownGroup) (w w' : World) → Towards w₀ w w' → UpWorld w₀ sg w w'
UpWorld-of-Towards w₀ sg w w' t = record {
  between = t.between;
  settled = t.settled;
  others = λ ns n. inr (rw t.group_same refl);
  allowed_same = t.allowed_same;
}

-- The workloads that the entries name are at their levels.
abbrev pub AllSettled : World → List ResourceSnapshot → World → Type 0
AllSettled w₀ es w = (r : Ref) → Any (Names r) es → Settled w₀ w r

-- A write of the group leaves the levels.
Settled-write :
    (w₀ : World) (g : ShutdownGroup) (w w' : World) (q : Ref)
    → GroupPatched g w w'
    → Settled w₀ w q
    → Settled w₀ w' q
Settled-write w₀ g w w' q p h = ap (λ f. level_of q.resource (f q)) p.spec_same ∙ h

UpWorld-write :
    (w₀ : World) (sg g : ShutdownGroup) (w w' w'' : World)
    → g.namespace ≡ sg.namespace
    → g.name ≡ sg.name
    → UpWorld w₀ sg w w'
    → GroupPatched g w' w''
    → UpWorld w₀ sg w w''
UpWorld-write w₀ sg g w w' w'' same_ns same_name d p = record {
  between = λ q. elim (d.between q) [
    | inl h ↦ inl (Settled-write w₀ g w' w'' q p h)
    | inr h ↦ inr (ap (λ f. f q) p.spec_same ∙ h)
  ];
  settled = λ q h. Settled-write w₀ g w' w'' q p (d.settled q h);
  others = λ ns n. elim (p.others ns n) [
    | inl here ↦ inl (here.0 ∙ same_ns, here.1 ∙ same_name)
    | inr same ↦ elim (d.others ns n) [ inl here ↦ inl here | inr same' ↦ inr (same ∙ same') ]
  ];
  allowed_same = p.allowed_same ∙ d.allowed_same;
}

-- The group that a startup leaves.
abbrev pub up_marked : Timestamp → ShutdownGroup → ShutdownGroup
up_marked now sg = marked_up now (operator_of sg) (reason_of sg) sg

abbrev pub up_recorded : Timestamp → ShutdownGroup → ShutdownGroup
up_recorded now sg = with_entry (entry_of command_up now sg) (up_marked now sg)

abbrev pub up_finished : Timestamp → ShutdownGroup → ShutdownGroup
up_finished now sg = without up_keys (up_recorded now sg)

-- Where a run that fails can have stopped. The snapshot is cleared only after all is restored.
pub data UpStage (w₀ : World) (now : Timestamp) (sg : ShutdownGroup) (w w' : World) : Type 0 where
  restoring : Stored sg w' → UpWorld w₀ sg w w' → UpStage w₀ now sg w w'
  marked :
      Stored (up_marked now sg) w'
      → AllSettled w₀ sg.status.snapshot w'
      → UpWorld w₀ sg w w'
      → UpStage w₀ now sg w w'
  recorded :
      Stored (up_recorded now sg) w'
      → AllSettled w₀ sg.status.snapshot w'
      → UpWorld w₀ sg w w'
      → UpStage w₀ now sg w w'

pub record IsUp (w₀ : World) (now : Timestamp) (sg : ShutdownGroup) (w w' : World) : Type 0 where
  pub stored : Stored (up_finished now sg) w'
  pub all_settled : AllSettled w₀ sg.status.snapshot w'
  pub up_world : UpWorld w₀ sg w w'

module _ (C : Client) (MayFail : Type 0) (L : IsLawful C MayFail) (check : Check C) (w₀ : World)
    (now : Timestamp) (sg : ShutdownGroup) (s : C.State) where
  abbrev pub UpFails : C.State → Type 0
  UpFails s' = UpStage w₀ now sg (C.world s) (C.world s') × MayFail

  abbrev pub EndsUp : Unit {0} → C.State → Type 0
  EndsUp _ s' = IsUp w₀ now sg (C.world s) (C.world s')

  AllSettled-write :
      (g : ShutdownGroup) (w w' : World)
      → GroupPatched g w w'
      → AllSettled w₀ sg.status.snapshot w
      → AllSettled w₀ sg.status.snapshot w'
  AllSettled-write g w w' p h r named = Settled-write w₀ g w w' r p (h r named)

  consume_step :
      (s' : C.State)
      → Stored (up_recorded now sg) (C.world s')
      → AllSettled w₀ sg.status.snapshot (C.world s')
      → UpWorld w₀ sg (C.world s) (C.world s')
      → Ensures EndsUp UpFails (
          context "consuming annotations after startup"
            (consume_annotations C (up_recorded now sg) up_keys)
            s')
  consume_step s' st h d = Ensures-rewrap EndsUp UpFails _ (consume_annotations C g up_keys s') (
      Ensures-mono Consumed (WriteFails C MayFail L (C.world s')) EndsUp UpFails
        (consume_annotations C g up_keys s')
        (consume_annotations_lem C MayFail L g up_keys s' up_keys-command st)
        (λ _ s'' p. record {
          stored = p.stored;
          all_settled = AllSettled-write _ (C.world s') (C.world s'') p h;
          up_world = UpWorld-write w₀ sg _ (C.world s) (C.world s') (C.world s'') refl refl d p;
        })
        (λ s'' f. (rw f.0 (recorded st h d), f.1)))
    where
      g : ShutdownGroup
      g = up_recorded now sg

      Consumed : Unit {0} → C.State → Type 0
      Consumed _ s'' = GroupPatched (without up_keys g) (C.world s') (C.world s'')

  record_step :
      (s' : C.State)
      → Stored (up_marked now sg) (C.world s')
      → AllSettled w₀ sg.status.snapshot (C.world s')
      → UpWorld w₀ sg (C.world s) (C.world s')
      → Ensures EndsUp UpFails (
          (do
            g ←
                context "appending history after startup"
                  (append_history C (up_marked now sg) (entry_of command_up now sg))
            context "consuming annotations after startup" (consume_annotations C g up_keys))
            s')
  record_step s' st h d =
      Ensures-bind Recorded (WriteFails C MayFail L (C.world s')) EndsUp UpFails
        (context _ (append_history C (up_marked now sg) entry) s') _
        (Ensures-rewrap Recorded (WriteFails C MayFail L (C.world s')) _
          (append_history C (up_marked now sg) entry s')
          (append_history_lem C MayFail L (up_marked now sg) entry s' st))
        (λ g' s'' p. rw p.0 (
          consume_step s'' p.1.stored (AllSettled-write _ (C.world s') (C.world s'') p.1 h)
            (UpWorld-write w₀ sg _ (C.world s) (C.world s') (C.world s'') refl refl d p.1)))
        (λ s'' f. (rw f.0 (marked st h d), f.1))
    where
      entry : HistoryEntry
      entry = entry_of command_up now sg

      Recorded : ShutdownGroup → C.State → Type 0
      Recorded = Writes C MayFail L (up_recorded now sg) (C.world s')

  mark_step :
      (s' : C.State)
      → Stored sg (C.world s')
      → AllSettled w₀ sg.status.snapshot (C.world s')
      → UpWorld w₀ sg (C.world s) (C.world s')
      → Ensures EndsUp UpFails (
          (do
            g₁ ← context "patching state to up" (C.patch_status sg (up_marked now sg))
            g₂ ←
                context "appending history after startup"
                  (append_history C g₁ (entry_of command_up now sg))
            context "consuming annotations after startup" (consume_annotations C g₂ up_keys))
            s')
  mark_step s' st h d =
      Ensures-bind Marked (WriteFails C MayFail L (C.world s')) EndsUp UpFails
        (context _ (C.patch_status sg (up_marked now sg)) s') _
        (patch_status_lem C MayFail L _ sg (up_marked now sg).status s' st)
        (λ g' s'' p. rw p.0 (
          record_step s'' p.1.stored (AllSettled-write _ (C.world s') (C.world s'') p.1 h)
            (UpWorld-write w₀ sg _ (C.world s) (C.world s') (C.world s'') refl refl d p.1)))
        (λ s'' f. (rw f.0 (restoring st d), f.1))
    where
      Marked : ShutdownGroup → C.State → Type 0
      Marked = Writes C MayFail L (up_marked now sg) (C.world s')

  start_up_lem :
      Stored sg (C.world s)
      → Captured w₀ sg.status.snapshot
      → IsBetween w₀ (C.world s)
      → Ensures EndsUp UpFails (start_up C check now sg s)
  unfolding start_up
  start_up_lem st cap b =
      Ensures-bind (Restores C MayFail L w₀ es w) (RestoreFails C MayFail L w₀ w) EndsUp UpFails
        (restore_all C es s) _ (restore_all_lem C MayFail L w₀ es s cap b)
        (λ _ s' p. mark_step s' (still s' p.0) p.1 (UpWorld-of-Towards w₀ sg w (C.world s') p.0))
        (λ s' f. (restoring (still s' f.0) (UpWorld-of-Towards w₀ sg w (C.world s') f.0), f.1))
    where
      es : List ResourceSnapshot
      es = sg.status.snapshot

      w : World
      w = C.world s

      still : (s' : C.State) → Towards w₀ w (C.world s') → Stored sg (C.world s')
      still s' t = ap (λ h. h sg.namespace sg.name) t.group_same ∙ st

  -- Where the group is stored with a snapshot of the levels of `w₀`, is not marked up, and every
  -- workload is at its level in `w₀` or shut down, a run that succeeds brings what the snapshot
  -- names back to its level, keeps what is at its level there, and writes the group. A run that
  -- fails has stopped at one of the stages, and then a call failed.
  pub reconcile_up_lem :
      (sg.status.state == state_up) ≡ false
      → is_empty sg.status.snapshot ≡ false
      → Stored sg (C.world s)
      → Captured w₀ sg.status.snapshot
      → IsBetween w₀ (C.world s)
      → Ensures EndsUp UpFails (reconcile_up C check now sg s)
  unfolding reconcile_up
  reconcile_up_lem not_up has st cap b = rw (not_up, has) (start_up_lem st cap b)
