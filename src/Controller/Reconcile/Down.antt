-- ===== src/Controller/Reconcile/Down.antt =====
-- `reconcileDown`: what a run that succeeds leaves, and where a run that fails can stop.
use kshutdown.Base.{
  String, ◌≡◌, refl, ◌∙◌, ap, ◌⊎◌, inl, inr, List, Any, Ensures, Ensures-bind, Ensures-mono,
  Ensures-rewrap, context, ◌>>=◌,
}
use kshutdown.Api.{ShutdownGroup, HistoryEntry, Timestamp, ResourceSnapshot}
use kshutdown.Api.Client.{Client, World, IsLawful, Ref, GroupPatched}
use kshutdown.Authz.{Check}
use kshutdown.Controller.Workloads.{scale_all}
use kshutdown.Controller.Workloads.Levels.{IsOff, Names}
use kshutdown.Controller.Workloads.Down.{ScaleFrame, AllOff, Stops, ScaleFails, scale_all_lem}
use kshutdown.Controller.Group.{
  down_keys, marked_down, with_entry, without, append_history, consume_annotations,
}
use kshutdown.Controller.Group.Laws.{
  Stored, Writes, WriteFails, patch_status_lem, append_history_lem, consume_annotations_lem,
  down_keys-command,
}
use kshutdown.Controller.Reconcile.{finish_down}

-- What a shutdown changes: workloads that the snapshot names, to shut down, and the group.
pub record DownWorld (sg : ShutdownGroup) (w w' : World) : Type 0 where
  pub frame : (q : Ref) → (w'.spec q ≡ w.spec q) ⊎ (Any (Names q) sg.status.snapshot × IsOff w' q)
  pub others :
      (ns n : String) → ((ns ≡ sg.namespace) × (n ≡ sg.name)) ⊎ (w'.group ns n ≡ w.group ns n)
  pub allowed_same : w'.allowed ≡ w.allowed

DownWorld-of-ScaleFrame :
    (sg : ShutdownGroup) (w w' : World) → ScaleFrame sg.status.snapshot w w' → DownWorld sg w w'
DownWorld-of-ScaleFrame sg w w' f = record {
  frame = f.frame;
  others = λ ns n. inr (rw f.group_same refl);
  allowed_same = f.allowed_same;
}

-- A write of the group leaves the workloads.
DownWorld-write :
    (sg g : ShutdownGroup) (w w' w'' : World)
    → g.namespace ≡ sg.namespace
    → g.name ≡ sg.name
    → DownWorld sg w w'
    → GroupPatched g w' w''
    → DownWorld sg w w''
DownWorld-write sg g w w' w'' same_ns same_name d p = record {
  frame = rw p.spec_same d.frame;
  others = λ ns n. elim (p.others ns n) [
    | inl here ↦ inl (here.0 ∙ same_ns, here.1 ∙ same_name)
    | inr same ↦ elim (d.others ns n) [ inl here ↦ inl here | inr same' ↦ inr (same ∙ same') ]
  ];
  allowed_same = p.allowed_same ∙ d.allowed_same;
}

AllOff-write :
    (es : List ResourceSnapshot) (g : ShutdownGroup) (w w' : World)
    → GroupPatched g w w'
    → AllOff es w
    → AllOff es w'
AllOff-write es g w w' p h r named = ap (λ f. f r) p.spec_same ∙ h r named

-- A write of the group that came before.
DownWorld-after :
    (sg : ShutdownGroup) (w w' w'' : World)
    → GroupPatched sg w w'
    → DownWorld sg w' w''
    → DownWorld sg w w''
DownWorld-after sg w w' w'' p d = record {
  frame = rw p.spec_same at d.frame;
  others = λ ns n. elim (d.others ns n) [
    | inl here ↦ inl here
    | inr same ↦ elim (p.others ns n) [ inl here ↦ inl here | inr same' ↦ inr (same ∙ same') ]
  ];
  allowed_same = d.allowed_same ∙ p.allowed_same;
}

-- The group after the run.
abbrev pub finished : Timestamp → HistoryEntry → ShutdownGroup → ShutdownGroup
finished now entry sg = without down_keys (with_entry entry (marked_down now sg))

-- Where a run that fails can have stopped, with what the world then holds.
pub data DownStage (now : Timestamp) (entry : HistoryEntry) (sg : ShutdownGroup) (w w' : World)
    : Type 0 where
  scaling : Stored sg w' → DownWorld sg w w' → DownStage now entry sg w w'
  marked :
      Stored (marked_down now sg) w'
      → AllOff sg.status.snapshot w'
      → DownWorld sg w w'
      → DownStage now entry sg w w'
  recorded :
      Stored (with_entry entry (marked_down now sg)) w'
      → AllOff sg.status.snapshot w'
      → DownWorld sg w w'
      → DownStage now entry sg w w'

-- What a run that succeeds leaves.
pub record IsDown (now : Timestamp) (entry : HistoryEntry) (sg : ShutdownGroup) (w w' : World)
    : Type 0 where
  pub stored : Stored (finished now entry sg) w'
  pub all_off : AllOff sg.status.snapshot w'
  pub down_world : DownWorld sg w w'

module _ (now : Timestamp) (entry : HistoryEntry) (sg : ShutdownGroup) (w w' w'' : World)
    (p : GroupPatched sg w w') where
  pub DownStage-after : DownStage now entry sg w' w'' → DownStage now entry sg w w''
  DownStage-after (scaling st d) = scaling st (DownWorld-after sg w w' w'' p d)
  DownStage-after (marked st h d) = marked st h (DownWorld-after sg w w' w'' p d)
  DownStage-after (recorded st h d) = recorded st h (DownWorld-after sg w w' w'' p d)

  pub IsDown-after : IsDown now entry sg w' w'' → IsDown now entry sg w w''
  IsDown-after d = record {
    stored = d.stored;
    all_off = d.all_off;
    down_world = DownWorld-after sg w w' w'' p d.down_world;
  }

module _ (C : Client) (MayFail : Type 0) (L : IsLawful C MayFail) (check : Check C)
    (now : Timestamp) (entry : HistoryEntry) (sg : ShutdownGroup) (s : C.State) where
  abbrev pub DownFails : C.State → Type 0
  DownFails s' =
      DownStage now entry sg (C.world s) (C.world s')
      × Stops C MayFail L sg.status.snapshot (C.world s)

  abbrev pub EndsDown : Unit {0} → C.State → Type 0
  EndsDown _ s' = IsDown now entry sg (C.world s) (C.world s')

  consume_step :
      (s' : C.State)
      → Stored (with_entry entry (marked_down now sg)) (C.world s')
      → AllOff sg.status.snapshot (C.world s')
      → DownWorld sg (C.world s) (C.world s')
      → Ensures EndsDown DownFails (
          context "consuming annotations after shutdown"
            (consume_annotations C (with_entry entry (marked_down now sg)) down_keys)
            s')
  consume_step s' st h d =
      Ensures-rewrap EndsDown DownFails _ (consume_annotations C g down_keys s') (
        Ensures-mono Consumed (WriteFails C MayFail L (C.world s')) EndsDown DownFails
          (consume_annotations C g down_keys s')
          (consume_annotations_lem C MayFail L g down_keys s' down_keys-command st)
          (λ _ s'' p. record {
            stored = p.stored;
            all_off = AllOff-write sg.status.snapshot _ (C.world s') (C.world s'') p h;
            down_world = DownWorld-write sg _ (C.world s) (C.world s') (C.world s'') refl refl d p;
          })
          (λ s'' f. (rw f.0 (recorded st h d), inl f.1)))
    where
      g : ShutdownGroup
      g = with_entry entry (marked_down now sg)

      Consumed : Unit {0} → C.State → Type 0
      Consumed _ s'' = GroupPatched (without down_keys g) (C.world s') (C.world s'')

  record_step :
      (s' : C.State)
      → Stored (marked_down now sg) (C.world s')
      → AllOff sg.status.snapshot (C.world s')
      → DownWorld sg (C.world s) (C.world s')
      → Ensures EndsDown DownFails (
          (context "appending history after shutdown" (append_history C (marked_down now sg) entry)
              >>= λ g.
                  context "consuming annotations after shutdown"
                    (consume_annotations C g down_keys))
            s')
  record_step s' st h d =
      Ensures-bind Recorded (WriteFails C MayFail L (C.world s')) EndsDown DownFails
        (context _ (append_history C (marked_down now sg) entry) s') _
        (Ensures-rewrap Recorded (WriteFails C MayFail L (C.world s')) _
          (append_history C (marked_down now sg) entry s')
          (append_history_lem C MayFail L (marked_down now sg) entry s' st))
        (λ g' s'' p. rw p.0 (
          consume_step s'' p.1.stored
            (AllOff-write sg.status.snapshot _ (C.world s') (C.world s'') p.1 h)
            (DownWorld-write sg _ (C.world s) (C.world s') (C.world s'') refl refl d p.1)))
        (λ s'' f. (rw f.0 (marked st h d), inl f.1))
    where
      Recorded : ShutdownGroup → C.State → Type 0
      Recorded = Writes C MayFail L (with_entry entry (marked_down now sg)) (C.world s')

  mark_step :
      (s' : C.State)
      → Stored sg (C.world s')
      → AllOff sg.status.snapshot (C.world s')
      → DownWorld sg (C.world s) (C.world s')
      → Ensures EndsDown DownFails (
          (do
            g₁ ← context "patching state to down" (C.patch_status sg (marked_down now sg))
            g₂ ← context "appending history after shutdown" (append_history C g₁ entry)
            context "consuming annotations after shutdown" (consume_annotations C g₂ down_keys))
            s')
  mark_step s' st h d =
      Ensures-bind Marked (WriteFails C MayFail L (C.world s')) EndsDown DownFails
        (context _ (C.patch_status sg (marked_down now sg)) s') _
        (patch_status_lem C MayFail L _ sg (marked_down now sg).status s' st)
        (λ g' s'' p. rw p.0 (
          record_step s'' p.1.stored
            (AllOff-write sg.status.snapshot _ (C.world s') (C.world s'') p.1 h)
            (DownWorld-write sg _ (C.world s) (C.world s') (C.world s'') refl refl d p.1)))
        (λ s'' f. (rw f.0 (scaling st d), inl f.1))
    where
      Marked : ShutdownGroup → C.State → Type 0
      Marked = Writes C MayFail L (marked_down now sg) (C.world s')

  pub finish_down_lem :
      Stored sg (C.world s) → Ensures EndsDown DownFails (finish_down C check now entry sg s)
  unfolding finish_down
  finish_down_lem st =
      Ensures-bind Scaled (ScaleFails C MayFail L es w) EndsDown DownFails (scale_all C es s) _
        (scale_all_lem C MayFail L es s)
        (λ _ s' p. mark_step s' (still s' p.1) p.0 (DownWorld-of-ScaleFrame sg w (C.world s') p.1))
        (λ s' f. (scaling (still s' f.0) (DownWorld-of-ScaleFrame sg w (C.world s') f.0), f.1))
    where
      es : List ResourceSnapshot
      es = sg.status.snapshot

      w : World
      w = C.world s

      Scaled : Unit {0} → C.State → Type 0
      Scaled _ s' = AllOff es (C.world s') × ScaleFrame es w (C.world s')

      still : (s' : C.State) → ScaleFrame es w (C.world s') → Stored sg (C.world s')
      still s' f = ap (λ h. h sg.namespace sg.name) f.group_same ∙ st
