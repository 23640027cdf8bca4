-- ===== src/Controller/Reconcile/Written.antt =====
-- The stored ShutdownGroup after each write of `reconcileDown` and `reconcileUp`, described field by
-- field from the object that the run has read (internal/controller/shutdowngroup_controller.go).
use kshutdown.Base.{
  String, ◌≡◌, refl, ◌∙◌, ap, true, false, some, List, [], ◌∷◌, All, is_empty, take, sym, subst,
  inl, inr, Bool-cases,
}
use kshutdown.Base.GoMap.{
  GoMap, index, lookup, erase_all, contains, lookup-erase_all, index-erase_all,
}
use kshutdown.Api.{
  ShutdownGroup, HistoryEntry, Timestamp, state_up, state_down, command_up, command_down,
  annotation_command, annotation_reason, annotation_operator, annotation_operator_groups,
  annotation_partial, max_history_entries,
}
use kshutdown.Api.Client.{World}
use kshutdown.Controller.Collect.Laws.{expected_snapshot}
use kshutdown.Controller.Group.{captured, marked_down, with_entry, without}
use kshutdown.Controller.Group.Laws.{cap_history-eq-take}
use kshutdown.Controller.Reconcile.{entry_of}
use kshutdown.Controller.Reconcile.Shutdown.{begun, begun-fresh, begun-kept}
use kshutdown.Controller.Reconcile.Up.{up_marked}

-- The annotations that ask for a shutdown, and those that ask for a startup.
abbrev pub shutdown_request : List String
shutdown_request =
    annotation_command ∷ annotation_reason ∷ annotation_operator ∷ annotation_operator_groups
    ∷ annotation_partial ∷ []

abbrev pub startup_request : List String
startup_request =
    annotation_command ∷ annotation_reason ∷ annotation_operator ∷ annotation_operator_groups ∷ []

-- All that names and describes the object.
pub record IsSameObject (sg g : ShutdownGroup) : Type 0 where
  pub namespace : g.namespace ≡ sg.namespace
  pub name : g.name ≡ sg.name
  pub deleting : g.deleting ≡ sg.deleting
  pub targets : g.targets ≡ sg.targets

-- The given annotations are gone, and the others are as they were.
pub record HasLost (request : List String) (sg g : ShutdownGroup) : Type 0 where
  pub gone : All (λ k. index g.annotations k ≡ "") request
  pub others :
      (k : String) → contains request k ≡ false → lookup k g.annotations ≡ lookup k sg.annotations

-- The state, and the time of the change.
pub record HasState (state : String) (now : Timestamp) (g : ShutdownGroup) : Type 0 where
  pub state_is : g.status.state ≡ state
  pub since_is : g.status.since ≡ some now

-- Who asked and why, as the annotations of `sg` say.
pub record HasOperator (sg g : ShutdownGroup) : Type 0 where
  pub operator_is : g.status.operator ≡ index sg.annotations annotation_operator
  pub reason_is : g.status.reason ≡ index sg.annotations annotation_reason

-- The entry of the operation comes first in the history, which keeps its twenty newest entries.
abbrev pub HasEntry : String → Timestamp → ShutdownGroup → ShutdownGroup → Type 0
HasEntry command now sg g =
    let entry : HistoryEntry = record {
      operation = command;
      at = now;
      operator = index sg.annotations annotation_operator;
      reason = index sg.annotations annotation_reason;
    } in
    g.status.history ≡ take max_history_entries (entry ∷ sg.status.history)

-- The snapshot of the run and who asked for it: those that the object had, or else the ones of the
-- world and of the annotations.
pub record HasSnapshot (w : World) (sg g : ShutdownGroup) : Type 0 where
  pub fresh :
      is_empty sg.status.snapshot ≡ true
      → (g.status.snapshot ≡ expected_snapshot w sg) × HasOperator sg g
  pub kept :
      is_empty sg.status.snapshot ≡ false
      → (g.status.snapshot ≡ sg.status.snapshot)
        × (g.status.operator ≡ sg.status.operator)
        × (g.status.reason ≡ sg.status.reason)

-- The object that a shutdown works from: with its snapshot, and otherwise as it was read.
pub record IsBegun (w : World) (sg g : ShutdownGroup) : Type 0 where
  pub same : IsSameObject sg g
  pub saved : HasSnapshot w sg g
  pub state_same : g.status.state ≡ sg.status.state
  pub since_same : g.status.since ≡ sg.status.since
  pub history_same : g.status.history ≡ sg.status.history
  pub annotations_same : g.annotations ≡ sg.annotations

-- The object after the state is written, after the history is, and after the annotations are. `Saved`
-- is what holds of the snapshot and of the operator.
module _ (state command : String) (Saved : ShutdownGroup → Type 0) (now : Timestamp)
    (sg g : ShutdownGroup) where
  pub record IsMarked : Type 0 where
    pub same : IsSameObject sg g
    pub marked : HasState state now g
    pub saved : Saved g
    pub history_same : g.status.history ≡ sg.status.history
    pub annotations_same : g.annotations ≡ sg.annotations

  pub record IsNoted : Type 0 where
    pub same : IsSameObject sg g
    pub marked : HasState state now g
    pub saved : Saved g
    pub entry : HasEntry command now sg g
    pub annotations_same : g.annotations ≡ sg.annotations

  pub record IsClosed (request : List String) : Type 0 where
    pub same : IsSameObject sg g
    pub marked : HasState state now g
    pub saved : Saved g
    pub entry : HasEntry command now sg g
    pub lost : HasLost request sg g

-- What a startup leaves of the snapshot.
abbrev pub HasCleared : ShutdownGroup → ShutdownGroup → Type 0
HasCleared sg g = (g.status.snapshot ≡ []) × HasOperator sg g

All-map :
    {P Q : String → Type 0} → ((k : String) → P k → Q k) → (ks : List String) → All P ks → All Q ks
All-map f [] h = tt
All-map f (k ∷ ks) h = (f k h.0, All-map f ks h.1)

module _ (m : GoMap) where
  gone_of :
      (keys : List String) (k : String) → contains keys k ≡ true → index (erase_all keys m) k ≡ ""
  gone_of keys k has = rw (index-erase_all keys k m, has) refl

  lookup-kept :
      (keys : List String) (k : String)
      → contains keys k ≡ false
      → lookup k (erase_all keys m) ≡ lookup k m
  lookup-kept keys k out = rw (lookup-erase_all keys k m, out) refl

same_object :
    (sg g : ShutdownGroup)
    → g.namespace ≡ sg.namespace
    → g.name ≡ sg.name
    → g.deleting ≡ sg.deleting
    → g.targets ≡ sg.targets
    → IsSameObject sg g
same_object sg g own called deleting targets = record {
  namespace = own;
  name = called;
  deleting = deleting;
  targets = targets;
}

-- The snapshot and its operator stay.
pub HasSnapshot-same :
    (w : World) (sg g g' : ShutdownGroup)
    → g'.status.snapshot ≡ g.status.snapshot
    → g'.status.operator ≡ g.status.operator
    → g'.status.reason ≡ g.status.reason
    → HasSnapshot w sg g
    → HasSnapshot w sg g'
HasSnapshot-same w sg g g' snap operator reason h = record {
  fresh = λ fresh.
      let (e, o) = h.fresh fresh in
      (
        snap ∙ e,
        record { operator_is = operator ∙ o.operator_is; reason_is = reason ∙ o.reason_is },
      );
  kept = λ kept. let (e, o, r) = h.kept kept in (snap ∙ e, operator ∙ o, reason ∙ r);
}

pub begun-IsBegun : (w : World) (sg : ShutdownGroup) → IsBegun w sg (begun w sg)
begun-IsBegun w sg = elim (Bool-cases (is_empty sg.status.snapshot)) [
  | inl fresh ↦ subst (IsBegun w sg) (sym (begun-fresh w sg fresh)) (record {
    same = same_object sg (captured (expected_snapshot w sg) sg) refl refl refl refl;
    saved = record {
      fresh = λ _. (refl, record { operator_is = refl; reason_is = refl });
      kept = λ kept. absurd (cc (fresh, kept));
    };
    state_same = refl;
    since_same = refl;
    history_same = refl;
    annotations_same = refl;
  })
  | inr kept ↦ subst (IsBegun w sg) (sym (begun-kept w sg kept)) (record {
    same = same_object sg sg refl refl refl refl;
    saved = record { fresh = λ fresh. absurd (cc (fresh, kept)); kept = λ _. (refl, refl, refl) };
    state_same = refl;
    since_same = refl;
    history_same = refl;
    annotations_same = refl;
  })
]

pub marked_down-IsMarked :
    (w : World) (now : Timestamp) (sg g : ShutdownGroup)
    → IsBegun w sg g
    → IsMarked state_down command_down (HasSnapshot w sg) now sg (marked_down now g)
marked_down-IsMarked w now sg g b = record {
  same =
      same_object sg (marked_down now g) b.same.namespace b.same.name b.same.deleting
        b.same.targets;
  marked = record { state_is = refl; since_is = refl };
  saved = HasSnapshot-same w sg g (marked_down now g) refl refl refl b.saved;
  history_same = b.history_same;
  annotations_same = b.annotations_same;
}

pub up_marked-IsMarked :
    (now : Timestamp) (sg : ShutdownGroup)
    → IsMarked state_up command_up (HasCleared sg) now sg (up_marked now sg)
up_marked-IsMarked now sg = record {
  same = same_object sg (up_marked now sg) refl refl refl refl;
  marked = record { state_is = refl; since_is = refl };
  saved = (refl, record { operator_is = refl; reason_is = refl });
  history_same = refl;
  annotations_same = refl;
}

module _ (state command : String) (Saved : ShutdownGroup → Type 0) (now : Timestamp)
    (sg g : ShutdownGroup) where
  pub with_entry-IsNoted :
      (Saved g → Saved (with_entry (entry_of command now sg) g))
      → IsMarked state command Saved now sg g
      → IsNoted state command Saved now sg (with_entry (entry_of command now sg) g)
  with_entry-IsNoted keeps m = record {
    same =
        same_object sg (with_entry (entry_of command now sg) g) m.same.namespace m.same.name
          m.same.deleting m.same.targets;
    marked = record { state_is = m.marked.state_is; since_is = m.marked.since_is };
    saved = keeps m.saved;
    entry =
        cap_history-eq-take (entry_of command now sg ∷ g.status.history)
        ∙ ap (λ h. take max_history_entries (entry_of command now sg ∷ h)) m.history_same;
    annotations_same = m.annotations_same;
  }

  pub without-IsClosed :
      (keys : List String)
      → (Saved g → Saved (without keys g))
      → All (λ k. contains keys k ≡ true) keys
      → IsNoted state command Saved now sg g
      → IsClosed state command Saved now sg (without keys g) keys
  without-IsClosed keys keeps has n = record {
    same =
        same_object sg (without keys g) n.same.namespace n.same.name n.same.deleting n.same.targets;
    marked = record { state_is = n.marked.state_is; since_is = n.marked.since_is };
    saved = keeps n.saved;
    entry = n.entry;
    lost = record {
      gone = All-map (λ k. gone_of g.annotations keys k) keys has;
      others = λ k out. lookup-kept g.annotations keys k out ∙ ap (lookup k) n.annotations_same;
    };
  }
