-- ===== src/Controller/Reconcile/Frame.antt =====
-- What a startup leaves alone, whatever the snapshot holds: each workload that it does not name.
use kshutdown.Base.{
  ◌≡◌, refl, ◌∙◌, ap, ◌⊎◌, inl, inr, Bool-cases, ◌==◌, is_empty, List, [], ◌∷◌, Any, Ensures,
  Ensures-bind, Ensures-mono, Ensures-rewrap, Ensures-state, context, Effect, ◌>>=◌,
}
use kshutdown.Api.{ShutdownGroup, ResourceSnapshot, Timestamp, state_up, command_up}
use kshutdown.Api.Client.{Client, World, IsLawful, Ref}
use kshutdown.Authz.{Check}
use kshutdown.Controller.Workloads.{restore_entry, restore_all}
use kshutdown.Controller.Workloads.Levels.{Names}
use kshutdown.Controller.Workloads.Up.{
  Round, unknown, restored, kept, IsRound, RoundFails, restore_entry_lem,
}
use kshutdown.Controller.Group.{append_history, consume_annotations, up_keys}
use kshutdown.Controller.Group.Laws.{
  Stored, WriteFails, Writes, patch_status_lem, append_history_lem, consume_annotations_lem,
  up_keys-command,
}
use kshutdown.Controller.Reconcile.{entry_of, start_up, reconcile_up}
use kshutdown.Controller.Reconcile.Up.{up_marked, up_recorded}

-- Only workloads that the entries name have changed, and no group.
pub record Frame (es : List ResourceSnapshot) (w w' : World) : Type 0 where
  pub spec : (r : Ref) → (w'.spec r ≡ w.spec r) ⊎ Any (Names r) es
  pub group_same : w'.group ≡ w.group

pub Frame-refl : (es : List ResourceSnapshot) {w w' : World} → w' ≡ w → Frame es w w'
Frame-refl es h = record { spec = λ r. inl (rw h refl); group_same = rw h refl }

pub Frame-Round :
    (e : ResourceSnapshot) (es : List ResourceSnapshot) (w w' w'' : World)
    → Round e w w'
    → Frame es w' w''
    → Frame (e ∷ es) w w''
Frame-Round e es w w' w'' round f = record {
  spec = λ r. elim (f.spec r) [
    | inl same ↦ elim (first round r) [
      | inl before ↦ inl (same ∙ before)
      | inr named ↦ inr (inl named)
    ]
    | inr later ↦ inr (inr later)
  ];
  group_same = f.group_same ∙ group round;
}
  where
    first : Round e w w' → (r : Ref) → (w'.spec r ≡ w.spec r) ⊎ Names r e
    first (unknown _ same) r = inl (rw same refl)
    first (restored q names t _) r = elim (t.others r) [
      | inl here ↦ inr (rw here names)
      | inr same ↦ inl same
    ]
    first (kept _ _ same) r = inl (rw same refl)

    group : Round e w w' → w'.group ≡ w.group
    group (unknown _ same) = rw same refl
    group (restored q _ t _) = t.group_same
    group (kept _ _ same) = rw same refl

module _ (C : Client) (MayFail : Type 0) (L : IsLawful C MayFail) where
  restore_all-Frame :
      (es : List ResourceSnapshot) (s : C.State)
      → Ensures
          (λ _ s'. Frame es (C.world s) (C.world s'))
          (λ s'. Frame es (C.world s) (C.world s'))
          (restore_all C es s)
  unfolding restore_all
  restore_all-Frame [] s = Frame-refl [] refl
  restore_all-Frame (e ∷ es) s =
      Ensures-bind (IsRound C MayFail L e w) (RoundFails C MayFail L e w)
        (λ _ s'. Frame (e ∷ es) w (C.world s')) (λ s'. Frame (e ∷ es) w (C.world s'))
        (restore_entry C e s) _ (restore_entry_lem C MayFail L e s)
        (λ _ s' round.
          Ensures-mono _ _ _ _ (restore_all C es s') (restore_all-Frame es s')
            (λ _ s'' f. Frame-Round e es w (C.world s') (C.world s'') round f)
            (λ s'' f. Frame-Round e es w (C.world s') (C.world s'') round f))
        (λ s' f. Frame-refl (e ∷ es) f.0)
    where
      w : World
      w = C.world s

  -- The three writes at the end touch the group alone.
  module _ (check : Check C) (now : Timestamp) (sg : ShutdownGroup) where
    abbrev Quiet : World → C.State → Type 0
    Quiet w s' = (C.world s').spec ≡ w.spec

    abbrev recording : ShutdownGroup → Effect C.State (Unit {0})
    recording g₁ = do
      g₂ ←
          context "appending history after startup"
            (append_history C g₁ (entry_of command_up now sg))
      context "consuming annotations after startup" (consume_annotations C g₂ up_keys)

    abbrev marking : Effect C.State (Unit {0})
    marking = context "patching state to up" (C.patch_status sg (up_marked now sg)) >>= recording

    recording-Quiet :
        (s : C.State)
        → Stored (up_marked now sg) (C.world s)
        → Ensures (λ _. Quiet (C.world s)) (Quiet (C.world s)) (recording (up_marked now sg) s)
    recording-Quiet s st =
        Ensures-bind (Writes C MayFail L (up_recorded now sg) (C.world s))
          (WriteFails C MayFail L (C.world s)) (λ _. Quiet (C.world s)) (Quiet (C.world s))
          (context _ (append_history C (up_marked now sg) (entry_of command_up now sg)) s) _
          (Ensures-rewrap _ _ _ (append_history C (up_marked now sg) (entry_of command_up now sg) s)
            (append_history_lem C MayFail L (up_marked now sg) (entry_of command_up now sg) s st))
          (λ g' s' p. rw p.0 (
            Ensures-rewrap _ _ _ (consume_annotations C (up_recorded now sg) up_keys s') (
              Ensures-mono _ _ _ _ (consume_annotations C (up_recorded now sg) up_keys s')
                (consume_annotations_lem C MayFail L (up_recorded now sg) up_keys s' up_keys-command
                  p.1.stored)
                (λ _ s'' q. q.spec_same ∙ p.1.spec_same) (λ s'' f. rw f.0 p.1.spec_same))))
          (λ s' f. rw f.0 refl)

    marking-Quiet :
        (s : C.State)
        → Stored sg (C.world s)
        → Ensures (λ _. Quiet (C.world s)) (Quiet (C.world s)) (marking s)
    marking-Quiet s st =
        Ensures-bind (Writes C MayFail L (up_marked now sg) (C.world s))
          (WriteFails C MayFail L (C.world s)) (λ _. Quiet (C.world s)) (Quiet (C.world s))
          (context _ (C.patch_status sg (up_marked now sg)) s) _
          (patch_status_lem C MayFail L _ sg (up_marked now sg).status s st)
          (λ g' s' p. rw p.0 (
            Ensures-mono (λ _. Quiet (C.world s')) (Quiet (C.world s')) (λ _. Quiet (C.world s))
              (Quiet (C.world s)) (recording (up_marked now sg) s') (recording-Quiet s' p.1.stored)
              (λ _ s'' q. q ∙ p.1.spec_same) (λ s'' q. q ∙ p.1.spec_same)))
          (λ s' f. rw f.0 refl)

    -- The workloads that the snapshot does not name are as before.
    abbrev pub Unnamed : World → World → Type 0
    Unnamed w w' = (r : Ref) → (w'.spec r ≡ w.spec r) ⊎ Any (Names r) sg.status.snapshot

    Unnamed-after :
        (w w' w'' : World) → Frame sg.status.snapshot w w' → w''.spec ≡ w'.spec → Unnamed w w''
    Unnamed-after w w' w'' f same r = elim (f.spec r) [
      | inl before ↦ inl (ap (λ h. h r) same ∙ before)
      | inr named ↦ inr named
    ]

    start_up-Unnamed :
        (s : C.State)
        → Stored sg (C.world s)
        → Ensures
            (λ _ s'. Unnamed (C.world s) (C.world s'))
            (λ s'. Unnamed (C.world s) (C.world s'))
            (start_up C check now sg s)
    unfolding start_up
    start_up-Unnamed s st =
        Ensures-bind (λ _ s'. Frame sg.status.snapshot w (C.world s'))
          (λ s'. Frame sg.status.snapshot w (C.world s')) (λ _ s'. Unnamed w (C.world s'))
          (λ s'. Unnamed w (C.world s')) (restore_all C sg.status.snapshot s) _
          (restore_all-Frame sg.status.snapshot s)
          (λ _ s' f.
            Ensures-mono (λ _. Quiet (C.world s')) (Quiet (C.world s')) _ _ (marking s')
              (marking-Quiet s' (ap (λ h. h sg.namespace sg.name) f.group_same ∙ st))
              (λ _ s'' same. Unnamed-after w (C.world s') (C.world s'') f same)
              (λ s'' same. Unnamed-after w (C.world s') (C.world s'') f same))
          (λ s' f. f.spec)
      where
        w : World
        w = C.world s

    -- However `reconcileUp` of a stored group ends, a workload that its snapshot does not name has
    -- the spec that it had.
    pub reconcile_up-Unnamed :
        (s : C.State)
        → Stored sg (C.world s)
        → Unnamed (C.world s) (C.world (reconcile_up C check now sg s).1)
    unfolding reconcile_up
    reconcile_up-Unnamed s st = elim (Bool-cases (sg.status.state == state_up)) [
      | inl up ↦ rw up (
          Ensures-state _ _ (λ s'. Unnamed (C.world s) (C.world s'))
            (consume_annotations C sg up_keys s)
            (consume_annotations_lem C MayFail L sg up_keys s up_keys-command st)
            (λ _ s' p r. inl (ap (λ h. h r) p.spec_same)) (λ s' f r. inl (ap (λ w. w.spec r) f.0)))
      | inr not_up ↦ rw not_up (elim (Bool-cases (is_empty sg.status.snapshot)) [
        | inl fresh ↦ rw fresh (λ r. inl refl)
        | inr has ↦ rw has (
            Ensures-state _ _ (λ s'. Unnamed (C.world s) (C.world s')) (start_up C check now sg s)
              (start_up-Unnamed s st) (λ _ s' h. h) (λ s' h. h))
      ])
    ]
