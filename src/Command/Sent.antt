-- ===== src/Command/Sent.antt =====
-- The patch with which the plugin asks for a command: cmd/kubectl-kshutdown/down.go and up.go.
use kshutdown.Base.{
  String, ◌≡◌, ◌∙◌, inl, inr, Bool, false, [], ok, Ensures, Ensures-bind, Ensures-ok,
  Ensures-rewrap, Ensures-mono, Ensures-self, pure, context, ◌>>=◌, ◌>>◌, ◌<>◌, Bool-cases, ◌==◌,
  is_empty,
}
use kshutdown.Api.{ShutdownGroup, state_down, state_up}
use kshutdown.Api.Client.{Client, IsLawful}
use kshutdown.Authz.Caller.{Caller, IsCaller, current_username}
use kshutdown.Webhook.{AdmissionRequest}
use kshutdown.Command.{
  Outcome, already_there, dry_run, triggered, Flags, asking_down, asking_up, check_down_permissions,
  check_snapshot, trigger_down, trigger_up, down_found, up_found,
}
use kshutdown.Command.Laws.{check_down_permissions_lem, check_snapshot_lem}

module _ (C : Client) (sg sent : ShutdownGroup) (s s' : C.State) where
  -- The run from `s` to `s'` ends with the patch of the object to `sent`, and has only read before.
  pub record Sends : Type 0 where
    pub before : C.State
    pub returned : ShutdownGroup
    pub reads : C.world before ≡ C.world s
    pub patches : C.patch_group sg sent before ≡ (ok returned, s')

module _ (C : Client) (sg sent : ShutdownGroup) (s : C.State) where
  SendsIf : Outcome → C.State → Type 0
  SendsIf already_there s' = Unit
  SendsIf dry_run s' = Unit
  SendsIf triggered s' = Sends C sg sent s s'

module _ (C : Client) (MayFail : Type 0) (L : IsLawful C MayFail) (caller : Caller C)
    (req : AdmissionRequest) (K : IsCaller C MayFail caller req.username req.groups)
    (ns name : String) (sg : ShutdownGroup) (s : C.State) where
  -- The user's name is read, and the patch that is made from it is sent.
  patch-SendsIf :
      (sent : String → ShutdownGroup) (s₁ : C.State)
      → C.world s₁ ≡ C.world s
      → Ensures
          (SendsIf C sg (sent req.username) s)
          (λ _. Unit {0})
          ((do
            username ← context "resolving current username" (current_username C caller)
            context
                ("patching shutdowngroup " <> ns <> "/" <> name)
                (C.patch_group sg (sent username))
            pure triggered)
            s₁)
  unfolding SendsIf current_username
  patch-SendsIf sent s₁ same =
      Ensures-bind (λ u t. (C.world t ≡ C.world s₁) × (u ≡ req.username)) (λ _. Unit {0}) _ _
        (context _ (current_username C caller) s₁) _
        (Ensures-rewrap _ _ _ (current_username C caller s₁) (
          Ensures-rewrap _ _ _ (caller.create_subject_review s₁) (
            Ensures-mono _ _ _ (λ _. Unit {0}) (caller.create_subject_review s₁)
              (K.subject_review_lem s₁) (λ _ _ h. h) (λ _ _. tt))))
        (λ u t h. rw h.1 (
          Ensures-bind (λ g t'. C.patch_group sg (sent req.username) t ≡ (ok g, t')) (λ _. Unit {0})
            _ _ (context _ (C.patch_group sg (sent req.username)) t) _
            (Ensures-rewrap _ _ _ (C.patch_group sg (sent req.username) t)
              (Ensures-self (C.patch_group sg (sent req.username) t)))
            (λ g t' ran. record { before = t; returned = g; reads = h.0 ∙ same; patches = ran })
            (λ _ _. tt)))
        (λ _ _. tt)

  down_found-SendsIf :
      (flags : Flags)
      → flags.partial ≡ false
      → Ensures
          (SendsIf C sg (asking_down flags.reason req.username false sg) s)
          (λ _. Unit {0})
          (down_found C caller flags ns name sg s)
  unfolding down_found trigger_down SendsIf
  down_found-SendsIf flags full = elim (Bool-cases (sg.status.state == state_down)) [
    | inl there ↦ rw there tt
    | inr not_down ↦
        rw (not_down, full)
          (Ensures-bind _ _ _ _ (check_down_permissions C caller sg s) _
            (check_down_permissions_lem C MayFail L caller req K sg s)
            (λ forbidden s₁ p. elim (Bool-cases (is_empty forbidden)) [
              | inl none_left ↦ elim (Bool-cases flags.dry) [
                | inl dry ↦ rw (none_left, dry) tt
                | inr wet ↦
                    rw (none_left, wet)
                      (patch-SendsIf (λ u. asking_down flags.reason u false sg) s₁ p.0)
              ]
              | inr has ↦ rw has tt
            ])
            (λ _ _. tt))
  ]

  -- A shutdown without --partial that has triggered has sent the request for it.
  pub down_found-Sends :
      (flags : Flags) (s' : C.State)
      → flags.partial ≡ false
      → down_found C caller flags ns name sg s ≡ (ok triggered, s')
      → Sends C sg (asking_down flags.reason req.username false sg) s s'
  unfolding SendsIf
  down_found-Sends flags s' full ran =
      Ensures-ok (SendsIf C sg (asking_down flags.reason req.username false sg) s) (λ _. Unit {0})
        (down_found C caller flags ns name sg s) triggered s' (down_found-SendsIf flags full) ran

  up_found-SendsIf :
      (dry : Bool)
      → Ensures
          (SendsIf C sg (asking_up req.username sg) s)
          (λ _. Unit {0})
          (up_found C caller dry ns name sg s)
  unfolding up_found trigger_up SendsIf
  up_found-SendsIf dry = elim (Bool-cases (sg.status.state == state_up)) [
    | inl there ↦ rw there tt
    | inr not_up ↦ elim (Bool-cases (is_empty sg.status.snapshot)) [
      | inl none_left ↦ rw (not_up, none_left) tt
      | inr has ↦
          rw (not_up, has)
            (Ensures-bind _ _ _ _ (check_snapshot C caller sg.status.snapshot [] s) _
              (check_snapshot_lem C MayFail L caller req K sg.status.snapshot s)
              (λ forbidden s₁ p. elim (Bool-cases (is_empty forbidden)) [
                | inl none_left ↦ elim (Bool-cases dry) [
                  | inl dry ↦ rw (none_left, dry) tt
                  | inr wet ↦ rw (none_left, wet) (patch-SendsIf (λ u. asking_up u sg) s₁ p.0)
                ]
                | inr some_left ↦ rw some_left tt
              ])
              (λ _ _. tt))
    ]
  ]

  -- A startup that has triggered has sent the request for it.
  pub up_found-Sends :
      (dry : Bool) (s' : C.State)
      → up_found C caller dry ns name sg s ≡ (ok triggered, s')
      → Sends C sg (asking_up req.username sg) s s'
  unfolding SendsIf
  up_found-Sends dry s' ran =
      Ensures-ok (SendsIf C sg (asking_up req.username sg) s) (λ _. Unit {0})
        (up_found C caller dry ns name sg s) triggered s' (up_found-SendsIf dry) ran
