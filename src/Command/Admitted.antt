-- ===== src/Command/Admitted.antt =====
-- The plugin's shutdown at the admission webhooks: cmd/kubectl-kshutdown/down.go and
-- internal/webhook/shutdowngroup_webhook.go.
use kshutdown.Base.{
  String, ◌≡◌, refl, ◌∙◌, subst, ◌⊎◌, inl, inr, false, List, [], ◌∷◌, All, Any, Result, ok, err,
  Ensures, Ensures-ok, ◌==◌,
}
use kshutdown.Base.GoMap.{GoMap, index, insert, index-insert}
use kshutdown.Api.{
  ShutdownGroup, annotation_command, annotation_operator, annotation_reason, command_down,
}
use kshutdown.Api.Client.{Client, IsLawful}
use kshutdown.Authz.{Check, IsFaithful}
use kshutdown.Authz.Caller.{Caller, IsCaller}
use kshutdown.Webhook.{AdmissionRequest, Warning, default, validate_update, validate_command}
use kshutdown.Webhook.Mutator.{Identifies, IsPlain, Writes, default-Identifies}
use kshutdown.Webhook.Counts.{Answers, answers, down_answers}
use kshutdown.Webhook.Gate.{
  IsPermitted, IsForbidden, IsUnknown, Passes, Stops, validate_command_lem,
}
use kshutdown.Webhook.Permission.{down_answers-same, update_asks}
use kshutdown.Command.{Flags, triggered, asking_down, down_found}
use kshutdown.Command.Full.{down_found-IsPermitted}

contradictory : (xs : Answers) → All IsPermitted xs → Any IsForbidden xs → ⊥
contradictory [] all h = h
contradictory (x ∷ xs) all (inl forbidden) = cc (all.0, forbidden)
contradictory (x ∷ xs) all (inr later) = contradictory xs all.1 later

-- The object that the plugin sends, without --partial, asks for a shutdown, with the reason and the
-- user's name.
pub asking_down-command :
    (reason username : String) (sg : ShutdownGroup)
    → index (asking_down reason username false sg).annotations annotation_command ≡ command_down
asking_down-command reason username sg =
    index-insert annotation_operator annotation_command username
      (insert annotation_reason reason asked)
    ∙ index-insert annotation_reason annotation_command reason asked
    ∙ index-insert annotation_command annotation_command command_down sg.annotations
  where
    asked : GoMap
    asked = insert annotation_command command_down sg.annotations

pub asking_down-reason :
    (reason username : String) (sg : ShutdownGroup)
    → index (asking_down reason username false sg).annotations annotation_reason ≡ reason
asking_down-reason reason username sg =
    index-insert annotation_operator annotation_reason username
      (insert annotation_reason reason (insert annotation_command command_down sg.annotations))
    ∙ index-insert annotation_reason annotation_reason reason
        (insert annotation_command command_down sg.annotations)

pub asking_down-operator :
    (reason username : String) (sg : ShutdownGroup)
    → index (asking_down reason username false sg).annotations annotation_operator ≡ username
asking_down-operator reason username sg =
    index-insert annotation_operator annotation_operator username
      (insert annotation_reason reason (insert annotation_command command_down sg.annotations))

module _ (C : Client) (MayFail : Type 0) (L : IsLawful C MayFail) (reliable : MayFail → ⊥)
    (check : Check C) (F : IsFaithful C MayFail check) (caller : Caller C) (req : AdmissionRequest)
    (K : IsCaller C MayFail caller req.username req.groups) where
  -- What the validator returns where every workload of a known command is permitted.
  pub validate_command-permitted :
      (command : String) (sg : ShutdownGroup) (s : C.State)
      → (IsUnknown command → ⊥)
      → All IsPermitted (answers (C.world s) req command sg)
      → (warnings : List Warning) × (s' : C.State) × (validate_command C check (ok req) command sg s
          ≡ (ok warnings, s'))
  validate_command-permitted command sg s known all =
      go (validate_command C check (ok req) command sg s) refl
        (validate_command_lem C MayFail L check F req command sg s)
    where
      go :
          (x : Result (List Warning) × C.State)
          → validate_command C check (ok req) command sg s ≡ x
          → Ensures
              (λ ws t. (C.world t ≡ C.world s) × Passes (C.world s) req command sg ws)
              (λ t. (C.world t ≡ C.world s) × (MayFail ⊎ Stops (C.world s) req command sg))
              x
          → (warnings : List Warning) × (s' : C.State) × (validate_command C check
                (ok req)
                command
                sg
                s
              ≡ (ok warnings, s'))
      go (ok warnings, s') ran h = (warnings, s', ran)
      go (err e, s') ran h = elim h.1 [
        | inl failed ↦ absurd (reliable failed)
        | inr (inl unknown) ↦ absurd (known unknown)
        | inr (inr refuses) ↦
            absurd (contradictory (answers (C.world s) req command sg) all refuses.0)
      ]

  -- What both webhooks know of the object that the plugin sends: who asks and for what, and that all
  -- of its targets are permitted to the user.
  abbrev pub IsAsked : ShutdownGroup → ShutdownGroup → C.State → Type 0
  IsAsked asked new t =
      Identifies req asked new
      × (index new.annotations annotation_command ≡ command_down)
      × All IsPermitted (down_answers (C.world t) req new)

  pub down_found-IsAsked :
      (decode : String → Result ShutdownGroup) (flags : Flags) (ns name username : String)
      (sg new : ShutdownGroup) (s s' t : C.State)
      → flags.partial ≡ false
      → down_found C caller flags ns name sg s ≡ (ok triggered, s')
      → All IsPlain req.groups
      → Writes decode req (asking_down flags.reason username false sg)
      → default decode (ok req) (asking_down flags.reason username false sg) ≡ (ok tt, new)
      → (C.world t).listing ≡ (C.world s).listing
      → (C.world t).allowed ≡ (C.world s).allowed
      → IsAsked (asking_down flags.reason username false sg) new t
  down_found-IsAsked decode flags ns name username sg new s s' t full ran plain writes mutated
        listing allowed =
      let asked = asking_down flags.reason username false sg in
      let asks = asking_down-command flags.reason username sg in
      let i =
        Ensures-ok (λ _ g. Identifies req asked g) (λ _. ⊥) (default decode (ok req) asked) tt new
          (default-Identifies decode req asked (rw asks refl) writes plain) mutated in
      (
        i,
        i.others annotation_command refl refl ∙ asks,
        subst (All IsPermitted) (down_answers-same (C.world s) (C.world t) req new listing allowed)
            (rw (i.own, i.targets)
              (down_found-IsPermitted C MayFail L caller req K flags ns name sg s s' full ran)),
      )

  -- Where calls do not fail: if the plugin's shutdown without --partial has triggered, the object
  -- that it sends replaces one with another command, and the groups of the user are not empty texts
  -- and have no comma, then both webhooks let the object through, while the listings and the
  -- authorizer's answers are as they were for the plugin's checks.
  pub down_found-validate_update :
      (decode : String → Result ShutdownGroup) (flags : Flags) (ns name username : String)
      (sg new : ShutdownGroup) (s s' t : C.State)
      → flags.partial ≡ false
      → down_found C caller flags ns name sg s ≡ (ok triggered, s')
      → All IsPlain req.groups
      → Writes decode req (asking_down flags.reason username false sg)
      → default decode (ok req) (asking_down flags.reason username false sg) ≡ (ok tt, new)
      → (command_down == index sg.annotations annotation_command) ≡ false
      → (C.world t).listing ≡ (C.world s).listing
      → (C.world t).allowed ≡ (C.world s).allowed
      → (warnings : List Warning) × (t' : C.State) × (validate_update C check (ok req) sg new t
          ≡ (ok warnings, t'))
  down_found-validate_update decode flags ns name username sg new s s' t full ran plain writes
        mutated differs listing allowed =
      let (_, down, all) =
        down_found-IsAsked decode flags ns name username sg new s s' t full ran plain writes mutated
          listing allowed in
      let (warnings, t', passed) =
        validate_command-permitted command_down new t (λ u. cc u.0) all in
      (warnings, t', update_asks C check req command_down sg new t down refl differs ∙ passed)
