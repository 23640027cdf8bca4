-- ===== src/Webhook/Gate.antt =====
-- What the validator admits and refuses.
use kshutdown.Base.{
  String, ◌≡◌, refl, sym, ◌∙◌, ◌⊎◌, inl, inr, Bool, true, false, ltb, List, [], ◌∷◌, length,
  is_empty, All, Any, Result, ok, Ensures, Ensures-bind, Ensures-mono, subst, Bool-cases, ◌==◌,
  arith,
}
use kshutdown.Base.Text.{join}
use kshutdown.Base.GoMap.{index}
use kshutdown.Api.{ShutdownGroup, annotation_command, command_down, command_up}
use kshutdown.Api.Client.{Client, World, IsLawful}
use kshutdown.Api.Reads.{Reads}
use kshutdown.Authz.{Check, IsFaithful}
use kshutdown.Webhook.{
  AdmissionRequest, Warning, skipped, asks_partial, decide, tally, validate_command,
  validate_create,
}
use kshutdown.Webhook.Counts.{
  zero_add, Answers, answers, forbidden_of, authorized_of, counted, check_down_targets_lem,
  check_up_targets_lem,
}

-- What the test on the tally says of the answers.
abbrev pub IsPermitted : String × Bool → Type 0
IsPermitted p = p.1 ≡ true

abbrev pub IsForbidden : String × Bool → Type 0
IsForbidden p = p.1 ≡ false

pub forbidden_of-cases :
    (xs : Answers)
    → (All IsPermitted xs × (forbidden_of xs ≡ []))
      ⊎ (Any IsForbidden xs × (is_empty (forbidden_of xs) ≡ false))
unfolding forbidden_of
forbidden_of-cases [] = inl (tt, refl)
forbidden_of-cases ((text, false) ∷ xs) = inr (inl refl, refl)
forbidden_of-cases ((text, true) ∷ xs) = elim (forbidden_of-cases xs) [
  | inl (all, e) ↦ inl ((refl, all), e)
  | inr (some_of, e) ↦ inr (inr some_of, e)
]

authorized_of-cases :
    (xs : Answers)
    → (Any IsPermitted xs × (ltb 0 (authorized_of xs) ≡ true))
      ⊎ (All IsForbidden xs × (authorized_of xs ≡ 0))
unfolding authorized_of
authorized_of-cases [] = inr (tt, refl)
authorized_of-cases ((text, true) ∷ xs) = inl (inl refl, ground arith)
authorized_of-cases ((text, false) ∷ xs) = elim (authorized_of-cases xs) [
  | inl (some_of, e) ↦ inl (inr some_of, rw zero_add e)
  | inr (all, e) ↦ inr ((refl, all), rw zero_add e)
]

-- `validateCommand` admits: every answer is a permission, or the object asks for a partial shutdown
-- and some answer is. The warnings list what is skipped.
abbrev pub Admits : String → ShutdownGroup → Answers → List Warning → Type 0
Admits command sg xs warnings =
    (All IsPermitted xs × (warnings ≡ []))
    ⊎ ((asks_partial sg ≡ true)
        × ((command == command_down) ≡ true)
        × Any IsPermitted xs
        × (warnings ≡ skipped (length (forbidden_of xs)) (join ", " (forbidden_of xs)) ∷ []))

-- It refuses: some answer is a refusal, and the request is not for a partial shutdown or no answer
-- is a permission.
abbrev pub Refuses : String → ShutdownGroup → Answers → Type 0
Refuses command sg xs =
    Any IsForbidden xs
    × ((asks_partial sg ≡ false) ⊎ ((command == command_down) ≡ false) ⊎ All IsForbidden xs)

abbrev pub IsKnown : String → Type 0
IsKnown command = ((command == command_down) ≡ true) ⊎ ((command == command_up) ≡ true)

abbrev pub IsUnknown : String → Type 0
IsUnknown command = ((command == command_down) ≡ false) × ((command == command_up) ≡ false)

-- What holds where `validateCommand` returns its warnings, and where it returns an error and no
-- call failed.
abbrev pub Passes : World → AdmissionRequest → String → ShutdownGroup → List Warning → Type 0
Passes w req command sg warnings =
    IsKnown command × Admits command sg (answers w req command sg) warnings

abbrev pub Stops : World → AdmissionRequest → String → ShutdownGroup → Type 0
Stops w req command sg = IsUnknown command ⊎ Refuses command sg (answers w req command sg)

module _ (C : Client) (check : Check C) where
  Decides : String → ShutdownGroup → Answers → World → Result (List Warning) × C.State → Type 0
  Decides command sg xs w =
      Ensures (λ warnings s'. (C.world s' ≡ w) × Admits command sg xs warnings)
        (λ s'. (C.world s' ≡ w) × Refuses command sg xs)

  -- The test on the tally.
  decide_lem :
      (command : String) (sg : ShutdownGroup) (xs : Answers) (w : World) (s : C.State)
      → C.world s ≡ w
      → Decides command sg xs w (decide C check command sg (counted xs) s)
  unfolding decide Decides
  decide_lem command sg xs w s h = elim (forbidden_of-cases xs) [
    | inl (all, none_left) ↦ rw none_left (h, inl (all, refl))
    | inr (some_left, has) ↦ rw has (elim (Bool-cases (asks_partial sg)) [
      | inl partial ↦ elim (Bool-cases (command == command_down)) [
        | inl down ↦ elim (authorized_of-cases xs) [
          | inl (some_of, e) ↦ rw (partial, down, e) (h, inr (refl, refl, some_of, refl))
          | inr (all, e) ↦ rw (partial, down, e) (h, (some_left, inr (inr all)))
        ]
        | inr not_down ↦ rw (partial, not_down) (h, (some_left, inr (inl refl)))
      ]
      | inr full ↦ rw full (h, (some_left, inl refl))
    ])
  ]

module _ (C : Client) (MayFail : Type 0) (L : IsLawful C MayFail) (check : Check C)
    (F : IsFaithful C MayFail check) (req : AdmissionRequest) where
  -- The tally of a known command counts its answers.
  tally_lem :
      (command : String) (sg : ShutdownGroup) (s : C.State)
      → IsKnown command
      → Reads C MayFail
          (C.world s)
          (λ t. t ≡ counted (answers (C.world s) req command sg))
          (tally C check command sg req s)
  unfolding tally
  tally_lem command sg s (inl down) =
      rw down (check_down_targets_lem C MayFail L check F (C.world s) req sg s refl)
  tally_lem command sg s (inr up) = elim (Bool-cases (command == command_down)) [
    | inl down ↦ rw down (check_down_targets_lem C MayFail L check F (C.world s) req sg s refl)
    | inr not_down ↦
        rw (not_down, up) (check_up_targets_lem C MayFail L check F (C.world s) req sg s refl)
  ]

  known_command :
      (command : String) (sg : ShutdownGroup) (s : C.State)
      → IsKnown command
      → Ensures
          (λ warnings s'. (C.world s' ≡ C.world s) × Passes (C.world s) req command sg warnings)
          (λ s'. (C.world s' ≡ C.world s) × (MayFail ⊎ Stops (C.world s) req command sg))
          (validate_command C check (ok req) command sg s)
  unfolding validate_command Decides
  known_command command sg s known =
      Ensures-bind _ _ _ _ (tally C check command sg req s) (decide C check command sg)
        (tally_lem command sg s known)
        (λ t s' p.
          subst
            (λ t'.
              Ensures
                (λ warnings s''.
                  (C.world s'' ≡ C.world s) × Passes (C.world s) req command sg warnings)
                (λ s''. (C.world s'' ≡ C.world s) × (MayFail ⊎ Stops (C.world s) req command sg))
                (decide C check command sg t' s'))
            (sym p.1)
            (Ensures-mono _ _ _ _
              (decide C check command sg (counted (answers (C.world s) req command sg)) s')
              (decide_lem C check command sg (answers (C.world s) req command sg) (C.world s) s'
                p.0)
              (λ _ _ q. (q.0 ∙ refl, (known, q.1))) (λ _ q. (q.0, inr (inr q.1)))))
        (λ _ q. (q.0, inl q.1))

  -- The errors and the warnings of `validateCommand`.
  pub validate_command_lem :
      (command : String) (sg : ShutdownGroup) (s : C.State)
      → Ensures
          (λ warnings s'. (C.world s' ≡ C.world s) × Passes (C.world s) req command sg warnings)
          (λ s'. (C.world s' ≡ C.world s) × (MayFail ⊎ Stops (C.world s) req command sg))
          (validate_command C check (ok req) command sg s)
  unfolding validate_command tally
  validate_command_lem command sg s = elim (Bool-cases (command == command_down)) [
    | inl down ↦ known_command command sg s (inl down)
    | inr not_down ↦ elim (Bool-cases (command == command_up)) [
      | inl up ↦ known_command command sg s (inr up)
      | inr not_up ↦ rw (not_down, not_up) (refl, inr (inl (refl, refl)))
    ]
  ]

  -- `ValidateCreate` writes nothing. It returns no error only if the object has no command, or the
  -- command is known and each of its workloads may be patched, or a partial shutdown is asked for
  -- and one of them may be; the warning then lists those that may not. It returns an error only if
  -- a call can fail, the command is unknown, or one of the workloads may not be patched and either
  -- no partial shutdown is asked for or none of them may be.
  pub validate_create_lem :
      (sg : ShutdownGroup) (s : C.State)
      → let command = index sg.annotations annotation_command in
        Ensures
          (λ warnings s'.
            (C.world s' ≡ C.world s)
            × ((((command == "") ≡ true) × (warnings ≡ []))
                ⊎ Passes (C.world s) req command sg warnings))
          (λ s'. (C.world s' ≡ C.world s) × (MayFail ⊎ Stops (C.world s) req command sg))
          (validate_create C check (ok req) sg s)
  unfolding validate_create
  validate_create_lem sg s = elim (Bool-cases (index sg.annotations annotation_command == "")) [
    | inl silent ↦ rw silent (refl, inl (refl, refl))
    | inr asks ↦ rw asks (
        Ensures-mono _ _ _ _
          (validate_command C check (ok req) (index sg.annotations annotation_command) sg s)
          (validate_command_lem (index sg.annotations annotation_command) sg s)
          (λ _ _ q. (q.0, inr q.1)) (λ _ q. q))
  ]
