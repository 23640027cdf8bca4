-- ===== src/Command/Full.antt =====
-- `down` without --partial.
use kshutdown.Base.{
  String, ◌≡◌, inl, inr, false, All, ok, Ensures, Ensures-bind, Ensures-ok, Bool-cases, ◌==◌,
  Result, err,
}
use kshutdown.Api.{ShutdownGroup, state_down}
use kshutdown.Api.Client.{Client, IsLawful}
use kshutdown.Authz.Caller.{Caller, IsCaller}
use kshutdown.Webhook.{AdmissionRequest}
use kshutdown.Webhook.Counts.{Answers, down_answers}
use kshutdown.Webhook.Gate.{IsPermitted, forbidden_of-cases}
use kshutdown.Command.{
  Outcome, already_there, dry_run, triggered, Flags, check_down_permissions, down_found,
}
use kshutdown.Command.Laws.{check_down_permissions_lem}

-- An outcome past the permission check is reached only where every answer is a permission.
abbrev Reaches : Answers → Outcome → Type 0
Reaches xs already_there = Unit
Reaches xs dry_run = All IsPermitted xs
Reaches xs triggered = All IsPermitted xs

All-Reaches : (xs : Answers) (o : Outcome) → All IsPermitted xs → Reaches xs o
All-Reaches xs already_there h = tt
All-Reaches xs dry_run h = h
All-Reaches xs triggered h = h

module _ {S : Type 0} where
  pub Ensures-all :
      {A : Type 0} (P : A → Type 0) (x : Result A × S)
      → ((a : A) → P a)
      → Ensures (λ a _. P a) (λ _. Unit {0}) x
  Ensures-all P (ok a, s) h = h a
  Ensures-all P (err e, s) h = tt

module _ (C : Client) (MayFail : Type 0) (L : IsLawful C MayFail) (caller : Caller C)
    (req : AdmissionRequest) (K : IsCaller C MayFail caller req.username req.groups) where
  down_found-Reaches :
      (flags : Flags) (ns name : String) (sg : ShutdownGroup) (s : C.State)
      → flags.partial ≡ false
      → Ensures
          (λ o _. Reaches (down_answers (C.world s) req sg) o)
          (λ _. Unit {0})
          (down_found C caller flags ns name sg s)
  unfolding down_found
  down_found-Reaches flags ns name sg s full = elim (Bool-cases (sg.status.state == state_down)) [
    | inl there ↦ rw there tt
    | inr not_down ↦
        rw (not_down, full)
          (Ensures-bind _ _ _ _ (check_down_permissions C caller sg s) _
            (check_down_permissions_lem C MayFail L caller req K sg s)
            (λ forbidden s' p. elim (forbidden_of-cases (down_answers (C.world s) req sg)) [
              | inl (all, none_left) ↦
                  rw (p.1, none_left)
                    (Ensures-all (Reaches (down_answers (C.world s) req sg)) _
                      (λ o. All-Reaches (down_answers (C.world s) req sg) o all))
              | inr (some_left, has) ↦ rw (p.1, has) tt
            ])
            (λ _ _. tt))
  ]

  -- Without --partial, a shutdown that the plugin triggers has every targeted workload permitted to
  -- the caller.
  pub down_found-IsPermitted :
      (flags : Flags) (ns name : String) (sg : ShutdownGroup) (s s' : C.State)
      → flags.partial ≡ false
      → down_found C caller flags ns name sg s ≡ (ok triggered, s')
      → All IsPermitted (down_answers (C.world s) req sg)
  down_found-IsPermitted flags ns name sg s s' full ran =
      Ensures-ok (λ o _. Reaches (down_answers (C.world s) req sg) o) (λ _. Unit {0})
        (down_found C caller flags ns name sg s) triggered s'
        (down_found-Reaches flags ns name sg s full) ran
