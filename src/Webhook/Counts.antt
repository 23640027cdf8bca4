-- ===== src/Webhook/Counts.antt =====
-- What the validator's checks count.
use kshutdown.Base.{
  ℕ, ◌+◌, String, ◌≡◌, refl, ◌∙◌, ap, Bool, true, false, Option, none, some, List, [], ◌∷◌, ◌++◌,
  map, foldl, pure, ◌>>=◌, ◌==◌, if◌then◌else◌, arith, context,
}
use mathlib.Core.List.{append_assoc, append-nil}
use kshutdown.Api.{ShutdownGroup, ResourceSnapshot, command_down}
use kshutdown.Api.Client.{Client, World, IsLawful, Review}
use kshutdown.Api.Reads.{Reads, Reads-bind, Reads-rewrap, Reads-mono}
use kshutdown.Authz.{Check, IsFaithful}
use kshutdown.Targets.{Workload, targeted}
use kshutdown.Targets.Laws.{for_targets_lem}
use kshutdown.Controller.Collect.{patch_review, describe}
use kshutdown.Webhook.{
  AdmissionRequest, Tally, no_tally, count, kind_attributes, describe_entry, entry_review,
  check_one, check_down_targets, check_entry, check_entries, check_up_targets,
}

-- The authorizer's answers, each with the text that names the workload.
abbrev pub Answers : Type 0
Answers = List (String × Bool)

abbrev pub permitted : World → AdmissionRequest → Workload → Bool
permitted w req x = w.allowed (patch_review req.username req.groups x)

abbrev pub down_answer : World → AdmissionRequest → Workload → String × Bool
down_answer w req x = (describe x, permitted w req x)

abbrev pub down_answers : World → AdmissionRequest → ShutdownGroup → Answers
down_answers w req sg = map (down_answer w req) (targeted w sg.namespace sg.targets)

-- An entry of a kind that the code does not know has no answer.
abbrev pub entry_answers :
    World → AdmissionRequest → ResourceSnapshot → Option (String × String) → Answers → Answers
entry_answers w req e none rest = rest
entry_answers w req e (some a) rest =
    (describe_entry e, w.allowed (entry_review req.username req.groups e a)) ∷ rest

abbrev pub up_answers : World → AdmissionRequest → List ResourceSnapshot → Answers
up_answers w req [] = []
up_answers w req (e ∷ es) = entry_answers w req e (kind_attributes e.kind) (up_answers w req es)

abbrev pub answers : World → AdmissionRequest → String → ShutdownGroup → Answers
answers w req command sg =
    if command == command_down then down_answers w req sg else up_answers w req sg.status.snapshot

abbrev keep_forbidden : String → Bool → List String → List String
keep_forbidden text true rest = rest
keep_forbidden text false rest = text ∷ rest

abbrev one_if : Bool → ℕ
one_if true = 1
one_if false = 0

-- What the counting loops return, from the answers.
unfoldable pub forbidden_of : Answers → List String
forbidden_of [] = []
forbidden_of ((text, b) ∷ rest) = keep_forbidden text b (forbidden_of rest)

unfoldable pub authorized_of : Answers → ℕ
authorized_of [] = 0
authorized_of ((text, b) ∷ rest) = one_if b + authorized_of rest

abbrev pub counted : Answers → Tally
counted xs = record { forbidden = forbidden_of xs; authorized = authorized_of xs }

abbrev step : Tally → String × Bool → Tally
step t (text, b) = count text t b

abbrev plus : Tally → Answers → Tally
plus t xs = record {
  forbidden = t.forbidden ++ forbidden_of xs;
  authorized = t.authorized + authorized_of xs;
}

add_zero : (n : ℕ) → n + 0 ≡ n
add_zero n = omega arith

pub zero_add : (n : ℕ) → 0 + n ≡ n
zero_add n = omega arith

add_assoc : (a b c : ℕ) → a + b + c ≡ a + (b + c)
add_assoc a b c = omega arith

foldl-step : (t : Tally) (xs : Answers) → foldl step t xs ≡ plus t xs
unfolding forbidden_of authorized_of
foldl-step t [] = cc (append-nil t.forbidden, add_zero t.authorized)
foldl-step t ((text, true) ∷ xs) =
    foldl-step (count text t true) xs ∙ cc (add_assoc t.authorized 1 (authorized_of xs))
foldl-step t ((text, false) ∷ xs) =
    foldl-step (count text t false) xs
    ∙ cc (append_assoc t.forbidden (text ∷ []) (forbidden_of xs), zero_add (authorized_of xs))

foldl-no_tally : (xs : Answers) → foldl step no_tally xs ≡ counted xs
foldl-no_tally xs = foldl-step no_tally xs ∙ cc (zero_add (authorized_of xs))

pub foldl-map :
    {A B S : Type 0} (f : A → B) (g : S → B → S) (s : S) (xs : List A)
    → foldl (λ t x. g t (f x)) s xs ≡ foldl g s (map f xs)
foldl-map f g s [] = refl
foldl-map f g s (x ∷ xs) = foldl-map f g (g s (f x)) xs

module _ (C : Client) (MayFail : Type 0) (L : IsLawful C MayFail) (check : Check C)
    (F : IsFaithful C MayFail check) (w : World) where
  check_lem :
      (text message : String) (t : Tally) (r : Review) (s : C.State)
      → C.world s ≡ w
      → Reads C MayFail w
          (λ t'. t' ≡ count text t (w.allowed r))
          ((context message (check r) >>= λ b. pure (count text t b)) s)
  check_lem text message t r s h =
      Reads-bind C MayFail w (λ b. b ≡ w.allowed r) _ (context message (check r) s) _
        (Reads-rewrap C MayFail w (λ b. b ≡ w.allowed r) message (check r s) (rw h at (F r s)))
        (λ b s' h' e. (h', ap (count text t) e))

  check_one_lem :
      (req : AdmissionRequest) (x : Workload) (t : Tally) (s : C.State)
      → C.world s ≡ w
      → Reads C MayFail w
          (λ t'. t' ≡ step t (down_answer w req x))
          (check_one C check req.username req.groups x t s)
  unfolding check_one
  check_one_lem req x t s h =
      check_lem (describe x) _ t (patch_review req.username req.groups x) s h

  -- `checkDownTargets` counts the answers for the targeted workloads, and only reads.
  pub check_down_targets_lem :
      (req : AdmissionRequest) (sg : ShutdownGroup) (s : C.State)
      → C.world s ≡ w
      → Reads C MayFail w
          (λ t. t ≡ counted (down_answers w req sg))
          (check_down_targets C check sg req.username req.groups s)
  unfolding check_down_targets
  check_down_targets_lem req sg s h =
      Reads-mono C MayFail w _ _ _
        (for_targets_lem C MayFail L w (check_one C check req.username req.groups)
          (λ t x. step t (down_answer w req x)) (λ x t s' h'. check_one_lem req x t s' h')
          sg.namespace sg.targets no_tally s h)
        (λ t e.
          e
          ∙ foldl-map (down_answer w req) step no_tally (targeted w sg.namespace sg.targets)
          ∙ foldl-no_tally (down_answers w req sg))

  check_entry_lem :
      (req : AdmissionRequest) (e : ResourceSnapshot) (t : Tally) (a : Option (String × String))
      (rest : Answers) (s : C.State)
      → C.world s ≡ w
      → Reads C MayFail w
          (λ t'. foldl step t' rest ≡ foldl step t (entry_answers w req e a rest))
          (check_entry C check req.username req.groups e t a s)
  unfolding check_entry
  check_entry_lem req e t none rest s h = (h, refl)
  check_entry_lem req e t (some a) rest s h =
      Reads-mono C MayFail w _ _ _
        (check_lem (describe_entry e) _ t (entry_review req.username req.groups e a) s h)
        (λ t' same. rw same refl)

  check_entries_lem :
      (req : AdmissionRequest) (es : List ResourceSnapshot) (t : Tally) (s : C.State)
      → C.world s ≡ w
      → Reads C MayFail w
          (λ t'. t' ≡ foldl step t (up_answers w req es))
          (check_entries C check req.username req.groups es t s)
  unfolding check_entries
  check_entries_lem req [] t s h = (h, refl)
  check_entries_lem req (e ∷ es) t s h =
      Reads-bind C MayFail w _ _
        (check_entry C check req.username req.groups e t (kind_attributes e.kind) s) _
        (check_entry_lem req e t (kind_attributes e.kind) (up_answers w req es) s h)
        (λ t' s' h' same.
          Reads-mono C MayFail w _ _ _ (check_entries_lem req es t' s' h') (λ t'' p. p ∙ same))

  -- `checkUpTargets` counts the answers for the entries of the snapshot, and only reads.
  pub check_up_targets_lem :
      (req : AdmissionRequest) (sg : ShutdownGroup) (s : C.State)
      → C.world s ≡ w
      → Reads C MayFail w
          (λ t. t ≡ counted (up_answers w req sg.status.snapshot))
          (check_up_targets C check sg req.username req.groups s)
  unfolding check_up_targets
  check_up_targets_lem req sg s h =
      Reads-mono C MayFail w _ _ _ (check_entries_lem req sg.status.snapshot no_tally s h)
        (λ t e. e ∙ foldl-no_tally (up_answers w req sg.status.snapshot))
