-- ===== src/Command/Define/Created.antt =====
-- What the command `define` creates (cmd/kubectl-kshutdown/define.go).
use kshutdown.Base.{
  String, ◌<>◌, ◌==◌, ◌≡◌, refl, sym, inl, inr, Bool-cases, false, not, ◌||◌, List, [], length,
  is_empty, eqb, Effect, Result, ok, err, context, ◌>>◌, subst, arith, rewrap, Ensures,
  Ensures-bind, Ensures-rewrap, Ensures-self, Ensures-mono, Ensures-ok,
}
use kshutdown.Api.{Target, ShutdownGroup}
use kshutdown.Api.Client.{Client}
use kshutdown.Command.Define.{make_targets, defined, create_defined, define_command}
use kshutdown.Command.Define.Pairs.{
  IsPaired, IsPaired-make_targets, make_targets-IsPaired, length-IsPaired, both_some, same_length,
  or_left,
}

module _ (C : Client) (connect : Effect C.State (Unit {0}))
    (create : ShutdownGroup → Effect C.State (Unit {0})) where
  -- With a namespace and as many selectors as namespaces, one at least, that are all accepted,
  -- the command connects and then creates the group that has one target for each pair, in order.
  pub define_command-IsPaired :
      (ns name : String) (namespaces selectors : List String) (targets : List Target)
      → (ns == "") ≡ false
      → is_empty namespaces ≡ false
      → IsPaired namespaces selectors targets
      → (s : C.State)
      → define_command C connect create ns name namespaces selectors s
        ≡ (context "building client" connect
              >> context
                  ("creating shutdowngroup " <> ns <> "/" <> name)
                  (create (defined ns name targets)))
            s
  unfolding define_command create_defined
  define_command-IsPaired ns name nss sels targets named some_ns p s =
      rw
        (
          named,
          some_ns,
          both_some nss sels (length-IsPaired nss sels targets p) some_ns,
          same_length (length-IsPaired nss sels targets p),
          IsPaired-make_targets nss sels [] targets p,
        )
        refl

  -- Where a run from `s` that leaves `s₁` went: to the creation of a group with these targets.
  pub record Creates (ns name : String) (targets : List Target) (s s₁ : C.State) : Type 0 where
    connected : C.State
    connects : connect s ≡ (ok tt, connected)
    creates : create (defined ns name targets) connected ≡ (ok tt, s₁)

  create_defined_lem :
      (ns name : String) (r : Result (List Target)) (s : C.State)
      → Ensures
          (λ _ s₁. (targets : List Target) × (r ≡ ok targets) × Creates ns name targets s s₁)
          (λ _. Unit {0})
          (create_defined C connect create ns name r s)
  unfolding create_defined
  create_defined_lem ns name (err e) s = tt
  create_defined_lem ns name (ok targets) s =
      Ensures-bind (λ _ s₀. connect s ≡ (ok tt, s₀)) (λ _. Unit {0}) _ _
        (rewrap "building client" (connect s)) _
        (Ensures-rewrap _ _ "building client" (connect s) (Ensures-self (connect s)))
        (λ _ s₀ h.
          Ensures-rewrap _ _ ("creating shutdowngroup " <> ns <> "/" <> name)
            (create (defined ns name targets) s₀)
            (Ensures-mono _ _ _ _ (create (defined ns name targets) s₀)
              (Ensures-self (create (defined ns name targets) s₀))
              (λ _ s₁ k. (targets, refl, record { connected = s₀; connects = h; creates = k }))
              (λ _ _. tt)))
        (λ _ _. tt)

  -- What the command has done, where it returns from `s` in `s₁` without an error.
  pub record IsCreated (ns name : String) (namespaces selectors : List String) (s s₁ : C.State)
      : Type 0 where
    targets : List Target
    named : (ns == "") ≡ false
    some_pair : is_empty namespaces ≡ false
    paired : IsPaired namespaces selectors targets
    creates : Creates ns name targets s s₁

  define_command_lem :
      (ns name : String) (namespaces selectors : List String) (s : C.State)
      → Ensures
          (λ _ s₁. IsCreated ns name namespaces selectors s s₁)
          (λ _. Unit {0})
          (define_command C connect create ns name namespaces selectors s)
  unfolding define_command
  define_command_lem ns name nss sels s = elim (Bool-cases (ns == "")) [
    | inl unnamed ↦ rw unnamed tt
    | inr named ↦ rw named (elim (Bool-cases (is_empty nss || is_empty sels)) [
      | inl none_given ↦ rw none_given tt
      | inr some_given ↦ rw some_given (elim (Bool-cases (not (eqb (length nss) (length sels)))) [
        | inl uneven ↦ rw uneven tt
        | inr even ↦ rw even (
            Ensures-mono _ _ _ _
              (create_defined C connect create ns name (make_targets nss sels []) s)
              (create_defined_lem ns name (make_targets nss sels []) s)
              (λ _ s₁ (targets, made, creates).
                let (found, same, paired) =
                  make_targets-IsPaired nss sels [] targets (ground (arith, even)) made in
                record {
                  targets = targets;
                  named = named;
                  some_pair = or_left _ _ some_given;
                  paired = subst (IsPaired nss sels) (sym same) paired;
                  creates = creates;
                })
              (λ _ _. tt))
      ])
    ])
  ]

  -- Where the command returns no error, a namespace was given, the flags came in pairs, one at
  -- least, all the selectors were accepted, and after it had connected its last call created the
  -- group that has one target for each pair, in the order of the flags.
  pub define_command-IsCreated :
      (ns name : String) (namespaces selectors : List String) (s s₁ : C.State)
      → define_command C connect create ns name namespaces selectors s ≡ (ok tt, s₁)
      → IsCreated ns name namespaces selectors s s₁
  define_command-IsCreated ns name nss sels s s₁ h =
      Ensures-ok (λ _ s₁. IsCreated ns name nss sels s s₁) (λ _. Unit)
        (define_command C connect create ns name nss sels s) tt s₁
        (define_command_lem ns name nss sels s) h
