-- ===== src/Command/Main/Laws.antt =====
-- What the flags of `main` do to the commands.
use kshutdown.Base.{
  ℕ, String, ◌==◌, ◌≡◌, refl, sym, ◌∙◌, ap, ◌≢◌, inl, inr, Bool, true, false, Option, none, some,
  List, [], ◌∷◌, Error, errorf, Result, ok, err, Effect, All, arith,
}
use kshutdown.Api.{ShutdownGroup}
use kshutdown.Api.Client.{Client}
use kshutdown.Authz.Caller.{Caller}
use kshutdown.Command.Define.{define_command}
use kshutdown.Command.Export.{Manifest}
use kshutdown.Command.Line.{
  Variable, Kind, Flag, Subcommand, root_flags, own_flags, Variables, defaults, Value,
}
use kshutdown.Command.Main.{
  Parsed, help, parsed, Cobra, IsIn, IsCobra, TakesN, Printed, IsUnused, flags_of, check_args,
  run_subcommand, checked, after_parse, execute,
}

abbrev text_of : Value → String
text_of (Value.of_text t) = t
text_of _ = ""

abbrev switch_of : Value → Bool
switch_of (Value.of_switch b) = b
switch_of _ = false

abbrev texts_of : Value → List String
texts_of (Value.of_texts ts) = ts
texts_of _ = []

abbrev is_namespace : Variable → Bool
is_namespace Variable.namespace = true
is_namespace _ = false

differ : {v : Variable} → v ≡ Variable.namespace → is_namespace v ≡ false → ⊥
differ e n = ground (arith, ap is_namespace e, n)

no_n : {t : String} → t ≡ "" → t ≡ "n" → ⊥
no_n e n = ground (arith, ap (λ t. t == "n") (sym e ∙ n))

module _ (B : Cobra) (laws : IsCobra B) where
  -- No flag of `define` sets the variable `namespace`: the command's own flag hides the root's.
  define-unbound :
      (f : Flag) → IsIn f (flags_of B Subcommand.define) → f.variable ≢ Variable.namespace
  unfolding flags_of own_flags
  define-unbound f i e = elim ((laws.added (own_flags Subcommand.define) root_flags f).0 i) [
    | inl (inl p) ↦ differ (ap (λ g. g.variable) p ∙ e) refl
    | inl (inr (inl p)) ↦ differ (ap (λ g. g.variable) p ∙ e) refl
    | inl (inr (inr none_left)) ↦ none_left
    | inr (inl p, _) ↦ differ (ap (λ g. g.variable) p ∙ e) refl
    | inr (inr (inl p), (other, _)) ↦ ground (arith, ap (λ g. "namespace" == g.name) p, other)
    | inr (inr (inr none_left), _) ↦ none_left
  ]

  -- The flag `-n` of every other command is the root's.
  abbrev namespace_flag : Flag
  namespace_flag = record {
    name = "namespace";
    shorthand = "n";
    kind = Kind.text;
    variable = Variable.namespace;
  }

  -- What hides the root's flag, and what shares its shorthand.
  abbrev IsApart : Flag → Type 0
  IsApart g = ((g.name == "namespace") ≡ false) × (g.shorthand ≡ "")

  own-IsApart : (c : Subcommand) → c ≢ Subcommand.define → All IsApart (own_flags c)
  unfolding own_flags
  own-IsApart Subcommand.down n = ((refl, refl), ((refl, refl), ((refl, refl), tt)))
  own-IsApart Subcommand.up n = ((refl, refl), tt)
  own-IsApart Subcommand.define n = absurd (n refl)
  own-IsApart Subcommand.status n = tt
  own-IsApart Subcommand.list n = tt
  own-IsApart Subcommand.history n = tt
  own-IsApart Subcommand.export n = tt

  names_apart : (fs : List Flag) → All IsApart fs → All (λ g. (g.name == "namespace") ≡ false) fs
  names_apart [] a = tt
  names_apart (g ∷ fs) (a, rest) = (a.0, names_apart fs rest)

  not_own : (fs : List Flag) (g : Flag) → All IsApart fs → IsIn g fs → g.shorthand ≡ "n" → ⊥
  not_own [] g a i n = i
  not_own (f ∷ fs) g (a, rest) (inl e) n = no_n a.1 (ap (λ h. h.shorthand) e ∙ n)
  not_own (f ∷ fs) g (a, rest) (inr i) n = not_own fs g rest i n

  takes_n :
      (c : Subcommand) (ns : String)
      → c ≢ Subcommand.define
      → TakesN B (flags_of B c) namespace_flag ns defaults
  unfolding flags_of
  takes_n c ns n =
      let own = own-IsApart c n in
      laws.short_n (flags_of B c) namespace_flag ns defaults
        ((laws.added (own_flags c) root_flags namespace_flag).1
          (inr (inr (inl refl), names_apart (own_flags c) own)))
        refl refl "" refl
        λ g i e. elim ((laws.added (own_flags c) root_flags g).0 i) [
          | inl p ↦ absurd (not_own (own_flags c) g own p e)
          | inr (inl p, _) ↦ absurd (no_n (sym (ap (λ h. h.shorthand) p)) e)
          | inr (inr (inl p), _) ↦ sym p
          | inr (inr (inr none_left), _) ↦ absurd none_left
        ]

  -- The one argument is accepted.
  check_one : (c : Subcommand) (name : String) → check_args B c (name ∷ []) ≡ none
  unfolding check_args
  check_one Subcommand.list name = refl
  check_one Subcommand.down name = (laws.exact 1 (name ∷ [])).1 refl
  check_one Subcommand.up name = (laws.exact 1 (name ∷ [])).1 refl
  check_one Subcommand.status name = (laws.exact 1 (name ∷ [])).1 refl
  check_one Subcommand.history name = (laws.exact 1 (name ∷ [])).1 refl
  check_one Subcommand.define name = (laws.exact 1 (name ∷ [])).1 refl
  check_one Subcommand.export name = (laws.exact 1 (name ∷ [])).1 refl

  after_n :
      (c : Subcommand) (ns : String) (t : TakesN B (flags_of B c) namespace_flag ns defaults)
      → t.after ≡ record defaults { namespace = ns }
  after_n c ns t = λ i. record {
    kubeconfig = text_of (t.others Variable.kubeconfig (λ e. differ e refl) i);
    namespace = text_of (t.set_value i);
    reason = text_of (t.others Variable.reason (λ e. differ e refl) i);
    partial = switch_of (t.others Variable.partial (λ e. differ e refl) i);
    dry_run = switch_of (t.others Variable.dry_run (λ e. differ e refl) i);
    namespaces = texts_of (t.others Variable.namespaces (λ e. differ e refl) i);
    selectors = texts_of (t.others Variable.selectors (λ e. differ e refl) i);
  }

module _ (C : Client) (caller : Caller C) (factory : String → Effect C.State (Unit {0}))
    (create : ShutdownGroup → Effect C.State (Unit {0}))
    (list_groups : Option String → Effect C.State (List ShutdownGroup)) (now : ℕ)
    {Extra Yaml : Type 0} (get : String → String → Effect C.State (Manifest Extra))
    (marshal : Manifest Extra → Result Yaml) (B : Cobra) (laws : IsCobra B) where
  abbrev no_namespace : Error
  no_namespace = errorf "--namespace / -n is required (namespace for the ShutdownGroup itself)"

  checked-IsUnused :
      (vs : Variables) (args : List String) (o : Option Error) (s : C.State)
      → vs.namespace ≡ ""
      → IsUnused
          (checked C caller factory create list_groups now get marshal B Subcommand.define vs args o
            s)
          s
  unfolding run_subcommand define_command
  checked-IsUnused vs args (some e) s named = inr (e, refl)
  checked-IsUnused vs args none s named = inr (no_namespace, rw named refl)

  after_parse-IsUnused :
      (r : Result Parsed) (s : C.State)
      → ((vs : Variables) (args : List String) → r ≡ ok (parsed vs args) → (vs.namespace ≡ ""))
      → IsUnused
          (after_parse C caller factory create list_groups now get marshal B Subcommand.define r s)
          s
  after_parse-IsUnused (err e) s named = inr (e, refl)
  after_parse-IsUnused (ok help) s named = inl refl
  after_parse-IsUnused (ok (parsed vs args)) s named =
      checked-IsUnused vs args (check_args B Subcommand.define args) s (named vs args refl)

  -- Whatever its arguments, the command line of `define` prints the usage or fails, and calls
  -- neither the client nor its factory.
  pub define-IsUnused :
      (args : List String) (s : C.State)
      → IsUnused
          (execute C caller factory create list_groups now get marshal B Subcommand.define args s)
          s
  unfolding execute
  define-IsUnused args s =
      after_parse-IsUnused (B.parse (flags_of B Subcommand.define) args defaults) s λ vs rest e.
        ap text_of (
          laws.kept (flags_of B Subcommand.define) args defaults vs rest Variable.namespace e
            (define-unbound B laws))

  checked_one :
      (c : Subcommand) (vs : Variables) (name : String) (s : C.State)
      → after_parse C caller factory create list_groups now get marshal B c
          (ok (parsed vs (name ∷ [])))
          s
        ≡ run_subcommand C caller factory create list_groups now get marshal c vs (name ∷ []) s
  checked_one c vs name s = rw (check_one B laws c name) refl

  -- Every command but `define`, given `-n`, a namespace and a name that is read as a word, runs on
  -- that name with that namespace and the defaults of all other flags.
  pub execute-run_subcommand :
      (c : Subcommand) (ns name : String) (s : C.State)
      → c ≢ Subcommand.define
      → ((vs : Variables) → B.parse (flags_of B c) (name ∷ []) vs ≡ ok (parsed vs (name ∷ [])))
      → execute C caller factory create list_groups now get marshal B c ("-n" ∷ ns ∷ name ∷ []) s
        ≡ run_subcommand C caller factory create list_groups now get marshal c
            (record defaults { namespace = ns })
            (name ∷ [])
            s
  unfolding execute
  execute-run_subcommand c ns name s n word =
      let t = takes_n B laws c ns n in
      let run : Result Parsed → Result (Printed Yaml) × C.State =
        λ r. after_parse C caller factory create list_groups now get marshal B c r s in
      ap run (t.goes_on (name ∷ []) ∙ word t.after)
      ∙ checked_one c t.after name s
      ∙ ap
          (λ vs.
            run_subcommand C caller factory create list_groups now get marshal c vs (name ∷ []) s)
          (after_n B laws c ns t)
