-- ===== src/Command/Show/Laws.antt =====
-- `status` and `history` (cmd/kubectl-kshutdown/status.go and history.go) where calls do not fail.
use kshutdown.Base.{
  ℕ, String, ◌==◌, ◌≡◌, refl, sym, ◌∙◌, ap, ◌⊎◌, inl, inr, false, none, some, map, Result, ok, err,
  Effect, Ensures, bind,
}
use mathlib.Core.Option.{some-injective}
use kshutdown.Api.{ShutdownGroup}
use kshutdown.Api.Client.{Client, IsLawful}
use kshutdown.Command.Show.{read_named, report_of, operation_of, status_command, history_command}

module _ (C : Client) (connect : Effect C.State (Unit {0})) where
  -- The client factory gives a client, and what it does besides is not seen in the cluster.
  abbrev pub Connects : Type 0
  Connects = (s : C.State) → (s' : C.State) × (connect s ≡ (ok tt, s')) × (C.world s' ≡ C.world s)

  -- A call that returns `a`, and writes nothing.
  abbrev pub Answers : {A : Type 0} → Effect C.State A → C.State → A → Type 0
  Answers m s a = (s' : C.State) × (m s ≡ (ok a, s')) × (C.world s' ≡ C.world s)

  Answers-map :
      {A B : Type 0} (m : Effect C.State A) (f : A → B) (s : C.State) (a : A)
      → Answers m s a
      → Answers (λ s. bind (m s) (λ a s. (ok (f a), s))) s (f a)
  Answers-map m f s a (s', ran, same) = (s', ap (λ x. bind x (λ a s. (ok (f a), s))) ran, same)

  module _ (MayFail : Type 0) (L : IsLawful C MayFail) (reliable : MayFail → ⊥) (K : Connects)
      (ns name : String) (g : ShutdownGroup) (s : C.State) (named : (ns == "") ≡ false)
      (there : (C.world s).group ns name ≡ some g) where
    get_group-Answers : (s₀ : C.State) → C.world s₀ ≡ C.world s → Answers (C.get_group ns name) s₀ g
    get_group-Answers s₀ same = go (C.get_group ns name s₀) refl (L.get_group_lem ns name s₀)
      where
        found : (C.world s₀).group ns name ≡ some g
        found = ap (λ w. w.group ns name) same ∙ there

        go :
            (x : Result ShutdownGroup × C.State)
            → C.get_group ns name s₀ ≡ x
            → Ensures
                (λ g s'.
                  (C.world s' ≡ C.world s₀)
                  × ((C.world s₀).group ns name ≡ some g)
                  × (g.namespace ≡ ns)
                  × (g.name ≡ name))
                (λ s'. (C.world s' ≡ C.world s₀) × (MayFail ⊎ ((C.world s₀).group ns name ≡ none)))
                x
            → Answers (C.get_group ns name) s₀ g
        go (ok sg, s') ran h =
            (s', ran ∙ ap (λ x. (ok x, s')) (some-injective sg g (sym h.1 ∙ found)), h.0)
        go (err e, s') ran h = elim h.1 [
          | inl failed ↦ absurd (reliable failed)
          | inr gone ↦ absurd (cc (gone, found))
        ]

    read_named-Answers : Answers (read_named C connect C.get_group ns name) s g
    unfolding read_named
    read_named-Answers =
        let (s₀, connected, same) = K s in
        let (s', ran, kept) = get_group-Answers s₀ same in
        (s', rw (connected, named, ran) refl, kept ∙ same)

    -- Where calls do not fail, `status` reports the stored object, and writes nothing.
    pub status_command-Answers :
        (now : ℕ) → Answers (status_command C connect now ns name) s (report_of now g)
    unfolding status_command
    status_command-Answers now =
        Answers-map (read_named C connect C.get_group ns name) (report_of now) s g
          read_named-Answers

    -- The same for `history`: all the entries of the stored object, in their order.
    pub history_command-Answers :
        Answers (history_command C connect ns name) s (map operation_of g.status.history)
    unfolding history_command
    history_command-Answers =
        Answers-map (read_named C connect C.get_group ns name)
          (λ sg. map operation_of sg.status.history) s g read_named-Answers
