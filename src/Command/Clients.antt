-- ===== src/Command/Clients.antt =====
-- cmd/kubectl-kshutdown/main.go: `newClients`, which is the `clientFactory` of the commands. The
-- reading of the configuration and the two constructors are the client libraries', and so
-- parameters; `kubeconfig` is the persistent flag of that name.
use kshutdown.Base.{
  String, ◌==◌, if◌then◌else◌, ◌≡◌, refl, ◌∙◌, Option, none, some, ok, Effect, pure, context, ◌>>=◌,
  ◌>>◌,
}
use kshutdown.Api.Client.{Client}
use kshutdown.Command.Show.Laws.{Connects}

-- `rules.ExplicitPath`, where the flag is given.
abbrev explicit_path : String → Option String
explicit_path kubeconfig = if kubeconfig == "" then none else some kubeconfig

module _ (C : Client) {Config Ctrl Clientset : Type 0}
    (client_config : Option String → Effect C.State Config)
    (new_client : Config → Effect C.State Ctrl)
    (new_for_config : Config → Effect C.State Clientset) where
  unfoldable pub new_clients : String → Effect C.State (Ctrl × Clientset)
  new_clients kubeconfig = do
    cfg ← context "loading kubeconfig" (client_config (explicit_path kubeconfig))
    c ← context "creating controller-runtime client" (new_client cfg)
    cs ← context "creating kubernetes clientset" (new_for_config cfg)
    pure (c, cs)

  -- The factory as the commands call it: the clients are those of the model.
  unfoldable pub client_factory : String → Effect C.State (Unit {0})
  unfolding new_clients
  client_factory kubeconfig = new_clients kubeconfig >> pure tt

  -- A call of the libraries that succeeds and does not change the cluster.
  abbrev pub IsLocal : {A : Type 0} → Effect C.State A → Type 0
  IsLocal {A} m =
      (s : C.State) → (a : A) × (s' : C.State) × (m s ≡ (ok a, s')) × (C.world s' ≡ C.world s)

  -- The factory connects, where the three calls do.
  pub client_factory-Connects :
      (kubeconfig : String)
      → IsLocal (client_config (explicit_path kubeconfig))
      → ((cfg : Config) → IsLocal (new_client cfg))
      → ((cfg : Config) → IsLocal (new_for_config cfg))
      → Connects C (client_factory kubeconfig)
  unfolding client_factory
  client_factory-Connects kubeconfig config ctrl clientset s =
      let (cfg, s₁, loaded, same₁) = config s in
      let (c, s₂, made, same₂) = ctrl cfg s₁ in
      let (cs, s₃, made', same₃) = clientset cfg s₂ in
      (s₃, rw (loaded, made, made') refl, same₃ ∙ same₂ ∙ same₁)
