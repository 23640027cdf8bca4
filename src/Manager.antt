-- ===== src/Manager.antt =====
-- cmd/main.go: what the manager is configured with, and the order in which it is put together. The
-- manager is controller-runtime's, and so a parameter. Logging is left out, and os.Exit(1) is the
-- error that it follows on.
pub mod Http
pub mod Order
use kshutdown.Base.{
  String, ◌==◌, if◌then◌else◌, not, Bool, true, false, List, [], ◌∷◌, ◌++◌, foldl, Effect, ◌>>=◌,
  ◌>>◌,
}

-- The flags, with their defaults.
pub record Flags : Type 0 where
  pub metrics_addr : String
  pub probe_addr : String
  pub enable_leader_election : Bool
  pub secure_metrics : Bool
  pub webhook_cert_path : String
  pub webhook_cert_name : String
  pub webhook_cert_key : String
  pub metrics_cert_path : String
  pub metrics_cert_name : String
  pub metrics_cert_key : String
  pub enable_http2 : Bool

abbrev pub default_flags : Flags
default_flags = record {
  metrics_addr = "0";
  probe_addr = ":8081";
  enable_leader_election = false;
  secure_metrics = true;
  webhook_cert_path = "";
  webhook_cert_name = "tls.crt";
  webhook_cert_key = "tls.key";
  metrics_cert_path = "";
  metrics_cert_name = "tls.crt";
  metrics_cert_key = "tls.key";
  enable_http2 = false;
}

-- The field of `tls.Config` that the code sets.
pub record TlsConfig : Type 0 where
  pub next_protos : List String

abbrev pub disable_http2 : TlsConfig → TlsConfig
disable_http2 c = record c { next_protos = "http/1.1" ∷ [] }

unfoldable pub tls_opts : Flags → List (TlsConfig → TlsConfig)
tls_opts flags = if not flags.enable_http2 then disable_http2 ∷ [] else []

-- The files of a certificate; "" where the code sets none.
pub record Certificate : Type 0 where
  pub dir : String
  pub name : String
  pub key : String

abbrev pub certificate : String → String → String → Certificate
certificate path name key =
    if not (path == "")
    then record { dir = path; name = name; key = key }
    else record { dir = ""; name = ""; key = "" }

-- `webhook.Options`
pub record WebhookOptions : Type 0 where
  pub tls_opts : List (TlsConfig → TlsConfig)
  pub certificate : Certificate

-- `metricsserver.Options`. `authorized` says that the filter provider is
-- `filters.WithAuthenticationAndAuthorization`.
pub record MetricsOptions : Type 0 where
  pub bind_address : String
  pub secure_serving : Bool
  pub tls_opts : List (TlsConfig → TlsConfig)
  pub authorized : Bool
  pub certificate : Certificate

-- `ctrl.Options`, with the options of the webhook server that is made for it.
pub record ManagerOptions : Type 0 where
  pub metrics : MetricsOptions
  pub webhook : WebhookOptions
  pub health_probe_bind_address : String
  pub leader_election : Bool
  pub leader_election_id : String

unfoldable pub webhook_options : Flags → WebhookOptions
unfolding tls_opts
webhook_options flags = record {
  tls_opts = tls_opts flags;
  certificate = certificate flags.webhook_cert_path flags.webhook_cert_name flags.webhook_cert_key;
}

unfoldable pub metrics_options : Flags → MetricsOptions
unfolding tls_opts
metrics_options flags = record {
  bind_address = flags.metrics_addr;
  secure_serving = flags.secure_metrics;
  tls_opts = tls_opts flags;
  authorized = if flags.secure_metrics then true else false;
  certificate = certificate flags.metrics_cert_path flags.metrics_cert_name flags.metrics_cert_key;
}

unfoldable pub manager_options : Flags → ManagerOptions
unfolding webhook_options metrics_options
manager_options flags = record {
  metrics = metrics_options flags;
  webhook = webhook_options flags;
  health_probe_bind_address = flags.probe_addr;
  leader_election = flags.enable_leader_election;
  leader_election_id = "71a1dc0e.kshutdown.io";
}

-- What is registered with the manager: the reconciler, the two webhooks and the two checks.
pub data Part : Type 0 where
  controller mutator validator healthz readyz : Part

-- controller-runtime. `registered` is what a state shows.
pub record Framework : Type 1 where
  pub State : Type 0
  pub Manager : Type 0
  pub new_manager : ManagerOptions → Effect State Manager
  pub setup : Part → Manager → Effect State (Unit {0})
  pub start : Manager → Effect State (Unit {0})
  pub registered : Part → State → Type 0

module _ (F : Framework) where
  unfoldable pub main : Flags → Effect F.State (Unit {0})
  unfolding manager_options
  main flags = do
    mgr ← F.new_manager (manager_options flags)
    F.setup controller mgr
    F.setup mutator mgr
    F.setup validator mgr
    F.setup healthz mgr
    F.setup readyz mgr
    F.start mgr
