-- ===== src/Manager/Http.antt =====
-- The protocols that the manager's two servers offer (cmd/main.go).
use kshutdown.Base.{◌≡◌, refl, List, [], ◌∷◌, foldl, false, true, Bool, if◌then◌else◌}
use kshutdown.Manager.{Flags, TlsConfig, manager_options}

-- The options are applied one after another.
abbrev pub configured : List (TlsConfig → TlsConfig) → TlsConfig → TlsConfig
configured opts c = foldl (λ c f. f c) c opts

-- Where --enable-http2 is not set, both servers offer HTTP/1.1 alone, whatever configuration they
-- start from. The metrics of a secure server are for authorized users.
pub configured-manager_options :
    (flags : Flags) (c : TlsConfig)
    → flags.enable_http2 ≡ false
    → ((configured (manager_options flags).webhook.tls_opts c).next_protos ≡ "http/1.1" ∷ [])
      × ((configured (manager_options flags).metrics.tls_opts c).next_protos ≡ "http/1.1" ∷ [])
      × ((manager_options flags).metrics.authorized
          ≡ (manager_options flags).metrics.secure_serving)
unfolding manager_options
configured-manager_options flags c off = (rw off refl, rw off refl, same flags.secure_metrics)
  where
    same : (b : Bool) → (if b then true else false) ≡ b
    same true = refl
    same false = refl
