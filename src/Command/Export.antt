-- ===== src/Command/Export.antt =====
-- cmd/kubectl-kshutdown/export.go: the command `export`. The YAML writer is a parameter (`marshal`),
-- with the type of its texts, as is the client's Get of the whole object (`get`). What the command
-- prints is the text that it returns.
pub mod RoundTrip
use kshutdown.Base.{
  ℕ, String, Option, none, List, [], Result, ok, err, wrap, Effect, pure, fail, ◌>>=◌,
}
use kshutdown.Base.GoMap.{GoMap}
use kshutdown.Api.{ShutdownGroup, Timestamp, empty_status}
use kshutdown.Api.Client.{Client}
use kshutdown.Command.Show.{read_named}

-- A ShutdownGroup with the metadata that `ShutdownGroup` of the model leaves out. `Extra` is what
-- the command does not look at, such as the owner references.
pub record Manifest (Extra : Type 0) : Type 0 where
  pub group : ShutdownGroup
  pub labels : GoMap
  pub extra : Extra
  pub resource_version : String
  pub uid : String
  pub generation : ℕ
  pub creation_timestamp : Option Timestamp
  pub managed_fields : List String
  pub finalizers : List String

module _ {Extra : Type 0} where
  -- The assignments before the object is written.
  unfoldable pub strip : Manifest Extra → Manifest Extra
  strip m = record m {
    group = record m.group { status = empty_status };
    resource_version = "";
    uid = "";
    generation = 0;
    creation_timestamp = none;
    managed_fields = [];
    finalizers = [];
  }

module _ (C : Client) (connect : Effect C.State (Unit {0})) {Extra Yaml : Type 0}
    (get : String → String → Effect C.State (Manifest Extra))
    (marshal : Manifest Extra → Result Yaml) where
  abbrev pub written : Result Yaml → Effect C.State Yaml
  written (ok text) = pure text
  written (err e) = fail (wrap "marshalling to YAML" e)

  unfoldable pub export_command : String → String → Effect C.State Yaml
  unfolding read_named strip
  export_command ns name = do m ← read_named C connect get ns name; written (marshal (strip m))
