-- ===== src/Command/Export/RoundTrip.antt =====
-- What `export` (cmd/kubectl-kshutdown/export.go) writes of an object that the server has filled in.
use kshutdown.Base.{bind, String, ◌≡◌, refl, ◌∙◌, ap, none, List, [], Result, ok, Effect}
use kshutdown.Api.{Target}
use kshutdown.Api.Client.{Client}
use kshutdown.Command.Show.{read_named}
use kshutdown.Command.Define.{defined}
use kshutdown.Command.Export.{Manifest, strip, written, export_command}

module _ {Extra : Type 0} where
  -- The object as `define` sends it to the server.
  abbrev pub sent : Extra → String → String → List Target → Manifest Extra
  sent extra ns name targets = record {
    group = defined ns name targets;
    labels = [];
    extra = extra;
    resource_version = "";
    uid = "";
    generation = 0;
    creation_timestamp = none;
    managed_fields = [];
    finalizers = [];
  }

  -- The user's part of an object is that of another; the server's part is free.
  pub record IsFilled (base m : Manifest Extra) : Type 0 where
    pub namespace : m.group.namespace ≡ base.group.namespace
    pub name : m.group.name ≡ base.group.name
    pub deleting : m.group.deleting ≡ base.group.deleting
    pub annotations : m.group.annotations ≡ base.group.annotations
    pub targets : m.group.targets ≡ base.group.targets
    pub labels : m.labels ≡ base.labels
    pub extra : m.extra ≡ base.extra

  strip-IsFilled :
      (extra : Extra) (ns name : String) (targets : List Target) (m : Manifest Extra)
      → IsFilled (sent extra ns name targets) m
      → strip m ≡ sent extra ns name targets
  unfolding strip
  strip-IsFilled extra ns name targets m f =
      rw (f.namespace, f.name, f.deleting, f.annotations, f.targets, f.labels, f.extra) refl

module _ (C : Client) (connect : Effect C.State (Unit {0})) {Extra Yaml : Type 0}
    (get : String → String → Effect C.State (Manifest Extra))
    (marshal : Manifest Extra → Result Yaml) (parse : Yaml → Result (Manifest Extra)) where
  -- Every object is written, and the reader of YAML undoes the writer.
  abbrev pub Readable : Type 0
  Readable = (m : Manifest Extra) → (text : Yaml) × (marshal m ≡ ok text) × (parse text ≡ ok m)

  -- Where every object is written and the reader of YAML undoes the writer, and the command reads
  -- an object that `define` has created, with whatever was written to it since, besides its name,
  -- labels, annotations, targets and the metadata that the command passes on: it prints a text that
  -- is read as the object that `define` sent.
  pub export_command-sent :
      Readable
      → (extra : Extra) (ns name : String) (targets : List Target) (m : Manifest Extra)
        (s s₁ : C.State)
      → read_named C connect get ns name s ≡ (ok m, s₁)
      → IsFilled (sent extra ns name targets) m
      → (text : Yaml) × (export_command C connect get marshal ns name s ≡ (ok text, s₁))
        × (parse text ≡ ok (sent extra ns name targets))
  unfolding export_command
  export_command-sent readable extra ns name targets m s s₁ found filled =
      let (text, wrote, reads) = readable (sent extra ns name targets) in
      (
        text,
        ap (λ x. bind x (λ m. written C connect get marshal (marshal (strip m)))) found
            ∙ ap (λ m. written C connect get marshal (marshal m) s₁)
                (strip-IsFilled extra ns name targets m filled)
            ∙ ap (λ r. written C connect get marshal r s₁) wrote,
        reads,
      )
