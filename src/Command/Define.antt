-- ===== src/Command/Define.antt =====
-- cmd/kubectl-kshutdown/define.go: `parseLabelSelector` and the command `define`. The client's Create
-- is a parameter, as is `clientFactory` (`connect`). `ns` is the persistent flag --namespace, and
-- `namespaces` the command's own flag of that name.
pub mod Created
pub mod Laws
pub mod Parse
pub mod Pairs
use kshutdown.Base.{
  ℕ, String, ◌<>◌, ◌==◌, ◌||◌, not, if◌then◌else◌, eqb, Bool, true, false, Option, none, some, List,
  [], ◌∷◌, ◌++◌, length, is_empty, Error, errorf, wrap, count_mismatch, Result, ok, err, Effect,
  pure, fail, context, ◌>>=◌, ◌>>◌,
}
use kshutdown.Base.Text.{split, cut, trim_space}
use kshutdown.Base.GoMap.{GoMap, insert}
use kshutdown.Api.{
  ShutdownGroup, Target, empty_status, annotation_sync_options, sync_option_prune_false,
}
use kshutdown.Api.Client.{Client}

-- The test on `parts` and the two assignments' operands. The error quotes the token.
abbrev pub as_pair : String → Option (String × String) → Result (String × String)
as_pair pair none = err (errorf ("invalid selector token \"" <> pair <> "\": expected key=value"))
as_pair pair (some (key, value)) =
    if key == ""
    then err (errorf ("invalid selector token \"" <> pair <> "\": expected key=value"))
    else ok (key, value)

-- One round of the loop of `parseLabelSelector`, up to the write.
unfoldable pub parse_token : String → Result (String × String)
unfolding cut trim_space
parse_token token = let pair = trim_space token in as_pair pair (cut b'=' pair)

unfoldable pub parse_tokens : List String → GoMap → Result GoMap
unfolding parse_token
parse_tokens [] labels = ok labels
parse_tokens (token ∷ tokens) labels = elim (parse_token token) [
  | err e ↦ err e
  | ok (key, value) ↦ parse_tokens tokens (insert key value labels)
]

unfoldable pub parse_label_selector : String → Result GoMap
unfolding parse_tokens split
parse_label_selector s =
    if s == "" then err (errorf "selector must not be empty") else parse_tokens (split b',' s) []

-- The loop over the pairs of flags. The lists are of one length: the code has tested that.
unfoldable pub make_targets : List String → List String → List Target → Result (List Target)
unfolding parse_label_selector
make_targets (ns ∷ namespaces) (selector ∷ selectors) targets =
    elim (parse_label_selector selector) [
      | err e ↦ err (wrap ("parsing selector \"" <> selector <> "\"") e)
      | ok labels ↦
          make_targets namespaces selectors
            (targets ++ (record { namespace = ns; label_selector = labels } ∷ []))
    ]
make_targets [] selectors targets = ok targets
make_targets (ns ∷ namespaces) [] targets = ok targets

-- The object that is created.
abbrev pub defined : String → String → List Target → ShutdownGroup
defined ns name targets = record {
  namespace = ns;
  name = name;
  deleting = false;
  annotations = (annotation_sync_options, sync_option_prune_false) ∷ [];
  targets = targets;
  status = empty_status;
}

module _ (C : Client) (connect : Effect C.State (Unit {0}))
    (create : ShutdownGroup → Effect C.State (Unit {0})) where
  -- The command once the targets are read.
  unfoldable pub create_defined : String → String → Result (List Target) → Effect C.State (Unit {0})
  create_defined ns name (err e) = fail e
  create_defined ns name (ok targets) = do
    context "building client" connect
    context ("creating shutdowngroup " <> ns <> "/" <> name) (create (defined ns name targets))

  unfoldable pub define_command :
      String → String → List String → List String → Effect C.State (Unit {0})
  unfolding create_defined make_targets
  define_command ns name namespaces selectors =
      if ns == ""
      then fail (errorf "--namespace / -n is required (namespace for the ShutdownGroup itself)")
      else (if is_empty namespaces || is_empty selectors
          then fail (errorf "at least one --namespace/--selector pair is required")
          else (if not (eqb (length namespaces) (length selectors))
              then fail (count_mismatch (length namespaces) (length selectors))
              else create_defined ns name (make_targets namespaces selectors [])))
