-- ===== src/Command/Define/Parse.antt =====
-- `parseLabelSelector` (cmd/kubectl-kshutdown/define.go) on a printed selector, and on any text.
use kshutdown.Base.{
  String, ◌<>◌, ◌==◌, eq_iff, ◌≡◌, refl, ◌∙◌, ap, Error, inl, inr, Bool-cases, false, Option, none,
  some, List, [], ◌∷◌, map, foldl, All, ok, err,
}
use kshutdown.Base.GoMap.{GoMap, insert, lookup, lookup-insert}
use kshutdown.Base.Text.{join, trim_right}
use kshutdown.Base.Text.Laws.{has_byte, has_comma, split-join_plain, join_not_empty}
use kshutdown.Base.Text.Pair.{
  cut-pair, has_byte-append, starts_with_space, append_not_empty, trim_space-pair, equals_not_empty,
}
use kshutdown.Command.Define.{parse_token, parse_tokens, parse_label_selector}

abbrev pub print_pair : String × String → String
print_pair (key, value) = key <> ("=" <> value)

-- `key=value[,key=value]`
abbrev pub print_selector : GoMap → String
print_selector m = join "," (map print_pair m)

-- A label that the format can write.
pub record IsWritable (label : String × String) : Type 0 where
  pub named : (label.0 == "") ≡ false
  pub no_equals : has_byte b'=' label.0 ≡ false
  pub key_no_comma : has_comma label.0 ≡ false
  pub value_no_comma : has_comma label.1 ≡ false
  pub starts : starts_with_space label.0 ≡ false
  pub ends : trim_right label.1 ≡ label.1

-- No key twice.
abbrev pub IsDistinct : GoMap → Type 0
IsDistinct [] = Unit
IsDistinct ((key, value) ∷ m) = (lookup key m ≡ none) × IsDistinct m

abbrev or_else : Option String → Option String → Option String
or_else none b = b
or_else (some v) b = some v

abbrev write : GoMap → String × String → GoMap
write labels (key, value) = insert key value labels

lookup-written :
    (m labels : GoMap) (key : String)
    → IsDistinct m
    → lookup key (foldl write labels m) ≡ or_else (lookup key m) (lookup key labels)
unfolding lookup
lookup-written [] labels key d = refl
lookup-written ((k, v) ∷ m) labels key d =
    lookup-written m (insert k v labels) key d.1
    ∙ rw (lookup-insert k key v labels) (elim (Bool-cases (k == key)) [
      | inl same ↦ rw (same, absent ((eq_iff k key).0 same)) refl
      | inr other ↦ rw other refl
    ])
  where
    absent : k ≡ key → lookup key m ≡ none
    absent e = cc (e, d.0)

pair_no_comma : (label : String × String) → IsWritable label → has_comma (print_pair label) ≡ false
unfolding has_byte
pair_no_comma (k, v) w =
    rw
      (
        has_byte-append b',' k ("=" <> v),
        w.key_no_comma,
        has_byte-append b',' "=" v,
        w.value_no_comma,
      )
      refl

parse_token-pair :
    (label : String × String) → IsWritable label → parse_token (print_pair label) ≡ ok label
unfolding parse_token
parse_token-pair (k, v) w =
    rw (trim_space-pair k v w.named w.starts w.ends, cut-pair k v w.no_equals, w.named) refl

-- A token that is a pair is written, and the loop goes on.
pub parse_tokens-ok :
    (token : String) (tokens : List String) (labels : GoMap) (label : String × String)
    → parse_token token ≡ ok label
    → parse_tokens (token ∷ tokens) labels ≡ parse_tokens tokens (insert label.0 label.1 labels)
unfolding parse_tokens
parse_tokens-ok token tokens labels label h =
    ap
      (λ r. elim r [
        | err e ↦ err e
        | ok (key, value) ↦ parse_tokens tokens (insert key value labels)
      ])
      h

pub parse_tokens-err :
    (token : String) (tokens : List String) (labels : GoMap) (e : Error)
    → parse_token token ≡ err e
    → parse_tokens (token ∷ tokens) labels ≡ err e
unfolding parse_tokens
parse_tokens-err token tokens labels e h =
    ap
      (λ r. elim r [
        | err e ↦ err e
        | ok (key, value) ↦ parse_tokens tokens (insert key value labels)
      ])
      h

parse_tokens-pairs :
    (m labels : GoMap)
    → All IsWritable m
    → parse_tokens (map print_pair m) labels ≡ ok (foldl write labels m)
unfolding parse_tokens
parse_tokens-pairs [] labels h = refl
parse_tokens-pairs ((k, v) ∷ m) labels h =
    parse_tokens-ok (print_pair (k, v)) (map print_pair m) labels (k, v)
      (parse_token-pair (k, v) h.0)
    ∙ parse_tokens-pairs m (insert k v labels) h.1

printed_no_comma :
    (m : GoMap) → All IsWritable m → All (λ v. has_comma v ≡ false) (map print_pair m)
printed_no_comma [] h = tt
printed_no_comma (label ∷ m) h = (pair_no_comma label h.0, printed_no_comma m h.1)

pair_not_empty : (label : String × String) → (print_pair label == "") ≡ false
pair_not_empty (k, v) = append_not_empty k ("=" <> v) (equals_not_empty v)

-- A selector that `key=value` tokens print, from labels with distinct keys that the format can
-- write, is parsed, and the map that comes back has the label's value at every key and no other
-- key.
pub parse_label_selector-print_selector :
    (label : String × String) (m : GoMap)
    → All IsWritable (label ∷ m)
    → IsDistinct (label ∷ m)
    → (labels : GoMap) × (parse_label_selector (print_selector (label ∷ m)) ≡ ok labels)
      × ((key : String) → lookup key labels ≡ lookup key (label ∷ m))
unfolding parse_label_selector lookup
parse_label_selector-print_selector label m w d = (
  foldl write [] (label ∷ m),
  rw
      (
        join_not_empty (print_pair label) (map print_pair m) (pair_not_empty label),
        split-join_plain (print_pair label) (map print_pair m) (printed_no_comma (label ∷ m) w),
      )
      (parse_tokens-pairs (label ∷ m) [] w),
  λ key. lookup-written (label ∷ m) [] key d ∙ whole (lookup key (label ∷ m)),
)
  where
    whole : (o : Option String) → or_else o none ≡ o
    whole none = refl
    whole (some v) = refl
