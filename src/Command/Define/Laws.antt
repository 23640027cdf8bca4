-- ===== src/Command/Define/Laws.antt =====
-- When `parseLabelSelector` fails, and what the command `define` creates
-- (cmd/kubectl-kshutdown/define.go).
use kshutdown.Base.{
  String, ◌==◌, ◌≡◌, refl, sym, ◌∙◌, ap, ◌⊎◌, inl, inr, Bool, Bool-cases, true, false, not, ◌&&◌,
  Option, none, some, List, [], ◌∷◌, Error, Result, ok, err,
}
use kshutdown.Base.GoMap.{GoMap, insert}
use kshutdown.Base.Text.{split, cut, trim_space}
use kshutdown.Base.Text.Laws.{has_byte}
use kshutdown.Base.Text.Pair.{starts_with, CutSays, whole, parted, cut-CutSays}
use kshutdown.Command.Define.{as_pair, parse_token, parse_tokens, parse_label_selector}
use kshutdown.Command.Define.Parse.{parse_tokens-ok, parse_tokens-err}

abbrev pub is_ok : {A : Type 0} → Result A → Bool
is_ok (ok a) = true
is_ok (err e) = false

-- Round the spaces at its ends, the token has an equals sign, and not at the start.
abbrev pub is_pair : String → Bool
is_pair token = has_byte b'=' (trim_space token) && not (starts_with b'=' (trim_space token))

abbrev pub all_pairs : List String → Bool
all_pairs [] = true
all_pairs (token ∷ tokens) = is_pair token && all_pairs tokens

as_pair-is_ok :
    (pair : String) (o : Option (String × String))
    → CutSays b'=' pair o
    → is_ok (as_pair pair o) ≡ has_byte b'=' pair && not (starts_with b'=' pair)
as_pair-is_ok pair none (whole h) = rw h refl
as_pair-is_ok pair (some _) (parted key value h e) = elim (Bool-cases (key == "")) [
  | inl same ↦ rw (same, h, sym e ∙ same) refl
  | inr other ↦ rw (other, h, sym e ∙ other) refl
]

parse_token-is_pair : (token : String) → is_ok (parse_token token) ≡ is_pair token
unfolding parse_token
parse_token-is_pair token =
    as_pair-is_ok (trim_space token) (cut b'=' (trim_space token))
      (cut-CutSays b'=' (trim_space token))

pub Result-cases :
    {A : Type 0} (r : Result A) → ((a : A) × (r ≡ ok a)) ⊎ ((e : Error) × (r ≡ err e))
Result-cases (ok a) = inl (a, refl)
Result-cases (err e) = inr (e, refl)

parse_tokens-all_pairs :
    (tokens : List String) (labels : GoMap) → is_ok (parse_tokens tokens labels) ≡ all_pairs tokens
unfolding parse_tokens
parse_tokens-all_pairs [] labels = refl
parse_tokens-all_pairs (token ∷ tokens) labels = elim (Result-cases (parse_token token)) [
  | inl (label, h) ↦
      rw (sym (parse_token-is_pair token), ap is_ok h)
        (ap is_ok (parse_tokens-ok token tokens labels label h)
          ∙ parse_tokens-all_pairs tokens (insert label.0 label.1 labels))
  | inr (e, h) ↦
      rw (sym (parse_token-is_pair token), ap is_ok h)
        (ap is_ok (parse_tokens-err token tokens labels e h))
]

-- A selector is accepted exactly where it is not empty and each of its comma-separated tokens,
-- without the spaces at its ends, has an equals sign that is not its first byte.
pub parse_label_selector-all_pairs :
    (s : String) → is_ok (parse_label_selector s) ≡ not (s == "") && all_pairs (split b',' s)
unfolding parse_label_selector
parse_label_selector-all_pairs s = elim (Bool-cases (s == "")) [
  | inl same ↦ rw same refl
  | inr other ↦ rw other (parse_tokens-all_pairs (split b',' s) [])
]
