-- ===== src/Tests/Define.antt =====
-- The command `define` and its selectors at concrete flags, on the example cluster.
use kshutdown.Base.{String, ◌≡◌, refl, false, List, [], ◌∷◌, ok, err, errorf, Effect}
use kshutdown.Base.GoMap.{GoMap, lookup, insert}
use kshutdown.Base.Text.{split, trim_right, trim_space}
use kshutdown.Base.Text.Laws.{has_byte}
use kshutdown.Api.{ShutdownGroup, Target}
use kshutdown.Command.Define.{parse_label_selector}
use kshutdown.Command.Define.Parse.{
  IsWritable, IsDistinct, print_selector, parse_label_selector-print_selector,
}
use kshutdown.Command.Define.Laws.{is_ok, parse_label_selector-all_pairs}
use kshutdown.Command.Define.Pairs.{IsPaired}
use kshutdown.Tests.Cluster.{Cluster}

abbrev app : String × String
app = ("app", "pay")

abbrev rest : GoMap
rest = ("tier", "a=b") ∷ []

app-IsWritable : IsWritable app
unfolding has_byte trim_right
app-IsWritable = record {
  named = refl;
  no_equals = refl;
  key_no_comma = refl;
  value_no_comma = refl;
  starts = refl;
  ends = refl;
}

tier-IsWritable : IsWritable ("tier", "a=b")
unfolding has_byte trim_right
tier-IsWritable = record {
  named = refl;
  no_equals = refl;
  key_no_comma = refl;
  value_no_comma = refl;
  starts = refl;
  ends = refl;
}

distinct : IsDistinct (app ∷ rest)
unfolding lookup
distinct = (refl, (refl, tt))

parse_label_selector-print_selector_example :
    (labels : GoMap) × (parse_label_selector (print_selector (app ∷ rest)) ≡ ok labels)
    × ((key : String) → lookup key labels ≡ lookup key (app ∷ rest))
parse_label_selector-print_selector_example =
    parse_label_selector-print_selector app rest (app-IsWritable, (tier-IsWritable, tt)) distinct

refused_text :
    parse_label_selector "app=pay, =x"
    ≡ err (errorf ("invalid selector token \"=x\": expected key=value"))
unfolding parse_label_selector
refused_text = refl

parse_label_selector-all_pairs_example : is_ok (parse_label_selector " app = pay ,tier") ≡ false
unfolding split trim_space has_byte
parse_label_selector-all_pairs_example = parse_label_selector-all_pairs " app = pay ,tier"

abbrev pub connect : Effect Cluster (Unit {0})
connect c = (ok tt, c)

abbrev pub create : ShutdownGroup → Effect Cluster (Unit {0})
create g c = (ok tt, record c { groups = g ∷ c.groups })

abbrev asked : List Target
asked =
    record { namespace = "pay"; label_selector = ("app", "pay") ∷ [] }
    ∷ record { namespace = "cron"; label_selector = ("tier", "b") ∷ [] }
    ∷ []

asked-IsPaired : IsPaired ("pay" ∷ "cron" ∷ []) ("app=pay" ∷ " tier=b" ∷ []) asked
unfolding parse_label_selector insert
asked-IsPaired = (refl, refl, (refl, refl, tt))
