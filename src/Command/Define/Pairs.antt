-- ===== src/Command/Define/Pairs.antt =====
-- The loop of `define` over the pairs of flags (cmd/kubectl-kshutdown/define.go).
use kshutdown.Base.{
  ℕ, String, ◌<>◌, ◌≡◌, refl, sym, ◌∙◌, ap, inl, inr, Bool, true, false, ◌||◌, List, [], ◌∷◌, ◌++◌,
  length, is_empty, eqb, Error, ok, err, wrap, arith,
}
use kshutdown.Base.GoMap.{GoMap}
use kshutdown.Api.{Target}
use kshutdown.Command.Define.{parse_label_selector, make_targets}
use kshutdown.Command.Define.Laws.{Result-cases}
use mathlib.Core.List.{append-nil, append_assoc}

-- The targets that the flags ask for: one for each pair, in the order of the flags.
abbrev pub IsPaired : List String → List String → List Target → Type 0
IsPaired [] [] [] = Unit
IsPaired (ns ∷ namespaces) (selector ∷ selectors) (t ∷ targets) =
    (t.namespace ≡ ns)
    × (parse_label_selector selector ≡ ok t.label_selector)
    × IsPaired namespaces selectors targets
IsPaired [] [] (_ ∷ _) = ⊥
IsPaired [] (_ ∷ _) _ = ⊥
IsPaired (_ ∷ _) [] _ = ⊥
IsPaired (_ ∷ _) (_ ∷ _) [] = ⊥

make_targets-ok :
    (ns selector : String) (namespaces selectors : List String) (acc : List Target) (labels : GoMap)
    → parse_label_selector selector ≡ ok labels
    → make_targets (ns ∷ namespaces) (selector ∷ selectors) acc
      ≡ make_targets namespaces selectors
          (acc ++ (record { namespace = ns; label_selector = labels } ∷ []))
unfolding make_targets
make_targets-ok ns selector namespaces selectors acc labels h =
    ap
      (λ r. elim r [
        | err e ↦ err (wrap ("parsing selector \"" <> selector <> "\"") e)
        | ok labels ↦
            make_targets namespaces selectors
              (acc ++ (record { namespace = ns; label_selector = labels } ∷ []))
      ])
      h

make_targets-err :
    (ns selector : String) (namespaces selectors : List String) (acc : List Target) (e : Error)
    → parse_label_selector selector ≡ err e
    → make_targets (ns ∷ namespaces) (selector ∷ selectors) acc
      ≡ err (wrap ("parsing selector \"" <> selector <> "\"") e)
unfolding make_targets
make_targets-err ns selector namespaces selectors acc e h =
    ap
      (λ r. elim r [
        | err e ↦ err (wrap ("parsing selector \"" <> selector <> "\"") e)
        | ok labels ↦
            make_targets namespaces selectors
              (acc ++ (record { namespace = ns; label_selector = labels } ∷ []))
      ])
      h

abbrev target : String → GoMap → Target
target ns labels = record { namespace = ns; label_selector = labels }

append_one :
    (acc : List Target) (ns : String) (labels : GoMap) (t : Target) (ts : List Target)
    → t.namespace ≡ ns
    → t.label_selector ≡ labels
    → (acc ++ (target ns labels ∷ [])) ++ ts ≡ acc ++ (t ∷ ts)
append_one acc ns labels t ts e k =
    append_assoc acc (target ns labels ∷ []) ts ∙ ap (λ first. acc ++ (first ∷ ts)) (rw (e, k) refl)

pub IsPaired-make_targets :
    (namespaces selectors : List String) (acc targets : List Target)
    → IsPaired namespaces selectors targets
    → make_targets namespaces selectors acc ≡ ok (acc ++ targets)
unfolding make_targets
IsPaired-make_targets [] [] acc [] p = rw append-nil refl
IsPaired-make_targets (ns ∷ nss) (sel ∷ sels) acc (t ∷ ts) p =
    make_targets-ok ns sel nss sels acc t.label_selector p.1
    ∙ IsPaired-make_targets nss sels (acc ++ (target ns t.label_selector ∷ [])) ts p.2
    ∙ ap ok (append_one acc ns t.label_selector t ts p.0 refl)
IsPaired-make_targets [] [] acc (t ∷ ts) p = elim p [ ]
IsPaired-make_targets [] (sel ∷ sels) acc targets p = elim p [ ]
IsPaired-make_targets (ns ∷ nss) [] acc targets p = elim p [ ]
IsPaired-make_targets (ns ∷ nss) (sel ∷ sels) acc [] p = elim p [ ]

pub make_targets-IsPaired :
    (namespaces selectors : List String) (acc found : List Target)
    → length namespaces ≡ length selectors
    → make_targets namespaces selectors acc ≡ ok found
    → (targets : List Target) × (found ≡ acc ++ targets) × IsPaired namespaces selectors targets
unfolding make_targets
make_targets-IsPaired [] [] acc found l h = ([], cc (h, append-nil acc), tt)
make_targets-IsPaired (ns ∷ nss) (sel ∷ sels) acc found l h =
    elim (Result-cases (parse_label_selector sel)) [
      | inl (labels, e) ↦
          let (ts, same, paired) =
            make_targets-IsPaired nss sels (acc ++ (target ns labels ∷ [])) found (omega (arith, l))
              (sym (make_targets-ok ns sel nss sels acc labels e) ∙ h) in
          (
            target ns labels ∷ ts,
            same ∙ append_one acc ns labels (target ns labels) ts refl refl,
            (refl, e, paired),
          )
      | inr (e, k) ↦ absurd (refused (sym (make_targets-err ns sel nss sels acc e k) ∙ h))
    ]
  where
    refused : {e : Error} → err e ≡ ok found → ⊥
    refused k = cc
make_targets-IsPaired [] (_ ∷ _) acc found l h = absurd (omega (arith, l))
make_targets-IsPaired (_ ∷ _) [] acc found l h = absurd (omega (arith, l))

pub length-IsPaired :
    (namespaces selectors : List String) (targets : List Target)
    → IsPaired namespaces selectors targets
    → length namespaces ≡ length selectors
length-IsPaired [] [] [] p = refl
length-IsPaired (ns ∷ nss) (sel ∷ sels) (t ∷ ts) p = omega (arith, length-IsPaired nss sels ts p.2)
length-IsPaired [] [] (t ∷ ts) p = elim p [ ]
length-IsPaired [] (sel ∷ sels) targets p = elim p [ ]
length-IsPaired (ns ∷ nss) [] targets p = elim p [ ]
length-IsPaired (ns ∷ nss) (sel ∷ sels) [] p = elim p [ ]

pub both_some :
    {A B : Type 0} (xs : List A) (ys : List B)
    → length xs ≡ length ys
    → is_empty xs ≡ false
    → is_empty ys ≡ false
both_some xs [] h k = both_none xs h k
  where
    both_none : {A : Type 0} (xs : List A) → length xs ≡ 0 → is_empty xs ≡ false → true ≡ false
    both_none [] h k = k
    both_none (x ∷ xs) h k = absurd (omega (arith, h))
both_some xs (y ∷ ys) h k = refl

pub or_left : (a b : Bool) → a || b ≡ false → a ≡ false
or_left false b h = refl
or_left true b h = h

pub same_length : {m n : ℕ} → m ≡ n → eqb m n ≡ true
same_length h = ground (arith, h)
