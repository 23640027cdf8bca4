-- ===== src/Tests/Parser/Laws.antt =====
-- The parser of the examples behaves as cobra documents.
use kshutdown.Base.{
  ℕ, String, ◌==◌, not, if◌then◌else◌, ◌≡◌, refl, sym, ◌∙◌, ap, ◌≢◌, ◌↔◌, ◌⊎◌, inl, inr, Bool,
  Bool-cases, true, false, Option, none, some, List, [], ◌∷◌, ◌++◌, Result, ok, err, subst, eq_iff,
  All, length, select, arith,
}
use kshutdown.Command.Line.{Variable, Flag, Variables, Value, value_of}
use kshutdown.Command.Main.{Parsed, help, parsed, IsIn, IsCobra, TakesN}
use kshutdown.Tests.Parser.{
  has_name, add, spelled, find, assign, word, taken, read, exactly, parser,
}

assign-other :
    (y x : Variable) (v : String) (vs : Variables)
    → y ≢ x
    → value_of x (assign y v vs) ≡ value_of x vs
unfolding assign
assign-other Variable.kubeconfig Variable.kubeconfig v vs n = absurd (n refl)
assign-other Variable.kubeconfig _ v vs n = refl
assign-other Variable.namespace Variable.namespace v vs n = absurd (n refl)
assign-other Variable.namespace _ v vs n = refl
assign-other Variable.reason Variable.reason v vs n = absurd (n refl)
assign-other Variable.reason _ v vs n = refl
assign-other Variable.namespaces Variable.namespaces v vs n = absurd (n refl)
assign-other Variable.namespaces _ v vs n = refl
assign-other Variable.selectors Variable.selectors v vs n = absurd (n refl)
assign-other Variable.selectors _ v vs n = refl
assign-other Variable.partial x v vs n = refl
assign-other Variable.dry_run x v vs n = refl

assign-text :
    (y : Variable) (v w : String) (vs : Variables)
    → value_of y vs ≡ Value.of_text w
    → value_of y (assign y v vs) ≡ Value.of_text v
unfolding assign
assign-text Variable.kubeconfig v w vs e = refl
assign-text Variable.namespace v w vs e = refl
assign-text Variable.reason v w vs e = refl
assign-text Variable.partial v w vs e = ground (arith, e)
assign-text Variable.dry_run v w vs e = ground (arith, e)
assign-text Variable.namespaces v w vs e = ground (arith, e)
assign-text Variable.selectors v w vs e = ground (arith, e)

some_inj : {A : Type 0} {x y : A} → some x ≡ some y → x ≡ y
some_inj {x} e = ap (λ o. elim o [ none ↦ x | some z ↦ z ]) e

if_some :
    {A : Type 0} (b : Bool) (x y : A) (o : Option A)
    → (if b then some x else o) ≡ some y
    → (x ≡ y) ⊎ (o ≡ some y)
if_some true x y o e = inl (some_inj e)
if_some false x y o e = inr e

find-IsIn : (a : String) (set : List Flag) (f : Flag) → find a set ≡ some f → IsIn f set
unfolding find
find-IsIn a [] f e = ground (arith, e)
find-IsIn a (g ∷ gs) f e = elim (if_some (spelled a g) g f (find a gs) e) [
  | inl same ↦ inl same
  | inr later ↦ inr (find-IsIn a gs f later)
]

find-n :
    (set : List Flag) (f : Flag)
    → IsIn f set
    → f.shorthand ≡ "n"
    → ((g : Flag) → IsIn g set → g.shorthand ≡ "n" → g ≡ f)
    → find "-n" set ≡ some f
unfolding find
find-n [] f i e one = absurd i
find-n (g ∷ gs) f i e one = elim (Bool-cases (g.shorthand == "n")) [
  | inl same ↦ rw same (ap some (one g (inl refl) ((eq_iff g.shorthand "n").0 same)))
  | inr other ↦ elim i [
    | inl h ↦
        absurd (ground (arith, sym other ∙ ap (λ q. q.shorthand == "n") h ∙ ap (λ t. t == "n") e))
    | inr later ↦ rw other (find-n gs f later e λ g j. one g (inr j))
  ]
]

Keeps : Variable → Variables → Result Parsed → Type 0
Keeps x vs (ok (parsed vs' _)) = value_of x vs' ≡ value_of x vs
Keeps x vs (ok help) = Unit
Keeps x vs (err _) = Unit

Keeps-if :
    (x : Variable) (vs : Variables) (b : Bool) (r q : Result Parsed)
    → Keeps x vs r
    → Keeps x vs q
    → Keeps x vs (if b then r else q)
Keeps-if x vs true r q k l = k
Keeps-if x vs false r q k l = l

Keeps-word :
    (x : Variable) (vs : Variables) (a : String) (r : Result Parsed)
    → Keeps x vs r
    → Keeps x vs (word a r)
unfolding Keeps
Keeps-word x vs a (ok (parsed vs' _)) k = k
Keeps-word x vs a (ok help) k = k
Keeps-word x vs a (err _) k = k

Keeps-after :
    (x : Variable) (vs us : Variables) (r : Result Parsed)
    → value_of x us ≡ value_of x vs
    → Keeps x us r
    → Keeps x vs r
unfolding Keeps
Keeps-after x vs us (ok (parsed vs' _)) e k = k ∙ e
Keeps-after x vs us (ok help) e k = k
Keeps-after x vs us (err _) e k = k

module _ (set : List Flag) (x : Variable) (apart : (f : Flag) → IsIn f set → f.variable ≢ x) where
  Keeps-taken :
      (o : Option Flag) (a v : String) (vs : Variables) (go : Variables → Result Parsed)
      (skip : Result Parsed)
      → find a set ≡ o
      → ((us : Variables) → Keeps x us (go us))
      → Keeps x vs skip
      → Keeps x vs (taken o a v vs go skip)
  unfolding Keeps
  Keeps-taken none a v vs go skip e k l =
      Keeps-if x vs (a == "-n") _ _ tt (Keeps-word x vs a skip l)
  Keeps-taken (some f) a v vs go skip e k l =
      let us = assign f.variable v vs in
      Keeps-after x vs us (go us) (assign-other f.variable x v vs (apart f (find-IsIn a set f e)))
        (k us)

  Keeps-read : (args : List String) (vs : Variables) → Keeps x vs (read set args vs)
  unfolding read Keeps
  Keeps-read [] vs = refl
  Keeps-read (a ∷ []) vs = Keeps-if x vs (a == "--help") _ _ tt refl
  Keeps-read (a ∷ v ∷ rest) vs =
      Keeps-taken (find a set) a v vs (read set rest) (read set (v ∷ rest) vs) refl
        (λ us. Keeps-read rest us) (Keeps-read (v ∷ rest) vs)

takes_n :
    (set : List Flag) (f : Flag) (v : String) (vs : Variables)
    → IsIn f set
    → f.shorthand ≡ "n"
    → (w : String) → value_of f.variable vs ≡ Value.of_text w
    → ((g : Flag) → IsIn g set → g.shorthand ≡ "n" → g ≡ f)
    → TakesN parser set f v vs
unfolding read parser
takes_n set f v vs i n w e one = record {
  after = assign f.variable v vs;
  set_value = assign-text f.variable v w vs e;
  others = λ x apart. assign-other f.variable x v vs λ same. apart (sym same);
  goes_on = λ rest. rw (find-n set f i n one) refl;
}

has_name-All :
    (n : String) (own : List Flag) → has_name n own ≡ false → All (λ g. (g.name == n) ≡ false) own
unfolding has_name
has_name-All n [] e = tt
has_name-All n (g ∷ gs) e = elim (Bool-cases (g.name == n)) [
  | inl same ↦ absurd (ground (arith, same, e))
  | inr other ↦ (other, has_name-All n gs (ground (arith, other, e)))
]

All-has_name :
    (n : String) (own : List Flag) → All (λ g. (g.name == n) ≡ false) own → has_name n own ≡ false
unfolding has_name
All-has_name n [] a = refl
All-has_name n (g ∷ gs) (other, rest) = rw (other, All-has_name n gs rest) refl

IsIn-append : (own new : List Flag) (f : Flag) → IsIn f (own ++ new) → IsIn f own ⊎ IsIn f new
IsIn-append [] new f i = inr i
IsIn-append (g ∷ gs) new f (inl h) = inl (inl h)
IsIn-append (g ∷ gs) new f (inr i) = elim (IsIn-append gs new f i) [
  | inl left ↦ inl (inr left)
  | inr right ↦ inr right
]

append_left : (own new : List Flag) (f : Flag) → IsIn f own → IsIn f (own ++ new)
append_left (g ∷ gs) new f (inl h) = inl h
append_left (g ∷ gs) new f (inr i) = inr (append_left gs new f i)
append_left [] new f i = absurd i

append_right : (own new : List Flag) (f : Flag) → IsIn f new → IsIn f (own ++ new)
append_right [] new f i = i
append_right (g ∷ gs) new f i = inr (append_right gs new f i)

IsIn-if :
    (b : Bool) (g f : Flag) (r : List Flag)
    → IsIn f (if b then g ∷ r else r)
    → ((b ≡ true) × (g ≡ f)) ⊎ IsIn f r
IsIn-if true g f r (inl h) = inl (refl, h)
IsIn-if true g f r (inr i) = inr i
IsIn-if false g f r i = inr i

if_later : (b : Bool) (g f : Flag) (r : List Flag) → IsIn f r → IsIn f (if b then g ∷ r else r)
if_later true g f r i = inr i
if_later false g f r i = i

IsIn-select :
    (p : Flag → Bool) (fs : List Flag) (f : Flag) → IsIn f (select p fs) → IsIn f fs × (p f ≡ true)
IsIn-select p [] f i = absurd i
IsIn-select p (g ∷ gs) f i = elim (IsIn-if (p g) g f (select p gs) i) [
  | inl (held, h) ↦ (inl h, sym (ap p h) ∙ held)
  | inr later ↦ let rest = IsIn-select p gs f later in (inr rest.0, rest.1)
]

select-IsIn :
    (p : Flag → Bool) (fs : List Flag) (f : Flag) → IsIn f fs → p f ≡ true → IsIn f (select p fs)
select-IsIn p [] f i held = absurd i
select-IsIn p (g ∷ gs) f (inl h) held = rw (ap p h ∙ held) (inl h)
select-IsIn p (g ∷ gs) f (inr i) held = if_later (p g) g f (select p gs) (select-IsIn p gs f i held)

AddedIn : List Flag → List Flag → Flag → Type 0
AddedIn own new f = IsIn f own ⊎ (IsIn f new × All (λ g. (g.name == f.name) ≡ false) own)

added_forth : (own new : List Flag) (f : Flag) → IsIn f (add own new) → AddedIn own new f
unfolding add AddedIn
added_forth own new f i = elim (IsIn-append own _ f i) [
  | inl left ↦ inl left
  | inr right ↦
      let found = IsIn-select (λ g. not (has_name g.name own)) new f right in
      inr (found.0, has_name-All f.name own (ground (arith, found.1)))
]

added_back : (own new : List Flag) (f : Flag) → AddedIn own new f → IsIn f (add own new)
unfolding add AddedIn
added_back own new f (inl i) = append_left own _ f i
added_back own new f (inr (i, apart)) =
    append_right own _ f (
      select-IsIn (λ g. not (has_name g.name own)) new f i
        (rw (All-has_name f.name own apart) refl))

exact : (n : ℕ) (args : List String) → (exactly n args ≡ none) ↔ (length args ≡ n)
unfolding exactly
exact n args = (λ e. ground (arith, e), λ e. ground (arith, e))

pub parser-IsCobra : IsCobra parser
unfolding parser Keeps AddedIn
parser-IsCobra = record {
  added = λ own new f. (added_forth own new f, added_back own new f);
  kept = λ set args vs vs' rest x e apart. subst (Keeps x vs) e (Keeps-read set x apart args vs);
  short_n = λ set f v vs i k n w e one. takes_n set f v vs i n w e one;
  exact = exact;
}
