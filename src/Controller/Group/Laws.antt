-- ===== src/Controller/Group/Laws.antt =====
-- What the writes of a ShutdownGroup leave in the world.
use kshutdown.Base.{
  ℕ, zero, suc, String, ◌≡◌, refl, sym, ap, true, [], inl, inr, some, List, ◌∷◌, arith, ltb, length,
  take, length-take_le, ◌≤◌, Bool-cases, Ensures, Ensures-bind, Ensures-rewrap, context,
  if◌then◌else◌,
}
use kshutdown.Base.GoMap.{index, erase_all, contains, index-erase_all}
use kshutdown.Api.{
  ShutdownGroup, ShutdownGroupStatus, HistoryEntry, annotation_command, max_history_entries,
}
use kshutdown.Api.Client.{Client, World, IsLawful, GroupPatched}
use kshutdown.Controller.Group.{
  down_keys, up_keys, with_status, with_entry, without, cap_history, append_history,
  consume_annotations,
}

-- The world holds this group.
abbrev pub Stored : ShutdownGroup → World → Type 0
Stored sg w = w.group sg.namespace sg.name ≡ some sg

-- The history that is kept has at most twenty entries.
pub length-cap_history_le : (h : List HistoryEntry) → length (cap_history h) ≤ max_history_entries
unfolding cap_history
length-cap_history_le h = elim (Bool-cases (ltb max_history_entries (length h))) [
  | inl long ↦ rw long (length-take_le max_history_entries h)
  | inr short ↦ rw short (ground arith)
]

take_all : {A : Type 0} (n : ℕ) (xs : List A) → length xs ≤ n → take n xs ≡ xs
take_all zero [] h = refl
take_all zero (x ∷ xs) h = absurd (omega arith)
take_all (suc n) [] h = refl
take_all (suc n) (x ∷ xs) h = ap (λ ys. x ∷ ys) (take_all n xs (omega arith))

-- It is the twenty newest entries.
pub cap_history-eq-take : (h : List HistoryEntry) → cap_history h ≡ take max_history_entries h
unfolding cap_history
cap_history-eq-take h = elim (Bool-cases (ltb max_history_entries (length h))) [
  | inl long ↦ rw long refl
  | inr short ↦ rw short (sym (take_all max_history_entries h (ground arith)))
]

-- An object that lost its command annotation has none.
pub no_command :
    (sg : ShutdownGroup) (keys : List String)
    → contains keys annotation_command ≡ true
    → index (erase_all keys sg.annotations) annotation_command ≡ ""
no_command sg keys has = rw (index-erase_all keys annotation_command sg.annotations, has) refl

-- Every other annotation stays.
pub index-without :
    (sg : ShutdownGroup) (keys : List String) (key : String)
    → index (without keys sg).annotations key
      ≡ (if contains keys key then "" else index sg.annotations key)
index-without sg keys key = index-erase_all keys key sg.annotations

pub down_keys-command : contains down_keys annotation_command ≡ true
unfolding contains
down_keys-command = refl

pub up_keys-command : contains up_keys annotation_command ≡ true
unfolding contains
up_keys-command = refl

module _ (C : Client) (MayFail : Type 0) (L : IsLawful C MayFail) where
  -- A failed write changes nothing.
  abbrev pub WriteFails : World → C.State → Type 0
  WriteFails w s' = (C.world s' ≡ w) × MayFail

  abbrev pub Writes : ShutdownGroup → World → ShutdownGroup → C.State → Type 0
  Writes g w g' s' = (g' ≡ g) × GroupPatched g w (C.world s')

  pub patch_status_lem :
      (message : String) (sg : ShutdownGroup) (st : ShutdownGroupStatus) (s : C.State)
      → Stored sg (C.world s)
      → Ensures
          (Writes (with_status sg st) (C.world s))
          (WriteFails (C.world s))
          (context message (C.patch_status sg (with_status sg st)) s)
  patch_status_lem message sg st s h =
      Ensures-rewrap (Writes (with_status sg st) (C.world s)) (WriteFails (C.world s)) message
        (C.patch_status sg (with_status sg st) s) (L.patch_status_lem sg st s h)

  pub append_history_lem :
      (sg : ShutdownGroup) (entry : HistoryEntry) (s : C.State)
      → Stored sg (C.world s)
      → Ensures
          (Writes (with_entry entry sg) (C.world s))
          (WriteFails (C.world s))
          (append_history C sg entry s)
  unfolding append_history
  append_history_lem sg entry s h = patch_status_lem _ sg _ s h

  -- The keys must include the command.
  pub consume_annotations_lem :
      (sg : ShutdownGroup) (keys : List String) (s : C.State)
      → contains keys annotation_command ≡ true
      → Stored sg (C.world s)
      → Ensures
          (λ _ s'. GroupPatched (without keys sg) (C.world s) (C.world s'))
          (WriteFails (C.world s))
          (consume_annotations C sg keys s)
  unfolding consume_annotations
  consume_annotations_lem sg keys s has h =
      Ensures-bind (Writes (without keys sg) w) (WriteFails w) _ (WriteFails w)
        (context _ (C.patch_group sg (without keys sg)) s) _
        (Ensures-rewrap (Writes (without keys sg) w) (WriteFails w) _
          (C.patch_group sg (without keys sg) s)
          (L.patch_group_lem sg (erase_all keys sg.annotations) s h (no_command sg keys has)))
        (λ g' s' p. p.1) (λ s' f. f)
    where
      w : World
      w = C.world s
