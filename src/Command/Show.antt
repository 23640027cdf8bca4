-- ===== src/Command/Show.antt =====
-- cmd/kubectl-kshutdown: the commands `list` (list.go), `status` (status.go) and `history`
-- (history.go). What a command prints is the table or the report that it returns, without the column
-- titles; an empty table stands for the line that says so, and an age is its number and unit. `now`
-- is the clock, which the code reads again for each age. Errors of the standard output are left out.
-- `connect` stands for `clientFactory`, and `list_groups` for the client's List, of one namespace or
-- of all.
pub mod Laws
use kshutdown.Base.{
  ℕ, String, ◌<>◌, ◌==◌, if◌then◌else◌, Option, none, some, List, [], ◌∷◌, map, errorf, Effect,
  pure, fail, context, ◌>>=◌, ◌>>◌,
}
use kshutdown.Base.GoMap.{GoMap}
use kshutdown.Api.{ShutdownGroup, Target, ResourceSnapshot, HistoryEntry, Timestamp}
use kshutdown.Api.Client.{Client}
use kshutdown.Targets.{target_namespace}
use kshutdown.Command.Age.{Age, format_age}

-- `orDash`
unfoldable pub or_dash : String → String
or_dash s = if s == "" then "-" else s

abbrev pub state_or_unknown : String → String
state_or_unknown s = if s == "" then "unknown" else s

-- A row of `list`; where there is no age, the code prints "-".
pub record Row : Type 0 where
  pub name : String
  pub namespace : String
  pub state : String
  pub since : Option Age
  pub operator : String

abbrev age_of : ℕ → Option Timestamp → Option Age
age_of now none = none
age_of now (some t) = some (format_age now t)

unfoldable pub row_of : ℕ → ShutdownGroup → Row
row_of now sg = record {
  name = sg.name;
  namespace = sg.namespace;
  state = state_or_unknown sg.status.state;
  since = age_of now sg.status.since;
  operator = sg.status.operator;
}

-- What `status` prints. The time is printed in full beside its age.
pub record Report : Type 0 where
  pub name : String
  pub namespace : String
  pub state : String
  pub since : Option (Timestamp × Age)
  pub operator : String
  pub reason : String
  pub targets : List (String × GoMap)
  pub snapshot : List ResourceSnapshot

abbrev since_of : ℕ → Option Timestamp → Option (Timestamp × Age)
since_of now none = none
since_of now (some t) = some (t, format_age now t)

abbrev pub target_line : String → Target → String × GoMap
target_line own t = (target_namespace own t, t.label_selector)

unfoldable pub report_of : ℕ → ShutdownGroup → Report
unfolding or_dash
report_of now sg = record {
  name = sg.name;
  namespace = sg.namespace;
  state = state_or_unknown sg.status.state;
  since = since_of now sg.status.since;
  operator = or_dash sg.status.operator;
  reason = or_dash sg.status.reason;
  targets = map (target_line sg.namespace) sg.targets;
  snapshot = sg.status.snapshot;
}

-- A row of `history`.
pub record Operation : Type 0 where
  pub operation : String
  pub at : Timestamp
  pub operator : String
  pub reason : String

unfoldable pub operation_of : HistoryEntry → Operation
unfolding or_dash
operation_of h = record {
  operation = h.operation;
  at = h.at;
  operator = h.operator;
  reason = or_dash h.reason;
}

-- `client.InNamespace`, where a namespace is given.
abbrev pub within : String → Option String
within ns = if ns == "" then none else some ns

module _ (C : Client) (connect : Effect C.State (Unit {0})) where
  -- How `status`, `history` and `export` read the object.
  unfoldable pub read_named :
      {A : Type 0} → (String → String → Effect C.State A) → String → String → Effect C.State A
  read_named get ns name = do
    context "building client" connect
    if ns == ""
        then fail (errorf "--namespace / -n is required")
        else context ("getting shutdowngroup " <> ns <> "/" <> name) (get ns name)

  unfoldable pub list_command :
      (Option String → Effect C.State (List ShutdownGroup)) → ℕ → String → Effect C.State (List Row)
  unfolding row_of
  list_command list_groups now ns = do
    context "building client" connect
    groups ← context "listing shutdowngroups" (list_groups (within ns))
    pure (map (row_of now) groups)

  unfoldable pub status_command : ℕ → String → String → Effect C.State Report
  unfolding read_named report_of
  status_command now ns name = do sg ← read_named C.get_group ns name; pure (report_of now sg)

  unfoldable pub history_command : String → String → Effect C.State (List Operation)
  unfolding read_named operation_of
  history_command ns name = do
    sg ← read_named C.get_group ns name
    pure (map operation_of sg.status.history)
