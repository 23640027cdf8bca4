-- ===== src/System/Shown.antt =====
-- What the plugin's commands `status` and `history` show after the reconciler has run.
use kshutdown.Base.{
  ℕ, suc, String, ◌==◌, ◌≡◌, refl, sym, subst, ◌∙◌, ap, true, false, some, List, ◌∷◌, map, take,
  length, ltb, leb, Bool-cases, inl, inr, ◌+◌, ◌*◌, ◌/◌, ◌-◌, ◌<◌, arith, Effect,
}
use kshutdown.Base.GoMap.{index}
use kshutdown.Api.{
  ShutdownGroup, HistoryEntry, Timestamp, state_down, command_down, annotation_command,
  max_history_entries,
}
use kshutdown.Api.Client.{Client, World, IsLawful}
use kshutdown.Authz.{Check, IsFaithful}
use kshutdown.Controller.Group.{cap_history}
use kshutdown.Controller.Reconcile.{entry_of, reconcile}
use kshutdown.System.Invariant.{Accounts}
use kshutdown.System.Progress.{IsRecorded, reconcile-IsDone_down}
use kshutdown.Command.Age.{
  pos, second, minute, max_duration, since, age, seconds, format_age, format_duration,
}
use kshutdown.Command.Show.{
  Report, Operation, report_of, operation_of, status_command, history_command,
}
use kshutdown.Command.Show.Laws.{Connects, Answers, status_command-Answers, history_command-Answers}

-- Within the second, the age is 0 seconds.
format_age-now :
    (t : Timestamp) (later : ℕ)
    → later < second
    → format_age (t * second + later) t ≡ age (pos 0) seconds
unfolding format_age since format_duration
format_age-now t later soon =
    rw (reached, passed, within, under) (ap (λ n. age (pos n) seconds) whole)
  where
    reached : leb (t * second) (t * second + later) ≡ true
    reached = ground arith

    passed : t * second + later - t * second ≡ later
    passed = omega arith

    within : leb later max_duration ≡ true
    within = ground (arith, soon)

    under : ltb later minute ≡ true
    under = ground (arith, soon)

    whole : later / second ≡ 0
    whole = omega (arith, soon)

-- The newest entry stays when the history is cut.
cap_history-head :
    (e : HistoryEntry) (h : List HistoryEntry)
    → (rest : List HistoryEntry) × (cap_history (e ∷ h) ≡ e ∷ rest)
unfolding cap_history
cap_history-head e h = elim (Bool-cases (ltb max_history_entries (suc (length h)))) [
  | inl many ↦ (take 19 h, rw many refl)
  | inr few ↦ (h, rw few refl)
]

module _ (C : Client) (MayFail : Type 0) (L : IsLawful C MayFail) (check : Check C)
    (F : IsFaithful C MayFail check) (reliable : MayFail → ⊥) (connect : Effect C.State (Unit {0}))
    (K : Connects C connect) (now : Timestamp) (later : ℕ) (soon : later < second)
    (ns name : String) (named : (ns == "") ≡ false) (w₀ : World) (s : C.State)
    (sg : ShutdownGroup) where
  -- What the two commands show in the second of the run: the state and its age, and the command's
  -- entry, newest first.
  pub record IsShown (command state : String) (s' : C.State) : Type 0 where
    report : Report
    answers : Answers C connect (status_command C connect (now * second + later) ns name) s' report
    shows_state : report.state ≡ state
    shows_since : report.since ≡ some (now, age (pos 0) seconds)
    older : List Operation
    lists :
        Answers C connect
          (history_command C connect ns name)
          s'
          (operation_of (entry_of command now sg) ∷ older)

  shown :
      (command state : String) (g : ShutdownGroup) (s' : C.State)
      → (C.world s').group ns name ≡ some g
      → (state == "") ≡ false
      → g.status.state ≡ state
      → IsRecorded C MayFail L check F reliable now ns name w₀ s sg command g
      → IsShown command state s'
  unfolding report_of
  shown command state g s' there some_state same recorded = record {
    report = report_of (now * second + later) g;
    answers =
        status_command-Answers C connect MayFail L reliable K ns name g s' named there
          (now * second + later);
    shows_state = rw (same, some_state) refl;
    shows_since = rw recorded.0 (ap (λ a. some (now, a)) (format_age-now now later soon));
    older = map operation_of newest.0;
    lists =
        subst (λ h. Answers C connect (history_command C connect ns name) s' (map operation_of h))
          (recorded.1 ∙ newest.1)
          (history_command-Answers C connect MayFail L reliable K ns name g s' named there);
  }
    where
      newest :
          (rest : List HistoryEntry) × (cap_history (entry_of command now sg ∷ sg.status.history)
            ≡ entry_of command now sg ∷ rest)
      newest = cap_history-head (entry_of command now sg) sg.status.history

  module _ (there : (C.world s).group ns name ≡ some sg) (present : sg.deleting ≡ false)
      (a : Accounts w₀ (C.world s) sg.status.snapshot) where
    -- Where calls do not fail and the accounts hold, after one run for the command "down", of an
    -- object that is not down, `status` shows within the second that it is down, for 0 seconds, and
    -- the newest row of `history` is the command with its time, operator and reason.
    pub IsShown-reconcile_down :
        index sg.annotations annotation_command ≡ command_down
        → (sg.status.state == state_down) ≡ false
        → IsShown command_down state_down (reconcile C check now ns name s).1
    IsShown-reconcile_down down not_down =
        let (s', g, ran, stored, state, _, (_, recorded, _)) =
          reconcile-IsDone_down C MayFail L check F reliable now ns name w₀ s sg there present a
            down not_down in
        subst (IsShown command_down state_down) (sym (ap (λ x. x.1) ran))
          (shown command_down state_down g s' stored refl state recorded)
