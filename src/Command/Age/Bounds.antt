-- ===== src/Command/Age/Bounds.antt =====
-- `formatAge` (cmd/kubectl-kshutdown/list.go): the number that is shown, against the duration.
use kshutdown.Base.{
  ℕ, suc, ◌-◌, ◌*◌, ◌/◌, ◌≤◌, ◌<◌, ◌≡◌, refl, inl, inr, Bool-cases, true, ltb, leb, arith,
}
use kshutdown.Api.{Timestamp}
use kshutdown.Command.Age.{
  pos, second, minute, hour, day, max_duration, since, TimeUnit, seconds, minutes, hours, days, Age,
  age, format_duration, format_age,
}

-- The nanoseconds of a unit, and the number from which on a greater unit is shown: no duration
-- has more days than 106751.
abbrev pub size : TimeUnit → ℕ
size seconds = second
size minutes = minute
size hours = hour
size days = day

abbrev pub limit : TimeUnit → ℕ
limit seconds = 60
limit minutes = 60
limit hours = 24
limit days = 106752

-- The number from which on the unit is used.
abbrev pub least : TimeUnit → ℕ
least seconds = 0
least minutes = 1
least hours = 1
least days = 1

-- The age shows the whole units in `n` nanoseconds.
pub record IsAge (n : ℕ) (a : Age) : Type 0 where
  units : ℕ
  shown : a.count ≡ pos units
  below : units * size a.unit ≤ n
  above : n < suc units * size a.unit
  reaching : least a.unit ≤ units
  bounded : units < limit a.unit

IsAge-quotient :
    (n : ℕ) (u : TimeUnit)
    → least u ≤ n / size u
    → n / size u < limit u
    → IsAge n (age (pos (n / size u)) u)
IsAge-quotient n u l h = record {
  units = n / size u;
  shown = refl;
  below = lower u;
  above = upper u;
  reaching = l;
  bounded = h;
}
  where
    lower : (u : TimeUnit) → n / size u * size u ≤ n
    lower seconds = omega arith
    lower minutes = omega arith
    lower hours = omega arith
    lower days = omega arith

    upper : (u : TimeUnit) → n < suc (n / size u) * size u
    upper seconds = omega arith
    upper minutes = omega arith
    upper hours = omega arith
    upper days = omega arith

pub format_duration-IsAge : (n : ℕ) → n ≤ max_duration → IsAge n (format_duration (pos n))
unfolding format_duration
format_duration-IsAge n small = elim (Bool-cases (ltb n minute)) [
  | inl under ↦ rw under (IsAge-quotient n seconds (omega arith) (ground (arith, under)))
  | inr over ↦ rw over (elim (Bool-cases (ltb n hour)) [
    | inl under ↦ rw under (IsAge-quotient n minutes (ground (arith, over)) (ground (arith, under)))
    | inr over ↦ rw over (elim (Bool-cases (ltb n day)) [
      | inl under ↦ rw under (IsAge-quotient n hours (ground (arith, over)) (ground (arith, under)))
      | inr over ↦ rw over (IsAge-quotient n days (ground (arith, over)) (omega arith))
    ])
  ])
]

-- For a time that is not after the clock's, and no longer ago than the greatest duration, the age
-- counts the whole units that have passed, and the number stays below the next unit.
pub format_age-IsAge :
    (now : ℕ) (t : Timestamp)
    → t * second ≤ now
    → now - t * second ≤ max_duration
    → IsAge (now - t * second) (format_age now t)
unfolding format_age since
format_age-IsAge now t past small =
    rw (reached, within) (format_duration-IsAge (now - t * second) small)
  where
    reached : leb (t * second) now ≡ true
    reached = ground (arith, past)

    within : leb (now - t * second) max_duration ≡ true
    within = ground (arith, small)
