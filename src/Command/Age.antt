-- ===== src/Command/Age.antt =====
-- cmd/kubectl-kshutdown/list.go: `formatAge`, with time.Since, which it calls. The float arithmetic
-- of Duration.Seconds, Minutes and Hours is read as exact; near a whole unit it can be off by a few
-- microseconds of the duration. The text is the number and the first letter of its unit.
pub mod Bounds
use kshutdown.Base.{ℕ, zero, suc, ◌-◌, ◌*◌, ◌/◌, ◌≤◌, Bool, true, false, if◌then◌else◌, ltb, leb}
use kshutdown.Api.{Timestamp}

pub data ℤ : Type 0 where
  pos : ℕ → ℤ
  negsuc : ℕ → ℤ

abbrev negate : ℕ → ℤ
negate zero = pos 0
negate (suc n) = negsuc n

-- Division by a whole number, towards zero, as the conversion of a float to an int cuts it.
abbrev pub quot : ℤ → ℕ → ℤ
quot (pos n) k = pos (n / k)
quot (negsuc n) k = negate (suc n / k)

abbrev less : ℤ → ℕ → Bool
less (pos n) k = ltb n k
less (negsuc n) k = true

-- A `time.Duration`, in nanoseconds.
abbrev pub Duration : Type 0
Duration = ℤ

abbrev pub second : ℕ
second = 1000000000

abbrev pub minute : ℕ
minute = 60000000000

abbrev pub hour : ℕ
hour = 3600000000000

abbrev pub day : ℕ
day = 86400000000000

-- The greatest int64.
abbrev pub max_duration : ℕ
max_duration = 9223372036854775807

abbrev cap : ℕ → ℕ → ℕ
cap limit n = if leb n limit then n else limit

-- `time.Since(t)`, from the clock `now` in nanoseconds: a difference that no Duration holds stops at
-- the greatest or the least one.
unfoldable pub since : ℕ → Timestamp → Duration
since now t =
    if leb (t * second) now
    then pos (cap max_duration (now - t * second))
    else negate (cap (suc max_duration) (t * second - now))

pub data TimeUnit : Type 0 where
  seconds minutes hours days : TimeUnit

pub record Age : Type 0 where
  pub count : ℤ
  pub unit : TimeUnit

abbrev pub age : ℤ → TimeUnit → Age
age n l = record { count = n; unit = l }

-- The switch of `formatAge`.
unfoldable pub format_duration : Duration → Age
format_duration d =
    if less d minute
    then age (quot d second) seconds
    else (if less d hour
        then age (quot d minute) minutes
        else (if less d day then age (quot d hour) hours else age (quot d day) days))

unfoldable pub format_age : ℕ → Timestamp → Age
unfolding since format_duration
format_age now t = format_duration (since now t)
