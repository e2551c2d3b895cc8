-- ===== src/Automations/Firing.antt =====
-- internal/automations/processor.go: the rule that says when a send may happen, and `scheduledFire`.
-- A zone gives the local day of an instant, counted from the day of the Unix epoch, and the instant
-- of a local day and minute; instants are nanoseconds.
pub mod Windows
use beleevo_whatsapp.Prelude.{
  ltb, string_eq, nat_eq, ◌==◌, not, if◌then◌else◌, any, ℕ, zero, suc, ◌+◌, ◌*◌, ◌%◌, String, Bool,
  Option, none, some, List,
}
use beleevo_whatsapp.Whatsapp.Directory.{or_default}
use beleevo_whatsapp.Automations.{Schedule, all_days, days_or_all}

pub record Zone : Type 0 where
  pub local_day : ℕ → ℕ
  pub instant : ℕ → ℕ → ℕ

pub record FireRule : Type 0 where
  pub minute : Option ℕ
  pub delay : Option ℕ
  pub timezone : String
  pub days : List ℕ

unfoldable pub rule_from_schedule : Option Schedule → FireRule
rule_from_schedule none = record { minute = none; delay = none; timezone = "UTC"; days = all_days }
rule_from_schedule (some s) = record {
  minute = s.send_minute;
  delay = s.delay_minute;
  timezone = or_default "UTC" s.timezone;
  days = days_or_all s.days;
}

-- The day of the Unix epoch was a Thursday.
unfoldable pub iso_weekday : ℕ → ℕ
iso_weekday day = (day + 3) % 7 + 1

unfoldable pub allows : FireRule → ℕ → Bool
allows r weekday = any (λ d. d == weekday) r.days

abbrev pub minute_ns : ℕ
minute_ns = 60000000000

-- The window of the first allowed day among the next `left` days behind `day`.
unfoldable pub next_allowed_day : FireRule → Zone → (minute left day : ℕ) → Option ℕ
next_allowed_day r zone minute zero day = none
next_allowed_day r zone minute (suc left) day =
    let later = next_allowed_day r zone minute left (day + 1) in
    if allows r (iso_weekday (day + 1)) then some (zone.instant (day + 1) minute) else later

abbrev pub fixed_fire : FireRule → Zone → ℕ → ℕ → Option ℕ
fixed_fire r zone now minute =
    let today = zone.local_day now in
    let at = zone.instant today minute in
    if not (allows r (iso_weekday today))
    then next_allowed_day r zone minute 14 today
    else if ltb now at
    then some at
    else none

abbrev pub without_delay : FireRule → Zone → ℕ → Option ℕ → Option ℕ
without_delay r zone now none = none
without_delay r zone now (some minute) = fixed_fire r zone now minute

-- `none` is the zero time: send right now. `zone` is the rule's, or UTC where it is unknown.
unfoldable pub scheduled_fire : FireRule → Zone → (now : ℕ) → Option ℕ
scheduled_fire r zone now = elim r.delay [
  | some minutes ↦ some (now + minutes * minute_ns)
  | none ↦ without_delay r zone now r.minute
]
