-- ===== src/Automations/Schedules.antt =====
-- A schedule through its columns: `ParseSchedule`, `scheduleToColumns` and `Automation.Schedule` of
-- internal/automations/automations.go, as `ruleFromSchedule` of processor.go reads the result.
use mathlib.Core.Path.{subst}
use beleevo_whatsapp.Prelude.{
  string_eq, nat_eq, ◌==◌, Bool-cases, is_none, ℤ, pos_part, Result, ok, err, ℕ, String, ◌≡◌, refl,
  ap, ◌∙◌, inl, inr, Bool, false, ◌&&◌, ◌||◌, Option, none, some, List, [], ◌∷◌, arith, eq_iff,
}
use beleevo_whatsapp.Whatsapp.Directory.{or_default}
use beleevo_whatsapp.Automations.Parsing.{
  parse_clock, parse_days, fixed_days, fixed_schedule, parse_schedule,
}
use beleevo_whatsapp.Automations.{
  default_timezone, Automation, Schedule, days_or_all, minute_of_day, schedule, clock_of,
  schedule_to_columns, with_columns,
}
use beleevo_whatsapp.Automations.Firing.{rule_from_schedule}

clock-exact : (m : Option ℕ) → minute_of_day (clock_of m) ≡ m
clock-exact none = refl
clock-exact (some m) = ap some (omega arith)

days_or_all_twice : (ds : List ℕ) → days_or_all (days_or_all ds) ≡ days_or_all ds
days_or_all_twice [] = refl
days_or_all_twice (d ∷ ds) = refl

or_default_twice : (tz : String) → or_default "UTC" (or_default "UTC" tz) ≡ or_default "UTC" tz
or_default_twice tz = ground (arith, eq_iff tz "")

zone_kept :
    (tz : String) → or_default "UTC" (or_default "UTC" (or_default "UTC" tz)) ≡ or_default "UTC" tz
zone_kept tz = or_default_twice (or_default "UTC" tz) ∙ or_default_twice tz

days_kept : (ds : List ℕ) → days_or_all (days_or_all (days_or_all ds)) ≡ days_or_all ds
days_kept ds = days_or_all_twice (days_or_all ds) ∙ days_or_all_twice ds

-- A schedule with a time or a delay fires as it did before it was stored.
stored_rule :
    (send delay : Option ℕ) (tz : String) (ds : List ℕ) (a : Automation)
    → (is_none send && is_none delay) ≡ false
    → let s : Schedule = record {
      send_minute = send;
      delay_minute = delay;
      timezone = tz;
      days = ds;
    } in
      rule_from_schedule (schedule (with_columns (schedule_to_columns (some s)) a))
      ≡ rule_from_schedule (some s)
unfolding rule_from_schedule schedule schedule_to_columns
stored_rule none none tz ds a timed = absurd (cc timed)
stored_rule none (some d) tz ds a timed =
    λ i. record { minute = none; delay = some d; timezone = zone_kept tz i; days = days_kept ds i }
stored_rule (some m) delay tz ds a timed = λ i. record {
  minute = clock-exact (some m) i;
  delay = delay;
  timezone = zone_kept tz i;
  days = days_kept ds i;
}

abbrev IsTimed : Schedule → Type 0
IsTimed s = (is_none s.send_minute && is_none s.delay_minute) ≡ false

IsTimed-same : (made s : Schedule) → ok (some made) ≡ ok (some s) → IsTimed made → IsTimed s
IsTimed-same made s h timed = let e : made ≡ s = cc h in subst IsTimed e timed

fixed_days-IsTimed :
    (t : ℕ × ℕ) (tz : String) (days : Result (List ℕ)) (s : Schedule)
    → fixed_days t tz days ≡ ok (some s)
    → IsTimed s
fixed_days-IsTimed t tz (err e) s h = absurd (cc h)
fixed_days-IsTimed t tz (ok []) s h = absurd (cc h)
fixed_days-IsTimed (hour, minute) tz (ok (d ∷ ds)) s h = IsTimed-same _ s h refl

fixed_schedule-IsTimed :
    (known_zone : String → Bool) (t : Option (ℕ × ℕ)) (tz : String) (days : List String)
    (s : Schedule)
    → fixed_schedule known_zone t tz days ≡ ok (some s)
    → IsTimed s
fixed_schedule-IsTimed known_zone none tz days s h = absurd (cc h)
fixed_schedule-IsTimed known_zone (some t) tz days s h =
    elim (Bool-cases (known_zone (or_default default_timezone tz))) [
      | inl known ↦
          let h = rw known at h in
          fixed_days-IsTimed t (or_default default_timezone tz) (parse_days days) s h
      | inr unknown ↦ let h = rw unknown at h in absurd (cc h)
    ]

parse_schedule-IsTimed :
    (known_zone : String → Bool) (mode hm tz : String) (days : List String) (delay : ℤ)
    (s : Schedule)
    → parse_schedule known_zone mode hm tz days delay ≡ ok (some s)
    → IsTimed s
unfolding parse_schedule
parse_schedule-IsTimed known_zone mode hm tz days delay s h =
    elim (Bool-cases (mode == "" || mode == "instant")) [
      | inl instant ↦ let h = rw instant at h in absurd (cc h)
      | inr other ↦
          let h = rw other at h in
          elim (Bool-cases (mode == "fixed")) [
            | inl fixed ↦
                let h = rw fixed at h in
                fixed_schedule-IsTimed known_zone (parse_clock hm) tz days s h
            | inr other ↦
                let h = rw other at h in
                elim (Bool-cases (mode == "delayed")) [
                  | inr unknown ↦ let h = rw unknown at h in absurd (cc h)
                  | inl delayed ↦
                      let h = rw delayed at h in
                      elim (Bool-cases (pos_part delay == 0)) [
                        | inl zero_delay ↦ let h = rw zero_delay at h in absurd (cc h)
                        | inr positive ↦ let h = rw positive at h in IsTimed-same _ s h refl
                      ]
                ]
          ]
    ]

-- Whatever the form's inputs, a schedule that they are parsed to is stored without a change of its
-- meaning: read back from the columns of any automation that takes them, it gives the rule that the
-- parsed schedule gives, with the same minute, delay, zone and days.
pub parse_schedule-stored :
    (known_zone : String → Bool) (mode hm tz : String) (days : List String) (delay : ℤ)
    (s : Option Schedule) (a : Automation)
    → parse_schedule known_zone mode hm tz days delay ≡ ok s
    → rule_from_schedule (schedule (with_columns (schedule_to_columns s) a)) ≡ rule_from_schedule s
parse_schedule-stored known_zone mode hm tz days delay none a h =
    unfold rule_from_schedule schedule schedule_to_columns in refl
parse_schedule-stored known_zone mode hm tz days delay (some s) a h =
    stored_rule s.send_minute s.delay_minute s.timezone s.days a
      (parse_schedule-IsTimed known_zone mode hm tz days delay s h)
