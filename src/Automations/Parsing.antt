-- ===== src/Automations/Parsing.antt =====
-- `ParseSchedule` of internal/automations/automations.go: the form's inputs turned into a schedule. The
-- zone database is a parameter.
use Prim.Native.Char.{code}
use beleevo_whatsapp.Prelude.{
  ltb, leb, string_eq, nat_eq, ◌==◌, if◌then◌else◌, ℤ, pos_part, message, Result, ok, err, ◌>>=◌, ℕ,
  ◌+◌, ◌-◌, ◌*◌, String, Bool, false, ◌&&◌, ◌||◌, Option, none, some, List, [], ◌∷◌,
}
use beleevo_whatsapp.Whatsapp.Placeholders.{is_digit, max_int, atoi_digits}
use beleevo_whatsapp.Whatsapp.Directory.{or_default}
use beleevo_whatsapp.Automations.{default_timezone, Schedule, all_days}

abbrev two_digits : ℕ → ℕ → ℕ
two_digits c d = (c - b'0') * 10 + (d - b'0')

-- The minute of time.Parse("15:04", …): two digits, and the end of the text.
abbrev clock_minute : ℕ → String → Option (ℕ × ℕ)
clock_minute hour (String.◌∷◌ c (String.◌∷◌ d String.[])) =
    if (is_digit c && is_digit d) && (ltb (two_digits (code c) (code d)) 60 && ltb hour 24)
    then some (hour, two_digits (code c) (code d))
    else none
clock_minute hour s = none

-- The hour has one digit or two.
unfoldable pub parse_clock : String → Option (ℕ × ℕ)
parse_clock (String.◌∷◌ c (String.◌∷◌ d (String.◌∷◌ e s))) =
    if is_digit c && code d == b':'
    then clock_minute (code c - b'0') (String.◌∷◌ e s)
    else if (is_digit c && is_digit d) && code e == b':'
    then clock_minute (two_digits (code c) (code d)) s
    else none
parse_clock s = none

abbrev unsigned_day : String → Option ℕ
unsigned_day s = if s == "" then none else atoi_digits max_int 0 s

-- strconv.Atoi, where a negative number is refused like 0.
abbrev day_number : String → Option ℕ
day_number String.[] = none
day_number (String.◌∷◌ c s) =
    if code c == b'+' then unsigned_day s else unsigned_day (String.◌∷◌ c s)

abbrev in_week : Option ℕ → Bool
in_week none = false
in_week (some n) = leb 1 n && leb n 7

abbrev day_or_zero : Option ℕ → ℕ
day_or_zero none = 0
day_or_zero (some n) = n

unfoldable pub parse_days : List String → Result (List ℕ)
parse_days [] = ok []
parse_days (d ∷ ds) =
    let rest = parse_days ds in
    if in_week (day_number d)
    then rest >>= (λ ns. ok (day_or_zero (day_number d) ∷ ns))
    else err (message "invalid send day")

abbrev pub fixed_days : ℕ × ℕ → String → Result (List ℕ) → Result (Option Schedule)
fixed_days t tz (err e) = err e
fixed_days t tz (ok []) = err (message "select at least one send day")
fixed_days (hour, minute) tz (ok (d ∷ ds)) = ok (
    some (record {
      send_minute = some (hour * 60 + minute);
      delay_minute = none;
      timezone = tz;
      days = d ∷ ds;
    }))

abbrev pub fixed_schedule :
    (String → Bool) → Option (ℕ × ℕ) → String → List String → Result (Option Schedule)
fixed_schedule known_zone none tz days = err (message "invalid send time")
fixed_schedule known_zone (some t) tz days =
    let zone = or_default default_timezone tz in
    if known_zone zone
    then fixed_days t zone (parse_days days)
    else err (message "invalid timezone")

unfoldable pub parse_schedule :
    (known_zone : String → Bool) (mode hm tz : String) (days : List String) (delay_minutes : ℤ)
    → Result (Option Schedule)
parse_schedule known_zone mode hm tz days delay_minutes =
    if mode == "" || mode == "instant"
    then ok none
    else if mode == "fixed"
    then fixed_schedule known_zone (parse_clock hm) tz days
    else if mode == "delayed"
    then (if pos_part delay_minutes == 0
        then err (message "delay must be a positive number of minutes")
        else ok (
            some (record {
              send_minute = none;
              delay_minute = some (pos_part delay_minutes);
              timezone = "";
              days = all_days;
            })))
    else err (message "unknown automation type")
