-- ===== src/Examples/Events.antt =====
-- Automations at concrete inputs.
use beleevo_whatsapp.Prelude.{
  string_eq, nat_eq, ◌==◌, length, All, pos, itoa, no_rows, ok, ℕ, ◌+◌, ◌*◌, ◌/◌, ◌≤◌, String, ◌≡◌,
  refl, ◌≢◌, ◌↔◌, ◌⊎◌, Bool, true, false, none, some, List, [], ◌∷◌, arith,
}
use beleevo_whatsapp.Whatsapp.Directory.{Consent, consent_state, or_default}
use beleevo_whatsapp.Automations.Parsing.{parse_clock, parse_days, parse_schedule}
use beleevo_whatsapp.Automations.{
  source_converty, Automation, Schedule, schedule, schedule_to_columns, with_columns, create,
}
use beleevo_whatsapp.Automations.Schedules.{parse_schedule-stored}
use beleevo_whatsapp.Automations.Firing.{
  Zone, FireRule, rule_from_schedule, iso_weekday, allows, minute_ns, scheduled_fire,
}
use beleevo_whatsapp.Automations.Firing.Windows.{IsFirst, scheduled_fire-IsFirst}
use beleevo_whatsapp.Automations.Variables.{
  SendInput, MerchantTemplate, is_semantic, build_variables,
}
use beleevo_whatsapp.Automations.Triggers.{creates, none_yet, and_then, IsUnique, Writes-IsUnique}
use beleevo_whatsapp.Automations.Variables.Assigning.{IsFilled}
use beleevo_whatsapp.Whatsapp.{value_of}
use beleevo_whatsapp.Automations.Variables.Complete.{Resolves, value_at, build_variables_complete}
use beleevo_whatsapp.Automations.Pipeline.{Platform, Run, send}
use beleevo_whatsapp.Automations.Pipeline.Effects.{send_effects}
use beleevo_whatsapp.Automations.Pipeline.Regranting.{send-regrants}
use beleevo_whatsapp.Whatsapp.Placeholders.{atoi_digits}
use beleevo_whatsapp.Examples.Fixtures.{customer, consent, directory, service, surroundings}

abbrev day_ns : ℕ
day_ns = 86400000000000

abbrev utc : Zone
utc = record {
  local_day = λ now. now / day_ns;
  instant = λ day minute. day * day_ns + minute * minute_ns;
}

-- Mondays at ten.
abbrev mondays : FireRule
mondays = record { minute = some 600; delay = none; timezone = "UTC"; days = 1 ∷ [] }

-- Eight in the morning of the day of the epoch, a Thursday, and of the Monday behind it.
abbrev thursday : ℕ
thursday = 28800000000000

abbrev monday : ℕ
monday = 4 * day_ns + 28800000000000

scheduled_fire-IsFirst_example :
    (at : ℕ) × (scheduled_fire mondays utc thursday ≡ some at)
    × IsFirst mondays utc 600 (utc.local_day thursday) at
scheduled_fire-IsFirst_example =
    scheduled_fire-IsFirst mondays utc thursday 600 1 refl refl (unfold allows iso_weekday in refl)
      (omega arith) (omega arith) (unfold allows in refl)

abbrev known_zone : String → Bool
known_zone tz = tz == "Africa/Tunis"

abbrev parsed : Schedule
parsed = record {
  send_minute = some 605;
  delay_minute = none;
  timezone = "Africa/Tunis";
  days = 1 ∷ 5 ∷ [];
}

abbrev automation : Automation
automation = record {
  id = 4;
  shop_id = 1;
  name = "Ready";
  description = "";
  event_source = source_converty;
  order_status = "confirmed";
  template_id = 9;
  enabled = true;
  send_time = none;
  send_timezone = "";
  send_days = [];
  delay_minutes = none;
}

ten_past_ten :
    parse_schedule known_zone "fixed" "10:05" "" ("1" ∷ "5" ∷ []) (pos 0) ≡ ok (some parsed)
unfolding parse_schedule parse_clock parse_days atoi_digits
ten_past_ten = refl

parse_schedule-stored_example :
    rule_from_schedule (schedule (with_columns (schedule_to_columns (some parsed)) automation))
    ≡ rule_from_schedule (some parsed)
parse_schedule-stored_example =
    parse_schedule-stored known_zone "fixed" "10:05" "" ("1" ∷ "5" ∷ []) (pos 0) (some parsed)
      automation ten_past_ten

abbrev event : SendInput
event = record {
  shop_id = 1;
  automation_id = 4;
  customer_id = 5;
  template_id = 9;
  customer_name = "Amel";
  customer_phone = "21620000000";
  order_id = "A17";
  status_label = "confirmed";
  tracking_code = "";
  driver_name = "";
  driver_phone = "";
  idempotency_key = "conv:1:confirmed:A17";
}

abbrev tokenized : MerchantTemplate
tokenized = record {
  id = 9;
  category = "order_updates";
  num_variables = 1;
  tokens = "customer_name" ∷ [];
}

build_variables_complete_example :
    let (vars, missing) = build_variables tokenized event in
    (length vars ≡ 1)
    × ((p : ℕ) → 1 ≤ p → p ≤ 1 → value_of (itoa p) vars ≡ some (value_at tokenized event p))
    × All IsFilled vars
    × (is_semantic tokenized ≡ true → (missing ≡ []) ↔ Resolves tokenized event 1 0)
    × (is_semantic tokenized ≡ false → missing ≡ [])
build_variables_complete_example = build_variables_complete tokenized event

abbrev run : Run
run = record {
  outside = surroundings;
  template = ok (some tokenized);
  zone = utc;
  now = thursday;
  encode = λ j. "job";
  fresh_job = 3;
  has_db = true;
  grant_lookup = none;
  grant_failure = none;
  enqueue_failure = some no_rows;
  suppress_failure = none;
  clear_failure = none;
}

abbrev revoked : Consent
revoked = record consent { status = "revoked" }

abbrev platform : Platform
platform = record {
  service = record service { directory = record directory { consents = revoked ∷ consent ∷ [] } };
  jobs = [];
  suppressions = [];
}

send_effects_example :
    let p' = (send run mondays event platform).0 in
    (((scheduled_fire mondays utc thursday ≢ none) ⊎ ((build_variables tokenized event).1 ≢ []))
      → (p'.service.calls ≡ []) × (p'.service.messages ≡ []))
    × (((scheduled_fire mondays utc thursday ≡ none) ⊎ ((build_variables tokenized event).1 ≢ []))
        → p'.jobs ≡ [])
send_effects_example = send_effects run mondays event tokenized platform refl

send-regrants_example :
    consent_state none 1 5 (send run mondays event platform).0.service.directory
    ≡ ok (record { status = "opt_in"; category = or_default "order_updates" "order_updates" })
send-regrants_example =
    send-regrants run mondays event tokenized platform customer refl (ground arith) refl refl refl

abbrev confirmed : List Automation
confirmed = (create none 4 1 source_converty "confirmed" 9 (some parsed) "Ready" "" []).0

Writes-IsUnique_example :
    IsUnique (create none 6 1 source_converty "confirmed" 8 none "Again" "" confirmed).0
Writes-IsUnique_example = Writes-IsUnique (
    and_then
      (and_then none_yet (creates none 4 1 source_converty "confirmed" 9 (some parsed) "Ready" ""))
      (creates none 6 1 source_converty "confirmed" 8 none "Again" ""))
