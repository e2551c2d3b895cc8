-- ===== src/Automations.antt =====
-- internal/automations/automations.go: the automations of a shop, the schedules that the form writes
-- and the columns that hold them. The zone database is a parameter; a stored time of day is its
-- hour and its minute.
pub mod Parsing
pub mod Schedules
pub mod Firing
pub mod Variables
pub mod Pipeline
pub mod Triggers
use beleevo_whatsapp.Prelude.{
  string_eq, nat_eq, ◌==◌, not, ◌!=◌, if◌then◌else◌, filter, find?, any, update, is_none, Error,
  message, infrastructure, is_no_rows, Result, ok, err, query_row, ℕ, ◌+◌, ◌*◌, ◌/◌, ◌%◌, String,
  Bool, true, false, ◌&&◌, Option, none, some, List, [], ◌∷◌, ◌++◌,
}
use beleevo_whatsapp.Whatsapp.Directory.{Template, or_default}

abbrev pub source_converty : String
source_converty = "converty"

abbrev pub source_delivery : String
source_delivery = "delivery"

abbrev pub default_timezone : String
default_timezone = "Africa/Tunis"

abbrev pub err_duplicate : Error
err_duplicate = message "automation already exists for this trigger"

pub record Automation : Type 0 where
  pub id : ℕ
  pub shop_id : ℕ
  pub name : String
  pub description : String
  pub event_source : String
  pub order_status : String
  pub template_id : ℕ
  pub enabled : Bool
  pub send_time : Option (ℕ × ℕ)
  pub send_timezone : String
  pub send_days : List ℕ
  pub delay_minutes : Option ℕ

pub record Schedule : Type 0 where
  pub send_minute : Option ℕ
  pub delay_minute : Option ℕ
  pub timezone : String
  pub days : List ℕ

abbrev pub all_days : List ℕ
all_days = 1 ∷ 2 ∷ 3 ∷ 4 ∷ 5 ∷ 6 ∷ 7 ∷ []

abbrev pub days_or_all : List ℕ → List ℕ
days_or_all [] = all_days
days_or_all (d ∷ ds) = d ∷ ds

abbrev pub minute_of_day : Option (ℕ × ℕ) → Option ℕ
minute_of_day none = none
minute_of_day (some (hour, minute)) = some (hour * 60 + minute)

-- `Automation.Schedule`: nil for an automation with neither a time nor a delay.
unfoldable pub schedule : Automation → Option Schedule
schedule a =
    if is_none a.send_time && is_none a.delay_minutes
    then none
    else some (record {
      send_minute = minute_of_day a.send_time;
      delay_minute = a.delay_minutes;
      timezone = or_default "UTC" a.send_timezone;
      days = days_or_all a.send_days;
    })

pub record ScheduleColumns : Type 0 where
  pub send_time : Option (ℕ × ℕ)
  pub timezone : String
  pub days : List ℕ
  pub delay_minute : Option ℕ

abbrev pub clock_of : Option ℕ → Option (ℕ × ℕ)
clock_of none = none
clock_of (some m) = some (m / 60, m % 60)

unfoldable pub schedule_to_columns : Option Schedule → ScheduleColumns
schedule_to_columns none = record {
  send_time = none;
  timezone = "UTC";
  days = all_days;
  delay_minute = none;
}
schedule_to_columns (some s) = record {
  send_time = clock_of s.send_minute;
  timezone = or_default "UTC" s.timezone;
  days = days_or_all s.days;
  delay_minute = s.delay_minute;
}

-- What `Create` and `Update` check before they write.
unfoldable pub check_fields : (source status : String) (template : ℕ) → Option Error
check_fields source status template =
    if source != source_converty && source != source_delivery
    then some (message "unknown automation event source")
    else if status == ""
    then some (message "automation trigger is required")
    else if template == 0
    then some (message "automation template is required")
    else none

-- The primary key.
abbrev pub has_id : ℕ → Automation → Bool
has_id id a = a.id == id

-- UNIQUE (shop_id, event_source, order_status).
abbrev pub has_trigger : ℕ → String → String → Automation → Bool
has_trigger shop source status a =
    a.shop_id == shop && (a.event_source == source && a.order_status == status)

-- `INSERT … ON CONFLICT (shop_id, event_source, order_status) DO NOTHING`: only a clash with that index
-- inserts nothing, and a clash of the primary key is an error of the statement.
abbrev pub insert_automation :
    Option Error → Automation → List Automation → List Automation × Option Error
insert_automation (some e) new rows = (rows, some e)
insert_automation none new rows =
    if any (has_trigger new.shop_id new.event_source new.order_status) rows
    then (rows, some err_duplicate)
    else if any (has_id new.id) rows
    then (rows, some (infrastructure "duplicate key value violates unique constraint"))
    else (rows ++ new ∷ [], none)

abbrev pub with_columns : ScheduleColumns → Automation → Automation
with_columns c a = record a {
  send_time = c.send_time;
  send_timezone = c.timezone;
  send_days = c.days;
  delay_minutes = c.delay_minute;
}

-- A field that is refused ends the call.
abbrev pub after_check :
    Option Error → List Automation → List Automation × Option Error → List Automation × Option Error
after_check (some e) rows written = (rows, some e)
after_check none rows written = written

unfoldable pub create :
    (failure : Option Error) (fresh shop : ℕ) (source status : String) (template : ℕ)
    → Option Schedule
    → (name description : String) → List Automation
    → List Automation × Option Error
create failure fresh shop source status template s name description rows =
    after_check (check_fields source status template) rows (
      insert_automation failure
        (with_columns (schedule_to_columns s) (record {
          id = fresh;
          shop_id = shop;
          name = name;
          description = description;
          event_source = source;
          order_status = status;
          template_id = template;
          enabled = true;
          send_time = none;
          send_timezone = "";
          send_days = [];
          delay_minutes = none;
        }))
        rows)

abbrev pub is_automation : ℕ → ℕ → Automation → Bool
is_automation shop id a = a.id == id && a.shop_id == shop

abbrev pub rewritten :
    String → String → ℕ → ScheduleColumns → String → String → Automation → Automation
rewritten source status template c name description a = with_columns c (record a {
  name = name;
  description = description;
  event_source = source;
  order_status = status;
  template_id = template;
})

-- The unique constraint (23505), or any other failure of the statement.
abbrev pub write_automations :
    Option Error → Bool → List Automation → List Automation → List Automation × Option Error
write_automations (some e) clash before after = (before, some e)
write_automations none true before after = (before, some err_duplicate)
write_automations none false before after = (after, none)

-- Another row that has the trigger, where the row to write exists.
abbrev pub clashes : ℕ → ℕ → String → String → List Automation → Bool
clashes shop id source status rows =
    any (is_automation shop id) rows
    && any (λ a. not (a.id == id) && has_trigger shop source status a) rows

unfoldable pub update_automation :
    (failure : Option Error) (shop id : ℕ) (source status : String) (template : ℕ)
    → Option Schedule
    → (name description : String) → List Automation
    → List Automation × Option Error
update_automation failure shop id source status template s name description rows =
    after_check (check_fields source status template) rows (
      write_automations failure (clashes shop id source status rows) rows (
        update (is_automation shop id)
          (rewritten source status template (schedule_to_columns s) name description) rows))

unfoldable pub set_enabled :
    Option Error → ℕ → ℕ → Bool → List Automation → List Automation × Option Error
set_enabled failure shop id enabled rows =
    write_automations failure false rows
      (update (is_automation shop id) (λ a. record a { enabled = enabled }) rows)

unfoldable pub delete_automation :
    Option Error → ℕ → ℕ → List Automation → List Automation × Option Error
delete_automation failure shop id rows =
    write_automations failure false rows (filter (λ a. not (is_automation shop id a)) rows)

abbrev pub enabled_of : Result Automation → Result Bool
enabled_of (ok a) = ok a.enabled
enabled_of (err e) = if is_no_rows e then ok false else err e

unfoldable pub automation_enabled : Option Error → ℕ → List Automation → Result Bool
automation_enabled failure id rows =
    let stored = enabled_of (query_row failure (find? (λ a. a.id == id) rows)) in
    if id == 0 then ok true else stored

-- The join with `templates`: the template exists, is approved and is not flagged.
abbrev pub is_usable : List Template → Automation → Bool
is_usable templates a =
    any (λ t. t.id == a.template_id && (t.approval_status == "approved" && not t.marketing_flagged))
      templates

abbrev pub found_or_none : Result Automation → Result (Option Automation)
found_or_none (ok a) = ok (some a)
found_or_none (err e) = if is_no_rows e then ok none else err e

unfoldable pub match_automation :
    Option Error
    → List Template
    → ℕ
    → String
    → String
    → List Automation
    → Result (Option Automation)
match_automation failure templates shop source status rows = found_or_none (
    query_row failure
      (find? (λ a. has_trigger shop source status a && (a.enabled && is_usable templates a)) rows))
