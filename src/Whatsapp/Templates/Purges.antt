-- ===== src/Whatsapp/Templates/Purges.antt =====
-- internal/whatsapp/purge.go: the removal of templates that Meta did not accept, once their window has
-- passed, by a queued job and by a sweep, and the removal by the operator.
use beleevo_whatsapp.Prelude.{
  ltb, string_eq, nat_eq, ◌==◌, not, ◌!=◌, if◌then◌else◌, length, filter, find?, update, count,
  is_none, pos, join_texts, itoa, Error, message, wrapped, permanent, Result, ok, err, query_row,
  exec, ℕ, ◌+◌, ◌*◌, ◌/◌, String, Bool, true, false, ◌&&◌, Option, none, some, List, [], ◌∷◌, ◌++◌,
}
use beleevo_whatsapp.Queue.{second, Row, enqueue, Handler}
use beleevo_whatsapp.Whatsapp.Directory.{Credentials}
use beleevo_whatsapp.Whatsapp.Templates.{
  TemplateRow, remove, Catalog, PurgeNegativeTemplateJob, TemplateOutside, connection,
}

abbrev pub task_purge_negative_template : String
task_purge_negative_template = "purge:marketing_template"

abbrev pub is_live : TemplateRow → Bool
is_live r = r.approval_status != "deleted"

abbrev pub purge_job_of : TemplateRow → PurgeNegativeTemplateJob
purge_job_of r = record {
  shop_id = r.shop_id;
  template_id = r.id;
  name = r.name;
  language = r.language;
}

unfoldable pub enqueue_purge :
    TemplateOutside → TemplateRow → (negated_at : ℕ) → List Row → List Row × Option Error
enqueue_purge o r negated_at jobs =
    enqueue true (o.enqueue_failure r.id) o.now (o.fresh_job r.id)
      (record {
        kind = task_purge_negative_template;
        shop_id = r.shop_id;
        payload = o.encode (purge_job_of r);
        run_at = some (negated_at + o.grace);
        dedupe_key = join_texts (o.show_id r.id ∷ ":" ∷ itoa (negated_at / second) ∷ []);
        max_attempts = pos 0;
      })
      jobs

abbrev pub is_unscheduled : TemplateRow → Bool
is_unscheduled r = (not (is_none r.negative_at) && is_none r.purge_scheduled_at) && is_live r

abbrev pub scheduled : ℕ → TemplateRow → TemplateRow
scheduled now r = record r { purge_scheduled_at = some now }

abbrev pub stamp : TemplateOutside → ℕ → Catalog → List Row × Option Error → Catalog × Option Error
stamp o id c (jobs, some e) = (record c { jobs = jobs }, none)
stamp o id c (jobs, none) = (
  record c {
    jobs = jobs;
    templates =
        exec (o.stamp_failure id) c.templates
          (update (λ r. r.id == id) (scheduled o.now) c.templates);
  },
  o.stamp_failure id,
)

-- One turn of the loop: a failed enqueue is logged, and the row stays for the next sweep.
abbrev pub schedule_at : TemplateOutside → TemplateRow → Option ℕ → Catalog → Catalog × Option Error
schedule_at o r none c = (c, none)
schedule_at o r (some at) c = stamp o r.id c (enqueue_purge o r at c.jobs)

abbrev pub go_on :
    Catalog × Option Error → (Catalog → Catalog × Option Error) → Catalog × Option Error
go_on (c, some e) k = (c, some e)
go_on (c, none) k = k c

unfoldable pub schedule_all : TemplateOutside → List TemplateRow → Catalog → Catalog × Option Error
schedule_all o [] c = (c, none)
schedule_all o (r ∷ rs) c = go_on (schedule_at o r r.negative_at c) (schedule_all o rs)

abbrev pub schedule_read : TemplateOutside → Option Error → Catalog → Catalog × Option Error
schedule_read o (some e) c = (c, some e)
schedule_read o none c = schedule_all o (filter is_unscheduled (o.snapshot c.templates)) c

unfoldable pub enqueue_unscheduled_purges : TemplateOutside → Catalog → Catalog × Option Error
enqueue_unscheduled_purges o c = schedule_read o o.unscheduled_failure c

-- The deleted state, in which the row stays for history.
abbrev pub tombstone : ℕ → TemplateRow → TemplateRow
tombstone now r = record r {
  approval_status = "deleted";
  purge_scheduled_at = none;
  negative_at = none;
  updated_at = now;
}

abbrev pub is_live_row : (id shop : ℕ) → TemplateRow → Bool
is_live_row id shop r = (r.id == id && r.shop_id == shop) && is_live r

-- Meta's answer is only logged.
abbrev pub remove_with :
    (shop : ℕ) (name language : String) → Result Credentials → Catalog → Catalog
remove_with shop name language (err e) c = c
remove_with shop name language (ok _) c = record c {
  calls = c.calls ++ remove shop name language ∷ [];
}

abbrev pub bury : TemplateOutside → (id shop : ℕ) → Catalog → Catalog
bury o id shop c = record c {
  templates =
      exec (o.purge_failure id) c.templates
        (update (is_live_row id shop) (tombstone o.now) c.templates);
}

unfoldable pub purge_template :
    TemplateOutside → PurgeNegativeTemplateJob → Catalog → Catalog × Option Error
purge_template o j c = (
  bury o j.template_id j.shop_id
      (remove_with j.shop_id j.name j.language (connection o j.shop_id c) c),
  o.purge_failure j.template_id,
)

-- The interval as Postgres reads it: whole seconds.
abbrev pub pg_interval : ℕ → ℕ
pg_interval d = d / second * second

abbrev pub is_older : Option ℕ → (interval now : ℕ) → Bool
is_older none interval now = false
is_older (some at) interval now = ltb (at + interval) now

abbrev pub is_expired : TemplateOutside → TemplateRow → Bool
is_expired o r = is_older r.negative_at (pg_interval o.grace) o.now && is_live r

unfoldable pub purge_all : TemplateOutside → List TemplateRow → Catalog → Catalog
purge_all o [] c = c
purge_all o (r ∷ rs) c = purge_all o rs (purge_template o (purge_job_of r) c).0

abbrev pub purge_read : TemplateOutside → Option Error → Catalog → Catalog × Result ℕ
purge_read o (some e) c = (c, err e)
purge_read o none c =
    let expired = filter (is_expired o) (o.snapshot c.templates) in
    (purge_all o expired c, ok (length expired))

unfoldable pub purge_expired_negative : TemplateOutside → Catalog → Catalog × Result ℕ
purge_expired_negative o c = purge_read o o.expired_failure c

-- The job does nothing on a row that is gone, edited or approved since, or whose window is open.
abbrev pub purge_due :
    TemplateOutside → PurgeNegativeTemplateJob → Option ℕ → Catalog → Catalog × Option Error
purge_due o j none c = (c, none)
purge_due o j (some at) c = if ltb o.now (at + o.grace) then (c, none) else purge_template o j c

abbrev pub purge_found :
    TemplateOutside
    → PurgeNegativeTemplateJob
    → Result TemplateRow
    → Catalog
    → Catalog × Option Error
purge_found o j (err e) c = (c, none)
purge_found o j (ok r) c = purge_due o j r.negative_at c

abbrev pub purge_decoded :
    TemplateOutside → Result PurgeNegativeTemplateJob → Catalog → Catalog × Option Error
purge_decoded o (err e) c = (c, some (permanent (wrapped "whatsapp: decode purge job" e)))
purge_decoded o (ok j) c =
    purge_found o j
      (query_row o.lookup_failure
        (find? (λ r. r.id == j.template_id && r.shop_id == j.shop_id) (o.snapshot c.templates)))
      c

unfoldable pub handle_purge_negative_template :
    (decode : String → Result PurgeNegativeTemplateJob) → TemplateOutside → Handler Catalog
handle_purge_negative_template decode o payload c = purge_decoded o (decode payload) c

abbrev pub already_deleted : Option Error → ℕ → Option Error
already_deleted (some e) n = some e
already_deleted none n = if n == 0 then some (message "template is already deleted") else none

-- `t` is the template as the operator's page read it.
unfoldable pub delete_by_merchant : TemplateOutside → TemplateRow → Catalog → Catalog × Option Error
delete_by_merchant o t c = (
  bury o t.id t.shop_id (remove_with t.shop_id t.name t.language (connection o t.shop_id c) c),
  already_deleted (o.purge_failure t.id) (count (is_live_row t.id t.shop_id) c.templates),
)
