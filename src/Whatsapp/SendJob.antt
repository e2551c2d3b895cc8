-- ===== src/Whatsapp/SendJob.antt =====
-- internal/whatsapp/send_job.go: an automated send parked in the job queue, and its handler. The JSON
-- encoding of the payload is a parameter.
use beleevo_whatsapp.Prelude.{
  ◌==◌, not, nat_eq, string_eq, if◌then◌else◌, is_none, pos, Error, message, wrapped, permanent,
  as_rejection, Result, ok, err, ℕ, String, Bool, ◌||◌, Option, none, some, List,
}
use beleevo_whatsapp.Queue.{Row, enqueue, Handler}
use beleevo_whatsapp.Whatsapp.{Variables, SendRequest, SendResult}
use beleevo_whatsapp.Whatsapp.Ledger.{Message}
use beleevo_whatsapp.Whatsapp.Service.{Outside, Service}
use beleevo_whatsapp.Whatsapp.Sending.{send_template_message}

abbrev pub task_send_whatsapp_template : String
task_send_whatsapp_template = "send:whatsapp_template"

pub record SendWhatsAppTemplateJob : Type 0 where
  pub shop_id : ℕ
  pub automation_id : ℕ
  pub customer_id : ℕ
  pub template_id : ℕ
  pub converty_order_id : String
  pub purpose : String
  pub variables : Variables
  pub idempotency_key : String

-- `at` is `none` for the zero time.
unfoldable pub enqueue_send_at :
    (encode : SendWhatsAppTemplateJob → String) (has_db : Bool) (failure : Option Error)
    (now fresh : ℕ)
    → SendWhatsAppTemplateJob
    → (at : Option ℕ) → List Row
    → List Row × Option Error
enqueue_send_at encode has_db failure now fresh job at rows =
    if job.shop_id == 0 || (job.customer_id == 0 || job.template_id == 0)
    then (rows, some (message "whatsapp: send job is missing shop, customer or template"))
    else enqueue has_db failure now fresh
        (record {
          kind = task_send_whatsapp_template;
          shop_id = job.shop_id;
          payload = encode job;
          run_at = at;
          dedupe_key = job.idempotency_key;
          max_attempts = pos 0;
        })
        rows

abbrev pub request_of : SendWhatsAppTemplateJob → SendRequest
request_of job = record {
  shop_id = job.shop_id;
  customer_id = job.customer_id;
  template_id = job.template_id;
  converty_order_id = job.converty_order_id;
  purpose = job.purpose;
  variables = job.variables;
  idempotency_key = job.idempotency_key;
  automation_id = job.automation_id;
}

abbrev pub is_rejection : Error → Bool
is_rejection e = not (is_none (as_rejection e))

-- What the handler makes of the send's result: a refusal is not an error of the job.
abbrev pub job_error : Result SendResult → Option Error
job_error (ok r) = none
job_error (err e) = if is_rejection e then none else some e

abbrev pub handle_decoded :
    Outside → List Message → Result SendWhatsAppTemplateJob → Service → Service × Option Error
handle_decoded o seen (err e) s = (s, some (permanent (wrapped "whatsapp: decode send job" e)))
handle_decoded o seen (ok job) s =
    let (s', r) = send_template_message o seen (request_of job) s in (s', job_error r)

unfoldable pub handle_send_whatsapp_template :
    (decode : String → Result SendWhatsAppTemplateJob)
    → Outside
    → (seen : List Message) → Handler Service
handle_send_whatsapp_template decode o seen payload s = handle_decoded o seen (decode payload) s
