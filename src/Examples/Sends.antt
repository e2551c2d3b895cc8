-- ===== src/Examples/Sends.antt =====
-- Sends and their jobs at concrete inputs.
use beleevo_whatsapp.Prelude.{
  leb, string_eq, nat_eq, ◌==◌, ◌!=◌, if◌then◌else◌, filter, count, Error, message, Result, ok, err,
  ◌≤◌, String, ◌≡◌, refl, ◌≢◌, ◌⊎◌, inr, true, false, ◌||◌, none, some, [], ◌∷◌, arith, eq_iff,
}
use beleevo_whatsapp.Whatsapp.Ledger.{has_key, find_message_by_idempotency}
use beleevo_whatsapp.Whatsapp.Service.{Service}
use beleevo_whatsapp.Whatsapp.Sending.{send_template_message}
use beleevo_whatsapp.Whatsapp.Sending.Safety.{Reached, send_template_message-Reached}
use beleevo_whatsapp.Whatsapp.Sending.Outcome.{Outcome, send_template_message-Outcome}
use beleevo_whatsapp.Whatsapp.Sending.Rows.{is_call_for}
use beleevo_whatsapp.Whatsapp.Sending.Once.{Step, start, next, Run-calls-once}
use beleevo_whatsapp.Whatsapp.SendJob.{
  task_send_whatsapp_template, SendWhatsAppTemplateJob, request_of, is_rejection,
}
use beleevo_whatsapp.Examples.Fixtures.{service, request, surroundings}
use beleevo_whatsapp.Queue.{Row, Job, is_permanent, backoff, Handlers, Surroundings, run_one}
use beleevo_whatsapp.Whatsapp.{SendResult}
use beleevo_whatsapp.Worker.{Lookup}
use beleevo_whatsapp.Worker.Sends.{
  send_handlers, paused_automation_sends_nothing, removed, postponed, send_job_settled,
}

-- Two sends for one key, the second with a lookup that still reads an empty ledger.
abbrev sent_once : Service
sent_once = (send_template_message surroundings [] request service).0

abbrev sent_twice : Service
sent_twice = (send_template_message surroundings [] request sent_once).0

Run-calls-once_example :
    (count (is_call_for 1 "conv:1:confirmed:A17") sent_twice.calls ≤ 1)
    × (count (is_call_for 1 "conv:1:confirmed:A17") sent_twice.calls
        ≤ count (has_key 1 "conv:1:confirmed:A17") sent_twice.messages)
Run-calls-once_example =
    Run-calls-once service sent_twice 1 "conv:1:confirmed:A17" refl refl
      (ground (arith, eq_iff "conv:1:confirmed:A17" ""))
      (next (next start (Step.send surroundings [] request service))
        (Step.send surroundings [] request sent_once))

send_template_message-Reached_example :
    let s' = (send_template_message surroundings [] request service).0 in
    (s'.calls ≡ service.calls) ⊎ Reached surroundings request service s'
send_template_message-Reached_example =
    send_template_message-Reached surroundings [] request service

send_template_message-Outcome_example :
    let (s', r) = send_template_message surroundings [] request service in
    ((s' ≡ service)
      × (request.idempotency_key ≢ "")
      × (r ≡ find_message_by_idempotency none 1 request.idempotency_key []))
    ⊎ Outcome surroundings service s' r
send_template_message-Outcome_example =
    send_template_message-Outcome surroundings [] request service refl

abbrev sent_job : SendWhatsAppTemplateJob
sent_job = record {
  shop_id = 1;
  automation_id = 4;
  customer_id = 5;
  template_id = 9;
  converty_order_id = "A17";
  purpose = "order_updates";
  variables = [];
  idempotency_key = "conv:1:confirmed:A17";
}

abbrev decode : String → Result SendWhatsAppTemplateJob
decode payload = if payload == "job" then ok sent_job else err (message "invalid character")

abbrev paused : Lookup
paused id = ok false

abbrev no_handlers : Handlers Service
no_handlers kind = none

abbrev settling : Surroundings
settling = record { show = λ e. "error"; bookkeeping = none; now = 50 }

abbrev job : Job
job = record {
  id = 3;
  kind = task_send_whatsapp_template;
  shop_id = 1;
  payload = "job";
  attempts = 1;
  max_attempts = 5;
}

abbrev job_row : Row
job_row = record {
  id = 3;
  kind = task_send_whatsapp_template;
  shop_id = 1;
  payload = "job";
  run_at = 40;
  attempts = 1;
  max_attempts = 5;
  lease_until = some 90;
  dedupe_key = "conv:1:confirmed:A17";
  last_error = "";
}

paused_automation_sends_nothing_example :
    run_one settling
      (send_handlers decode paused surroundings [] no_handlers)
      job
      (job_row ∷ [])
      service
    ≡ (filter (λ r. r.id != 3) (job_row ∷ []), service)
paused_automation_sends_nothing_example =
    paused_automation_sends_nothing decode paused surroundings [] no_handlers settling sent_job job
      (job_row ∷ []) service refl refl (ground arith) refl refl

abbrev active : Lookup
active id = ok true

send_job_settled_example :
    let (t, r) = send_template_message surroundings [] (request_of sent_job) service in
    let (rows', s') =
      run_one settling
        (send_handlers decode active surroundings [] no_handlers)
        job
        (job_row ∷ [])
        service in
    (s' ≡ t)
    × (settling.bookkeeping ≡ none
        → ((a : SendResult) → r ≡ ok a → rows' ≡ removed job (job_row ∷ []))
          × ((x : Error) → r ≡ err x → is_rejection x ≡ true → rows' ≡ removed job (job_row ∷ []))
          × ((x : Error)
              → r ≡ err x
              → is_rejection x ≡ false
              → rows' ≡ (
                  if is_permanent x || leb 5 1
                  then removed job (job_row ∷ [])
                  else postponed 50 (backoff 1) "error" job (job_row ∷ []))))
    × ((e : Error) → settling.bookkeeping ≡ some e → rows' ≡ job_row ∷ [])
send_job_settled_example =
    send_job_settled decode active surroundings [] no_handlers settling job (job_row ∷ []) service
      sent_job refl refl (inr (ground arith))
