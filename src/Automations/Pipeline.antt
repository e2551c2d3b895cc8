-- ===== src/Automations/Pipeline.antt =====
-- `Processor.send` of internal/automations/processor.go, with the records of held-back events of
-- suppressions.go: one matched event turned into a send, a parked job or a held-back row. `Run` holds
-- what a run meets besides the send's own surroundings.
pub mod Effects
pub mod Regranting
use beleevo_whatsapp.Prelude.{
  string_eq, nat_eq, ◌==◌, not, if◌then◌else◌, filter, any, Error, Result, ok, err, exec, ℕ, String,
  Bool, ◌&&◌, Option, none, some, List, [], ◌∷◌, ◌++◌,
}
use beleevo_whatsapp.Queue.{Row}
use beleevo_whatsapp.Whatsapp.{Variables, SendResult}
use beleevo_whatsapp.Whatsapp.Directory.{grant_consent}
use beleevo_whatsapp.Whatsapp.Service.{Outside, Service}
use beleevo_whatsapp.Whatsapp.Sending.{send_template_message}
use beleevo_whatsapp.Whatsapp.SendJob.{
  SendWhatsAppTemplateJob, enqueue_send_at, request_of, is_rejection,
}
use beleevo_whatsapp.Automations.Firing.{Zone, FireRule, scheduled_fire}
use beleevo_whatsapp.Automations.Variables.{SendInput, MerchantTemplate, build_variables}

-- A row of `automation_suppressions`.
pub record Suppression : Type 0 where
  pub shop_id : ℕ
  pub automation_id : ℕ
  pub customer_id : ℕ
  pub template_id : ℕ
  pub missing : List String
  pub trigger_label : String
  pub tracking_code : String
  pub order_id : String
  pub idempotency_key : String

pub record Platform : Type 0 where
  pub service : Service
  pub jobs : List Row
  pub suppressions : List Suppression

-- `template` is what `TemplateByID` returns, where `none` has the nil id.
pub record Run : Type 0 where
  pub outside : Outside
  pub template : Result (Option MerchantTemplate)
  pub zone : Zone
  pub now : ℕ
  pub encode : SendWhatsAppTemplateJob → String
  pub fresh_job : ℕ
  pub has_db : Bool
  pub grant_lookup : Option Error
  pub grant_failure : Option Error
  pub enqueue_failure : Option Error
  pub suppress_failure : Option Error
  pub clear_failure : Option Error

pub data SendOutcome : Type 0 where
  sent scheduled held_back no_customer template_missing rejected : SendOutcome

abbrev pub is_suppression : ℕ → String → Suppression → Bool
is_suppression automation key s = s.automation_id == automation && s.idempotency_key == key

abbrev pub suppression_of : SendInput → List String → Suppression
suppression_of v missing = record {
  shop_id = v.shop_id;
  automation_id = v.automation_id;
  customer_id = v.customer_id;
  template_id = v.template_id;
  missing = missing;
  trigger_label = v.status_label;
  tracking_code = v.tracking_code;
  order_id = v.order_id;
  idempotency_key = v.idempotency_key;
}

-- `ON CONFLICT (automation_id, idempotency_key) DO NOTHING`; a failure is logged.
unfoldable pub record_suppression :
    Option Error → SendInput → List String → List Suppression → List Suppression
record_suppression failure v [] rows = rows
record_suppression failure v (m ∷ ms) rows = exec failure rows (
    if any (is_suppression v.automation_id v.idempotency_key) rows
    then rows
    else rows ++ suppression_of v (m ∷ ms) ∷ [])

unfoldable pub clear_suppression : Option Error → ℕ → String → List Suppression → List Suppression
clear_suppression failure automation key rows =
    if key == ""
    then rows
    else exec failure rows (filter (λ s. not (is_suppression automation key s)) rows)

abbrev pub job_for : SendInput → MerchantTemplate → Variables → SendWhatsAppTemplateJob
job_for v t vars = record {
  shop_id = v.shop_id;
  automation_id = v.automation_id;
  customer_id = v.customer_id;
  template_id = v.template_id;
  converty_order_id = v.order_id;
  purpose = t.category;
  variables = vars;
  idempotency_key = v.idempotency_key;
}

abbrev pub cleared : Run → SendInput → Platform → Platform
cleared run v p = record p {
  suppressions =
      clear_suppression run.clear_failure v.automation_id v.idempotency_key p.suppressions;
}

-- A failed scheduling is reported: there is no inline send in its place.
abbrev pub after_enqueue :
    Run → SendInput → Platform → List Row × Option Error → Platform × Result SendOutcome
after_enqueue run v p (jobs, some e) = (record p { jobs = jobs }, err e)
after_enqueue run v p (jobs, none) = (cleared run v (record p { jobs = jobs }), ok scheduled)

abbrev pub after_send :
    Run → SendInput → Platform → Service × Result SendResult → Platform × Result SendOutcome
after_send run v p (service, ok r) = (cleared run v (record p { service = service }), ok sent)
after_send run v p (service, err e) =
    (record p { service = service }, if is_rejection e then ok rejected else err e)

abbrev pub fire :
    Run → SendInput → SendWhatsAppTemplateJob → Option ℕ → Platform → Platform × Result SendOutcome
fire run v job (some at) p = after_enqueue run v p (
    enqueue_send_at run.encode run.has_db run.enqueue_failure run.now run.fresh_job job (some at)
      p.jobs)
fire run v job none p =
    after_send run v p
      (send_template_message run.outside p.service.messages (request_of job) p.service)

abbrev pub send_filled :
    Run
    → FireRule
    → SendInput
    → MerchantTemplate
    → Variables × List String
    → Platform
    → Platform × Result SendOutcome
send_filled run rule v t (vars, []) p =
    fire run v (job_for v t vars) (scheduled_fire rule run.zone run.now) p
send_filled run rule v t (vars, m ∷ ms) p = (
  record p { suppressions = record_suppression run.suppress_failure v (m ∷ ms) p.suppressions },
  ok held_back,
)

-- The opt-in that every automation records first; its failure is logged.
abbrev pub granted : Run → SendInput → MerchantTemplate → Platform → Platform
granted run v t p = record p {
  service = record p.service {
    directory =
        (grant_consent run.grant_lookup run.grant_failure v.shop_id v.customer_id t.category
          "automation" v.order_id p.service.directory).0;
  };
}

abbrev pub send_template :
    Run
    → FireRule
    → SendInput
    → Result (Option MerchantTemplate)
    → Platform
    → Platform × Result SendOutcome
send_template run rule v (err e) p = (p, err e)
send_template run rule v (ok none) p = (p, ok template_missing)
send_template run rule v (ok (some t)) p =
    send_filled run rule v t (build_variables t v) (granted run v t p)

unfoldable pub send : Run → FireRule → SendInput → Platform → Platform × Result SendOutcome
send run rule v p =
    let resolved = send_template run rule v run.template p in
    if v.customer_id == 0 then (p, ok no_customer) else resolved
