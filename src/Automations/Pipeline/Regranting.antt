-- ===== src/Automations/Pipeline/Regranting.antt =====
-- What an automation's run does to the consent of its customer: `send` of
-- internal/automations/processor.go over the consents of internal/whatsapp/state.go.
use beleevo_whatsapp.Prelude.{
  string_eq, nat_eq, ◌==◌, Error, Result, ok, err, ℕ, String, ◌≡◌, refl, ap, ◌∙◌, ◌≢◌, false,
  Option, none, some, List, [], ◌∷◌, arith,
}
use beleevo_whatsapp.Queue.{Row}
use beleevo_whatsapp.Whatsapp.{Variables, SendResult}
use beleevo_whatsapp.Whatsapp.Directory.{
  Customer, Consent, Directory, customer_row, consent_state, or_default, add_consent, grant_consent,
}
use beleevo_whatsapp.Whatsapp.Directory.Consents.{consent_state-consents}
use beleevo_whatsapp.Whatsapp.Service.{Service}
use beleevo_whatsapp.Whatsapp.Sending.{send_template_message}
use beleevo_whatsapp.Whatsapp.Sending.Kept.{send_template_message-directory}
use beleevo_whatsapp.Whatsapp.SendJob.{SendWhatsAppTemplateJob, enqueue_send_at, request_of}
use beleevo_whatsapp.Automations.Firing.{FireRule, scheduled_fire}
use beleevo_whatsapp.Automations.Variables.{SendInput, MerchantTemplate, build_variables}
use beleevo_whatsapp.Automations.Pipeline.{
  Platform, Run, job_for, after_enqueue, after_send, fire, send_filled, granted, send,
}

after_enqueue-directory :
    (run : Run) (v : SendInput) (p : Platform) (q : List Row × Option Error)
    → (after_enqueue run v p q).0.service.directory ≡ p.service.directory
after_enqueue-directory run v p (jobs, some e) = refl
after_enqueue-directory run v p (jobs, none) = refl

after_send-directory :
    (run : Run) (v : SendInput) (p : Platform) (s : Service) (r : Result SendResult)
    → (after_send run v p (s, r)).0.service.directory ≡ s.directory
after_send-directory run v p s (ok r) = refl
after_send-directory run v p s (err e) = refl

fire-directory :
    (run : Run) (v : SendInput) (job : SendWhatsAppTemplateJob) (at : Option ℕ) (p : Platform)
    → (fire run v job at p).0.service.directory ≡ p.service.directory
fire-directory run v job (some at) p = after_enqueue-directory run v p (
    enqueue_send_at run.encode run.has_db run.enqueue_failure run.now run.fresh_job job (some at)
      p.jobs)
fire-directory run v job none p =
    let (s, r) = send_template_message run.outside p.service.messages (request_of job) p.service in
    after_send-directory run v p s r
    ∙ send_template_message-directory run.outside p.service.messages (request_of job) p.service

send_filled-directory :
    (run : Run) (rule : FireRule) (v : SendInput) (t : MerchantTemplate)
    (q : Variables × List String) (p : Platform)
    → (send_filled run rule v t q p).0.service.directory ≡ p.service.directory
send_filled-directory run rule v t (vars, m ∷ ms) p = refl
send_filled-directory run rule v t (vars, []) p =
    fire-directory run v (job_for v t vars) (scheduled_fire rule run.zone run.now) p

send-directory :
    (run : Run) (rule : FireRule) (v : SendInput) (t : MerchantTemplate) (p : Platform)
    → run.template ≡ ok (some t)
    → v.customer_id ≢ 0
    → (send run rule v p).0.service.directory ≡ (granted run v t p).service.directory
unfolding send
send-directory run rule v t p found somebody =
    let somebody' : (v.customer_id == 0) ≡ false = ground arith in
    rw (somebody', found)
      (send_filled-directory run rule v t (build_variables t v) (granted run v t p))

abbrev opted_in : SendInput → MerchantTemplate → Consent
opted_in v t = record {
  shop_id = v.shop_id;
  customer_id = v.customer_id;
  status = "opt_in";
  category = or_default "order_updates" t.category;
  source = "automation";
  evidence = v.order_id;
}

add_consent-consents :
    (failure : Option Error) (k : Consent) (found : Result Customer) (d : Directory) (c : Customer)
    → failure ≡ none
    → found ≡ ok c
    → (add_consent failure k found d).0.consents ≡ k ∷ d.consents
add_consent-consents failure k (err e) d c works known = absurd (cc known)
add_consent-consents (some e) k (ok _) d c works known = absurd (cc works)
add_consent-consents none k (ok _) d c works known = refl

granted-consents :
    (run : Run) (v : SendInput) (t : MerchantTemplate) (p : Platform) (c : Customer)
    → run.grant_lookup ≡ none
    → run.grant_failure ≡ none
    → customer_row none v.shop_id v.customer_id p.service.directory ≡ ok c
    → (granted run v t p).service.directory.consents ≡ opted_in v t ∷ p.service.directory.consents
unfolding grant_consent
granted-consents run v t p c lookup failure known =
    let d = p.service.directory in
    add_consent-consents run.grant_failure (opted_in v t)
      (customer_row run.grant_lookup v.shop_id v.customer_id d) d c failure
      (ap (λ (e : Option Error). customer_row e v.shop_id v.customer_id d) lookup ∙ known)

-- Every run of an automation that finds its template first records an opt-in for its customer: where
-- the writes of that record succeed, the customer's latest consent afterwards is an opt-in for the
-- template's category, whatever it was before. A revocation is undone by the next event.
pub send-regrants :
    (run : Run) (rule : FireRule) (v : SendInput) (t : MerchantTemplate) (p : Platform)
    (c : Customer)
    → run.template ≡ ok (some t)
    → v.customer_id ≢ 0
    → run.grant_lookup ≡ none
    → run.grant_failure ≡ none
    → customer_row none v.shop_id v.customer_id p.service.directory ≡ ok c
    → consent_state none v.shop_id v.customer_id (send run rule v p).0.service.directory
      ≡ ok (record { status = "opt_in"; category = or_default "order_updates" t.category })
send-regrants run rule v t p c found somebody lookup failure known =
    let kept = send-directory run rule v t p found somebody in
    let d = p.service.directory in
    let d' = (granted run v t p).service.directory in
    let added = granted-consents run v t p c lookup failure known in
    ap (consent_state none v.shop_id v.customer_id) kept
    ∙ consent_state-consents v.shop_id v.customer_id d d' (opted_in v t) added
    ∙ ground arith
