-- ===== src/Automations/Pipeline/Effects.antt =====
-- What a run of `send` of internal/automations/processor.go may change.
use beleevo_whatsapp.Prelude.{
  string_eq, nat_eq, ◌==◌, Bool-cases, Error, Result, ok, err, ℕ, String, ◌≡◌, refl, ap, ◌≢◌, ◌⊎◌,
  inl, inr, Option, none, some, List, [], ◌∷◌,
}
use beleevo_whatsapp.Queue.{Row}
use beleevo_whatsapp.Whatsapp.{Variables, SendResult}
use beleevo_whatsapp.Whatsapp.Service.{Service}
use beleevo_whatsapp.Whatsapp.Sending.{send_template_message}
use beleevo_whatsapp.Whatsapp.SendJob.{SendWhatsAppTemplateJob, enqueue_send_at, request_of}
use beleevo_whatsapp.Automations.Firing.{FireRule, scheduled_fire}
use beleevo_whatsapp.Automations.Variables.{SendInput, MerchantTemplate, build_variables}
use beleevo_whatsapp.Automations.Pipeline.{
  Platform, Run, job_for, after_enqueue, after_send, fire, send_filled, granted, send,
}

after_enqueue-service :
    (run : Run) (v : SendInput) (p : Platform) (q : List Row × Option Error)
    → (after_enqueue run v p q).0.service ≡ p.service
after_enqueue-service run v p (jobs, some e) = refl
after_enqueue-service run v p (jobs, none) = refl

after_send-jobs :
    (run : Run) (v : SendInput) (p : Platform) (q : Service × Result SendResult)
    → (after_send run v p q).0.jobs ≡ p.jobs
after_send-jobs run v p (service, ok r) = refl
after_send-jobs run v p (service, err e) = refl

-- What has reached Meta or the ledger, and what is parked.
abbrev IsSilent : Platform → Platform → Type 0
IsSilent p p' = (p'.service.calls ≡ p.service.calls) × (p'.service.messages ≡ p.service.messages)

fire-effects :
    (run : Run) (v : SendInput) (job : SendWhatsAppTemplateJob) (at : Option ℕ) (p : Platform)
    → let p' = (fire run v job at p).0 in
      ((at ≢ none) → IsSilent p p') × ((at ≡ none) → p'.jobs ≡ p.jobs)
fire-effects run v job (some at) p =
    let same = after_enqueue-service run v p (
      enqueue_send_at run.encode run.has_db run.enqueue_failure run.now run.fresh_job job (some at)
        p.jobs) in
    (
      λ _. (ap (λ (s : Service). s.calls) same, ap (λ (s : Service). s.messages) same),
      λ h. absurd (cc h),
    )
fire-effects run v job none p = (
  λ h. absurd (h refl),
  λ _.
      after_send-jobs run v p
        (send_template_message run.outside p.service.messages (request_of job) p.service),
)

send_filled-effects :
    (run : Run) (rule : FireRule) (v : SendInput) (t : MerchantTemplate)
    (q : Variables × List String) (p : Platform)
    → let p' = (send_filled run rule v t q p).0 in
      (((scheduled_fire rule run.zone run.now ≢ none) ⊎ (q.1 ≢ [])) → IsSilent p p')
      × (((scheduled_fire rule run.zone run.now ≡ none) ⊎ (q.1 ≢ [])) → p'.jobs ≡ p.jobs)
send_filled-effects run rule v t (vars, m ∷ ms) p = (λ _. (refl, refl), λ _. refl)
send_filled-effects run rule v t (vars, []) p =
    let (silent, unparked) =
      fire-effects run v (job_for v t vars) (scheduled_fire rule run.zone run.now) p in
    (
      λ h. elim h [ inl waits ↦ silent waits | inr blank ↦ absurd (blank refl) ],
      λ h. elim h [ inl now ↦ unparked now | inr blank ↦ absurd (blank refl) ],
    )

-- An automation whose rule says later never sends in place of parking the job, also where parking it
-- fails: no call is made and no ledger row is written; one whose rule says now parks nothing; and an
-- event for which a token has no value does neither.
pub send_effects :
    (run : Run) (rule : FireRule) (v : SendInput) (t : MerchantTemplate) (p : Platform)
    → run.template ≡ ok (some t)
    → let p' = (send run rule v p).0 in
      (((scheduled_fire rule run.zone run.now ≢ none) ⊎ ((build_variables t v).1 ≢ []))
        → (p'.service.calls ≡ p.service.calls) × (p'.service.messages ≡ p.service.messages))
      × (((scheduled_fire rule run.zone run.now ≡ none) ⊎ ((build_variables t v).1 ≢ []))
          → p'.jobs ≡ p.jobs)
unfolding send
send_effects run rule v t p found =
    let effects = send_filled-effects run rule v t (build_variables t v) (granted run v t p) in
    elim (Bool-cases (v.customer_id == 0)) [
      | inl nobody ↦ rw nobody (λ _. (refl, refl), λ _. refl)
      | inr somebody ↦ rw (somebody, found) effects
    ]
