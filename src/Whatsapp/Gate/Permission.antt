-- ===== src/Whatsapp/Gate/Permission.antt =====
-- What the send gate of internal/whatsapp/send.go lets through.
use beleevo_whatsapp.Prelude.{
  length, Error, ℕ, String, ◌≡◌, refl, ◌≢◌, ◌↔◌, ◌⊎◌, true, false, Option, none, some, arith,
  eq_iff,
}
use beleevo_whatsapp.Whatsapp.{
  MerchantState, CustomerState, ConsentState, TemplateState, SendRequest,
}
use beleevo_whatsapp.Whatsapp.Gate.{
  validate_variables, consent_rule, template_rule, or_else, evaluate_send_rule,
}

-- The conditions of CAN_SEND, as a list of facts with no order among them.
pub record CanSend (m : MerchantState) (c : CustomerState) (k : ConsentState) (t : TemplateState)
    (r : SendRequest) : Type 0 where
  pub active : m.status ≡ "active"
  pub enabled : m.whatsapp_enabled ≡ true
  pub accepted : (at : ℕ) × (m.terms_accepted_at ≡ some at)
  pub owned : c.owned_by_shop ≡ true
  pub opted_in : k.status ≡ "opt_in"
  pub covered : (k.category ≡ "") ⊎ ((r.purpose ≡ "") ⊎ (k.category ≡ r.purpose))
  pub found : t.id ≢ 0
  pub named : t.name ≢ ""
  pub approved : t.approval_status ≡ "approved"
  pub unflagged : t.marketing_flagged ≡ false
  pub intended : (r.purpose ≡ "") ⊎ (t.category ≡ r.purpose)
  pub filled : length r.variables ≡ t.num_variables

consent_rule_iff :
    (k : ConsentState) (purpose : String)
    → (consent_rule k purpose ≡ none)
      ↔ ((k.status ≡ "opt_in") × ((k.category ≡ "") ⊎ ((purpose ≡ "") ⊎ (k.category ≡ purpose))))
unfolding consent_rule
consent_rule_iff k purpose = (
  λ h. ground (
    arith,
    eq_iff k.status "opt_in",
    eq_iff k.category "",
    eq_iff purpose "",
    eq_iff k.category purpose,
  ),
  λ h. rw h.0 (ground (arith, eq_iff k.category "", eq_iff purpose "", eq_iff k.category purpose)),
)

template_rule_iff :
    (t : TemplateState) (r : SendRequest)
    → (template_rule t r ≡ none) ↔ (
        (t.id ≢ 0)
        × (t.name ≢ "")
        × (t.approval_status ≡ "approved")
        × (t.marketing_flagged ≡ false)
        × ((r.purpose ≡ "") ⊎ (t.category ≡ r.purpose))
        × (length r.variables ≡ t.num_variables))
unfolding template_rule validate_variables
template_rule_iff t r = (
  λ h. ground (
    arith,
    eq_iff t.name "",
    eq_iff t.approval_status "approved",
    eq_iff r.purpose "",
    eq_iff t.category r.purpose,
  ),
  λ h. ground (
    arith,
    eq_iff t.name "",
    eq_iff t.approval_status "approved",
    eq_iff r.purpose "",
    eq_iff t.category r.purpose,
  ),
)

or_else-none : (a b : Option Error) → or_else a b ≡ none → (a ≡ none) × (b ≡ none)
or_else-none none b h = (refl, h)
or_else-none (some e) b h = cc

merchant_rules :
    (m : MerchantState) (c : CustomerState) (k : ConsentState) (t : TemplateState) (r : SendRequest)
    → evaluate_send_rule m c k t r ≡ none
    → (m.status ≡ "active")
      × (m.whatsapp_enabled ≡ true)
      × ((at : ℕ) × (m.terms_accepted_at ≡ some at))
      × (c.owned_by_shop ≡ true)
      × (or_else (consent_rule k r.purpose) (template_rule t r) ≡ none)
unfolding evaluate_send_rule
merchant_rules m c k t r h = ground (arith, eq_iff m.status "active")

pub evaluate_send_rule_iff :
    (m : MerchantState) (c : CustomerState) (k : ConsentState) (t : TemplateState) (r : SendRequest)
    → (evaluate_send_rule m c k t r ≡ none) ↔ CanSend m c k t r
unfolding evaluate_send_rule
evaluate_send_rule_iff m c k t r =
    let consent = consent_rule_iff k r.purpose in
    let template = template_rule_iff t r in
    (
      λ h.
          let (active, enabled, accepted, owned, rest) = merchant_rules m c k t r h in
          let (allowed, usable) = or_else-none _ _ rest in
          let (opted_in, covered) = consent.0 allowed in
          let (found, named, approved, unflagged, intended, filled) = template.0 usable in
          record {
            active = active;
            enabled = enabled;
            accepted = accepted;
            owned = owned;
            opted_in = opted_in;
            covered = covered;
            found = found;
            named = named;
            approved = approved;
            unflagged = unflagged;
            intended = intended;
            filled = filled;
          },
      λ h. ground (
        arith,
        eq_iff m.status "active",
        consent.1 (h.opted_in, h.covered),
        template.1 (h.found, h.named, h.approved, h.unflagged, h.intended, h.filled),
      ),
    )
