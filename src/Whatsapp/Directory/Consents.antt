-- ===== src/Whatsapp/Directory/Consents.antt =====
-- What the consent records of internal/whatsapp/state.go do to the snapshot that the send gate reads.
use beleevo_whatsapp.Prelude.{
  if◌then◌else◌, Option-cases, rejection, Result, ok, err, ℕ, ◌≡◌, refl, ◌≢◌, ◌⊎◌, inl, inr, true,
  none, some, ◌∷◌, arith,
}
use beleevo_whatsapp.Whatsapp.{
  MerchantState, CustomerState, ConsentState, TemplateState, SendRequest,
}
use beleevo_whatsapp.Whatsapp.Gate.{opt_in_revoked, consent_rule, evaluate_send_rule}
use beleevo_whatsapp.Whatsapp.Directory.{
  Customer, Consent, Directory, customer_row, is_consent_of, consent_state, add_consent,
  revoke_consent,
}

added :
    (c : Consent) (found : Result Customer) (d : Directory)
    → (add_consent none c found d).1 ≡ none
    → (add_consent none c found d).0.consents ≡ c ∷ d.consents
added c (err e) d h = absurd (cc h)
added c (ok _) d h = refl

abbrev revoked : ℕ → ℕ → Consent
revoked shop customer = record {
  shop_id = shop;
  customer_id = customer;
  status = "revoked";
  category = "order_updates";
  source = "merchant_revoked";
  evidence = "";
}

revoke_consent-consents :
    (shop customer : ℕ) (d : Directory)
    → (revoke_consent none none shop customer d).1 ≡ none
    → (revoke_consent none none shop customer d).0.consents ≡ revoked shop customer ∷ d.consents
unfolding revoke_consent
revoke_consent-consents shop customer d h =
    added (revoked shop customer) (customer_row none shop customer d) d h

pub consent_state-consents :
    (s c : ℕ) (d d' : Directory) (k : Consent)
    → d'.consents ≡ k ∷ d.consents
    → consent_state none s c d' ≡ (
        if is_consent_of s c k
        then ok (record { status = k.status; category = k.category })
        else consent_state none s c d)
unfolding consent_state
consent_state-consents s c d d' k h = rw h ground arith

revoked_refused :
    (m : MerchantState) (c : CustomerState) (t : TemplateState) (r : SendRequest)
    → let k : ConsentState = record { status = "revoked"; category = "order_updates" } in
      (evaluate_send_rule m c k t r ≢ none)
      × (m.status ≡ "active"
          → m.whatsapp_enabled ≡ true
          → m.terms_accepted_at ≢ none
          → c.owned_by_shop ≡ true
          → evaluate_send_rule m c k t r
            ≡ some (rejection opt_in_revoked "customer whatsapp consent was revoked"))
unfolding consent_rule evaluate_send_rule
revoked_refused m c t r = (
  λ h. ground arith,
  λ active enabled accepted owned. elim (Option-cases m.terms_accepted_at) [
    | inl missing ↦ absurd (accepted missing)
    | inr (at, h) ↦ rw (active, enabled, h, owned) refl
  ],
)

-- A revocation that succeeds is seen by the next load of the customer's consent. With it the gate
-- permits no send to that customer, whatever the merchant, the template and the purpose; and where the
-- merchant is active with the service enabled and its terms accepted, and the customer is of the shop,
-- it refuses with the code for a revoked consent. The consents of all other customers are read as
-- before.
pub revoke_consent_refuses :
    (shop customer : ℕ) (d : Directory)
    → (revoke_consent none none shop customer d).1 ≡ none
    → let d' = (revoke_consent none none shop customer d).0 in
      ((k : ConsentState) × (consent_state none shop customer d' ≡ ok k)
        × ((m : MerchantState) (c : CustomerState) (t : TemplateState) (r : SendRequest)
            → (evaluate_send_rule m c k t r ≢ none)
              × (m.status ≡ "active"
                  → m.whatsapp_enabled ≡ true
                  → m.terms_accepted_at ≢ none
                  → c.owned_by_shop ≡ true
                  → evaluate_send_rule m c k t r
                    ≡ some (rejection opt_in_revoked "customer whatsapp consent was revoked"))))
      × ((s c : ℕ)
          → (s ≢ shop) ⊎ (c ≢ customer)
          → consent_state none s c d' ≡ consent_state none s c d)
revoke_consent_refuses shop customer d h =
    let e = revoke_consent-consents shop customer d h in
    let read = λ (s c : ℕ).
      consent_state-consents s c d (revoke_consent none none shop customer d).0
        (revoked shop customer) e in
    (
      (
        record { status = "revoked"; category = "order_updates" },
        ground (arith, read shop customer),
        λ m c t r. revoked_refused m c t r,
      ),
      λ s c other. ground (arith, read s c),
    )
