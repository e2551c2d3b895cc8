-- ===== src/Whatsapp/Gate.antt =====
-- The send gate of internal/whatsapp/send.go: `EvaluateSendRule` and `validateVariables`.
pub mod Permission
use beleevo_whatsapp.Prelude.{
  ◌==◌, not, ◌!=◌, nat_eq, string_eq, if◌then◌else◌, length, is_none, join_texts, itoa, Error,
  rejection, String, ◌&&◌, ◌||◌, Option, none, some, [], ◌∷◌,
}
use beleevo_whatsapp.Whatsapp.{
  Variables, MerchantState, CustomerState, ConsentState, TemplateState, SendRequest,
}

-- The public error codes.
abbrev pub merchant_not_authorized : String
merchant_not_authorized = "merchant_not_authorized"

abbrev pub service_disabled : String
service_disabled = "whatsapp_service_disabled"

abbrev pub terms_not_accepted : String
terms_not_accepted = "whatsapp_terms_not_accepted"

abbrev pub customer_not_owned : String
customer_not_owned = "customer_not_owned_by_merchant"

abbrev pub opt_in_required : String
opt_in_required = "whatsapp_opt_in_required"

abbrev pub opt_in_revoked : String
opt_in_revoked = "whatsapp_opt_in_revoked"

abbrev pub template_not_found : String
template_not_found = "template_not_found"

abbrev pub template_not_approved : String
template_not_approved = "template_not_approved"

abbrev pub template_unintended_purpose : String
template_unintended_purpose = "template_unintended_purpose"

abbrev pub template_variable_invalid : String
template_variable_invalid = "template_variable_invalid"

abbrev pub template_marketing_blocked : String
template_marketing_blocked = "template_marketing_blocked"

abbrev pub meta_api_error : String
meta_api_error = "meta_api_error"

-- `none` is Go's nil error.
unfoldable pub validate_variables : TemplateState → Variables → Option Error
validate_variables t vars =
    if length vars != t.num_variables
    then some (
        rejection template_variable_invalid (
          join_texts (
            "template requires "
            ∷ itoa t.num_variables
            ∷ " variables, got "
            ∷ itoa (length vars)
            ∷ [])))
    else none

-- The `switch` on the consent's status.
unfoldable pub consent_rule : ConsentState → String → Option Error
consent_rule consent purpose =
    if consent.status == ""
    then some (rejection opt_in_required "customer has no recorded whatsapp opt-in")
    else if consent.status == "revoked"
    then some (rejection opt_in_revoked "customer whatsapp consent was revoked")
    else if consent.status == "opt_in"
    then (if consent.category != "" && (purpose != "" && consent.category != purpose)
        then some (rejection opt_in_revoked "consent category does not cover the requested purpose")
        else none)
    else some (rejection opt_in_required "customer whatsapp consent state is invalid")

unfoldable pub template_rule : TemplateState → SendRequest → Option Error
template_rule template req =
    if template.id == 0 || template.name == ""
    then some (rejection template_not_found "template not found for this merchant")
    else if template.approval_status != "approved"
    then some (
        rejection template_not_approved
          (join_texts ("template is not approved (" ∷ template.approval_status ∷ ")" ∷ [])))
    else if template.marketing_flagged
    then some (
        rejection template_marketing_blocked
          "meta treats this template as marketing content and it can never be sent")
    else if req.purpose != "" && template.category != req.purpose
    then some (
        rejection template_unintended_purpose
          "template category does not match the requested purpose")
    else validate_variables template req.variables

abbrev pub or_else : Option Error → Option Error → Option Error
or_else none next = next
or_else (some e) next = some e

unfoldable pub evaluate_send_rule :
    MerchantState → CustomerState → ConsentState → TemplateState → SendRequest → Option Error
evaluate_send_rule merchant customer consent template req =
    if merchant.status != "active"
    then some (rejection merchant_not_authorized "merchant account is not active")
    else if not merchant.whatsapp_enabled
    then some (rejection service_disabled "whatsapp service is not enabled for this shop")
    else if is_none merchant.terms_accepted_at
    then some (rejection terms_not_accepted "whatsapp service terms not accepted by the merchant")
    else if not customer.owned_by_shop
    then some (rejection customer_not_owned "customer does not belong to this merchant")
    else or_else (consent_rule consent req.purpose) (template_rule template req)
