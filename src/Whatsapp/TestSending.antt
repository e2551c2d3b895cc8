-- ===== src/Whatsapp/TestSending.antt =====
-- `SendTemplateTest` of internal/whatsapp/send.go: an operator's test of one template.
use Prim.Native.Char.{code}
use beleevo_whatsapp.Prelude.{
  leb, ◌==◌, ◌!=◌, nat_eq, string_eq, if◌then◌else◌, join_texts, Error, rejection, Result, ok, err,
  ◌>>=◌, ℕ, suc, String, Bool, true, false, ◌&&◌, Option, none, some, [], ◌∷◌,
}
use beleevo_whatsapp.Whatsapp.{Variables, MerchantState, TemplateState, SendResult}
use beleevo_whatsapp.Whatsapp.Gate.{
  merchant_not_authorized, template_not_approved, template_variable_invalid,
  template_marketing_blocked, validate_variables,
}
use beleevo_whatsapp.Whatsapp.Components.{render_template_body}
use beleevo_whatsapp.Whatsapp.Ledger.{Message, nullif}
use beleevo_whatsapp.Whatsapp.Directory.{Directory, merchant_state, template_state_global}
use beleevo_whatsapp.Whatsapp.Service.{Outside, Service, template_found, charge}
use beleevo_whatsapp.Whatsapp.Sending.{send_charged}
use beleevo_whatsapp.Whatsapp.Placeholders.{is_digit, is_space}

pub record TestTemplateRequest : Type 0 where
  pub shop_id : ℕ
  pub template_id : ℕ
  pub to : String
  pub variables : Variables

-- strings.Join(strings.Fields(s), "").
unfoldable pub strip_spaces : String → String
unfolding is_space
strip_spaces String.[] = ""
strip_spaces (String.◌∷◌ c s) =
    let rest = strip_spaces s in if is_space c then rest else String.◌∷◌ c rest

abbrev all_digits : String → Bool
all_digits String.[] = true
all_digits (String.◌∷◌ c s) = is_digit c && all_digits s

abbrev text_length : String → ℕ
text_length String.[] = 0
text_length (String.◌∷◌ c s) = suc (text_length s)

abbrev eight_to_fifteen_digits : String → Bool
eight_to_fifteen_digits s = all_digits s && (leb 8 (text_length s) && leb (text_length s) 15)

-- The pattern ^\+?[0-9]{8,15}$.
unfoldable pub matches_phone_pattern : String → Bool
matches_phone_pattern String.[] = false
matches_phone_pattern (String.◌∷◌ c s) =
    if code c == b'+' then eight_to_fifteen_digits s else eight_to_fifteen_digits (String.◌∷◌ c s)

-- The gates of a test send.
unfoldable pub test_rule : MerchantState → TemplateState → Variables → Option Error
test_rule merchant template vars =
    if merchant.status != "active"
    then some (rejection merchant_not_authorized "merchant account is not active")
    else if template.approval_status != "approved"
    then some (
        rejection template_not_approved
          (join_texts ("template is not approved (" ∷ template.approval_status ∷ ")" ∷ [])))
    else if template.marketing_flagged
    then some (
        rejection template_marketing_blocked
          "meta treats this template as marketing content and it can never be sent")
    else validate_variables template vars

abbrev pub test_message : Outside → TestTemplateRequest → (to : String) → TemplateState → Message
test_message o req to t = record {
  id = o.fresh;
  shop_id = req.shop_id;
  customer_id = 0;
  template_id = req.template_id;
  converty_order_id = "";
  recipient_phone = to;
  template_variables = req.variables;
  idempotency_key = "";
  automation_id = 0;
  status = "queued";
  body_text = nullif (render_template_body t.components req.variables);
  meta_message_id = "";
  error_code = "";
  error_message = "";
  meta_errors = none;
  sent_at = none;
  delivered_at = none;
  read_at = none;
  failed_at = none;
}

abbrev pub test_permitted : TemplateState × ℕ → Option Error → Result (TemplateState × ℕ)
test_permitted t none = ok t
test_permitted t (some e) = err e

unfoldable pub test_gate : Outside → TestTemplateRequest → Directory → Result (TemplateState × ℕ)
test_gate o req d =
    template_found (template_state_global o.template_failure req.template_id d) >>= λ t.
    merchant_state o.merchant_failure t.1 d >>= λ merchant.
    test_permitted t (test_rule merchant t.0 req.variables)

abbrev pub send_test_gated :
    Outside
    → TestTemplateRequest
    → (to : String) → Result (TemplateState × ℕ)
    → Service
    → Service × Result SendResult
send_test_gated o req to (err e) s = (s, err e)
send_test_gated o req to (ok (t, owner)) s =
    send_charged o (test_message o req to t) to t owner req.variables (charge o req.shop_id s)

unfoldable pub send_template_test :
    Outside → TestTemplateRequest → Service → Service × Result SendResult
send_template_test o req s =
    let to = strip_spaces req.to in
    if matches_phone_pattern to then send_test_gated o req to (test_gate o req s.directory) s else (
      s,
      err (
          rejection template_variable_invalid
            "invalid phone number — use international format with country code, e.g. +21624118849"),
    )
