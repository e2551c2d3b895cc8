-- ===== src/Examples/Texts.antt =====
-- The send gate, the placeholders, the limiter, the consents and the delivery statuses at concrete
-- inputs.
use mathlib.Core.List.Perm
use beleevo_whatsapp.Whatsapp.Components.Counting.{
  all_numbers, times, one_if, count_template_variables_raw-distinct,
}
use beleevo_whatsapp.Whatsapp.Components.Building.{
  IsOk, AllGiven, url_numbers, TextGiven, build_components-IsOk,
}
use beleevo_whatsapp.Whatsapp.Components.{
  is_text, seen, count_template_variables_raw, build_components,
}
use beleevo_whatsapp.Prelude.{
  length, filter, All, Error, rejection, rate_limit_exceeded, ok, ℕ, ◌+◌, ◌≤◌, ◌<◌, String, ◌≡◌,
  refl, ◌≢◌, ◌↔◌, ◌⊎◌, true, Option, none, some, List, [], ◌∷◌, map, arith, eq_iff,
}
use beleevo_whatsapp.Whatsapp.{
  Variables, Component, MerchantState, CustomerState, ConsentState, TemplateState, SendRequest,
}
use beleevo_whatsapp.Whatsapp.Gate.{opt_in_revoked, evaluate_send_rule}
use beleevo_whatsapp.Whatsapp.Placeholders.{atoi_digits, placeholder_numbers, fill_placeholders}
use beleevo_whatsapp.Whatsapp.Placeholders.Segments.{Segment, plain, hole, write, IsSegment}
use beleevo_whatsapp.Whatsapp.Placeholders.Scanning.{hole_numbers, placeholder_numbers-write}
use beleevo_whatsapp.Whatsapp.Placeholders.Filling.{expected, fill_placeholders-write}
use beleevo_whatsapp.Whatsapp.RateLimit.{
  RateLimiter, new_rate_limiter, window_start, global_scope, shop_scope, allow,
}
use beleevo_whatsapp.Whatsapp.RateLimit.Budget.{count_of, allow_exact}
use beleevo_whatsapp.Whatsapp.Ledger.{
  Message, webhook_status_rank, should_advance_status, webhook_status_column, StatusUpdate,
  set_status, apply_status_update,
}
use beleevo_whatsapp.Whatsapp.Ledger.StatusRank.{Kept, status_never_regresses}
use beleevo_whatsapp.Whatsapp.Ledger.StatusOrder.{status_of, replay, replay_order}
use beleevo_whatsapp.Whatsapp.Directory.{consent_state, revoke_consent, state_of}
use beleevo_whatsapp.Whatsapp.Directory.Consents.{revoke_consent_refuses}
use beleevo_whatsapp.Examples.Fixtures.{body, template, directory}

abbrev customer_state : CustomerState
customer_state = record { id = 5; phone = "21620000000"; owned_by_shop = true }

abbrev opted_in : ConsentState
opted_in = record { status = "opt_in"; category = "order_updates" }

abbrev order_ready : TemplateState
order_ready = state_of template (body ∷ [])

abbrev segments : List Segment
segments = plain "Hi " ∷ hole "02" ∷ plain "!" ∷ []

abbrev variables : Variables
variables = ("2", "Amel") ∷ []

segments-IsSegment : All IsSegment segments
unfolding atoi_digits
segments-IsSegment = (
  (ground arith, (ground arith, (ground arith, tt))),
  (((refl, (refl, tt)), ground (arith, eq_iff "02" ""), (2, refl)), ((ground arith, tt), tt)),
)

fill_placeholders-write_example :
    fill_placeholders (write segments) variables ≡ expected segments variables
fill_placeholders-write_example = fill_placeholders-write segments variables segments-IsSegment

placeholder_numbers-write_example : placeholder_numbers (write segments) ≡ hole_numbers segments
placeholder_numbers-write_example = placeholder_numbers-write segments segments-IsSegment

abbrev show_id : ℕ → String
show_id n = "1"

abbrev no_failure : Option Error
no_failure = none

abbrev spent : RateLimiter
spent = record new_rate_limiter {
  windows = record { scope = "shop:1"; window_start = 60000000000; count = 120 } ∷ [];
}

allow_exact_example :
    let scope = shop_scope show_id 1 in
    let start = window_start spent 70000000000 in
    let shop_used = count_of scope start spent.windows in
    let global_used = count_of global_scope start spent.windows in
    let (l', e) = allow show_id none no_failure 70000000000 1 spent in
    ((e ≡ none) ↔ ((shop_used < spent.per_shop) × (global_used < spent.global)))
    × ((e ≡ some (rate_limit_exceeded true)) ↔ (spent.per_shop ≤ shop_used))
    × (e ≡ none
        → (count_of scope start l'.windows ≡ shop_used + 1)
          × (count_of global_scope start l'.windows ≡ global_used + 1))
    × (e ≢ none → count_of global_scope start l'.windows ≡ global_used)
allow_exact_example =
    allow_exact show_id no_failure 70000000000 1 spent refl (omega arith) (omega arith)

abbrev sent_row : Message
sent_row = record {
  id = 11;
  shop_id = 1;
  customer_id = 5;
  template_id = 9;
  converty_order_id = "A17";
  recipient_phone = "21620000000";
  template_variables = [];
  idempotency_key = "";
  automation_id = 0;
  status = "sent";
  body_text = none;
  meta_message_id = "wamid.1";
  error_code = "";
  error_message = "";
  meta_errors = none;
  sent_at = some 100;
  delivered_at = none;
  read_at = none;
  failed_at = none;
}

abbrev delivered : ℕ × StatusUpdate
delivered = (120, record { meta_message_id = "wamid.1"; status = "delivered"; errors = [] })

abbrev read : ℕ × StatusUpdate
read = (130, record { meta_message_id = "wamid.1"; status = "read"; errors = [] })

replay_order_example :
    status_of "wamid.1" (replay (delivered ∷ read ∷ []) (sent_row ∷ []))
    ≡ status_of "wamid.1" (replay (read ∷ delivered ∷ []) (sent_row ∷ []))
replay_order_example =
    replay_order (delivered ∷ read ∷ []) (read ∷ delivered ∷ []) (sent_row ∷ []) "wamid.1"
      (Perm.swap _ _ [])

revoke_consent_refuses_example :
    let d' = (revoke_consent none none 1 5 directory).0 in
    ((k : ConsentState) × (consent_state none 1 5 d' ≡ ok k)
      × ((m : MerchantState) (c : CustomerState) (t : TemplateState) (r : SendRequest)
          → (evaluate_send_rule m c k t r ≢ none)
            × (m.status ≡ "active"
                → m.whatsapp_enabled ≡ true
                → m.terms_accepted_at ≢ none
                → c.owned_by_shop ≡ true
                → evaluate_send_rule m c k t r
                  ≡ some (rejection opt_in_revoked "customer whatsapp consent was revoked"))))
    × ((s c : ℕ) → (s ≢ 1) ⊎ (c ≢ 5) → consent_state none s c d' ≡ consent_state none s c directory)
revoke_consent_refuses_example =
    revoke_consent_refuses 1 5 directory (unfold revoke_consent in refl)

status_never_regresses_example :
    Kept
      (sent_row ∷ [])
      (apply_status_update none none 120 delivered.1 (sent_row ∷ []) (sent_row ∷ [])).0
status_never_regresses_example =
    status_never_regresses none none 120 delivered.1 (sent_row ∷ [])
      (ground (arith, eq_iff "wamid.1" "wamid.1"))

-- Two webhooks at once: the update to `delivered`, whose lookup still read `sent`, takes the message
-- back from `read`.
stale_lookup :
    let rows = (apply_status_update none none 130 read.1 (sent_row ∷ []) (sent_row ∷ [])).0 in
    map (λ m. m.status) (apply_status_update none none 120 delivered.1 (sent_row ∷ []) rows).0
    ≡ "delivered" ∷ []
unfolding apply_status_update set_status should_advance_status webhook_status_rank
    webhook_status_column
stale_lookup = refl

-- Rows without a Meta id, of which the first is still queued: a status without an id takes the failed
-- one back to `sent`.
empty_id :
    let queued = record sent_row { meta_message_id = ""; status = "queued" } in
    let failed = record sent_row { id = 12; meta_message_id = ""; status = "failed" } in
    let nameless : StatusUpdate = record { meta_message_id = ""; status = "sent"; errors = [] } in
    map
      (λ m. m.status)
      (apply_status_update none none 120 nameless (queued ∷ failed ∷ []) (queued ∷ failed ∷ [])).0
    ≡ "sent" ∷ "sent" ∷ []
unfolding apply_status_update set_status should_advance_status webhook_status_rank
    webhook_status_column
empty_id = refl

build_components-IsOk_example : IsOk (build_components (body ∷ []) (("1", "Amal") ∷ [])) ↔ (
    All (TextGiven (("1", "Amal") ∷ [])) (filter is_text (body ∷ []))
    × AllGiven (("1", "Amal") ∷ []) (url_numbers (body ∷ [])))
build_components-IsOk_example = build_components-IsOk (body ∷ []) (("1", "Amal") ∷ [])

abbrev twice : Component
twice = record { kind = "header"; text = "{{2}} and {{1}}, {{2}}"; buttons = []; parameters = [] }

count_template_variables_raw-distinct_example :
    (ns : List ℕ) × (length ns ≡ count_template_variables_raw (twice ∷ body ∷ []))
    × ((n : ℕ) → times n ns ≡ one_if (seen n (all_numbers (twice ∷ body ∷ []))))
count_template_variables_raw-distinct_example =
    count_template_variables_raw-distinct (twice ∷ body ∷ [])
