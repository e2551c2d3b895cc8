-- ===== src/Whatsapp/Sending.antt =====
-- `SendTemplateMessage` of internal/whatsapp/send.go, with the rows that state.go writes for it.
pub mod Safety
pub mod Rows
pub mod Once
pub mod Outcome
pub mod Kept
use beleevo_whatsapp.Prelude.{
  ◌==◌, ◌!=◌, nat_eq, string_eq, if◌then◌else◌, Error, rejection, as_api_error, is_no_rows, Result,
  ok, err, ℕ, String, Option, none, some, List, [], ◌∷◌, ◌++◌,
}
use beleevo_whatsapp.Whatsapp.{Variables, TemplateState, SendRequest, SendResult}
use beleevo_whatsapp.Whatsapp.Gate.{meta_api_error}
use beleevo_whatsapp.Whatsapp.Components.{SendComponent, build_components, render_template_body}
use beleevo_whatsapp.Whatsapp.Ledger.{
  Message, insert_message, nullif, find_message_by_idempotency, mark_message_sent,
  mark_message_failed,
}
use beleevo_whatsapp.Whatsapp.Directory.{
  Customer, Directory, Credentials, customer_row, credentials,
}
use beleevo_whatsapp.Whatsapp.Service.{Call, Outside, Service, Loaded, gate, charge}

abbrev meta_reason : (Error → String) → Error → Option (ℕ × String) → String
meta_reason show e none = show e
meta_reason show e (some (code, text)) = text

unfoldable pub wrap_meta_error : (Error → String) → Error → Error
wrap_meta_error show e = rejection meta_api_error (meta_reason show e (as_api_error e))

abbrev pub nonzero_error : Option (ℕ × String) → Option (List (ℕ × String))
nonzero_error none = none
nonzero_error (some (code, text)) = if code == 0 then none else some ((code, text) ∷ [])

unfoldable pub meta_error_json : Error → Option (List (ℕ × String))
meta_error_json e = nonzero_error (as_api_error e)

abbrev pub not_connected_reason : String
not_connected_reason = "no WhatsApp number connected for this store — connect one in Settings first"

abbrev pub fail_message : Outside → ℕ → String → Option (List (ℕ × String)) → Service → Service
fail_message o id text errors s = record s {
  messages = mark_message_failed o.mark_failure o.now id meta_api_error text errors s.messages;
}

-- What follows Meta's answer.
abbrev pub record_answer : Outside → ℕ → Service → Result String → Service × Result SendResult
record_answer o id s (err e) =
    (fail_message o id (o.show e) (meta_error_json e) s, err (wrap_meta_error o.show e))
record_answer o id s (ok meta_id) = (
  record s { messages = mark_message_sent o.mark_failure o.now id meta_id s.messages },
  ok (record { message_id = id; meta_message_id = meta_id; status = "sent" }),
)

abbrev pub call_of : Message → String → TemplateState → List SendComponent → Credentials → Call
call_of m to t comps c = record {
  shop_id = m.shop_id;
  idempotency_key = m.idempotency_key;
  message_id = m.id;
  access_token = c.access_token;
  phone_number_id = c.phone_number_id;
  to = to;
  name = t.name;
  language = t.language;
  components = comps;
  messaging_account_id = c.messaging_account_id;
}

abbrev pub call_meta : Outside → ℕ → Call → Service → Service × Result SendResult
call_meta o id c s = record_answer o id (record s { calls = s.calls ++ c ∷ [] }) (o.meta c)

-- The rest of a send, once its row is stored: the connection's credentials, then the call.
abbrev pub deliver :
    Outside
    → Message
    → (to : String) → TemplateState
    → List SendComponent
    → Result Credentials
    → Service
    → Service × Result SendResult
deliver o m to t comps (err e) s = (
  fail_message o m.id not_connected_reason none s,
  err (rejection meta_api_error not_connected_reason),
)
deliver o m to t comps (ok c) s = call_meta o m.id (call_of m to t comps c) s

abbrev pub reserve :
    Outside
    → Message
    → (to : String) → TemplateState
    → (owner : ℕ) → List SendComponent
    → Result (List Message)
    → Service
    → Service × Result SendResult
reserve o m to t owner comps (err e) s = (s, err e)
reserve o m to t owner comps (ok rows) s =
    deliver o m to t comps (credentials o.decrypt o.integration_failure owner s.directory)
      (record s { messages = rows })

abbrev pub send_built :
    Outside
    → Message
    → (to : String) → TemplateState
    → (owner : ℕ) → Result (List SendComponent)
    → Service
    → Service × Result SendResult
send_built o m to t owner (err e) s = (s, err e)
send_built o m to t owner (ok comps) s =
    reserve o m to t owner comps (insert_message o.insert_failure m s.messages) s

abbrev pub send_charged :
    Outside
    → Message
    → (to : String) → TemplateState
    → (owner : ℕ) → Variables
    → Service × Option Error
    → Service × Result SendResult
send_charged o m to t owner vars (s, some e) = (s, err e)
send_charged o m to t owner vars (s, none) =
    send_built o m to t owner (build_components t.components vars) s

abbrev pub phone_of : Result Customer → String
phone_of (ok c) = c.phone
phone_of (err _) = ""

-- The row of `createQueuedMessage`, whose recipient is looked up once more (`customer_phone`).
unfoldable pub queued_message : Outside → SendRequest → TemplateState → Directory → Message
queued_message o req t d = record {
  id = o.fresh;
  shop_id = req.shop_id;
  customer_id = req.customer_id;
  template_id = t.id;
  converty_order_id = req.converty_order_id;
  recipient_phone = phone_of (customer_row o.recipient_failure req.shop_id req.customer_id d);
  template_variables = req.variables;
  idempotency_key = req.idempotency_key;
  automation_id = req.automation_id;
  status = "queued";
  body_text = nullif (render_template_body t.components req.variables);
  meta_message_id = "";
  error_code = "";
  error_message = "";
  meta_errors = none;
  sent_at = none;
  delivered_at = none;
  read_at = none;
  failed_at = none;
}

abbrev pub send_gated :
    Outside → SendRequest → Result Loaded → Service → Service × Result SendResult
send_gated o req (err e) s = (s, err e)
send_gated o req (ok l) s =
    send_charged o (queued_message o req l.template s.directory) l.customer.phone l.template
      l.owner_shop req.variables (charge o req.shop_id s)

unfoldable pub send_new : Outside → SendRequest → Service → Service × Result SendResult
send_new o req s = send_gated o req (gate o req s.directory) s

abbrev pub send_unless_found :
    Outside → SendRequest → Result SendResult → Service → Service × Result SendResult
send_unless_found o req (ok existing) s = (s, ok existing)
send_unless_found o req (err e) s =
    let sent = send_new o req s in if is_no_rows e then sent else (s, err e)

-- `seen` is the table as the lookup of the idempotency key reads it, which other sends may have
-- changed by the time of the INSERT.
unfoldable pub send_template_message :
    Outside → (seen : List Message) → SendRequest → Service → Service × Result SendResult
send_template_message o seen req s =
    let sent = send_new o req s in
    let looked_up =
      send_unless_found o req
        (find_message_by_idempotency o.lookup_failure req.shop_id req.idempotency_key seen) s in
    if req.idempotency_key != "" then looked_up else sent
