-- ===== src/Whatsapp/Service.antt =====
-- The state of internal/whatsapp's `Service` and the first part of the send flow of send.go: the tables,
-- the limiter and the log of the calls made to Meta; the snapshots that the gate reads; the gate and
-- the limiter as a send meets them. `Outside` holds what a run meets: the failures of its statements,
-- the clock, the id that the database generates, the decryption, and Meta's answer to a call.
use beleevo_whatsapp.Prelude.{
  if◌then◌else◌, Error, rejection, is_no_rows, Result, ok, err, ◌>>=◌, ℕ, String, Option, none,
  some, List,
}
use beleevo_whatsapp.Whatsapp.{
  MerchantState, CustomerState, ConsentState, TemplateState, SendRequest,
}
use beleevo_whatsapp.Whatsapp.Gate.{template_not_found, evaluate_send_rule}
use beleevo_whatsapp.Whatsapp.Components.{SendComponent}
use beleevo_whatsapp.Whatsapp.RateLimit.{RateLimiter, allow}
use beleevo_whatsapp.Whatsapp.Ledger.{Message}
use beleevo_whatsapp.Whatsapp.Directory.{
  Directory, merchant_state, customer_state, consent_state, template_state_global,
}

-- A call of `SendTemplate`, with the shop and the key of the send that it is made for.
pub record Call : Type 0 where
  pub shop_id : ℕ
  pub idempotency_key : String
  pub message_id : ℕ
  pub access_token : String
  pub phone_number_id : String
  pub to : String
  pub name : String
  pub language : String
  pub components : List SendComponent
  pub messaging_account_id : String

pub record Outside : Type 0 where
  pub now : ℕ
  pub fresh : ℕ
  pub show : Error → String
  pub show_id : ℕ → String
  pub decrypt : String → Result String
  pub meta : Call → Result String
  pub lookup_failure : Option Error
  pub template_failure : Option Error
  pub merchant_failure : Option Error
  pub customer_failure : Option Error
  pub consent_failure : Option Error
  pub rate_failure : Option Error
  pub prune_failure : Option Error
  pub recipient_failure : Option Error
  pub insert_failure : Option Error
  pub integration_failure : Option Error
  pub mark_failure : Option Error

-- `rate` is `none` for a service without a limiter.
pub record Service : Type 0 where
  pub directory : Directory
  pub messages : List Message
  pub rate : Option RateLimiter
  pub calls : List Call

pub record Loaded : Type 0 where
  pub template : TemplateState
  pub owner_shop : ℕ
  pub merchant : MerchantState
  pub customer : CustomerState
  pub consent : ConsentState

abbrev pub template_found : Result (TemplateState × ℕ) → Result (TemplateState × ℕ)
template_found (ok t) = ok t
template_found (err e) =
    if is_no_rows e
    then err (rejection template_not_found "template not found for this merchant")
    else err e

-- The snapshots that the gate reads, in the order of the source.
unfoldable pub load : Outside → SendRequest → Directory → Result Loaded
load o req d = template_found (template_state_global o.template_failure req.template_id d) >>= λ t.
    merchant_state o.merchant_failure t.1 d >>= λ merchant.
    customer_state o.customer_failure req.shop_id req.customer_id d >>= λ customer.
    consent_state o.consent_failure req.shop_id req.customer_id d >>= λ consent. ok (record {
      template = t.0;
      owner_shop = t.1;
      merchant = merchant;
      customer = customer;
      consent = consent;
    })

abbrev pub permitted : Loaded → Option Error → Result Loaded
permitted l none = ok l
permitted l (some e) = err e

unfoldable pub gate : Outside → SendRequest → Directory → Result Loaded
gate o req d = load o req d >>= λ l.
    permitted l (evaluate_send_rule l.merchant l.customer l.consent l.template req)

abbrev pub with_limiter : Service → RateLimiter × Option Error → Service × Option Error
with_limiter s (l, e) = (record s { rate = some l }, e)

abbrev pub charge_limiter : Outside → ℕ → Service → Option RateLimiter → Service × Option Error
charge_limiter o shop s none = (s, none)
charge_limiter o shop s (some l) =
    with_limiter s (allow o.show_id o.rate_failure o.prune_failure o.now shop l)

-- `s.rate.Allow`, where the service has a limiter.
unfoldable pub charge : Outside → ℕ → Service → Service × Option Error
charge o shop s = charge_limiter o shop s s.rate
