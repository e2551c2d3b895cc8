-- ===== src/Whatsapp/Directory.antt =====
-- internal/whatsapp/state.go and service.go: the tables that a send reads (shops, customers, consents,
-- templates and connections), the snapshots that it loads from them, and the consent records.
-- Each table lists its rows by the key that a statement looks them up with; `whatsapp_consent` is
-- listed newest first, as `ORDER BY created_at DESC` reads it.
pub mod Consents
use beleevo_whatsapp.Prelude.{
  ◌==◌, nat_eq, string_eq, if◌then◌else◌, find?, Error, message, is_no_rows, Result, ok, err, ◌>>=◌,
  query_row, ℕ, String, Bool, true, false, ◌&&◌, Option, none, some, List, ◌∷◌,
}
use beleevo_whatsapp.Whatsapp.{Component, MerchantState, CustomerState, ConsentState, TemplateState}
use beleevo_whatsapp.Whatsapp.Components.{count_template_variables_raw}

pub record Customer : Type 0 where
  pub id : ℕ
  pub shop_id : ℕ
  pub phone : String

pub record Consent : Type 0 where
  pub shop_id : ℕ
  pub customer_id : ℕ
  pub status : String
  pub category : String
  pub source : String
  pub evidence : String

-- `components` is what decoding the stored JSON gives.
pub record Template : Type 0 where
  pub id : ℕ
  pub shop_id : ℕ
  pub name : String
  pub language : String
  pub category : String
  pub approval_status : String
  pub marketing_flagged : Bool
  pub components : Result (List Component)

pub record Integration : Type 0 where
  pub shop_id : ℕ
  pub phone_number_id : String
  pub messaging_account_id : String
  pub phone_number : String
  pub access_token_encrypted : String

pub record Directory : Type 0 where
  pub shops : List MerchantState
  pub customers : List Customer
  pub consents : List Consent
  pub templates : List Template
  pub integrations : List Integration

pub record Credentials : Type 0 where
  pub access_token : String
  pub phone_number_id : String
  pub messaging_account_id : String
  pub phone_number : String

unfoldable pub merchant_state : Option Error → ℕ → Directory → Result MerchantState
merchant_state failure shop d = query_row failure (find? (λ m. m.shop_id == shop) d.shops)

abbrev pub customer_row : Option Error → ℕ → ℕ → Directory → Result Customer
customer_row failure shop customer d =
    query_row failure (find? (λ c. c.id == customer && c.shop_id == shop) d.customers)

abbrev pub customer_found : ℕ → Result Customer → Result CustomerState
customer_found customer (ok c) = ok (record { id = c.id; phone = c.phone; owned_by_shop = true })
customer_found customer (err e) =
    if is_no_rows e then ok (record { id = customer; phone = ""; owned_by_shop = false }) else err e

unfoldable pub customer_state : Option Error → ℕ → ℕ → Directory → Result CustomerState
customer_state failure shop customer d =
    customer_found customer (customer_row failure shop customer d)

abbrev pub is_consent_of : ℕ → ℕ → Consent → Bool
is_consent_of shop customer c = c.shop_id == shop && c.customer_id == customer

abbrev pub consent_latest : Option Error → ℕ → ℕ → Directory → Result Consent
consent_latest failure shop customer d =
    query_row failure (find? (is_consent_of shop customer) d.consents)

abbrev pub consent_found : Result Consent → Result ConsentState
consent_found (ok c) = ok (record { status = c.status; category = c.category })
consent_found (err e) = if is_no_rows e then ok (record { status = ""; category = "" }) else err e

unfoldable pub consent_state : Option Error → ℕ → ℕ → Directory → Result ConsentState
consent_state failure shop customer d = consent_found (consent_latest failure shop customer d)

abbrev pub or_default : String → String → String
or_default default text = if text == "" then default else text

abbrev pub add_consent :
    Option Error → Consent → Result Customer → Directory → Directory × Option Error
add_consent failure c (err e) d = (d, some e)
add_consent (some e) c (ok _) d = (d, some e)
add_consent none c (ok _) d = (record d { consents = c ∷ d.consents }, none)

-- `lookup` is the error of the statement that finds the customer, `failure` that of the INSERT.
unfoldable pub grant_consent :
    (lookup failure : Option Error) (shop customer : ℕ) (category source evidence : String)
    → Directory
    → Directory × Option Error
grant_consent lookup failure shop customer category source evidence d =
    let c : Consent = record {
      shop_id = shop;
      customer_id = customer;
      status = "opt_in";
      category = or_default "order_updates" category;
      source = or_default "merchant_declared" source;
      evidence = evidence;
    } in
    add_consent failure c (customer_row lookup shop customer d) d

unfoldable pub revoke_consent :
    (lookup failure : Option Error) (shop customer : ℕ) → Directory → Directory × Option Error
revoke_consent lookup failure shop customer d =
    let c : Consent = record {
      shop_id = shop;
      customer_id = customer;
      status = "revoked";
      category = "order_updates";
      source = "merchant_revoked";
      evidence = "";
    } in
    add_consent failure c (customer_row lookup shop customer d) d

abbrev pub state_of : Template → List Component → TemplateState
state_of t comps = record {
  id = t.id;
  name = t.name;
  language = t.language;
  category = t.category;
  approval_status = t.approval_status;
  marketing_flagged = t.marketing_flagged;
  components = comps;
  num_variables = count_template_variables_raw comps;
}

-- A template by id, whichever shop it belongs to, and that shop.
unfoldable pub template_state_global : Option Error → ℕ → Directory → Result (TemplateState × ℕ)
template_state_global failure template d =
    query_row failure (find? (λ t. t.id == template) d.templates) >>= λ t.
    t.components >>= λ comps. ok (state_of t comps, t.shop_id)

abbrev pub not_configured : Error
not_configured = message "whatsapp is not configured"

abbrev pub with_token : Integration → Result String → Result Credentials
with_token i (err e) = err e
with_token i (ok token) =
    if token == ""
    then err not_configured
    else ok (record {
      access_token = token;
      phone_number_id = i.phone_number_id;
      messaging_account_id = i.messaging_account_id;
      phone_number = i.phone_number;
    })

abbrev pub of_integration : (String → Result String) → Result Integration → Result Credentials
of_integration decrypt (err e) = if is_no_rows e then err not_configured else err e
of_integration decrypt (ok i) =
    let opened = with_token i (decrypt i.access_token_encrypted) in
    if i.access_token_encrypted == "" then err not_configured else opened

-- `decrypt` is `DecryptToken`, of the encryption package.
unfoldable pub credentials :
    (decrypt : String → Result String) → Option Error → ℕ → Directory → Result Credentials
credentials decrypt failure shop d =
    of_integration decrypt (query_row failure (find? (λ i. i.shop_id == shop) d.integrations))
