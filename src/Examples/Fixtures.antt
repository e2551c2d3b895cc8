-- ===== src/Examples/Fixtures.antt =====
-- A shop that is ready to send, and the surroundings of a run in which nothing fails.
use beleevo_whatsapp.Prelude.{ok, true, false, none, some, [], ◌∷◌}
use beleevo_whatsapp.Whatsapp.{Component, MerchantState, SendRequest}
use beleevo_whatsapp.Whatsapp.Directory.{Customer, Consent, Template, Integration, Directory}
use beleevo_whatsapp.Whatsapp.Service.{Outside, Service}

abbrev pub shop : MerchantState
shop = record {
  shop_id = 1;
  status = "active";
  whatsapp_enabled = true;
  terms_accepted_at = some 3;
}

abbrev pub customer : Customer
customer = record { id = 5; shop_id = 1; phone = "21620000000" }

abbrev pub consent : Consent
consent = record {
  shop_id = 1;
  customer_id = 5;
  status = "opt_in";
  category = "order_updates";
  source = "merchant_declared";
  evidence = "";
}

abbrev pub body : Component
body = record { kind = "BODY"; text = "Hello {{1}}"; buttons = []; parameters = [] }

abbrev pub template : Template
template = record {
  id = 9;
  shop_id = 1;
  name = "order_ready";
  language = "fr";
  category = "order_updates";
  approval_status = "approved";
  marketing_flagged = false;
  components = ok (body ∷ []);
}

abbrev pub integration : Integration
integration = record {
  shop_id = 1;
  phone_number_id = "77";
  messaging_account_id = "";
  phone_number = "21670000000";
  access_token_encrypted = "sealed";
}

abbrev pub directory : Directory
directory = record {
  shops = shop ∷ [];
  customers = customer ∷ [];
  consents = consent ∷ [];
  templates = template ∷ [];
  integrations = integration ∷ [];
}

abbrev pub service : Service
service = record { directory = directory; messages = []; rate = none; calls = [] }

abbrev pub request : SendRequest
request = record {
  shop_id = 1;
  customer_id = 5;
  template_id = 9;
  converty_order_id = "A17";
  purpose = "order_updates";
  variables = ("1", "Amel") ∷ [];
  idempotency_key = "conv:1:confirmed:A17";
  automation_id = 4;
}

abbrev pub surroundings : Outside
surroundings = record {
  now = 100;
  fresh = 11;
  show = λ e. "meta error";
  show_id = λ n. "shop";
  decrypt = λ s. ok "token";
  meta = λ c. ok "wamid.1";
  lookup_failure = none;
  template_failure = none;
  merchant_failure = none;
  customer_failure = none;
  consent_failure = none;
  rate_failure = none;
  prune_failure = none;
  recipient_failure = none;
  insert_failure = none;
  integration_failure = none;
  mark_failure = none;
}
