-- ===== src/Automations/Variables.antt =====
-- The variables of an automation's message: `buildVariables` and `driverWithDefaults` of
-- internal/automations/processor.go, and the tokens of internal/whatsapp/variables.go.
pub mod Assigning
pub mod Complete
use beleevo_whatsapp.Prelude.{
  string_eq, nat_eq, ◌==◌, not, if◌then◌else◌, length, get_elem?, itoa, ℕ, zero, suc, ◌+◌, ◌-◌,
  String, Bool, ◌&&◌, Option, none, some, List, [], ◌∷◌, ◌++◌,
}
use beleevo_whatsapp.Whatsapp.{Variables}

pub record SendInput : Type 0 where
  pub shop_id : ℕ
  pub automation_id : ℕ
  pub customer_id : ℕ
  pub template_id : ℕ
  pub customer_name : String
  pub customer_phone : String
  pub order_id : String
  pub status_label : String
  pub tracking_code : String
  pub driver_name : String
  pub driver_phone : String
  pub idempotency_key : String

-- The parts of a template that a send reads; `tokens` is empty for a positional template.
pub record MerchantTemplate : Type 0 where
  pub id : ℕ
  pub category : String
  pub num_variables : ℕ
  pub tokens : List String

unfoldable pub token_value : String → SendInput → String
token_value key v =
    if key == "customer_name"
    then v.customer_name
    else if key == "customer_phone"
    then v.customer_phone
    else if key == "order_id"
    then v.order_id
    else if key == "order_status"
    then v.status_label
    else if key == "tracking_code"
    then v.tracking_code
    else if key == "driver_name"
    then v.driver_name
    else if key == "driver_phone"
    then v.driver_phone
    else ""

unfoldable pub default_token_for_position : ℕ → String
default_token_for_position position =
    if position == 1
    then "customer_name"
    else if position == 2
    then "order_id"
    else if position == 3
    then "order_status"
    else ""

abbrev pub token_or_default : Option String → ℕ → String
token_or_default none i = default_token_for_position i
token_or_default (some key) i = key

-- The token of the position `i`, counted from 1.
abbrev pub token_at : MerchantTemplate → ℕ → String
token_at t i = token_or_default (get_elem? t.tokens (i - 1)) i

abbrev pub is_semantic : MerchantTemplate → Bool
is_semantic t = not (length t.tokens == 0)

abbrev pub em_dash : String
em_dash = "—"

abbrev pub filled_value : String → String
filled_value v = if v == "" then em_dash else v

-- The assignment to a key of a Go map.
abbrev pub assign : (key value : String) → Variables → Variables
assign key value [] = (key, value) ∷ []
assign key value ((k, old) ∷ vars) =
    let rest = assign key value vars in if k == key then (key, value) ∷ vars else (k, old) ∷ rest

abbrev pub report : MerchantTemplate → (i : ℕ) → (value : String) → List String → List String
report t i value missing =
    if is_semantic t && value == "" then missing ++ token_at t i ∷ [] else missing

-- The loop over the positions `i + 1`, …, `i + left`.
unfoldable pub build_from :
    MerchantTemplate → SendInput → (left i : ℕ) → Variables × List String → Variables × List String
build_from t v zero i built = built
build_from t v (suc left) i (vars, missing) =
    let value = token_value (token_at t (i + 1)) v in
    build_from t v left (i + 1)
      (assign (itoa (i + 1)) (filled_value value) vars, report t (i + 1) value missing)

unfoldable pub build_variables : MerchantTemplate → SendInput → Variables × List String
build_variables t v = build_from t v t.num_variables 0 ([], [])

abbrev pub default_driver_name : String
default_driver_name = "Inconnu"

abbrev pub default_driver_phone : String
default_driver_phone = "00000000"

unfoldable pub driver_with_defaults : String → String → String × String
driver_with_defaults name phone = (
  if name == "" then default_driver_name else name,
  if phone == "" then default_driver_phone else phone,
)
