-- ===== src/Whatsapp.antt =====
-- internal/whatsapp: the records that the send path works on.
pub mod Gate
pub mod Placeholders
pub mod Components
pub mod RateLimit
pub mod Ledger
pub mod Directory
pub mod Service
pub mod Sending
pub mod TestSending
pub mod SendJob
pub mod Templates
pub mod Inbox
use beleevo_whatsapp.Prelude.{
  ◌==◌, nat_eq, string_eq, if◌then◌else◌, ℕ, String, Bool, Option, none, some, List, [], ◌∷◌,
}

-- A map of template variables: its entries, with distinct keys.
abbrev pub Variables : Type 0
Variables = List (String × String)

abbrev pub value_of : String → Variables → Option String
value_of key [] = none
value_of key ((k, v) ∷ vars) = let rest = value_of key vars in if k == key then some v else rest

pub record Button : Type 0 where
  pub kind : String
  pub url : String

pub record Parameter : Type 0 where
  pub kind : String
  pub text : String

-- A template component as decoded from its stored JSON, with its type in upper case.
pub record Component : Type 0 where
  pub kind : String
  pub text : String
  pub buttons : List Button
  pub parameters : List Parameter

pub record MerchantState : Type 0 where
  pub shop_id : ℕ
  pub status : String
  pub whatsapp_enabled : Bool
  pub terms_accepted_at : Option ℕ

pub record CustomerState : Type 0 where
  pub id : ℕ
  pub phone : String
  pub owned_by_shop : Bool

pub record ConsentState : Type 0 where
  pub status : String
  pub category : String

pub record TemplateState : Type 0 where
  pub id : ℕ
  pub name : String
  pub language : String
  pub category : String
  pub approval_status : String
  pub marketing_flagged : Bool
  pub components : List Component
  pub num_variables : ℕ

pub record SendRequest : Type 0 where
  pub shop_id : ℕ
  pub customer_id : ℕ
  pub template_id : ℕ
  pub converty_order_id : String
  pub purpose : String
  pub variables : Variables
  pub idempotency_key : String
  pub automation_id : ℕ

pub record SendResult : Type 0 where
  pub message_id : ℕ
  pub meta_message_id : String
  pub status : String
