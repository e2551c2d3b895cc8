-- ===== src/Whatsapp/Ledger.antt =====
-- The message ledger of internal/whatsapp: the table `messages`, the statements of state.go that
-- write it, and the delivery statuses of webhook.go that move a row on.
pub mod StatusOrder
pub mod StatusRank
use beleevo_whatsapp.Prelude.{
  ltb, string_eq, nat_eq, ◌==◌, not, ◌!=◌, if◌then◌else◌, find?, any, update, Error, infrastructure,
  Result, ok, err, ◌>>=◌, query_row, exec, ℕ, String, Bool, false, ◌&&◌, ◌||◌, Option, none, some,
  List, [], ◌∷◌, ◌++◌,
}
use beleevo_whatsapp.Whatsapp.{Variables, SendResult}

-- A row of `messages`. The ids 0 stand for NULL, and so does an absent time or text.
pub record Message : Type 0 where
  pub id : ℕ
  pub shop_id : ℕ
  pub customer_id : ℕ
  pub template_id : ℕ
  pub converty_order_id : String
  pub recipient_phone : String
  pub template_variables : Variables
  pub idempotency_key : String
  pub automation_id : ℕ
  pub status : String
  pub body_text : Option String
  pub meta_message_id : String
  pub error_code : String
  pub error_message : String
  pub meta_errors : Option (List (ℕ × String))
  pub sent_at : Option ℕ
  pub delivered_at : Option ℕ
  pub read_at : Option ℕ
  pub failed_at : Option ℕ

-- The unique indexes: the primary key, and `(shop_id, idempotency_key) WHERE idempotency_key <> ''`.
abbrev pub has_key : ℕ → String → Message → Bool
has_key shop key m = m.shop_id == shop && m.idempotency_key == key

abbrev pub collides : Message → Message → Bool
collides new m =
    m.id == new.id || (new.idempotency_key != "" && has_key new.shop_id new.idempotency_key m)

-- `INSERT INTO messages … RETURNING id`; a row that breaks an index is an error.
unfoldable pub insert_message : Option Error → Message → List Message → Result (List Message)
insert_message (some e) new rows = err e
insert_message none new rows =
    if any (collides new) rows
    then err (infrastructure "duplicate key value violates unique constraint")
    else ok (rows ++ new ∷ [])

abbrev pub nullif : String → Option String
nullif text = if text == "" then none else some text

abbrev pub result_of : Message → SendResult
result_of m = record { message_id = m.id; meta_message_id = m.meta_message_id; status = m.status }

unfoldable pub find_message_by_idempotency :
    Option Error → ℕ → String → List Message → Result SendResult
find_message_by_idempotency failure shop key rows =
    query_row failure (find? (has_key shop key) rows) >>= λ m. ok (result_of m)

-- `COALESCE(column, now())`.
abbrev pub coalesce : Option ℕ → ℕ → Option ℕ
coalesce none now = some now
coalesce (some at) now = some at

abbrev pub is_message : ℕ → Message → Bool
is_message id m = m.id == id

abbrev pub as_sent : ℕ → String → Message → Message
as_sent now meta_id m = record m {
  meta_message_id = meta_id;
  status = "sent";
  sent_at = coalesce m.sent_at now;
}

unfoldable pub mark_message_sent :
    Option Error → (now id : ℕ) (meta_id : String) → List Message → List Message
mark_message_sent failure now id meta_id rows =
    exec failure rows (update (is_message id) (as_sent now meta_id) rows)

-- The error elements are written only where some are given.
abbrev pub or_kept :
    Option (List (ℕ × String)) → Option (List (ℕ × String)) → Option (List (ℕ × String))
or_kept none old = old
or_kept (some new) old = some new

abbrev pub as_failed : ℕ → String → String → Option (List (ℕ × String)) → Message → Message
as_failed now code text errors m = record m {
  status = "failed";
  error_code = code;
  error_message = text;
  failed_at = some now;
  meta_errors = or_kept errors m.meta_errors;
}

unfoldable pub mark_message_failed :
    Option Error
    → (now id : ℕ) (code text : String) → Option (List (ℕ × String))
    → List Message
    → List Message
mark_message_failed failure now id code text errors rows =
    exec failure rows (update (is_message id) (as_failed now code text errors) rows)

unfoldable pub webhook_status_rank : String → ℕ
webhook_status_rank status =
    if status == "sent"
    then 1
    else if status == "delivered"
    then 2
    else if status == "read"
    then 3
    else if status == "failed"
    then 4
    else 0

unfoldable pub should_advance_status : String → String → Bool
unfolding webhook_status_rank
should_advance_status stored incoming =
    if webhook_status_rank incoming == 0
    then false
    else ltb (webhook_status_rank stored) (webhook_status_rank incoming)

unfoldable pub webhook_status_column : String → String
webhook_status_column status =
    if status == "sent"
    then "sent_at"
    else if status == "delivered"
    then "delivered_at"
    else if status == "read"
    then "read_at"
    else if status == "failed"
    then "failed_at"
    else ""

pub record StatusUpdate : Type 0 where
  pub meta_message_id : String
  pub status : String
  pub errors : List (ℕ × String)

-- The failure columns: those of the first error, where the update carries any.
abbrev pub with_errors : ℕ → List (ℕ × String) → Message → Message
with_errors now [] m = record m {
  status = "failed";
  error_code = "meta_webhook_failed";
  failed_at = coalesce m.failed_at now;
}
with_errors now (e ∷ es) m = record m {
  status = "failed";
  error_code = "meta_webhook_failed";
  failed_at = coalesce m.failed_at now;
  error_message = e.1;
  meta_errors = some (e ∷ es);
}

unfoldable pub set_status : ℕ → StatusUpdate → Message → Message
set_status now u m =
    if u.status == "failed"
    then with_errors now u.errors m
    else if u.status == "delivered"
    then record m { status = u.status; delivered_at = coalesce m.delivered_at now }
    else if u.status == "read"
    then record m { status = u.status; read_at = coalesce m.read_at now }
    else record m { status = u.status }

abbrev pub has_meta_id : String → Message → Bool
has_meta_id meta_id m = m.meta_message_id == meta_id

abbrev pub write_status :
    Option Error → ℕ → StatusUpdate → List Message → Result Message → List Message × Option Error
write_status failure now u rows (err e) = (rows, some e)
write_status failure now u rows (ok m) =
    if not (should_advance_status m.status u.status)
    then (rows, none)
    else if webhook_status_column u.status == ""
    then (rows, none)
    else (
      exec failure rows (update (has_meta_id u.meta_message_id) (set_status now u) rows),
      failure,
    )

-- `lookup` and `failure` are the errors of the SELECT and of the UPDATE, which no transaction joins:
-- `seen` is the table that the SELECT reads, and `rows` the one that the UPDATE writes.
unfoldable pub apply_status_update :
    (lookup failure : Option Error) (now : ℕ)
    → StatusUpdate
    → (seen rows : List Message) → List Message × Option Error
apply_status_update lookup failure now u seen rows =
    write_status failure now u rows (query_row lookup (find? (has_meta_id u.meta_message_id) seen))
