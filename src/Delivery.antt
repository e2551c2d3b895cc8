-- ===== src/Delivery.antt =====
-- internal/delivery: the parcels that the platform watches (tracked.go), the carrier's statuses
-- (mescolis.go), and the funnel through which the poller and the socket record what they observe
-- (socket.go). Times are nanoseconds; the database's clock `now` is an argument.
pub mod Funnel
pub mod Polling
pub mod Socket
pub mod Misses
pub mod Transitions
use beleevo_whatsapp.Prelude.{
  ltb, leb, ◌==◌, not, ◌!=◌, nat_eq, string_eq, if◌then◌else◌, filter, find?, any, update, ℤ,
  pos_part, Error, Result, ok, err, ℕ, ◌+◌, String, Bool, false, ◌&&◌, ◌||◌, Option, none, some,
  List, [], ◌∷◌, ◌++◌,
}

abbrev pub status_removed_upstream : String
status_removed_upstream = "removed-upstream"

abbrev pub misses_before_settled : ℕ
misses_before_settled = 3

abbrev pub terminal_statuses : List String
terminal_statuses =
    "delivered" ∷ "delivered-and-paid" ∷ "exchanged" ∷ "refunded" ∷ "order-refund" ∷ "return-agency"
    ∷ "return-inter-agency" ∷ "return-received" ∷ "return-sender" ∷ "final-return"
    ∷ status_removed_upstream ∷ []

unfoldable pub status_terminal : String → Bool
status_terminal status = any (λ s. status == s) terminal_statuses

unfoldable pub label_for : String → String
label_for status =
    if status == "pending" || status == "confirmed"
    then "Order accepted"
    else if status == "in-progress"
    then "Out for delivery"
    else if status == "delivered"
    then "Delivered"
    else if status == "delivered-and-paid"
    then "Delivered — shipping paid by sender"
    else if status == "return-sender"
    then "Return to sender"
    else if status == "final-return"
    then "Returned"
    else if status == status_removed_upstream
    then "Removed at carrier"
    else if status == ""
    then "Unknown"
    else status

abbrev pub known_statuses : List String
known_statuses =
    "pending" ∷ "to-be-picked-up" ∷ "picked-up" ∷ "at-agency" ∷ "in-progress" ∷ "to-be-verified"
    ∷ "delivered" ∷ "delivered-and-paid" ∷ "inter-depot" ∷ "unavailable-1" ∷ "unavailable-2"
    ∷ "paiement-received" ∷ "saisie-douane" ∷ "anomalie" ∷ []

-- A row of `delivery_orders`; the customer 0 stands for NULL.
pub record TrackedOrder : Type 0 where
  pub id : ℕ
  pub shop_id : ℕ
  pub barcode : String
  pub order_id : String
  pub customer_id : ℕ
  pub customer_name : String
  pub customer_phone : String
  pub last_status : String
  pub status_label : String
  pub driver_name : String
  pub driver_phone : String
  pub missing_count : ℕ
  pub last_missing_at : Option ℕ
  pub last_seen_at : ℕ

unfoldable pub has_driver : TrackedOrder → Bool
has_driver t = t.driver_name != "" || t.driver_phone != ""

abbrev pub is_parcel : ℕ → String → TrackedOrder → Bool
is_parcel shop barcode t = t.shop_id == shop && t.barcode == barcode

-- A result of a write that may fail: the table, and the error.
abbrev pub written :
    Option Error → List TrackedOrder → List TrackedOrder → List TrackedOrder × Option Error
written none before after = (after, none)
written (some e) before after = (before, some e)

-- `CASE WHEN new = '' THEN old ELSE new END`.
abbrev pub or_old : String → String → String
or_old new old = if new == "" then old else new

-- `existingValue`: the column of the row, "" where there is none or the statement fails.
abbrev pub column_of : (TrackedOrder → String) → Option TrackedOrder → String
column_of column none = ""
column_of column (some t) = column t

unfoldable pub existing_value :
    Option Error → ℕ → String → (TrackedOrder → String) → List TrackedOrder → String
existing_value (some e) shop barcode column rows = ""
existing_value none shop barcode column rows =
    column_of column (find? (is_parcel shop barcode) rows)

abbrev pub refreshed : TrackedOrder → TrackedOrder → TrackedOrder
refreshed new old = record old {
  order_id = or_old new.order_id old.order_id;
  customer_id = if old.customer_id == 0 then new.customer_id else old.customer_id;
  customer_name = or_old new.customer_name old.customer_name;
  customer_phone = or_old new.customer_phone old.customer_phone;
}

-- `INSERT … ON CONFLICT (shop_id, barcode) DO UPDATE`.
abbrev pub insert_or_refresh : TrackedOrder → List TrackedOrder → List TrackedOrder
insert_or_refresh new rows =
    if any (is_parcel new.shop_id new.barcode) rows
    then update (is_parcel new.shop_id new.barcode) (refreshed new) rows
    else rows ++ new ∷ []

-- `read_failure` is the error of the two reads of `existingValue`.
unfoldable pub upsert_tracked :
    (read_failure failure : Option Error) (now fresh : ℕ) (shop : ℕ) (barcode order : String)
    (customer : ℕ) (name phone : String)
    → List TrackedOrder
    → List TrackedOrder × Option Error
upsert_tracked read_failure failure now fresh shop barcode order customer name phone rows =
    written failure rows (
      insert_or_refresh
        (record {
          id = fresh;
          shop_id = shop;
          barcode = barcode;
          order_id = order;
          customer_id = customer;
          customer_name =
              or_old name (existing_value read_failure shop barcode (λ t. t.customer_name) rows);
          customer_phone =
              or_old phone (existing_value read_failure shop barcode (λ t. t.customer_phone) rows);
          last_status = "";
          status_label = "";
          driver_name = "";
          driver_phone = "";
          missing_count = 0;
          last_missing_at = none;
          last_seen_at = now;
        })
        rows)

-- `none` is the zero value, whose id is nil.
abbrev pub row_or_none : Option Error → Option TrackedOrder → Result (Option TrackedOrder)
row_or_none none found = ok found
row_or_none (some e) found = err e

unfoldable pub tracked_by_barcode :
    Option Error → ℕ → String → List TrackedOrder → Result (Option TrackedOrder)
tracked_by_barcode failure shop barcode rows =
    row_or_none failure (find? (is_parcel shop barcode) rows)

-- `ORDER BY last_seen_at DESC LIMIT 1`.
abbrev later : TrackedOrder → Option TrackedOrder → TrackedOrder
later t none = t
later t (some u) = if ltb t.last_seen_at u.last_seen_at then u else t

unfoldable pub latest : List TrackedOrder → Option TrackedOrder
latest [] = none
latest (t ∷ ts) = some (later t (latest ts))

unfoldable pub tracked_any_shop_by_barcode :
    Option Error → String → List TrackedOrder → Result (Option TrackedOrder)
tracked_any_shop_by_barcode failure barcode rows =
    row_or_none failure (latest (filter (λ t. t.barcode == barcode) rows))

abbrev pub observed : ℕ → String → String → String → String → TrackedOrder → TrackedOrder
observed now status label name phone t = record t {
  last_status = status;
  status_label = if label == "" then label_for status else label;
  driver_name = or_old name t.driver_name;
  driver_phone = or_old phone t.driver_phone;
  missing_count = 0;
  last_missing_at = none;
  last_seen_at = now;
}

unfoldable pub update_tracked_status :
    Option Error
    → ℕ
    → ℕ
    → String
    → (status label name phone : String) → List TrackedOrder
    → List TrackedOrder × Option Error
update_tracked_status failure now shop barcode status label name phone rows =
    written failure rows
      (update (is_parcel shop barcode) (observed now status label name phone) rows)

abbrev pub with_driver : ℕ → String → String → TrackedOrder → TrackedOrder
with_driver now name phone t = record t {
  driver_name = or_old name t.driver_name;
  driver_phone = or_old phone t.driver_phone;
  last_seen_at = now;
}

unfoldable pub attach_driver :
    Option Error
    → ℕ
    → ℕ
    → String
    → (name phone : String) → List TrackedOrder
    → List TrackedOrder × Option Error
attach_driver failure now shop barcode name phone rows =
    written failure rows (update (is_parcel shop barcode) (with_driver now name phone) rows)

abbrev pub missed : ℕ → ℕ → TrackedOrder → TrackedOrder
missed now limit t = record t {
  missing_count = t.missing_count + 1;
  last_missing_at = some now;
  last_status = if leb limit (t.missing_count + 1) then status_removed_upstream else t.last_status;
  status_label =
      if leb limit (t.missing_count + 1) then label_for status_removed_upstream else t.status_label;
}

-- `RETURNING last_status`; `pgx.ErrNoRows` is no error here.
abbrev pub settled_of : Option TrackedOrder → Result Bool
settled_of none = ok false
settled_of (some t) = ok (t.last_status == status_removed_upstream)

unfoldable pub mark_missing_upstream :
    Option Error
    → ℕ
    → ℕ
    → String
    → (misses_before : ℤ) → List TrackedOrder
    → List TrackedOrder × Result Bool
mark_missing_upstream (some e) now shop barcode misses_before rows = (rows, err e)
mark_missing_upstream none now shop barcode misses_before rows =
    let limit = if ltb (pos_part misses_before) 1 then 1 else pos_part misses_before in
    let rows' = update (is_parcel shop barcode) (missed now limit) rows in
    (rows', settled_of (find? (is_parcel shop barcode) rows'))

abbrev pub touched : ℕ → TrackedOrder → TrackedOrder
touched now t = record t { last_seen_at = now; missing_count = 0; last_missing_at = none }

unfoldable pub touch_tracked :
    Option Error → ℕ → ℕ → String → List TrackedOrder → List TrackedOrder × Option Error
touch_tracked failure now shop barcode rows =
    written failure rows (update (is_parcel shop barcode) (touched now) rows)

unfoldable pub remove_tracked :
    Option Error → ℕ → String → List TrackedOrder → List TrackedOrder × Option Error
remove_tracked failure shop barcode rows =
    written failure rows (filter (λ t. not (is_parcel shop barcode t)) rows)
