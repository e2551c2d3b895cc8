-- ===== src/Delivery/Polling.antt =====
-- internal/delivery/service.go: `Reconcile`, the sweep of the poller, with `pickConnection` and
-- `pollConnection`, and `GetOrders` of mescolis.go over the carrier's answer.
pub mod Coverage
use beleevo_whatsapp.Prelude.{
  ◌==◌, not, nat_eq, string_eq, if◌then◌else◌, filter, find?, is_none, pos, Error, message, Result,
  ok, err, ℕ, String, Bool, true, false, ◌&&◌, Option, none, some, List, [], ◌∷◌, map,
}
use beleevo_whatsapp.Delivery.{
  misses_before_settled, status_terminal, TrackedOrder, mark_missing_upstream,
}
use beleevo_whatsapp.Delivery.Funnel.{Observation, OnChanged, record_transition}

abbrev pub provider_mescolis : String
provider_mescolis = "mescolis"

pub record Integration : Type 0 where
  pub shop_id : ℕ
  pub provider : String
  pub access_token_encrypted : String
  pub account_code : String
  pub allow_sub_account : Bool

pub record Connection : Type 0 where
  pub shop : ℕ
  pub integ : Integration
  pub token : String

pub record MescolisOrderStatus : Type 0 where
  pub barcode : String
  pub status : String
  pub status_label : String
  pub deliveryman_name : String
  pub deliveryman_phone_number : String

pub record GetOrdersResponse : Type 0 where
  pub orders : List MescolisOrderStatus
  pub not_found : List String

-- What a sweep meets: `decrypt` is `none` where there is no cipher, `fetch` is the carrier's answer to
-- a request, `failing` the error of the write for a barcode, and `arrange` the order in which a map
-- of connections is walked.
pub record Sweep : Type 0 where
  pub now : ℕ
  pub decrypt : Option (String → Result String)
  pub fetch : Connection → List String → Result GetOrdersResponse
  pub failing : String → Option Error
  pub arrange : List Connection → List Connection
  pub integrations_failure : Option Error
  pub tables_missing : Bool
  pub shops_failure : Option Error
  pub tracked_failure : Option Error

abbrev pub opened : Integration → Result String → List Connection → List Connection
opened i (err e) rest = rest
opened i (ok token) rest =
    if token == "" then rest else record { shop = i.shop_id; integ = i; token = token } ∷ rest

abbrev pub with_cipher :
    Option (String → Result String) → Integration → List Connection → List Connection
with_cipher none i rest = rest
with_cipher (some decrypt) i rest = opened i (decrypt i.access_token_encrypted) rest

-- The connections that can be used, in the order of the table.
unfoldable pub usable : Option (String → Result String) → List Integration → List Connection
usable decrypt [] = []
usable decrypt (i ∷ is) =
    let rest = usable decrypt is in
    if i.provider == provider_mescolis then with_cipher decrypt i rest else rest

abbrev pub first_of : List Connection → Option Connection
first_of [] = none
first_of (c ∷ cs) = some c

abbrev pub or_first : Option Connection → List Connection → Option Connection
or_first (some c) shared = some c
or_first none shared = first_of shared

-- The shop's own connection (a shop has one for a provider), or the operator's.
unfoldable pub pick_connection : ℕ → List Connection → Option Connection
pick_connection shop shared = or_first (find? (λ c. c.shop == shop) shared) shared

-- The rows of the shops that have a connection, without the settled ones.
abbrev pub is_active : List Connection → TrackedOrder → Bool
is_active shared t =
    not (is_none (pick_connection t.shop_id shared)) && not (status_terminal t.last_status)

abbrev pub polled_by : Connection → Option Connection → Bool
polled_by c none = false
polled_by c (some d) = d.shop == c.shop

unfoldable pub parcels_of : List Connection → Connection → List TrackedOrder → List TrackedOrder
parcels_of shared c rows =
    filter (λ t. is_active shared t && polled_by c (pick_connection t.shop_id shared)) rows

-- `byBarcode`: of two parcels with one barcode, the later.
unfoldable pub by_barcode : String → List TrackedOrder → Option TrackedOrder
by_barcode barcode [] = none
by_barcode barcode (t ∷ ts) =
    let rest = by_barcode barcode ts in
    if is_none rest && t.barcode == barcode then some t else rest

abbrev pub is_nil : List String → Bool
is_nil [] = true
is_nil (_ ∷ _) = false

unfoldable pub get_orders : Sweep → Connection → List String → Result GetOrdersResponse
get_orders sweep c barcodes =
    if c.token == ""
    then err (message "mescolis api key is not configured")
    else if is_nil barcodes
    then ok (record { orders = []; not_found = [] })
    else sweep.fetch c barcodes

abbrev pub observation_of : MescolisOrderStatus → TrackedOrder → Observation
observation_of remote t = record {
  shop_id = t.shop_id;
  barcode = remote.barcode;
  order_id = t.order_id;
  prev = t.last_status;
  status = remote.status;
  label_hint = remote.status_label;
  driver_name = remote.deliveryman_name;
  driver_phone = remote.deliveryman_phone_number;
}

abbrev pub shop_of : Option TrackedOrder → ℕ
shop_of none = 0
shop_of (some t) = t.shop_id

module _ {W : Type 0} (sweep : Sweep) (on_changed : Option (OnChanged W)) where
  abbrev pub record_remote :
      MescolisOrderStatus → Option TrackedOrder → List TrackedOrder × W → List TrackedOrder × W
  record_remote remote none (rows, w) = (rows, w)
  record_remote remote (some t) (rows, w) =
      (record_transition (sweep.failing remote.barcode) sweep.now on_changed
        (observation_of remote t) rows w).0

  -- An order that fails is logged, and the next one is recorded all the same.
  unfoldable pub record_orders :
      List TrackedOrder → List MescolisOrderStatus → List TrackedOrder × W → List TrackedOrder × W
  record_orders parcels [] state = state
  record_orders parcels (remote ∷ rest) state =
      record_orders parcels rest (record_remote remote (by_barcode remote.barcode parcels) state)

  unfoldable pub record_missing :
      List TrackedOrder → List String → List TrackedOrder → List TrackedOrder
  record_missing parcels [] rows = rows
  record_missing parcels (barcode ∷ rest) rows =
      record_missing parcels rest
        (mark_missing_upstream (sweep.failing barcode) sweep.now
          (shop_of (by_barcode barcode parcels)) barcode (pos misses_before_settled) rows).0

  abbrev pub poll_answer :
      List TrackedOrder
      → Result GetOrdersResponse
      → List TrackedOrder × W
      → (List TrackedOrder × W) × Option Error
  poll_answer parcels (err e) state = (state, some e)
  poll_answer parcels (ok answer) state =
      let (rows, w) = record_orders parcels answer.orders state in
      ((record_missing parcels answer.not_found rows, w), none)

  unfoldable pub poll_connection :
      Connection
      → List TrackedOrder
      → List TrackedOrder × W
      → (List TrackedOrder × W) × Option Error
  poll_connection c parcels state =
      poll_answer parcels (get_orders sweep c (map (λ t. t.barcode) parcels)) state

  abbrev pub is_empty : List TrackedOrder → Bool
  is_empty [] = true
  is_empty (_ ∷ _) = false

  -- The groups are those of the table as the sweep read it, `read`.
  unfoldable pub poll_groups :
      List Connection
      → List TrackedOrder
      → List Connection
      → List TrackedOrder × W
      → List TrackedOrder × W
  poll_groups shared read [] state = state
  poll_groups shared read (c ∷ cs) state =
      let parcels = parcels_of shared c read in
      let polled = poll_connection c parcels state in
      let next = poll_groups shared read cs polled.0 in
      let skipped = poll_groups shared read cs state in if is_empty parcels then skipped else next

  abbrev pub first_failure : Option Error → Option Error → Option Error
  first_failure (some e) next = some e
  first_failure none next = next

  unfoldable pub poll_all :
      List Connection → List TrackedOrder × W → (List TrackedOrder × W) × Option Error
  poll_all shared (rows, w) =
      elim (first_failure sweep.shops_failure
        (if is_empty rows then none else sweep.tracked_failure)) [
          | some e ↦ ((rows, w), some e)
          | none ↦ (poll_groups shared rows (sweep.arrange shared) (rows, w), none)
        ]

  -- A missing table pauses the poller; a failed read of the connections ends the sweep.
  unfoldable pub reconcile :
      List Integration → List TrackedOrder × W → (List TrackedOrder × W) × Option Error
  reconcile integrations state = elim sweep.integrations_failure [
    | some e ↦ (state, if sweep.tables_missing then none else some e)
    | none ↦
        let shared = usable sweep.decrypt integrations in
        let polled = poll_all shared state in
        if is_none (first_of shared) then (state, none) else polled
  ]
