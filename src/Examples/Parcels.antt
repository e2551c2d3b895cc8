-- ===== src/Examples/Parcels.antt =====
-- Watched parcels at concrete inputs.
use beleevo_whatsapp.Prelude.{
  ◌==◌, nat_eq, string_eq, if◌then◌else◌, find?, count, here, ℕ, ◌+◌, ◌*◌, ◌≤◌, String, ◌≡◌, refl,
  ◌≢◌, ◌⊎◌, true, false, none, some, List, [], ◌∷◌, ◌++◌, arith,
}
use beleevo_whatsapp.Delivery.{
  status_removed_upstream, status_terminal, TrackedOrder, is_parcel, or_old,
}
use beleevo_whatsapp.Delivery.Funnel.{Observation, record_transition}
use beleevo_whatsapp.Delivery.Misses.{
  Answer, missing, listed, after_answers, counted, settles, settled_exactly,
}
use beleevo_whatsapp.Delivery.Transitions.{
  logging, reported, reported_change, record_transition_exact,
}
use beleevo_whatsapp.Delivery.Polling.{provider_mescolis, Connection, parcels_of}
use beleevo_whatsapp.Delivery.Polling.Coverage.{asks_for, asked_once}
use beleevo_whatsapp.Delivery.Socket.{
  second, socket_base_backoff, socket_max_backoff, socket_backoff, socket_backoff_bounds,
}

abbrev parcel : TrackedOrder
parcel = record {
  id = 1;
  shop_id = 2;
  barcode = "B1";
  order_id = "A17";
  customer_id = 5;
  customer_name = "Amel";
  customer_phone = "21620000000";
  last_status = "in-progress";
  status_label = "Out for delivery";
  driver_name = "";
  driver_phone = "";
  missing_count = 0;
  last_missing_at = none;
  last_seen_at = 10;
}

-- Three misses, with a sighting of the parcel and its driver before each of the last two.
abbrev interrupted : List (ℕ × Answer)
interrupted =
    (50, missing)
    ∷ (40, listed "Ali" "22")
    ∷ (30, missing)
    ∷ (20, listed "Ali" "22")
    ∷ (11, missing)
    ∷ []

settled_exactly_example :
    (t : TrackedOrder) × (find?
        (is_parcel 2 "B1")
        (after_answers 2 "B1" "in-progress" interrupted (parcel ∷ []))
      ≡ some t)
    × (t.missing_count ≡ counted interrupted)
    × (t.last_status ≡ (if settles interrupted then status_removed_upstream else "in-progress"))
settled_exactly_example =
    settled_exactly 2 "B1" "in-progress" interrupted (parcel ∷ []) parcel refl refl

interrupted-settles : settles interrupted ≡ true
unfolding settles counted
interrupted-settles = refl

abbrev delivered : Observation
delivered = record {
  shop_id = 2;
  barcode = "B1";
  order_id = "A17";
  prev = "in-progress";
  status = "delivered";
  label_hint = "";
  driver_name = "Ali";
  driver_phone = "";
}

record_transition_exact_example :
    let ((rows', log'), e) = record_transition none 60 (some logging) delivered (parcel ∷ []) [] in
    ((t' : TrackedOrder) × (find? (is_parcel 2 "B1") rows' ≡ some t')
      × (t'.last_status
          ≡ (if delivered.prev == delivered.status then "in-progress" else "delivered"))
      × (t'.driver_name ≡ or_old "Ali" "")
      × (t'.driver_phone ≡ or_old "" ""))
    × ((shop : ℕ) (barcode : String)
        → (shop ≢ 2) ⊎ (barcode ≢ "B1")
        → find? (is_parcel shop barcode) rows' ≡ find? (is_parcel shop barcode) (parcel ∷ []))
    × (log' ≡ (if reported delivered then [] ++ reported_change delivered ∷ [] else []))
record_transition_exact_example = record_transition_exact 60 delivered (parcel ∷ []) [] parcel refl

abbrev connection : Connection
connection = record {
  shop = 7;
  integ = record {
    shop_id = 7;
    provider = provider_mescolis;
    access_token_encrypted = "sealed";
    account_code = "";
    allow_sub_account = false;
  };
  token = "token";
}

asked_once_example :
    count (λ d. asks_for 1 (parcels_of (connection ∷ []) d (parcel ∷ []))) (connection ∷ [])
    ≡ (if status_terminal "in-progress" then 0 else 1)
asked_once_example =
    asked_once connection [] (parcel ∷ []) parcel (λ shop. ground arith) (omega arith) here

socket_backoff_bounds_example :
    (socket_base_backoff ≤ socket_backoff (4 ∷ 0 ∷ 3 ∷ []))
    × (socket_backoff (4 ∷ 0 ∷ 3 ∷ []) ≤ socket_max_backoff + 4 * second)
socket_backoff_bounds_example =
    socket_backoff_bounds (4 ∷ 0 ∷ 3 ∷ []) (omega arith, (omega arith, (omega arith, tt)))
