-- ===== src/Delivery/Funnel.antt =====
-- internal/delivery/socket.go: `recordTransition`, the one way in which the poller and the socket
-- record an observed status, and `onSocketEvent`. The automations' callback acts on a world W.
use beleevo_whatsapp.Prelude.{
  ◌==◌, nat_eq, string_eq, if◌then◌else◌, Error, Result, ok, err, ℕ, String, ◌&&◌, ◌||◌, Option,
  none, some, List,
}
use beleevo_whatsapp.Delivery.{
  label_for, TrackedOrder, tracked_any_shop_by_barcode, update_tracked_status, attach_driver,
  touch_tracked,
}

pub record StatusChange : Type 0 where
  pub shop_id : ℕ
  pub barcode : String
  pub order_id : String
  pub status : String
  pub label : String
  pub previous : String
  pub driver_name : String
  pub driver_phone : String

-- What is observed of a parcel, and the status that it was known to have.
pub record Observation : Type 0 where
  pub shop_id : ℕ
  pub barcode : String
  pub order_id : String
  pub prev : String
  pub status : String
  pub label_hint : String
  pub driver_name : String
  pub driver_phone : String

abbrev pub OnChanged : Type 0 → Type 0
OnChanged W = StatusChange → W → W × Option Error

abbrev pub change_of : Observation → String → StatusChange
change_of x label = record {
  shop_id = x.shop_id;
  barcode = x.barcode;
  order_id = x.order_id;
  status = x.status;
  label = label;
  previous = x.prev;
  driver_name = x.driver_name;
  driver_phone = x.driver_phone;
}

abbrev pub label_of : Observation → String
label_of x = if x.label_hint == "" then label_for x.status else x.label_hint

pub record MescolisEvent : Type 0 where
  pub barcode : String
  pub status : String
  pub deliveryman_name : String
  pub deliveryman_phone_number : String

abbrev pub observation_of_event : MescolisEvent → TrackedOrder → Observation
observation_of_event e t = record {
  shop_id = t.shop_id;
  barcode = e.barcode;
  order_id = t.order_id;
  prev = t.last_status;
  status = e.status;
  label_hint = "";
  driver_name = e.deliveryman_name;
  driver_phone = e.deliveryman_phone_number;
}

module _ {W : Type 0} where
  abbrev pub report : Option (OnChanged W) → StatusChange → W → W × Option Error
  report none c w = (w, none)
  report (some f) c w = f c w

  -- A failed write ends the transition, before it is reported.
  abbrev pub then_report :
      List TrackedOrder × Option Error
      → W
      → W × Option Error
      → (List TrackedOrder × W) × Option Error
  then_report (rows, some e) w reported = ((rows, w), some e)
  then_report (rows, none) w (w', e) = ((rows, w'), e)

  unfoldable pub record_transition :
      (failure : Option Error) (now : ℕ) (on_changed : Option (OnChanged W))
      → Observation
      → List TrackedOrder
      → W
      → (List TrackedOrder × W) × Option Error
  record_transition failure now on_changed x rows w =
      let touch = touch_tracked failure now x.shop_id x.barcode rows in
      let attach =
        attach_driver failure now x.shop_id x.barcode x.driver_name x.driver_phone rows in
      let move =
        update_tracked_status failure now x.shop_id x.barcode x.status (label_of x) x.driver_name
          x.driver_phone rows in
      if x.prev == x.status
      then (if x.driver_name == "" && x.driver_phone == ""
          then then_report touch w (w, none)
          else then_report attach w (report on_changed (change_of x (label_for x.status)) w))
      else then_report move w (report on_changed (change_of x (label_of x)) w)

  abbrev pub on_resolved :
      Option Error
      → ℕ
      → Option (OnChanged W)
      → MescolisEvent
      → Result (Option TrackedOrder)
      → List TrackedOrder
      → W
      → (List TrackedOrder × W) × Option Error
  on_resolved failure now on_changed e (err x) rows w = ((rows, w), some x)
  on_resolved failure now on_changed e (ok none) rows w = ((rows, w), none)
  on_resolved failure now on_changed e (ok (some t)) rows w =
      record_transition failure now on_changed (observation_of_event e t) rows w

  -- `shop_known` is whether the connection's shop id parses as one.
  unfoldable pub on_socket_event :
      (shop_known : Result ℕ) (lookup failure : Option Error) (now : ℕ)
      (on_changed : Option (OnChanged W))
      → MescolisEvent
      → List TrackedOrder
      → W
      → (List TrackedOrder × W) × Option Error
  on_socket_event (err x) lookup failure now on_changed e rows w = ((rows, w), some x)
  on_socket_event (ok _) lookup failure now on_changed e rows w =
      let resolved =
        on_resolved failure now on_changed e (tracked_any_shop_by_barcode lookup e.barcode rows)
          rows w in
      if e.barcode == "" || e.status == "" then ((rows, w), none) else resolved
