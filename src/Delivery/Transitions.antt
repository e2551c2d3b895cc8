-- ===== src/Delivery/Transitions.antt =====
-- What one observation does to the parcels and what it reports: `recordTransition` of
-- internal/delivery/socket.go.
use beleevo_whatsapp.Prelude.{
  ◌==◌, not, ◌!=◌, nat_eq, string_eq, if◌then◌else◌, Bool-cases, find?, update, find-update,
  find-update_other, ℕ, String, ◌≡◌, refl, ap, ◌∙◌, ◌≢◌, ◌⊎◌, inl, inr, Bool, true, false, ◌&&◌,
  ◌||◌, Option, none, some, List, [], ◌∷◌, ◌++◌, arith, eq_iff,
}
use beleevo_whatsapp.Delivery.{
  label_for, TrackedOrder, is_parcel, or_old, observed, update_tracked_status, with_driver,
  attach_driver, touched, touch_tracked,
}
use beleevo_whatsapp.Delivery.Funnel.{
  StatusChange, Observation, OnChanged, change_of, label_of, record_transition,
}

-- The callback that keeps a log of what is reported to it.
abbrev pub logging : OnChanged (List StatusChange)
logging c log = (log ++ c ∷ [], none)

abbrev pub bare : Observation → Bool
bare x = x.driver_name == "" && x.driver_phone == ""

-- The row of a parcel after an observation that is stored.
abbrev pub row_after : ℕ → Observation → TrackedOrder → TrackedOrder
row_after now x t =
    if x.prev == x.status
    then (if bare x then touched now t else with_driver now x.driver_name x.driver_phone t)
    else observed now x.status (label_of x) x.driver_name x.driver_phone t

module _ {W : Type 0} (now : ℕ) (on_changed : Option (OnChanged W)) (x : Observation)
    (rows : List TrackedOrder) (w : W) where
  written_as :
      {f : TrackedOrder → TrackedOrder}
      → ((t : TrackedOrder) → f t ≡ row_after now x t)
      → update (is_parcel x.shop_id x.barcode) f rows
        ≡ update (is_parcel x.shop_id x.barcode) (row_after now x) rows
  written_as e = ap (λ g. update (is_parcel x.shop_id x.barcode) g rows) (λ i t. e t i)

  pub record_transition-rows :
      (record_transition none now on_changed x rows w).0.0
      ≡ update (is_parcel x.shop_id x.barcode) (row_after now x) rows
  unfolding record_transition touch_tracked attach_driver update_tracked_status
  record_transition-rows = elim (Bool-cases (x.prev == x.status)) [
    | inr moved ↦ rw moved (written_as (λ t. rw moved refl))
    | inl same ↦ elim (Bool-cases (bare x)) [
      | inl no_driver ↦ rw (same, no_driver) (written_as (λ t. rw (same, no_driver) refl))
      | inr driver ↦ rw (same, driver) (written_as (λ t. rw (same, driver) refl))
    ]
  ]

-- Whether an observation is reported to the automations.
abbrev pub reported : Observation → Bool
reported x = x.prev != x.status || not (bare x)

abbrev pub reported_change : Observation → StatusChange
reported_change x = change_of x (if x.prev == x.status then label_for x.status else label_of x)

record_transition-log :
    (now : ℕ) (x : Observation) (rows : List TrackedOrder) (log : List StatusChange)
    → (record_transition none now (some logging) x rows log).0.1
      ≡ (if reported x then log ++ reported_change x ∷ [] else log)
unfolding record_transition touch_tracked attach_driver update_tracked_status
record_transition-log now x rows log = elim (Bool-cases (x.prev == x.status)) [
  | inr moved ↦ rw moved refl
  | inl same ↦ elim (Bool-cases (bare x)) [
    | inl no_driver ↦ rw (same, no_driver) refl
    | inr driver ↦ rw (same, driver) refl
  ]
]

pub row_after-key :
    (now : ℕ) (x : Observation) (shop : ℕ) (barcode : String) (t : TrackedOrder)
    → is_parcel shop barcode (row_after now x t) ≡ is_parcel shop barcode t
row_after-key now x shop barcode t = ground arith

-- The parts of the row that an observation may write.
row_after_fields :
    (now : ℕ) (x : Observation) (t : TrackedOrder)
    → let t' = row_after now x t in
      (t'.last_status ≡ (if x.prev == x.status then t.last_status else x.status))
      × (t'.driver_name ≡ or_old x.driver_name t.driver_name)
      × (t'.driver_phone ≡ or_old x.driver_phone t.driver_phone)
      × (t'.last_seen_at ≡ now)
row_after_fields now x t = ground arith

-- One observation whose write succeeds, reported to a log. The parcel's row takes the observed status
-- where it differs from the one known before; it takes the driver's name and phone where they are
-- given and else keeps what it had; every other parcel's row is found as before. The change is
-- reported, once, exactly where the status differs or a driver came with it.
pub record_transition_exact :
    (now : ℕ) (x : Observation) (rows : List TrackedOrder) (log : List StatusChange)
    (t : TrackedOrder)
    → find? (is_parcel x.shop_id x.barcode) rows ≡ some t
    → let ((rows', log'), e) = record_transition none now (some logging) x rows log in
      ((t' : TrackedOrder) × (find? (is_parcel x.shop_id x.barcode) rows' ≡ some t')
        × (t'.last_status ≡ (if x.prev == x.status then t.last_status else x.status))
        × (t'.driver_name ≡ or_old x.driver_name t.driver_name)
        × (t'.driver_phone ≡ or_old x.driver_phone t.driver_phone))
      × ((shop : ℕ) (barcode : String)
          → (shop ≢ x.shop_id) ⊎ (barcode ≢ x.barcode)
          → find? (is_parcel shop barcode) rows' ≡ find? (is_parcel shop barcode) rows)
      × (log' ≡ (if reported x then log ++ reported_change x ∷ [] else log))
record_transition_exact now x rows log t found =
    let (status, name, phone, _) = row_after_fields now x t in
    let mine = is_parcel x.shop_id x.barcode in
    let after = record_transition-rows now (some logging) x rows log in
    (
      (
        row_after now x t,
        rw after (
            find-update mine mine (row_after now x) (row_after-key now x x.shop_id x.barcode)
              (λ _ e. e) rows t found),
        status,
        name,
        phone,
      ),
      λ shop barcode other. rw after (
          find-update_other (is_parcel shop barcode) mine (row_after now x)
            (λ u e. apart shop barcode u other e)
            (λ u e. row_after-key now x shop barcode u ∙ apart shop barcode u other e) rows),
      record_transition-log now x rows log,
    )
  where
    apart :
        (shop : ℕ) (barcode : String) (u : TrackedOrder)
        → (shop ≢ x.shop_id) ⊎ (barcode ≢ x.barcode)
        → is_parcel x.shop_id x.barcode u ≡ true
        → is_parcel shop barcode u ≡ false
    apart shop barcode u other e =
        ground (arith, eq_iff u.barcode barcode, eq_iff u.barcode x.barcode)
