-- ===== src/Delivery/Misses.antt =====
-- When a parcel that the carrier does not list is settled: `MarkMissingUpstream` of
-- internal/delivery/tracked.go among the sightings that `recordTransition` of socket.go records.
use beleevo_whatsapp.Prelude.{
  leb, ◌==◌, nat_eq, string_eq, if◌then◌else◌, find?, find-update, pos, ℕ, ◌+◌, String, ◌≡◌, refl,
  Bool, false, ◌&&◌, ◌||◌, none, some, List, [], ◌∷◌, arith, eq_iff,
}
use beleevo_whatsapp.Delivery.{
  status_removed_upstream, misses_before_settled, TrackedOrder, is_parcel, missed,
  mark_missing_upstream,
}
use beleevo_whatsapp.Delivery.Transitions.{row_after, record_transition-rows, row_after-key}
use beleevo_whatsapp.Delivery.Funnel.{Observation, record_transition}

-- The carrier's answers about a parcel whose status it does not change: it does not know the
-- barcode, or it lists it, perhaps with a driver.
pub data Answer : Type 0 where
  missing : Answer
  listed : (driver_name driver_phone : String) → Answer

abbrev sighting : ℕ → String → String → String → String → Observation
sighting shop barcode status name phone = record {
  shop_id = shop;
  barcode = barcode;
  order_id = "";
  prev = status;
  status = status;
  label_hint = "";
  driver_name = name;
  driver_phone = phone;
}

abbrev answered : ℕ → String → String → ℕ → Answer → List TrackedOrder → List TrackedOrder
answered shop barcode status now missing rows =
    (mark_missing_upstream none now shop barcode (pos misses_before_settled) rows).0
answered shop barcode status now (listed name phone) rows =
    (record_transition {W = Unit} none now none (sighting shop barcode status name phone) rows
      tt).0.0

-- The table after the answers, the latest first, each at its time.
unfoldable pub after_answers :
    ℕ → String → String → List (ℕ × Answer) → List TrackedOrder → List TrackedOrder
after_answers shop barcode status [] rows = rows
after_answers shop barcode status ((now, a) ∷ past) rows =
    answered shop barcode status now a (after_answers shop barcode status past rows)

-- The misses since the last sighting without a driver: one with a driver does not start anew.
unfoldable pub counted : List (ℕ × Answer) → ℕ
counted [] = 0
counted ((now, missing) ∷ past) = counted past + 1
counted ((now, listed name phone) ∷ past) =
    let before = counted past in if name == "" && phone == "" then 0 else before

unfoldable pub settles : List (ℕ × Answer) → Bool
unfolding counted
settles [] = false
settles ((now, missing) ∷ past) = settles past || leb misses_before_settled (counted past + 1)
settles ((now, listed name phone) ∷ past) = settles past

-- What the history says of the parcel's row.
record Follows (t0 : TrackedOrder) (past : List (ℕ × Answer)) (t : TrackedOrder) : Type 0 where
  counts : t.missing_count ≡ counted past
  status : t.last_status ≡ (if settles past then status_removed_upstream else t0.last_status)

module _ (shop : ℕ) (barcode status : String) (t0 : TrackedOrder) where
  Follows-missing :
      (now : ℕ) (past : List (ℕ × Answer)) (t : TrackedOrder)
      → Follows t0 past t
      → Follows t0 ((now, missing) ∷ past) (missed now 3 t)
  unfolding counted settles
  Follows-missing now past t h = record {
    counts = ground (arith, h.counts);
    status = ground (arith, h.counts, h.status);
  }

  answered-Follows :
      (now : ℕ) (a : Answer) (past : List (ℕ × Answer)) (rows : List TrackedOrder)
      (t : TrackedOrder)
      → find? (is_parcel shop barcode) rows ≡ some t
      → Follows t0 past t
      → (t' : TrackedOrder) × (find?
            (is_parcel shop barcode)
            (answered shop barcode status now a rows)
          ≡ some t')
        × Follows t0 ((now, a) ∷ past) t'
  unfolding mark_missing_upstream counted settles
  answered-Follows now missing past rows t found h = (
    missed now 3 t,
    find-update (is_parcel shop barcode) (is_parcel shop barcode) (missed now 3) (λ x. refl)
        (λ x e. e) rows t found,
    Follows-missing now past t h,
  )
  answered-Follows now (listed name phone) past rows t found h =
      let x = sighting shop barcode status name phone in
      let mine = is_parcel shop barcode in
      (
        row_after now x t,
        rw (record_transition-rows {W = Unit} now none x rows tt) (
            find-update mine mine (row_after now x) (row_after-key now x shop barcode) (λ _ e. e)
              rows t found),
        record {
          counts = ground (arith, h.counts, eq_iff status status);
          status = ground (arith, h.status, eq_iff status status);
        },
      )

  after_answers-Follows :
      (past : List (ℕ × Answer)) (rows : List TrackedOrder)
      → find? (is_parcel shop barcode) rows ≡ some t0
      → t0.missing_count ≡ 0
      → (t : TrackedOrder) × (find?
            (is_parcel shop barcode)
            (after_answers shop barcode status past rows)
          ≡ some t)
        × Follows t0 past t
  unfolding after_answers
  after_answers-Follows [] rows found fresh =
      (t0, found, record { counts = unfold counted in fresh; status = unfold settles in refl })
  after_answers-Follows ((now, a) ∷ past) rows found fresh =
      let (t, found', h) = after_answers-Follows past rows found fresh in
      answered-Follows now a past (after_answers shop barcode status past rows) t found' h

-- A parcel that the carrier knew, followed over any answers that leave its status alone, is settled past
-- removed exactly where three misses were counted with no sighting without a driver between them, and
-- else keeps its status. Sightings with a driver do not interrupt the count.
pub settled_exactly :
    (shop : ℕ) (barcode status : String) (past : List (ℕ × Answer)) (rows : List TrackedOrder)
    (t0 : TrackedOrder)
    → find? (is_parcel shop barcode) rows ≡ some t0
    → t0.missing_count ≡ 0
    → (t : TrackedOrder) × (find?
          (is_parcel shop barcode)
          (after_answers shop barcode status past rows)
        ≡ some t)
      × (t.missing_count ≡ counted past)
      × (t.last_status ≡ (if settles past then status_removed_upstream else t0.last_status))
settled_exactly shop barcode status past rows t0 found fresh =
    let (t, found', h) = after_answers-Follows shop barcode status t0 past rows found fresh in
    (t, found', h.counts, h.status)
