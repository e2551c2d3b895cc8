-- ===== src/Automations/Triggers.antt =====
-- One automation for a trigger: the writes of internal/automations/automations.go in any order.
use beleevo_whatsapp.Prelude.{
  string_eq, nat_eq, ◌==◌, not, Bool-cases, any, update, count, count-append, count-filter-le,
  count-update, any-count, Error, ℕ, ◌≤◌, String, ◌≡◌, refl, inl, inr, Bool, true, false, ◌&&◌,
  Option, none, some, List, [], ◌∷◌, arith, eq_iff,
}
use beleevo_whatsapp.Automations.{
  Automation, Schedule, ScheduleColumns, schedule_to_columns, check_fields, has_id, has_trigger,
  insert_automation, after_check, create, is_automation, rewritten, write_automations, clashes,
  update_automation, set_enabled, delete_automation,
}

-- A write of the table, with any inputs, any failure and any id that the database draws for a new row.
pub data Write (rows : List Automation) : List Automation → Type 0 where
  creates :
      (failure : Option Error) (fresh shop : ℕ) (source status : String) (template : ℕ)
      (s : Option Schedule) (name description : String)
      → Write rows (create failure fresh shop source status template s name description rows).0
  updates :
      (failure : Option Error) (shop id : ℕ) (source status : String) (template : ℕ)
      (s : Option Schedule) (name description : String)
      → Write rows
          (update_automation failure shop id source status template s name description rows).0
  toggles :
      (failure : Option Error) (shop id : ℕ) (enabled : Bool)
      → Write rows (set_enabled failure shop id enabled rows).0
  deletes :
      (failure : Option Error) (shop id : ℕ) → Write rows (delete_automation failure shop id rows).0

pub data Writes (rows : List Automation) : List Automation → Type 0 where
  none_yet : Writes rows rows
  and_then : {mid after : List Automation} → Writes rows mid → Write mid after → Writes rows after

-- No two rows have one id, and no two have one shop, source and status.
pub record IsUnique (rows : List Automation) : Type 0 where
  pub ids : (id : ℕ) → count (has_id id) rows ≤ 1
  pub triggers :
      (shop : ℕ) (source status : String) → count (has_trigger shop source status) rows ≤ 1

absent :
    (new : Automation) (shop : ℕ) (source status : String) (rows : List Automation)
    → any (has_trigger new.shop_id new.event_source new.order_status) rows ≡ false
    → has_trigger shop source status new ≡ true
    → count (has_trigger shop source status) rows ≡ 0
absent new shop source status [] free mine = refl
absent new shop source status (a ∷ rows) free mine = ground (
  arith,
  absent new shop source status rows,
  eq_iff new.event_source source,
  eq_iff new.order_status status,
  eq_iff a.event_source source,
  eq_iff a.order_status status,
  eq_iff a.event_source new.event_source,
  eq_iff a.order_status new.order_status,
)

insert_automation-IsUnique :
    (failure : Option Error) (new : Automation) (rows : List Automation)
    → IsUnique rows
    → IsUnique (insert_automation failure new rows).0
insert_automation-IsUnique (some e) new rows h = h
insert_automation-IsUnique none new rows h =
    elim (Bool-cases (any (has_trigger new.shop_id new.event_source new.order_status) rows)) [
      | inl taken ↦ rw taken h
      | inr free ↦ elim (Bool-cases (any (has_id new.id) rows)) [
        | inl drawn ↦ rw (free, drawn) h
        | inr fresh ↦
            rw (free, fresh)
              (record {
                ids = λ id. ground (
                  arith,
                  count-append (has_id id) rows (new ∷ []),
                  any-count (has_id new.id) rows fresh,
                  h.ids id,
                );
                triggers = λ shop source status. ground (
                  arith,
                  count-append (has_trigger shop source status) rows (new ∷ []),
                  absent new shop source status rows free,
                  h.triggers shop source status,
                );
              })
      ]
    ]

-- A row that takes the trigger where no other row has it.
module _ (shop id : ℕ) (source status : String) (f : Automation → Automation)
    (same_id : (a : Automation) → (f a).id ≡ a.id)
    (same_shop : (a : Automation) → (f a).shop_id ≡ a.shop_id)
    (takes : (a : Automation) → ((f a).event_source ≡ source) × ((f a).order_status ≡ status)) where
  moved_to :
      (rows : List Automation)
      → any (λ a. not (a.id == id) && has_trigger shop source status a) rows ≡ false
      → count (has_trigger shop source status) (update (is_automation shop id) f rows)
        ≤ count (has_id id) rows
  moved_to [] free = omega arith
  moved_to (a ∷ rows) free = ground (arith, moved_to rows, same_id a, same_shop a)

  moved_from :
      (shop' : ℕ) (source' status' : String) (rows : List Automation)
      → (shop ≡ shop' → source ≡ source' → status ≡ status' → ⊥)
      → count (has_trigger shop' source' status') (update (is_automation shop id) f rows)
        ≤ count (has_trigger shop' source' status') rows
  moved_from shop' source' status' [] other = omega arith
  moved_from shop' source' status' (a ∷ rows) other = ground (
    arith,
    moved_from shop' source' status' rows other,
    same_shop a,
    takes a,
    other,
    eq_iff (f a).event_source source',
    eq_iff (f a).order_status status',
  )

not_there :
    (p : Automation → Bool) (f : Automation → Automation) (rows : List Automation)
    → any p rows ≡ false
    → update p f rows ≡ rows
not_there p f [] free = refl
not_there p f (a ∷ rows) free = ground (arith, not_there p f rows)

module _ (shop id : ℕ) (source status : String) (template : ℕ) (c : ScheduleColumns)
    (name description : String) (rows : List Automation) (h : IsUnique rows) where
  abbrev f : Automation → Automation
  f = rewritten source status template c name description

  rewritten-triggers :
      any (λ a. not (a.id == id) && has_trigger shop source status a) rows ≡ false
      → (shop' : ℕ) (source' status' : String)
      → count (has_trigger shop' source' status') (update (is_automation shop id) f rows) ≤ 1
  rewritten-triggers free shop' source' status' =
      elim (Bool-cases (shop == shop' && (source == source' && status == status'))) [
        | inl same ↦
            let e1 : shop' ≡ shop = ground arith in
            let e2 : source' ≡ source = ground (arith, eq_iff source source') in
            let e3 : status' ≡ status = ground (arith, eq_iff status status') in
            let moved =
              moved_to shop id source status f (λ a. refl) (λ a. refl) (λ a. (refl, refl)) rows
                free in
            let one = h.ids id in rw (e1, e2, e3) (omega (arith, moved, one))
        | inr differ ↦
            let moved =
              moved_from shop id source status f (λ a. refl) (λ a. refl) (λ a. (refl, refl)) shop'
                source' status' rows
                (λ e1 e2 e3. absurd (
                  ground
                    (arith, differ, e1, eq_iff source source', eq_iff status status', e2, e3))) in
            let one = h.triggers shop' source' status' in omega (arith, moved, one)
      ]

  rewritten-IsUnique :
      clashes shop id source status rows ≡ false → IsUnique (update (is_automation shop id) f rows)
  rewritten-IsUnique free = elim (Bool-cases (any (is_automation shop id) rows)) [
    | inr no_target ↦ rw (not_there (is_automation shop id) f rows no_target) h
    | inl target ↦
        let free' : any (λ a. not (a.id == id) && has_trigger shop source status a) rows ≡ false =
          rw target at free in
        record {
          ids = λ i.
              rw (count-update (has_id i) (is_automation shop id) f (λ a. refl) rows) (h.ids i);
          triggers = rewritten-triggers free';
        }
  ]

write_automations-IsUnique :
    (failure : Option Error) (clash : Bool) (before after : List Automation)
    → IsUnique before
    → (clash ≡ false → IsUnique after)
    → IsUnique (write_automations failure clash before after).0
write_automations-IsUnique (some e) clash before after h kept = h
write_automations-IsUnique none true before after h kept = h
write_automations-IsUnique none false before after h kept = kept refl

after_check-IsUnique :
    (e : Option Error) (rows : List Automation) (written : List Automation × Option Error)
    → IsUnique rows
    → IsUnique written.0
    → IsUnique (after_check e rows written).0
after_check-IsUnique (some e) rows written h h' = h
after_check-IsUnique none rows written h h' = h'

Write-IsUnique : {rows rows' : List Automation} → Write rows rows' → IsUnique rows → IsUnique rows'
unfolding create update_automation set_enabled delete_automation
Write-IsUnique {rows} (creates failure fresh shop source status template s name description) h =
    after_check-IsUnique (check_fields source status template) rows _ h
      (insert_automation-IsUnique failure _ rows h)
Write-IsUnique {rows} (updates failure shop id source status template s name description) h =
    after_check-IsUnique (check_fields source status template) rows _ h (
      write_automations-IsUnique failure (clashes shop id source status rows) rows _ h (
        rewritten-IsUnique shop id source status template (schedule_to_columns s) name description
          rows h))
Write-IsUnique {rows} (toggles failure shop id enabled) h =
    let switch : Automation → Automation = λ a. record a { enabled = enabled } in
    write_automations-IsUnique failure false rows (update (is_automation shop id) switch rows) h
      λ _. record {
        ids = λ i.
            rw (count-update (has_id i) (is_automation shop id) switch (λ a. refl) rows) (h.ids i);
        triggers = λ t source status.
            rw
              (count-update (has_trigger t source status) (is_automation shop id) switch (λ a. refl)
                rows)
              (h.triggers t source status);
      }
Write-IsUnique {rows} (deletes failure shop id) h =
    write_automations-IsUnique failure false rows _ h λ _. record {
      ids = λ i.
          let less = count-filter-le (has_id i) (λ a. not (is_automation shop id a)) rows in
          let one = h.ids i in omega (arith, less, one);
      triggers = λ t source status.
          let less =
            count-filter-le (has_trigger t source status) (λ a. not (is_automation shop id a))
              rows in
          let one = h.triggers t source status in omega (arith, less, one);
    }

-- From an empty table, whatever automations are created, changed, switched and deleted, whatever writes
-- fail and whatever ids the database draws, a shop never has two automations for one source and status, and no id stands twice.
pub Writes-IsUnique : {rows : List Automation} → Writes [] rows → IsUnique rows
Writes-IsUnique none_yet = record {
  ids = λ i. omega arith;
  triggers = λ t source status. omega arith;
}
Writes-IsUnique (and_then ws w) = Write-IsUnique w (Writes-IsUnique ws)
