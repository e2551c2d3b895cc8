-- ===== src/Queue/Enqueueing.antt =====
-- `Enqueue` of internal/queue/queue.go, and the unique indexes of `job_queue` that it relies on.
use beleevo_whatsapp.Prelude.{
  ◌==◌, not, nat_eq, string_eq, if◌then◌else◌, ==_refl, Bool-cases, any, count, count-append, Error,
  ℕ, ◌≤◌, String, ◌≡◌, refl, ◌≢◌, ◌↔◌, inl, inr, Bool, true, false, Option, none, some, List, [],
  ◌∷◌, ◌++◌, arith, eq_iff,
}
use beleevo_whatsapp.Queue.{Row, Params, same_key, conflicts, insert_row, row_of, enqueue}
use beleevo_whatsapp.Queue.Claiming.{IdsUnique}

-- No two rows share a kind and a dedupe key that is not empty.
abbrev pub KeysUnique : List Row → Type 0
KeysUnique rows = (kind key : String) → key ≢ "" → count (same_key kind key) rows ≤ 1

same_key-sym :
    (kind key : String) (new r : Row)
    → same_key kind key new ≡ true
    → same_key new.kind new.dedupe_key r ≡ same_key kind key r
same_key-sym kind key new r h = ground (arith, eq_iff new.kind kind, eq_iff new.dedupe_key key)

count_fresh :
    (kind key : String) (new : Row) (rows : List Row)
    → same_key kind key new ≡ true
    → any (conflicts new) rows ≡ false
    → count (same_key kind key) rows ≡ 0
count_fresh kind key new [] s h = refl
count_fresh kind key new (r ∷ rows) s h =
    ground (arith, same_key-sym kind key new r s, count_fresh kind key new rows s)

pub insert_row-KeysUnique :
    (new : Row) (rows : List Row) → KeysUnique rows → KeysUnique (insert_row new rows)
unfolding insert_row
insert_row-KeysUnique new rows u kind key named = ground (
  arith,
  u kind key named,
  count-append (same_key kind key) rows (new ∷ []),
  count_fresh kind key new rows,
)

pub count_fresh_id :
    (new : Row) (rows : List Row)
    → any (conflicts new) rows ≡ false
    → count (λ r. r.id == new.id) rows ≡ 0
count_fresh_id new [] h = refl
count_fresh_id new (r ∷ rows) h = ground (arith, count_fresh_id new rows)

pub insert_row-IdsUnique :
    (new : Row) (rows : List Row) → IdsUnique rows → IdsUnique (insert_row new rows)
unfolding insert_row
insert_row-IdsUnique new rows u i = elim (Bool-cases (new.id == i)) [
  | inl same ↦
      let e : new.id ≡ i = ground arith in
      rw (← e) (
        ground (
          arith,
          u new.id,
          count-append (λ r. r.id == new.id) rows (new ∷ []),
          count_fresh_id new rows,
        ))
  | inr other ↦ ground (arith, u i, count-append (λ r. r.id == i) rows (new ∷ []))
]

-- The checks that `Enqueue` makes before it asks the database.
pub record IsAcceptable (has_db : Bool) (p : Params) : Type 0 where
  pub kind : (p.kind == "") ≡ false
  pub shop : (p.shop_id == 0) ≡ false
  pub payload : (p.payload == "") ≡ false
  pub handle : has_db ≡ true

if-both :
    (P : List Row → Type 0) (b : Bool) (e : Error) (rows : List Row) (r : List Row × Option Error)
    → P rows
    → P r.0
    → P (if b then (rows, some e) else r).0
if-both P true e rows r h k = h
if-both P false e rows r h k = k

-- An `Enqueue` either leaves the table alone or inserts the job's row.
pub enqueue_cases :
    (P : List Row → Type 0) (has_db : Bool) (failure : Option Error) (now fresh : ℕ) (p : Params)
    (rows : List Row)
    → P rows
    → P (insert_row (row_of now fresh p) rows)
    → P (enqueue has_db failure now fresh p rows).0
unfolding enqueue
enqueue_cases P has_db none now fresh p rows h k = if-both P (p.kind == "") _ rows _ h (
    if-both P (p.shop_id == 0) _ rows _ h
      (if-both P (p.payload == "") _ rows _ h (if-both P (not has_db) _ rows _ h k)))
enqueue_cases P has_db (some x) now fresh p rows h k = if-both P (p.kind == "") _ rows _ h (
    if-both P (p.shop_id == 0) _ rows _ h
      (if-both P (p.payload == "") _ rows _ h (if-both P (not has_db) _ rows _ h h)))

any-append_one :
    (q : Row → Bool) (rows : List Row) (new : Row) → q new ≡ true → any q (rows ++ new ∷ []) ≡ true
any-append_one q [] new h = ground arith
any-append_one q (r ∷ rows) new h = ground (arith, any-append_one q rows new h)

insert_row-stands : (new : Row) (rows : List Row) → any (conflicts new) (insert_row new rows) ≡ true
unfolding insert_row
insert_row-stands new rows = ground (arith, any-append_one (conflicts new) rows new, ==_refl new.id)

-- `Enqueue` succeeds exactly where the job names a kind, a shop and a payload, there is a handle, and
-- the INSERT does not fail. On success a row with the job's kind and dedupe key, or with its id,
-- stands in the table, with at least one attempt allowed in a row of its own; on failure the table is
-- as it was.
pub enqueue_outcome :
    (has_db : Bool) (failure : Option Error) (now fresh : ℕ) (p : Params) (rows : List Row)
    → let (rows', e) = enqueue has_db failure now fresh p rows in
      ((e ≡ none) ↔ (IsAcceptable has_db p × (failure ≡ none)))
      × (e ≡ none → any (conflicts (row_of now fresh p)) rows' ≡ true)
      × (e ≢ none → rows' ≡ rows)
      × (1 ≤ (row_of now fresh p).max_attempts)
unfolding enqueue
enqueue_outcome has_db none now fresh p rows =
    let stands = insert_row-stands (row_of now fresh p) rows in
    (
      (λ h. ground arith, λ h. ground arith),
      λ h. ground (arith, stands),
      λ h. ground arith,
      ground arith,
    )
enqueue_outcome has_db (some x) now fresh p rows =
    ((λ h. ground arith, λ h. cc (h.1)), λ h. ground arith, λ h. ground arith, ground arith)
