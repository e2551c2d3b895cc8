-- ===== src/Queue/Claiming.antt =====
-- The claim query of internal/queue/queue.go: which rows a claim takes, and how many.
use beleevo_whatsapp.Prelude.{
  leb, ◌==◌, not, nat_eq, string_eq, ==_refl, Bool-cases, length, filter, count, All,
  length-take-le, All-if, Member, All-take, All-map, one-le-count, count_apart, count_or,
  length-filter, All-filter_of_members, count-false, length-map, ℕ, ◌≤◌, ◌≡◌, refl, inl, inr, Bool,
  true, ◌&&◌, List, [], ◌∷◌, arith,
}
use beleevo_whatsapp.Queue.{
  Row, Job, is_due, insert_by_run_at, sort_by_run_at, selected, has_id, leased, job_of, claim,
}

-- The primary key: no two rows share an id.
abbrev pub IdsUnique : List Row → Type 0
IdsUnique rows = (i : ℕ) → count (λ r. r.id == i) rows ≤ 1

abbrev IsDue : (ℕ → Bool) → ℕ → Row → Type 0
IsDue locked now r = is_due locked now r ≡ true

-- A due row stands under this id.
abbrev HasDue : (ℕ → Bool) → ℕ → List Row → Row → Type 0
HasDue locked now rows p = 1 ≤ count (λ r. r.id == p.id && is_due locked now r) rows

All-insert_by_run_at :
    (P : Row → Type 0) (r : Row) (rows : List Row)
    → P r
    → All P rows
    → All P (insert_by_run_at r rows)
unfolding insert_by_run_at
All-insert_by_run_at P r [] hr h = (hr, tt)
All-insert_by_run_at P r (x ∷ xs) hr h =
    All-if P (leb r.run_at x.run_at) (r ∷ x ∷ xs) (x ∷ insert_by_run_at r xs) (hr, h)
      (h.0, All-insert_by_run_at P r xs hr h.1)

All-sort_by_run_at : (P : Row → Type 0) (rows : List Row) → All P rows → All P (sort_by_run_at rows)
unfolding sort_by_run_at
All-sort_by_run_at P [] h = tt
All-sort_by_run_at P (r ∷ rows) h =
    All-insert_by_run_at P r (sort_by_run_at rows) h.0 (All-sort_by_run_at P rows h.1)

module _ (locked : ℕ → Bool) (now limit : ℕ) (rows : List Row) where
  selected-HasDue : All (HasDue locked now rows) (selected locked now limit rows)
  unfolding selected
  selected-HasDue = All-take (HasDue locked now rows) limit _ (
      All-sort_by_run_at (HasDue locked now rows) _ (
        All-filter_of_members (HasDue locked now rows) (is_due locked now) rows
          λ r m due. one-le-count _ m (ground (arith, ==_refl r.id))))

  length-selected : length (selected locked now limit rows) ≤ limit
  unfolding selected
  length-selected = length-take-le limit _

picked_due :
    (locked : ℕ → Bool) (now : ℕ) (rows picked : List Row) (r : Row)
    → All (HasDue locked now rows) picked
    → has_id picked r ≡ true
    → HasDue locked now rows r
picked_due locked now rows [] r h e = cc
picked_due locked now rows (p ∷ ps) r h e = elim (Bool-cases (r.id == p.id)) [
  | inl same ↦ let q : p.id ≡ r.id = ground arith in rw q at h.0
  | inr other ↦ picked_due locked now rows ps r h.1 (ground arith)
]

module _ (locked : ℕ → Bool) (now limit : ℕ) {rows : List Row} (unique : IdsUnique rows) where
  -- Only due rows are taken.
  pub claimed-IsDue :
      {r : Row}
      → Member r rows
      → has_id (selected locked now limit rows) r ≡ true
      → IsDue locked now r
  claimed-IsDue {r} m e = elim (Bool-cases (is_due locked now r)) [
    | inl due ↦ due
    | inr not_due ↦
        let twin : 1 ≤ count (λ x. x.id == r.id && not (is_due locked now x)) rows =
          one-le-count _ m (ground (arith, ==_refl r.id)) in
        let due : HasDue locked now rows r =
          picked_due locked now rows _ r (selected-HasDue locked now limit rows) e in
        let apart =
          count_apart (λ (x : Row). x.id == r.id && is_due locked now x)
            (λ x. x.id == r.id && not (is_due locked now x)) (λ x. x.id == r.id)
            (λ x h. ground arith) (λ x h. ground arith) (λ x h. ground arith) rows in
        absurd (omega (arith, unique r.id))
  ]

count-has_id :
    (rows picked : List Row) → IdsUnique rows → count (has_id picked) rows ≤ length picked
count-has_id rows [] u = omega (arith, count-false rows)
count-has_id rows (p ∷ ps) u =
    let both = count_or (λ (r : Row). r.id == p.id) (has_id ps) rows in
    omega (arith, both, u p.id, count-has_id rows ps u)

-- What a claimed job says of the row that it was made from.
pub record FromDue (locked : ℕ → Bool) (now : ℕ) (rows : List Row) (j : Job) : Type 0 where
  pub row : Row
  pub stands : Member row rows
  pub due : is_due locked now row ≡ true
  pub made : j ≡ job_of (leased now row)

-- A claim over rows with distinct ids returns at most `limit` jobs, each made from a row of the
-- table that was unleased, due and not locked, with one attempt counted on top of the row's own.
pub claim_sound :
    (locked : ℕ → Bool) (now limit : ℕ) (rows : List Row)
    → IdsUnique rows
    → (length (claim locked now limit rows).1 ≤ limit)
      × All (FromDue locked now rows) (claim locked now limit rows).1
unfolding claim
claim_sound locked now limit rows u =
    let picked = selected locked now limit rows in
    (
      omega (
        arith,
        length-map (λ (r : Row). job_of (leased now r)) (filter (has_id picked) rows),
        length-filter (has_id picked) rows,
        count-has_id rows picked u,
        length-selected locked now limit rows,
      ),
      All-map (FromDue locked now rows) _ _ (
          All-filter_of_members _ (has_id picked) rows λ r m e. record {
            row = r;
            stands = m;
            due = claimed-IsDue locked now limit u m e;
            made = refl;
          }),
    )
