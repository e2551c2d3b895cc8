-- ===== src/Queue/Leases.antt =====
-- Leases in internal/queue/queue.go: what protects a claimed row, and what takes the lease away.
use beleevo_whatsapp.Prelude.{
  ◌==◌, nat_eq, string_eq, take, filter, update, is_none, All, count-update, All-at, All-map,
  All-filter_of_members, All-imp, ℕ, zero, suc, ◌≡◌, refl, ◌∙◌, ◌≢◌, Bool, true, false, List, [],
  ◌∷◌, arith,
}
use beleevo_whatsapp.Queue.{Row, Job, is_due, sort_by_run_at, selected, has_id, leased, claim}
use beleevo_whatsapp.Queue.Claiming.{IdsUnique, claimed-IsDue}

abbrev pub IsLeased : Row → Type 0
IsLeased r = is_none r.lease_until ≡ false

filter-none : (p : Row → Bool) (rows : List Row) → All (λ r. p r ≡ false) rows → filter p rows ≡ []
filter-none p [] h = refl
filter-none p (r ∷ rows) h = ground (arith, filter-none p rows)

take-nil : (n : ℕ) → take {A = Row} n [] ≡ []
take-nil zero = refl
take-nil (suc n) = refl

update-nothing : (f : Row → Row) (rows : List Row) → update (λ _. false) f rows ≡ rows
update-nothing f [] = refl
update-nothing f (r ∷ rows) = rw (update-nothing f rows)

filter-nothing : (rows : List Row) → filter (λ (r : Row). false) rows ≡ []
filter-nothing [] = refl
filter-nothing (r ∷ rows) = filter-nothing rows

not_due_of_leased :
    (locked : ℕ → Bool) (now : ℕ) (rows : List Row)
    → All IsLeased rows
    → All (λ r. is_due locked now r ≡ false) rows
not_due_of_leased locked now [] h = tt
not_due_of_leased locked now (r ∷ rows) h = (ground arith, not_due_of_leased locked now rows h.1)

selected_of_leased :
    (locked : ℕ → Bool) (now limit : ℕ) (rows : List Row)
    → All IsLeased rows
    → selected locked now limit rows ≡ []
unfolding selected sort_by_run_at
selected_of_leased locked now limit rows h =
    rw (filter-none (is_due locked now) rows (not_due_of_leased locked now rows h)) (take-nil limit)

pub not_both : (locked : ℕ → Bool) (now : ℕ) (r : Row) → IsLeased r → is_due locked now r ≡ true → ⊥
not_both locked now r h d = ground arith

-- A claim over a table whose rows all hold a lease takes nothing and changes nothing, whatever the
-- time is: also after every one of those leases has expired.
pub claim-All_leased :
    (locked : ℕ → Bool) (now limit : ℕ) (rows : List Row)
    → All IsLeased rows
    → claim locked now limit rows ≡ (rows, [])
unfolding claim
claim-All_leased locked now limit rows h =
    rw (selected_of_leased locked now limit rows h, update-nothing, filter-nothing)

picked_leased :
    (now : ℕ) (picked rows : List Row)
    → All (λ r. has_id picked r ≡ true → IsLeased r) (update (has_id picked) (leased now) rows)
picked_leased now picked [] = tt
picked_leased now picked (r ∷ rows) = (λ h. ground arith, picked_leased now picked rows)

-- The id of a claimed job is the id of a picked row.
abbrev FromPicked : List Row → Job → Type 0
FromPicked picked k = (r : Row) → r.id ≡ k.id → has_id picked r ≡ true

has_id-same : (picked : List Row) (r s : Row) → r.id ≡ s.id → has_id picked r ≡ has_id picked s
has_id-same [] r s e = refl
has_id-same (p ∷ ps) r s e = cc (has_id-same ps r s e)

claimed_picked :
    (locked : ℕ → Bool) (now limit : ℕ) (rows : List Row)
    → All (FromPicked (selected locked now limit rows)) (claim locked now limit rows).1
unfolding claim
claimed_picked locked now limit rows =
    let picked = selected locked now limit rows in
    All-map (FromPicked picked) _ _
      (All-filter_of_members _ (has_id picked) rows λ r m e s same. has_id-same picked s r same ∙ e)

claim-IdsUnique :
    (now : ℕ) (picked rows : List Row)
    → IdsUnique rows
    → IdsUnique (update (has_id picked) (leased now) rows)
claim-IdsUnique now picked rows u i =
    rw (count-update (λ r. r.id == i) (has_id picked) (leased now) (λ r. refl) rows) (u i)

-- Two claims in a row, at any two times, never hand out the same job: the id of a job of the second
-- claim is the id of no job of the first.
pub claims_apart :
    (locked locked' : ℕ → Bool) (now later limit : ℕ) (rows : List Row)
    → IdsUnique rows
    → let (rows', first) = claim locked now limit rows in
      let second = (claim locked' later limit rows').1 in
      All (λ (j : Job). All (λ (k : Job). j.id ≢ k.id) first) second
claims_apart locked locked' now later limit rows u =
    let picked = selected locked now limit rows in
    let rows' = update (has_id picked) (leased now) rows in
    let firsts = claimed_picked locked now limit rows in
    unfold claim in
    All-map _ _ _ (
      All-filter_of_members _ (has_id (selected locked' later limit rows')) rows' λ r m e.
        All-imp (FromPicked picked) (λ k. r.id ≢ k.id) _
          (λ k from same.
            not_both locked' later r
              (All-at (λ s. has_id picked s ≡ true → IsLeased s) m (picked_leased now picked rows)
                (from r same))
              (claimed-IsDue locked' later limit (claim-IdsUnique now picked rows u) m e))
          firsts)
