-- ===== src/Queue/Attempts.antt =====
-- How often a job of internal/queue/queue.go runs: the table together with the jobs that runners
-- hold, over all interleavings of callers, claims, finished runs and crashes.
use beleevo_whatsapp.Prelude.{
  ◌==◌, ◌!=◌, nat_eq, string_eq, Bool-cases, filter, any, update, count, is_none, All, count-append,
  count-update, All-append, All-if, All-filter, Member, here, there, one-le-count, All-update_cases,
  count-filter_imp, Error, ℕ, ◌≤◌, ◌<◌, String, ◌≡◌, refl, sym, ◌∙◌, inl, inr, Bool, true, false,
  Option, List, [], ◌∷◌, ◌++◌, arith,
}
use mathlib.Core.Path.{subst}
use beleevo_whatsapp.Queue.Enqueueing.{count_fresh_id}
use beleevo_whatsapp.Queue.{Row, Params, conflicts, insert_row, enqueue, Job, decide, claim, settle}
use beleevo_whatsapp.Queue.Claiming.{IdsUnique}
use beleevo_whatsapp.Queue.Leases.{IsLeased}
use beleevo_whatsapp.Queue.Steps.{IsIndexed}

pub record System : Type 0 where
  pub rows : List Row
  pub in_flight : List Job

abbrev pub others : Job → List Job → List Job
others job = filter (λ k. k.id != job.id)

-- A finished run settles the job by what its handler returned; a crash loses every job that the
-- runner held, and leaves the rows.
pub data SystemStep (s : System) : System → Type 0 where
  enqueues :
      (has_db : Bool) (failure : Option Error) (now fresh : ℕ) (p : Params)
      → SystemStep s (record s { rows = (enqueue has_db failure now fresh p s.rows).0 })
  claims :
      (locked : ℕ → Bool) (now limit : ℕ)
      → SystemStep s (record {
        rows = (claim locked now limit s.rows).0;
        in_flight = (claim locked now limit s.rows).1 ++ s.in_flight;
      })
  finishes :
      (show : Error → String) (failure : Option Error) (now : ℕ) (job : Job) (r : Option Error)
      → Member job s.in_flight
      → SystemStep s (record {
        rows = settle show failure now (decide r job) job s.rows;
        in_flight = others job s.in_flight;
      })
  crashes : SystemStep s (record s { in_flight = [] })

pub data SystemReach : System → Type 0 where
  boot : SystemReach (record { rows = []; in_flight = [] })
  after : {s s' : System} → SystemReach s → SystemStep s s' → SystemReach s'

abbrev pub IsBounded : Row → Type 0
IsBounded r =
    (r.attempts ≤ r.max_attempts) × (is_none r.lease_until ≡ true → r.attempts < r.max_attempts)

-- The row under a held job's id is leased, and agrees with the job.
abbrev pub Agrees : Job → Row → Type 0
Agrees j r =
    r.id ≡ j.id → IsLeased r × (r.attempts ≡ j.attempts) × (r.max_attempts ≡ j.max_attempts)

abbrev pub IsHeld : List Row → Job → Type 0
IsHeld rows j = (1 ≤ count (λ r. r.id == j.id) rows) × All (Agrees j) rows

pub record IsSound (s : System) : Type 0 where
  pub indexed : IsIndexed s.rows
  pub bounded : All IsBounded s.rows
  pub held : All (IsHeld s.rows) s.in_flight

pub eq_of_id :
    {r q : Row} {rows : List Row}
    → IdsUnique rows
    → Member r rows
    → Member q rows
    → r.id ≡ q.id
    → r ≡ q
eq_of_id u here here e = refl
eq_of_id {r} u here (there {xs = xs} m) e =
    absurd (ground (arith, u r.id, one-le-count (λ x. x.id == r.id) m (ground arith)))
eq_of_id {r} {q} u (there {xs = xs} m) here e =
    absurd (ground (arith, u q.id, one-le-count (λ x. x.id == q.id) m (ground arith)))
eq_of_id u (there {x = x} {xs = xs} m) (there m') e = eq_of_id (λ i. ground (arith, u i)) m m' e

-- An insert of a row changes nothing for a job that is held.
pub IsHeld-insert :
    (new : Row) (rows : List Row) (j : Job) → IsHeld rows j → IsHeld (insert_row new rows) j
unfolding insert_row
IsHeld-insert new rows j h = elim (Bool-cases (any (conflicts new) rows)) [
  | inl old ↦ rw old h
  | inr fresh ↦ rw fresh (
    ground (arith, h.0, count-append (λ r. r.id == j.id) rows (new ∷ [])),
    All-append (Agrees j) rows (new ∷ []) h.1 (
      (λ e. absurd (
          let e' : new.id ≡ j.id = e in
          ground (
            arith,
            h.0,
            subst (λ i. count (λ r. r.id == i) rows ≡ 0) e' (count_fresh_id new rows fresh),
          ))),
      tt,
    ),
  )
]

pub IsBounded-insert :
    (new : Row) (rows : List Row)
    → IsBounded new
    → All IsBounded rows
    → All IsBounded (insert_row new rows)
unfolding insert_row
IsBounded-insert new rows b h =
    All-if IsBounded (any (conflicts new) rows) rows _ h
      (All-append IsBounded rows (new ∷ []) h (b, tt))

-- An update that misses a held job's row leaves it alone.
pub IsHeld-update :
    (p : Row → Bool) (f : Row → Row) (rows : List Row) (j : Job)
    → ((r : Row) → (f r).id ≡ r.id)
    → ((r : Row) → Member r rows → r.id ≡ j.id → p r ≡ false)
    → IsHeld rows j
    → IsHeld (update p f rows) j
IsHeld-update p f rows j same misses h = (
  rw (count-update (λ r. r.id == j.id) p f (λ r. cc (same r)) rows) h.0,
  All-update_cases (Agrees j) (Agrees j) p f rows
      (λ r m a hit e. absurd (let missed = misses r m (sym (same r) ∙ e) in cc)) (λ r m a miss. a)
      h.1,
)

pub IsHeld-delete :
    (job j : Job) (rows : List Row)
    → (j.id != job.id) ≡ true
    → IsHeld rows j
    → IsHeld (filter (λ r. r.id != job.id) rows) j
IsHeld-delete job j rows other h = (
  rw (count-filter_imp (λ r. r.id == j.id) (λ r. r.id != job.id) (λ r e. ground arith) rows) h.0,
  All-filter (Agrees j) (λ r. r.id != job.id) rows h.1,
)
