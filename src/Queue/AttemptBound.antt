-- ===== src/Queue/AttemptBound.antt =====
-- No job of internal/queue/queue.go runs more often than its attempts allow.
use beleevo_whatsapp.Prelude.{
  ◌==◌, ◌!=◌, nat_eq, string_eq, ==_refl, Bool-cases, update, All, count-update, All-append,
  All-filter, Member, All-of_members, All-at, All-map, one-le-count, All-filter_of_members, All-imp,
  All-update_cases, Error, ℕ, ◌+◌, String, ◌≡◌, refl, ap, inl, inr, Bool, true, Option, none, some,
  List, ◌++◌, arith,
}
use beleevo_whatsapp.Queue.{
  Row, Params, insert_row, row_of, enqueue, Job, Action, complete, drop, retry, decide, selected,
  has_id, leased, job_of, claim, delete, rescheduled, reschedule, settle,
}
use beleevo_whatsapp.Queue.Policy.{decide_cases}
use beleevo_whatsapp.Queue.Leases.{not_both}
use beleevo_whatsapp.Queue.Claiming.{claimed-IsDue}
use beleevo_whatsapp.Queue.Steps.{Step, Reach, IsIndexed, Step-IsIndexed, Reach-IsIndexed}
use beleevo_whatsapp.Queue.Enqueueing.{enqueue_cases}
use beleevo_whatsapp.Queue.Attempts.{
  System, others, SystemStep, finishes, crashes, SystemReach, boot, after, IsBounded, Agrees,
  IsHeld, IsSound, eq_of_id, IsHeld-insert, IsBounded-insert, IsHeld-update, IsHeld-delete,
}

abbrev Anything : Row → Type 0
Anything r = Unit {0}

module _ (locked : ℕ → Bool) (now limit : ℕ) (rows : List Row) (ix : IsIndexed rows) where
  abbrev picked : List Row
  picked = selected locked now limit rows

  claim-IsBounded : All IsBounded rows → All IsBounded (update (has_id picked) (leased now) rows)
  claim-IsBounded =
      All-update_cases IsBounded IsBounded (has_id picked) (leased now) rows
        (λ r m b hit. let due = claimed-IsDue locked now limit ix.ids m hit in ground arith)
        (λ r m b miss. b)

  claim-IsHeld_before :
      (j : Job) → IsHeld rows j → IsHeld (update (has_id picked) (leased now) rows) j
  claim-IsHeld_before j h =
      IsHeld-update (has_id picked) (leased now) rows j (λ r. refl)
        (λ r m e. elim (Bool-cases (has_id picked r)) [
          | inr miss ↦ miss
          | inl hit ↦ absurd (
              not_both locked now r (All-at (Agrees j) m h.1 e).0
                (claimed-IsDue locked now limit ix.ids m hit))
        ])
        h

  claim-IsHeld_new :
      (r : Row)
      → Member r rows
      → has_id picked r ≡ true
      → IsHeld (update (has_id picked) (leased now) rows) (job_of (leased now r))
  claim-IsHeld_new r m hit = (
    rw (count-update (λ q. q.id == r.id) (has_id picked) (leased now) (λ q. refl) rows)
        (one-le-count (λ q. q.id == r.id) m (==_refl r.id)),
    All-update_cases Anything (Agrees (job_of (leased now r))) (has_id picked) (leased now) rows
        (λ q m' _ hit' e.
          let same : q ≡ r = eq_of_id ix.ids m' m e in
          (refl, ap (λ (x : Row). x.attempts + 1) same, ap (λ (x : Row). x.max_attempts) same))
        (λ q m' _ miss e.
          absurd
            (let same : q ≡ r = eq_of_id ix.ids m' m e in let both = ap (has_id picked) same in cc))
        (All-of_members Anything rows (λ _ _. tt)),
  )

  claim-IsHeld :
      (jobs : List Job)
      → All (IsHeld rows) jobs
      → All (IsHeld (claim locked now limit rows).0) ((claim locked now limit rows).1 ++ jobs)
  unfolding claim
  claim-IsHeld jobs h =
      let after = update (has_id picked) (leased now) rows in
      All-append (IsHeld after) _ jobs
        (All-map (IsHeld after) _ _ (All-filter_of_members _ (has_id picked) rows claim-IsHeld_new))
        (All-imp (IsHeld rows) (IsHeld after) jobs claim-IsHeld_before h)

module _ (job : Job) (rows : List Row) (agrees : All (Agrees job) rows)
    (bounded : All IsBounded rows) where
  settle-IsBounded :
      (show : Error → String) (failure : Option Error) (now : ℕ) (r : Option Error) (a : Action)
      → decide r job ≡ a
      → All IsBounded (settle show failure now a job rows)
  unfolding settle delete reschedule
  settle-IsBounded show none now r complete e = All-filter IsBounded _ rows bounded
  settle-IsBounded show none now r (drop x) e = All-filter IsBounded _ rows bounded
  settle-IsBounded show (some f) now r complete e = bounded
  settle-IsBounded show (some f) now r (drop x) e = bounded
  settle-IsBounded show (some f) now r (retry x d) e = bounded
  settle-IsBounded show none now r (retry x d) e =
      let left = ((decide_cases r job).1 x d).0 e in
      All-update_cases IsBounded IsBounded (λ q. q.id == job.id) (rescheduled now d (show x)) rows
        (λ q m b hit. let a = All-at (Agrees job) m agrees (ground arith) in ground arith)
        (λ q m b miss. b) bounded

settle-IsHeld :
    (show : Error → String) (failure : Option Error) (now : ℕ) (a : Action) (job : Job)
    (rows : List Row) (j : Job)
    → (j.id != job.id) ≡ true
    → IsHeld rows j
    → IsHeld (settle show failure now a job rows) j
unfolding settle delete reschedule
settle-IsHeld show none now complete job rows j other h = IsHeld-delete job j rows other h
settle-IsHeld show none now (drop x) job rows j other h = IsHeld-delete job j rows other h
settle-IsHeld show none now (retry x d) job rows j other h =
    IsHeld-update _ _ rows j (λ r. refl) (λ r m e. ground arith) h
settle-IsHeld show (some f) now complete job rows j other h = h
settle-IsHeld show (some f) now (drop x) job rows j other h = h
settle-IsHeld show (some f) now (retry x d) job rows j other h = h

enqueue-IsSound :
    (has_db : Bool) (failure : Option Error) (now fresh : ℕ) (p : Params) (s : System)
    → IsSound s
    → IsSound (record s { rows = (enqueue has_db failure now fresh p s.rows).0 })
enqueue-IsSound has_db failure now fresh p s h =
    let new = row_of now fresh p in
    record {
      indexed = Step-IsIndexed (Step.enqueues has_db failure now fresh p) h.indexed;
      bounded =
          enqueue_cases (All IsBounded) has_db failure now fresh p s.rows h.bounded
            (IsBounded-insert new s.rows (ground arith) h.bounded);
      held =
          enqueue_cases (λ rows. All (IsHeld rows) s.in_flight) has_db failure now fresh p s.rows
            h.held
            (All-imp (IsHeld s.rows) (IsHeld (insert_row new s.rows)) s.in_flight
              (IsHeld-insert new s.rows) h.held);
    }

claim-IsSound :
    (locked : ℕ → Bool) (now limit : ℕ) (s : System)
    → IsSound s
    → IsSound (record {
      rows = (claim locked now limit s.rows).0;
      in_flight = (claim locked now limit s.rows).1 ++ s.in_flight;
    })
claim-IsSound locked now limit s h = record {
  indexed = Step-IsIndexed (Step.claims locked now limit) h.indexed;
  bounded = unfold claim in claim-IsBounded locked now limit s.rows h.indexed h.bounded;
  held = claim-IsHeld locked now limit s.rows h.indexed s.in_flight h.held;
}

finish-IsSound :
    (show : Error → String) (failure : Option Error) (now : ℕ) (job : Job) (r : Option Error)
    (s : System)
    → Member job s.in_flight
    → IsSound s
    → IsSound (record {
      rows = settle show failure now (decide r job) job s.rows;
      in_flight = others job s.in_flight;
    })
finish-IsSound show failure now job r s m h = record {
  indexed = Step-IsIndexed (Step.settles show failure now (decide r job) job) h.indexed;
  bounded =
      settle-IsBounded job s.rows (All-at (IsHeld s.rows) m h.held).1 h.bounded show failure now r _
        refl;
  held = All-filter_of_members _ _ s.in_flight λ j m' other.
      settle-IsHeld show failure now (decide r job) job s.rows j other
        (All-at (IsHeld s.rows) m' h.held);
}

SystemStep-IsSound : {s s' : System} → SystemStep s s' → IsSound s → IsSound s'
SystemStep-IsSound {s} (SystemStep.enqueues has_db failure now fresh p) h =
    enqueue-IsSound has_db failure now fresh p s h
SystemStep-IsSound {s} (SystemStep.claims locked now limit) h = claim-IsSound locked now limit s h
SystemStep-IsSound {s} (finishes show failure now job r m) h =
    finish-IsSound show failure now job r s m h
SystemStep-IsSound {s} crashes h = record { indexed = h.indexed; bounded = h.bounded; held = tt }

pub SystemReach-IsSound : {s : System} → SystemReach s → IsSound s
SystemReach-IsSound boot = record { indexed = Reach-IsIndexed Reach.start; bounded = tt; held = tt }
SystemReach-IsSound (after r st) = SystemStep-IsSound st (SystemReach-IsSound r)

-- In every state that callers, claims, finished runs and crashes can reach from an empty queue, no row
-- has counted more attempts than it allows, a row that a claim could take has an attempt left, and a
-- job that a runner holds has a leased row that counts the same attempts.
pub attempts-IsBounded :
    {s : System} → SystemReach s → All IsBounded s.rows × All (IsHeld s.rows) s.in_flight
attempts-IsBounded r = let h = SystemReach-IsSound r in (h.bounded, h.held)
