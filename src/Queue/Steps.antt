-- ===== src/Queue/Steps.antt =====
-- What can happen to `job_queue` of internal/queue/queue.go: any number of callers and runners issue
-- its statements in any order.
use beleevo_whatsapp.Prelude.{
  ◌==◌, ◌!=◌, nat_eq, string_eq, update, count-filter-le, count-update, Error, ℕ, String, ◌≡◌, refl,
  Bool, Option, none, some, List, [], arith,
}
use beleevo_whatsapp.Queue.{
  Row, Params, same_key, insert_row, enqueue, Job, Action, complete, drop, retry, claim, delete,
  reschedule, settle,
}
use beleevo_whatsapp.Queue.Enqueueing.{
  KeysUnique, insert_row-KeysUnique, insert_row-IdsUnique, enqueue_cases,
}
use beleevo_whatsapp.Queue.Claiming.{IdsUnique}

-- One statement on the table: by `Enqueue`, by a claim, or by the bookkeeping after a run.
pub data Step (rows : List Row) : List Row → Type 0 where
  enqueues :
      (has_db : Bool) (failure : Option Error) (now fresh : ℕ) (p : Params)
      → Step rows (enqueue has_db failure now fresh p rows).0
  claims : (locked : ℕ → Bool) (now limit : ℕ) → Step rows (claim locked now limit rows).0
  settles :
      (show : Error → String) (failure : Option Error) (now : ℕ) (a : Action) (job : Job)
      → Step rows (settle show failure now a job rows)

pub data Reach (rows : List Row) : List Row → Type 0 where
  start : Reach rows rows
  next : {mid after : List Row} → Reach rows mid → Step mid after → Reach rows after

-- The two unique indexes.
pub record IsIndexed (rows : List Row) : Type 0 where
  pub ids : IdsUnique rows
  pub keys : KeysUnique rows

insert_row-IsIndexed :
    (new : Row) (rows : List Row) → IsIndexed rows → IsIndexed (insert_row new rows)
insert_row-IsIndexed new rows h = record {
  ids = insert_row-IdsUnique new rows h.ids;
  keys = insert_row-KeysUnique new rows h.keys;
}

update-IsIndexed :
    (p : Row → Bool) (f : Row → Row) (rows : List Row)
    → ((r : Row) → (f r).id ≡ r.id)
    → ((r : Row) → (f r).kind ≡ r.kind)
    → ((r : Row) → (f r).dedupe_key ≡ r.dedupe_key)
    → IsIndexed rows
    → IsIndexed (update p f rows)
update-IsIndexed p f rows same_id same_kind same_dedupe h = record {
  ids = λ i. rw (count-update (λ r. r.id == i) p f (λ r. cc (same_id r)) rows) (h.ids i);
  keys = λ kind key named.
      rw (count-update (same_key kind key) p f (λ r. cc (same_kind r, same_dedupe r)) rows)
        (h.keys kind key named);
}

delete-IsIndexed :
    (failure : Option Error) (job : Job) (rows : List Row)
    → IsIndexed rows
    → IsIndexed (delete failure job rows)
unfolding delete
delete-IsIndexed none job rows h =
    let kept = λ (r : Row). r.id != job.id in
    record {
      ids = λ i. omega (arith, h.ids i, count-filter-le (λ r. r.id == i) kept rows);
      keys = λ kind key named.
          omega (arith, h.keys kind key named, count-filter-le (same_key kind key) kept rows);
    }
delete-IsIndexed (some e) job rows h = h

settle-IsIndexed :
    (show : Error → String) (failure : Option Error) (now : ℕ) (a : Action) (job : Job)
    → (rows : List Row) → IsIndexed rows
    → IsIndexed (settle show failure now a job rows)
unfolding settle reschedule
settle-IsIndexed show failure now complete job rows h = delete-IsIndexed failure job rows h
settle-IsIndexed show failure now (drop e) job rows h = delete-IsIndexed failure job rows h
settle-IsIndexed show none now (retry e d) job rows h =
    update-IsIndexed _ _ rows (λ r. refl) (λ r. refl) (λ r. refl) h
settle-IsIndexed show (some x) now (retry e d) job rows h = h

pub Step-IsIndexed : {rows after : List Row} → Step rows after → IsIndexed rows → IsIndexed after
unfolding claim
Step-IsIndexed {rows} (enqueues has_db failure now fresh p) h =
    enqueue_cases IsIndexed has_db failure now fresh p rows h (insert_row-IsIndexed _ rows h)
Step-IsIndexed {rows} (claims locked now limit) h =
    update-IsIndexed _ _ rows (λ r. refl) (λ r. refl) (λ r. refl) h
Step-IsIndexed {rows} (settles show failure now a job) h =
    settle-IsIndexed show failure now a job rows h

-- From an empty table, whatever callers and runners do and in whatever order, no two rows ever share
-- an id, and no two rows ever share a kind and a dedupe key that is not empty.
pub Reach-IsIndexed : {rows : List Row} → Reach [] rows → IsIndexed rows
Reach-IsIndexed start = record { ids = λ i. omega arith; keys = λ kind key named. omega arith }
Reach-IsIndexed (next r s) = Step-IsIndexed s (Reach-IsIndexed r)
