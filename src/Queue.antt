-- ===== src/Queue.antt =====
-- The Postgres-backed job queue of internal/queue/queue.go: one row of `job_queue` for each job, the
-- statements that insert, claim, reschedule and remove rows, and the runner that drains them.
-- Times and durations are nanoseconds; the database's clock `now`, the ids that it generates, and
-- the failures of its statements are arguments.
pub mod Policy
pub mod Enqueueing
pub mod Claiming
pub mod Leases
pub mod Attempts
pub mod AttemptBound
pub mod Steps
use beleevo_whatsapp.Prelude.{
  ltb, leb, ◌==◌, not, ◌!=◌, nat_eq, string_eq, if◌then◌else◌, take, filter, any, update, is_none,
  ℤ, pos_part, Error, message, wrapped, permanent, ℕ, ◌+◌, ◌-◌, ◌*◌, ◌%◌, ◌^◌, String, Bool, true,
  false, ◌&&◌, ◌||◌, Option, none, some, List, [], ◌∷◌, ◌++◌, map,
}

abbrev pub second : ℕ
second = 1000000000

abbrev pub minute : ℕ
minute = 60 * second

abbrev pub default_batch : ℕ
default_batch = 16

abbrev pub default_lease : ℕ
default_lease = 90 * second

abbrev pub default_max_attempts : ℕ
default_max_attempts = 5

abbrev pub retry_base : ℕ
retry_base = minute

abbrev pub retry_cap : ℕ
retry_cap = 30 * minute

abbrev pub retry_shift_limit : ℕ
retry_shift_limit = 12

-- A row of `job_queue`.
pub record Row : Type 0 where
  pub id : ℕ
  pub kind : String
  pub shop_id : ℕ
  pub payload : String
  pub run_at : ℕ
  pub attempts : ℕ
  pub max_attempts : ℕ
  pub lease_until : Option ℕ
  pub dedupe_key : String
  pub last_error : String

-- `run_at` is `none` for the zero time; the shop id 0 is `uuid.Nil`.
pub record Params : Type 0 where
  pub kind : String
  pub shop_id : ℕ
  pub payload : String
  pub run_at : Option ℕ
  pub dedupe_key : String
  pub max_attempts : ℤ

abbrev pub or_now : ℕ → Option ℕ → ℕ
or_now now none = now
or_now now (some at) = at

-- The unique indexes of the table: the primary key, and `(kind, dedupe_key) WHERE dedupe_key <> ''`.
abbrev pub same_key : String → String → Row → Bool
same_key kind key r = key != "" && (r.kind == kind && r.dedupe_key == key)

abbrev pub conflicts : Row → Row → Bool
conflicts new r = r.id == new.id || same_key new.kind new.dedupe_key r

-- `INSERT … ON CONFLICT DO NOTHING`.
unfoldable pub insert_row : Row → List Row → List Row
insert_row new rows = if any (conflicts new) rows then rows else rows ++ new ∷ []

abbrev pub attempts_of : Params → ℕ
attempts_of p =
    if pos_part p.max_attempts == 0 then default_max_attempts else pos_part p.max_attempts

abbrev pub row_of : ℕ → ℕ → Params → Row
row_of now fresh p = record {
  id = fresh;
  kind = p.kind;
  shop_id = p.shop_id;
  payload = p.payload;
  run_at = or_now now p.run_at;
  attempts = 0;
  max_attempts = attempts_of p;
  lease_until = none;
  dedupe_key = p.dedupe_key;
  last_error = "";
}

abbrev pub store : Option Error → Row → List Row → List Row × Option Error
store none new rows = (insert_row new rows, none)
store (some e) new rows = (rows, some (wrapped "queue: enqueue" e))

-- `has_db` is false where the handle is nil; `failure` is the error of the INSERT, if it fails.
unfoldable pub enqueue :
    (has_db : Bool) (failure : Option Error) (now fresh : ℕ)
    → Params
    → List Row
    → List Row × Option Error
enqueue has_db failure now fresh p rows =
    if p.kind == ""
    then (rows, some (message "queue: job kind is required"))
    else if p.shop_id == 0
    then (rows, some (message "queue: job shop is required"))
    else if p.payload == ""
    then (rows, some (message "queue: job payload is required"))
    else if not has_db
    then (rows, some (message "queue: no database handle"))
    else store failure (row_of now fresh p) rows

pub record Job : Type 0 where
  pub id : ℕ
  pub kind : String
  pub shop_id : ℕ
  pub payload : String
  pub attempts : ℕ
  pub max_attempts : ℕ

-- errors.As for *permanentError.
unfoldable pub is_permanent : Error → Bool
is_permanent (permanent e) = true
is_permanent (wrapped _ e) = is_permanent e
is_permanent _ = false

-- `Permanent(nil)` is nil.
unfoldable pub mark_permanent : Option Error → Option Error
mark_permanent none = none
mark_permanent (some e) = some (permanent e)

-- A shift of an int64, whose bits above the 64th are lost.
abbrev pub shl64 : ℕ → ℕ → ℕ
shl64 x k = x * 2 ^ k % 2 ^ 64

abbrev pub min : ℕ → ℕ → ℕ
min a b = if leb a b then a else b

unfoldable pub backoff : ℕ → ℕ
backoff attempts =
    let attempts = if ltb attempts 1 then 1 else attempts in
    if ltb retry_shift_limit attempts
    then retry_cap
    else min (shl64 retry_base (attempts - 1)) retry_cap

pub data Action : Type 0 where
  complete : Action
  drop : Error → Action
  retry : Error → ℕ → Action

unfoldable pub decide : Option Error → Job → Action
decide none job = complete
decide (some e) job =
    if is_permanent e || leb job.max_attempts job.attempts
    then drop e
    else retry e (backoff job.attempts)

-- The claim's subquery: the rows that are due and not locked by another claim, oldest first.
abbrev pub is_due : (ℕ → Bool) → ℕ → Row → Bool
is_due locked now r = (is_none r.lease_until && leb r.run_at now) && not (locked r.id)

unfoldable pub insert_by_run_at : Row → List Row → List Row
insert_by_run_at r [] = r ∷ []
insert_by_run_at r (x ∷ xs) =
    let later = x ∷ insert_by_run_at r xs in if leb r.run_at x.run_at then r ∷ x ∷ xs else later

unfoldable pub sort_by_run_at : List Row → List Row
sort_by_run_at [] = []
sort_by_run_at (r ∷ rs) = insert_by_run_at r (sort_by_run_at rs)

unfoldable pub selected : (ℕ → Bool) → ℕ → ℕ → List Row → List Row
selected locked now limit rows = take limit (sort_by_run_at (filter (is_due locked now) rows))

abbrev pub has_id : List Row → Row → Bool
has_id picked r = any (λ p. r.id == p.id) picked

abbrev pub leased : ℕ → Row → Row
leased now r = record r { lease_until = some (now + default_lease); attempts = r.attempts + 1 }

abbrev pub job_of : Row → Job
job_of r = record {
  id = r.id;
  kind = r.kind;
  shop_id = r.shop_id;
  payload = r.payload;
  attempts = r.attempts;
  max_attempts = r.max_attempts;
}

-- `UPDATE … WHERE id IN (…) RETURNING …`: the table after the update, and the claimed jobs.
unfoldable pub claim : (ℕ → Bool) → ℕ → ℕ → List Row → List Row × List Job
claim locked now limit rows =
    let picked = selected locked now limit rows in
    (
      update (has_id picked) (leased now) rows,
      map (λ r. job_of (leased now r)) (filter (has_id picked) rows),
    )

-- `DELETE FROM job_queue WHERE id = $1`, for a finished and for a dropped job.
unfoldable pub delete : Option Error → Job → List Row → List Row
delete none job rows = filter (λ r. r.id != job.id) rows
delete (some _) job rows = rows

abbrev pub rescheduled : ℕ → ℕ → String → Row → Row
rescheduled now delay cause r = record r {
  lease_until = none;
  run_at = now + delay;
  last_error = cause;
}

-- A failed UPDATE is logged, and leaves the row leased.
unfoldable pub reschedule : Option Error → ℕ → Job → ℕ → String → List Row → List Row
reschedule none now job delay cause rows =
    update (λ r. r.id == job.id) (rescheduled now delay cause) rows
reschedule (some _) now job delay cause rows = rows

unfoldable pub settle : (Error → String) → Option Error → ℕ → Action → Job → List Row → List Row
settle show failure now complete job rows = delete failure job rows
settle show failure now (drop e) job rows = delete failure job rows
settle show failure now (retry e delay) job rows = reschedule failure now job delay (show e) rows

-- A handler acts on the rest of the world, and returns its error.
abbrev pub Handler : Type 0 → Type 0
Handler W = String → W → W × Option Error

abbrev pub Handlers : Type 0 → Type 0
Handlers W = String → Option (Handler W)

unfoldable pub handle : {W : Type 0} → String → Handler W → Handlers W → Handlers W
handle kind h handlers = λ k. if k == kind then some h else handlers k

-- What one run of a job needs of its surroundings: `Error()`, and how the bookkeeping write went.
pub record Surroundings : Type 0 where
  pub show : Error → String
  pub bookkeeping : Option Error
  pub now : ℕ

module _ {W : Type 0} where
  abbrev pub run_handler : Surroundings → Job → Option (Handler W) → List Row → W → List Row × W
  run_handler env job none rows w = (delete env.bookkeeping job rows, w)
  run_handler env job (some h) rows w =
      let (w', e) = h job.payload w in
      (settle env.show env.bookkeeping env.now (decide e job) job rows, w')

  unfoldable pub run_one : Surroundings → Handlers W → Job → List Row → W → List Row × W
  run_one env handlers job rows w = run_handler env job (handlers job.kind) rows w

  -- The jobs of a batch run side by side; the list has them in the order in which they finish.
  unfoldable pub run_all : Surroundings → Handlers W → List Job → List Row → W → List Row × W
  run_all env handlers [] rows w = (rows, w)
  run_all env handlers (job ∷ jobs) rows w =
      let (rows', w') = run_one env handlers job rows w in run_all env handlers jobs rows' w'

  -- `Drain`: an error of the claim ends it. `schedule` puts the batch into its finishing order.
  unfoldable pub drain :
      (locked : ℕ → Bool) (failure : Option Error) (schedule : List Job → List Job)
      → Surroundings
      → Handlers W
      → List Row
      → W
      → (List Row × W) × Option Error
  drain locked none schedule env handlers rows w =
      let (rows', jobs) = claim locked env.now default_batch rows in
      (run_all env handlers (schedule jobs) rows' w, none)
  drain locked (some e) schedule env handlers rows w = ((rows, w), some (wrapped "queue: claim" e))
