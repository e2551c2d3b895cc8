-- ===== src/Examples/Jobs.antt =====
-- The job queue at concrete inputs.
use beleevo_whatsapp.Prelude.{
  length, any, All, pos, Error, no_rows, ℕ, ◌*◌, ◌^◌, ◌≤◌, ◌<◌, ◌≡◌, refl, ◌≢◌, ◌↔◌, Bool, true,
  false, Option, none, some, List, [], ◌∷◌, ◌++◌, arith,
}
use beleevo_whatsapp.Queue.{
  retry_base, retry_cap, Row, Params, conflicts, row_of, enqueue, Job, is_permanent, min, backoff,
  complete, retry, decide, job_of, claim,
}
use beleevo_whatsapp.Queue.Policy.{backoff_exact, decide_cases}
use beleevo_whatsapp.Queue.Enqueueing.{IsAcceptable, enqueue_outcome}
use beleevo_whatsapp.Queue.Claiming.{IdsUnique, FromDue, claim_sound}
use beleevo_whatsapp.Queue.Leases.{claim-All_leased, claims_apart}
use beleevo_whatsapp.Queue.Steps.{Step, start, next, IsIndexed, Reach-IsIndexed}
use beleevo_whatsapp.Queue.Attempts.{
  System, SystemStep, SystemReach, boot, after, IsBounded, IsHeld,
}
use beleevo_whatsapp.Queue.AttemptBound.{attempts-IsBounded}

abbrev params : Params
params = record {
  kind = "send:whatsapp_template";
  shop_id = 1;
  payload = "{}";
  run_at = some 10;
  dedupe_key = "k";
  max_attempts = pos 0;
}

abbrev no_failure : Option Error
no_failure = none

abbrev parked : Row
parked = row_of 5 1 params

abbrev other : Row
other = record parked { id = 2; dedupe_key = ""; run_at = 7 }

abbrev stranded : Row
stranded = record parked { lease_until = some 20; attempts = 1 }

abbrev job : Job
job = job_of stranded

abbrev two_rows : List Row
two_rows = parked ∷ other ∷ []

abbrev unlocked : ℕ → Bool
unlocked id = false

two_rows-IdsUnique : IdsUnique two_rows
two_rows-IdsUnique i = ground arith

abbrev queued : System
queued = record { rows = (enqueue true none 5 1 params []).0; in_flight = [] }

abbrev running : System
running = record {
  rows = (claim unlocked 12 16 queued.rows).0;
  in_flight = (claim unlocked 12 16 queued.rows).1 ++ [];
}

running-reached : SystemReach running
running-reached =
    after (after boot (SystemStep.enqueues true none 5 1 params)) (SystemStep.claims unlocked 12 16)

attempts-IsBounded_example :
    All IsBounded running.rows × All (IsHeld running.rows) running.in_flight
attempts-IsBounded_example = attempts-IsBounded running-reached

claim-All_leased_example : claim unlocked 200 16 (stranded ∷ []) ≡ (stranded ∷ [], [])
claim-All_leased_example = claim-All_leased unlocked 200 16 (stranded ∷ []) (refl, tt)

claims_apart_example :
    let (rows', first) = claim unlocked 12 1 two_rows in
    let second = (claim unlocked 13 1 rows').1 in
    All (λ (j : Job). All (λ (k : Job). j.id ≢ k.id) first) second
claims_apart_example = claims_apart unlocked unlocked 12 13 1 two_rows two_rows-IdsUnique

claim_sound_example :
    (length (claim unlocked 12 16 two_rows).1 ≤ 16)
    × All (FromDue unlocked 12 two_rows) (claim unlocked 12 16 two_rows).1
claim_sound_example = claim_sound unlocked 12 16 two_rows two_rows-IdsUnique

Reach-IsIndexed_example : IsIndexed (claim unlocked 12 16 (enqueue true none 5 1 params []).0).0
Reach-IsIndexed_example =
    Reach-IsIndexed
      (next (next start (Step.enqueues true none 5 1 params)) (Step.claims unlocked 12 16))

enqueue_outcome_example :
    let (rows', e) = enqueue true no_failure 5 3 params two_rows in
    ((e ≡ none) ↔ (IsAcceptable true params × (no_failure ≡ none)))
    × (e ≡ none → any (conflicts (row_of 5 3 params)) rows' ≡ true)
    × (e ≢ none → rows' ≡ two_rows)
    × (1 ≤ (row_of 5 3 params).max_attempts)
enqueue_outcome_example = enqueue_outcome true no_failure 5 3 params two_rows

decide_cases_example :
    ((decide (some no_rows) job ≡ complete) ↔ (some no_rows ≡ none))
    × ((e : Error) (d : ℕ)
        → (decide (some no_rows) job ≡ retry e d) ↔ (
            (some no_rows ≡ some e)
            × (is_permanent e ≡ false)
            × (job.attempts < job.max_attempts)
            × (d ≡ backoff job.attempts)))
decide_cases_example = decide_cases (some no_rows) job

backoff_exact_example : backoff 4 ≡ min (retry_base * 2 ^ 3) retry_cap
backoff_exact_example = backoff_exact 3
