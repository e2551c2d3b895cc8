-- ===== src/Queue/Policy.antt =====
-- The retry policy of internal/queue/queue.go: `backoff` and `decide`.
use native.Mathlib.Nat.{pow-le-pow_right, two-pow-succ}
use native.Mathlib.Decide.{dec_lt}
use beleevo_whatsapp.Prelude.{
  Error, ℕ, zero, suc, ◌-◌, ◌*◌, ◌^◌, ◌≤◌, ◌<◌, ◌≡◌, refl, ◌↔◌, false, Option, none, some, arith,
}
use beleevo_whatsapp.Queue.{
  retry_base, retry_cap, Job, is_permanent, shl64, min, backoff, complete, retry, decide,
}

pow_le : (n m : ℕ) → n ≤ m → 2 ^ n ≤ 2 ^ m
pow_le n m h = pow-le-pow_right (omega arith) h

shift_exact : (n k : ℕ) → n < 12 → k ≡ n → shl64 retry_base k ≡ retry_base * 2 ^ n
shift_exact n k h e = let p : 2 ^ n ≤ 2048 = pow_le n 11 (omega arith) in rw e (omega arith)

within_limit : (n : ℕ) → n < 12 → backoff (suc n) ≡ min (retry_base * 2 ^ n) retry_cap
unfolding backoff
within_limit n h = ground (arith, shift_exact n (suc n - 1) h (omega arith))

past_limit : (n : ℕ) → 12 ≤ n → backoff (suc n) ≡ min (retry_base * 2 ^ n) retry_cap
unfolding backoff
past_limit n h = let p : 4096 ≤ 2 ^ n = pow_le 12 n h in ground arith

-- For every count of attempts the delay is the doubling delay cut off at the cap: neither the shift
-- limit nor the width of an int64 changes it.
pub backoff_exact : (n : ℕ) → backoff (suc n) ≡ min (retry_base * 2 ^ n) retry_cap
backoff_exact n = elim (dec_lt n 12) [
  | yes h ↦ within_limit n h
  | no h ↦ past_limit n (omega arith)
]

-- The delay after a failed attempt is between a minute and half an hour, and never shrinks from one
-- attempt to the next.
pub backoff_bounds :
    (n : ℕ) → (retry_base ≤ backoff n) × (backoff n ≤ retry_cap) × (backoff n ≤ backoff (suc n))
backoff_bounds zero = unfold backoff in omega arith
backoff_bounds (suc n) =
    let p : 1 ≤ 2 ^ n = pow_le 0 n (omega arith) in
    ground (arith, backoff_exact n, backoff_exact (suc n), two-pow-succ n)

-- A job is retried exactly where its handler failed, the error is not permanent and an attempt is
-- left, and then after the backoff of the attempts made; it is completed exactly where the handler
-- returned no error; in every other case it is dropped.
pub decide_cases :
    (r : Option Error) (job : Job)
    → ((decide r job ≡ complete) ↔ (r ≡ none))
      × ((e : Error) (d : ℕ)
          → (decide r job ≡ retry e d) ↔ (
              (r ≡ some e)
              × (is_permanent e ≡ false)
              × (job.attempts < job.max_attempts)
              × (d ≡ backoff job.attempts)))
unfolding decide
decide_cases none job = ((λ _. refl, λ _. refl), λ e d. (λ h. cc, λ h. cc (h.0)))
decide_cases (some x) job =
    ((λ h. ground arith, λ h. cc), λ e d. (λ h. ground arith, λ h. ground arith))
