-- ===== src/Delivery/Socket.antt =====
-- The reconnect delay of `socketLoop` in internal/delivery/socket.go.
use beleevo_whatsapp.Prelude.{ltb, if◌then◌else◌, All, ℕ, ◌+◌, ◌*◌, ◌≤◌, ◌<◌, List, [], ◌∷◌, arith}

abbrev pub second : ℕ
second = 1000000000

abbrev pub socket_base_backoff : ℕ
socket_base_backoff = 5 * second

abbrev pub socket_max_backoff : ℕ
socket_max_backoff = 60 * second

-- The delay after the next failure; `jitter` is `rand.Intn(5)`.
unfoldable pub next_backoff : (jitter : ℕ) → ℕ → ℕ
next_backoff jitter backoff =
    let doubled = backoff * 2 in
    (if ltb socket_max_backoff doubled then socket_max_backoff else doubled) + jitter * second

-- The delay before each attempt, from the jitters drawn so far, the latest first.
unfoldable pub socket_backoff : List ℕ → ℕ
socket_backoff [] = socket_base_backoff
socket_backoff (jitter ∷ jitters) = next_backoff jitter (socket_backoff jitters)

-- Whatever is drawn below 5, every delay is between the base delay and four seconds past the limit:
-- the jitter is added behind the cut, so that the limit itself is not a bound.
pub socket_backoff_bounds :
    (jitters : List ℕ)
    → All (λ j. j < 5) jitters
    → (socket_base_backoff ≤ socket_backoff jitters)
      × (socket_backoff jitters ≤ socket_max_backoff + 4 * second)
unfolding socket_backoff next_backoff
socket_backoff_bounds [] h = (omega arith, omega arith)
socket_backoff_bounds (j ∷ js) h = ground (arith, socket_backoff_bounds js h.1, h.0)
