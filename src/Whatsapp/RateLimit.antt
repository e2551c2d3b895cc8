-- ===== src/Whatsapp/RateLimit.antt =====
-- The fixed-window send limiter of internal/whatsapp/ratelimit.go: the table `send_rate_windows`, and
-- `Allow`, which moves a shop's window and the platform's. Times are nanoseconds since the zero time,
-- to which `Truncate` aligns.
pub mod Budget
use beleevo_whatsapp.Prelude.{
  ltb, leb, ◌==◌, nat_eq, string_eq, if◌then◌else◌, filter, join_texts, Error, rate_limit_exceeded,
  ℕ, ◌+◌, ◌-◌, ◌%◌, String, Bool, true, false, ◌&&◌, Option, none, some, List, [], ◌∷◌,
}

abbrev pub default_per_shop_limit : ℕ
default_per_shop_limit = 120

abbrev pub default_global_limit : ℕ
default_global_limit = 600

abbrev pub default_window : ℕ
default_window = 60000000000

abbrev pub prune_interval : ℕ
prune_interval = 300000000000

pub record Window : Type 0 where
  pub scope : String
  pub window_start : ℕ
  pub count : ℕ

-- `has_db` is false for a limiter over a nil handle.
pub record RateLimiter : Type 0 where
  pub has_db : Bool
  pub per_shop : ℕ
  pub global : ℕ
  pub window : ℕ
  pub last_prune : ℕ
  pub windows : List Window

abbrev pub new_rate_limiter : RateLimiter
new_rate_limiter = record {
  has_db = true;
  per_shop = default_per_shop_limit;
  global = default_global_limit;
  window = default_window;
  last_prune = 0;
  windows = [];
}

abbrev pub is_window : String → ℕ → Window → Bool
is_window scope start w = w.scope == scope && w.window_start == start

-- `INSERT … ON CONFLICT (scope, window_start) DO UPDATE SET count = count + 1 WHERE count < limit`,
-- with whether it returned a row.
unfoldable pub upsert : String → ℕ → ℕ → List Window → List Window × Bool
upsert scope start limit [] = (record { scope = scope; window_start = start; count = 1 } ∷ [], true)
upsert scope start limit (w ∷ ws) =
    let (rest, counted) = upsert scope start limit ws in
    if is_window scope start w
    then (if ltb w.count limit
        then (record w { count = w.count + 1 } ∷ ws, true)
        else (w ∷ ws, false))
    else (w ∷ rest, counted)

abbrev pub window_start : RateLimiter → ℕ → ℕ
window_start l now = now - now % l.window

abbrev pub global_scope : String
global_scope = "global"

abbrev pub shop_scope : (ℕ → String) → ℕ → String
shop_scope show_id shop = join_texts ("shop:" ∷ show_id shop ∷ [])

-- The one statement that moves both windows, the platform's only if the shop's was counted.
abbrev count_global : RateLimiter → ℕ → List Window × Bool → List Window × Bool × Bool
count_global l start (ws, false) = (ws, false, false)
count_global l start (ws, true) =
    let (ws', counted) = upsert global_scope start l.global ws in (ws', true, counted)

unfoldable pub count_both : RateLimiter → String → ℕ → List Window × Bool × Bool
count_both l scope start = count_global l start (upsert scope start l.per_shop l.windows)

-- Windows that began before the previous one are removed, every five minutes at most. A failed
-- DELETE leaves the rows.
unfoldable pub prune : Option Error → ℕ → RateLimiter → RateLimiter
prune failure now l = if ltb (now - l.last_prune) prune_interval then l else record l {
  last_prune = now;
  windows = elim failure [
    | none ↦ filter (λ w. leb (window_start l now - l.window) w.window_start) l.windows
    | some e ↦ l.windows
  ];
}

abbrev verdict : Bool → Bool → Option Error
verdict false global_counted = some (rate_limit_exceeded true)
verdict true false = some (rate_limit_exceeded false)
verdict true true = none

-- `failure` is the error of the counting statement, and `prune_failure` that of the DELETE.
unfoldable pub allow :
    (show_id : ℕ → String) (failure prune_failure : Option Error) (now : ℕ)
    → ℕ
    → RateLimiter
    → RateLimiter × Option Error
allow show_id (some e) prune_failure now shop l = if l.has_db then (l, some e) else (l, none)
allow show_id none prune_failure now shop l =
    let (ws, shop_counted, global_counted) =
      count_both l (shop_scope show_id shop) (window_start l now) in
    if l.has_db
    then (prune prune_failure now (record l { windows = ws }), verdict shop_counted global_counted)
    else (l, none)
