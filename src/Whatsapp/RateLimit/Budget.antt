-- ===== src/Whatsapp/RateLimit/Budget.antt =====
-- What the limiter of internal/whatsapp/ratelimit.go grants, and what it spends.
use Prim.Native.Char.{code}
use text.Mathlib.TextLemmas.{cons-append, head-eq_of_cons-eq}
use beleevo_whatsapp.Prelude.{
  ltb, leb, ◌==◌, nat_eq, string_eq, if◌then◌else◌, Bool-cases, filter, Error, rate_limit_exceeded,
  ℕ, ◌+◌, ◌-◌, ◌≤◌, ◌<◌, String, ◌≡◌, refl, ap, ◌≢◌, ◌↔◌, inl, inr, Bool, true, false, ◌&&◌, Option,
  none, some, List, [], ◌∷◌, arith, eq_iff,
}
use beleevo_whatsapp.Whatsapp.RateLimit.{
  Window, RateLimiter, is_window, upsert, window_start, global_scope, shop_scope, count_both, prune,
  allow,
}

-- The count of a window, 0 where there is no row.
unfoldable pub count_of : String → ℕ → List Window → ℕ
count_of scope start [] = 0
count_of scope start (w ∷ ws) =
    let rest = count_of scope start ws in if is_window scope start w then w.count else rest

module _ (scope : String) (start limit : ℕ) where
  upsert_counted :
      (ws : List Window)
      → 0 < limit
      → ((upsert scope start limit ws).1 ≡ true → count_of scope start ws < limit)
        × ((upsert scope start limit ws).1 ≡ false → limit ≤ count_of scope start ws)
  unfolding upsert count_of
  upsert_counted [] h = ground arith
  upsert_counted (w ∷ ws) h = ground (arith, upsert_counted ws)

  count_of-upsert :
      (ws : List Window)
      → count_of scope start (upsert scope start limit ws).0 ≡ (
          if (upsert scope start limit ws).1
          then count_of scope start ws + 1
          else count_of scope start ws)
  unfolding upsert count_of
  count_of-upsert [] = ground (arith, eq_iff scope scope)
  count_of-upsert (w ∷ ws) = ground (arith, count_of-upsert ws)

  count_of-upsert_other :
      (other : String) (ws : List Window)
      → (other == scope) ≡ false
      → count_of other start (upsert scope start limit ws).0 ≡ count_of other start ws
  unfolding upsert count_of
  count_of-upsert_other other [] h = ground (arith, eq_iff other scope, eq_iff scope other)
  count_of-upsert_other other (w ∷ ws) h = ground (
    arith,
    count_of-upsert_other other ws,
    eq_iff w.scope scope,
    eq_iff w.scope other,
    eq_iff other scope,
  )

shop-ne-global :
    (show_id : ℕ → String) (shop : ℕ) → (global_scope == shop_scope show_id shop) ≡ false
shop-ne-global show_id shop = elim (Bool-cases (global_scope == shop_scope show_id shop)) [
  | inr differ ↦ differ
  | inl same ↦
      let e : global_scope ≡ shop_scope show_id shop =
        (eq_iff global_scope (shop_scope show_id shop)).0 same in
      let e' = rw cons-append at e in absurd (omega (arith, ap code (head-eq_of_cons-eq e')))
]

count_of-filter :
    (scope : String) (start : ℕ) (keep : Window → Bool) (ws : List Window)
    → ((w : Window) → w.window_start ≡ start → keep w ≡ true)
    → count_of scope start (filter keep ws) ≡ count_of scope start ws
unfolding count_of
count_of-filter scope start keep [] h = refl
count_of-filter scope start keep (w ∷ ws) h =
    ground (arith, h w, count_of-filter scope start keep ws h)

count_of-prune :
    (failure : Option Error) (now start : ℕ) (l : RateLimiter) (scope : String)
    → start ≡ window_start l now
    → count_of scope start (prune failure now l).windows ≡ count_of scope start l.windows
unfolding prune
count_of-prune none now start l scope e = ground (
  arith,
  count_of-filter scope start (λ w. leb (window_start l now - l.window) w.window_start) l.windows
      (λ w h. ground arith),
)
count_of-prune (some x) now start l scope e = ground arith

module _ (l : RateLimiter) (scope : String) (start : ℕ) (other : (global_scope == scope) ≡ false)
    (per_shop_pos : 0 < l.per_shop) (global_pos : 0 < l.global) where
  abbrev shop_used : ℕ
  shop_used = count_of scope start l.windows

  abbrev global_used : ℕ
  global_used = count_of global_scope start l.windows

  count_both_exact :
      let (ws, shop_counted, global_counted) = count_both l scope start in
      (shop_counted ≡ ltb shop_used l.per_shop)
      × (global_counted ≡ (ltb shop_used l.per_shop && ltb global_used l.global))
      × (count_of scope start ws ≡ (if shop_counted then shop_used + 1 else shop_used))
      × (count_of global_scope start ws ≡ (if global_counted then global_used + 1 else global_used))
  unfolding count_both
  count_both_exact =
      let first = (upsert scope start l.per_shop l.windows).0 in
      ground (
        arith,
        upsert_counted scope start l.per_shop l.windows per_shop_pos,
        count_of-upsert scope start l.per_shop l.windows,
        count_of-upsert_other scope start l.per_shop global_scope l.windows other,
        upsert_counted global_scope start l.global first global_pos,
        count_of-upsert global_scope start l.global first,
        count_of-upsert_other global_scope start l.global scope first,
        eq_iff scope global_scope,
        eq_iff global_scope scope,
      )

-- One call of `Allow` with a database that answers, budgets that are not 0, and whatever the cleanup
-- does: the send is granted exactly where both windows have headroom; a shop over its own budget is
-- refused as such and spends nothing of the platform's; every granted send is counted once in each
-- window.
pub allow_exact :
    (show_id : ℕ → String) (prune_failure : Option Error) (now shop : ℕ) (l : RateLimiter)
    → l.has_db ≡ true
    → 0 < l.per_shop
    → 0 < l.global
    → let scope = shop_scope show_id shop in
      let start = window_start l now in
      let shop_used = count_of scope start l.windows in
      let global_used = count_of global_scope start l.windows in
      let (l', e) = allow show_id none prune_failure now shop l in
      ((e ≡ none) ↔ ((shop_used < l.per_shop) × (global_used < l.global)))
      × ((e ≡ some (rate_limit_exceeded true)) ↔ (l.per_shop ≤ shop_used))
      × (e ≡ none
          → (count_of scope start l'.windows ≡ shop_used + 1)
            × (count_of global_scope start l'.windows ≡ global_used + 1))
      × (e ≢ none → count_of global_scope start l'.windows ≡ global_used)
unfolding allow
allow_exact show_id prune_failure now shop l db per_shop_pos global_pos =
    let scope = shop_scope show_id shop in
    let start = window_start l now in
    let counts =
      count_both_exact l scope start (shop-ne-global show_id shop) per_shop_pos global_pos in
    let moved = record l { windows = (count_both l scope start).0 } in
    let shop_kept = count_of-prune prune_failure now start moved scope refl in
    let global_kept = count_of-prune prune_failure now start moved global_scope refl in
    (
      (λ h. ground arith, λ h. ground arith),
      (λ h. ground arith, λ h. ground arith),
      λ h. ground arith,
      λ h. ground arith,
    )
