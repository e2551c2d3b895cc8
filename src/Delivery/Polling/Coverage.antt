-- ===== src/Delivery/Polling/Coverage.antt =====
-- Which parcels a sweep of internal/delivery/service.go asks the carrier about, and through which
-- connection.
use mathlib.Core.Path.{subst}
use beleevo_whatsapp.Prelude.{
  ◌==◌, nat_eq, string_eq, if◌then◌else◌, ==_refl, Bool-cases, Option-cases, filter, find?, any,
  count, Member, here, there, one-le-count, count-same, any-filter_none, ℕ, ◌≤◌, ◌≡◌, refl, ap, ◌∙◌,
  inl, inr, Bool, ◌&&◌, some, List, [], ◌∷◌, arith,
}
use beleevo_whatsapp.Delivery.{status_terminal, TrackedOrder}
use beleevo_whatsapp.Delivery.Polling.{
  Connection, pick_connection, is_active, polled_by, parcels_of,
}

abbrev pub asks_for : ℕ → List TrackedOrder → Bool
asks_for id parcels = any (λ t. t.id == id) parcels

any-filter_unique :
    (q : TrackedOrder → Bool) (rows : List TrackedOrder) (t : TrackedOrder)
    → count (λ u. u.id == t.id) rows ≤ 1
    → Member t rows
    → asks_for t.id (filter q rows) ≡ q t
any-filter_unique q [] t unique m = elim m [ ]
any-filter_unique q (_ ∷ ts) t unique here =
    ground (arith, any-filter_none (λ u. u.id == t.id) q ts)
any-filter_unique q (u ∷ us) t unique (there m) =
    ground (arith, one-le-count (λ u. u.id == t.id) m, any-filter_unique q us t (ground arith) m)

-- With at most one connection for a shop, a connection is the only one of its shop.
picked_once :
    (shared : List Connection) (d : Connection)
    → ((shop : ℕ) → count (λ c. c.shop == shop) shared ≤ 1)
    → Member d shared
    → count (λ c. d.shop == c.shop) shared ≡ 1
picked_once shared d unique m =
    let swapped =
      count-same (λ c. d.shop == c.shop) (λ c. c.shop == d.shop) (λ c. ground arith) shared in
    let one = one-le-count (λ c. c.shop == d.shop) m (==_refl d.shop) in
    omega (arith, swapped, one, unique d.shop)

find-Member : {A : Type 0} (p : A → Bool) (xs : List A) (x : A) → find? p xs ≡ some x → Member x xs
find-Member p [] x h = absurd (cc h)
find-Member p (y ∷ ys) x h = elim (Bool-cases (p y)) [
  | inl hit ↦ let h = rw hit at h in let e : y ≡ x = cc h in subst (λ z. Member z (y ∷ ys)) e here
  | inr miss ↦ let h = rw miss at h in there (find-Member p ys x h)
]

pick_connection-Member :
    (shop : ℕ) (c : Connection) (cs : List Connection)
    → (d : Connection) × (pick_connection shop (c ∷ cs) ≡ some d) × Member d (c ∷ cs)
unfolding pick_connection
pick_connection-Member shop c cs = elim (Option-cases (find? (λ d. d.shop == shop) (c ∷ cs))) [
  | inl none_own ↦ (c, rw none_own refl, here)
  | inr (d, own) ↦ (d, rw own refl, find-Member (λ d. d.shop == shop) (c ∷ cs) d own)
]

asked_count :
    (shared all : List Connection) (d : Connection) (t : TrackedOrder)
    → pick_connection t.shop_id all ≡ some d
    → count (λ e. is_active all t && polled_by e (pick_connection t.shop_id all)) shared
      ≡ (if status_terminal t.last_status then 0 else count (λ e. d.shop == e.shop) shared)
asked_count [] all d t picked = ground arith
asked_count (e ∷ es) all d t picked = ground (arith, asked_count es all d t picked)

-- A parcel of the table as the sweep read it, where ids are unique and a shop has one connection at
-- most: it is asked about through exactly one of the usable connections if its status is not
-- terminal, and through none if it is. Every shop's parcels count, those of shops without a
-- connection of their own too.
pub asked_once :
    (c : Connection) (cs : List Connection) (rows : List TrackedOrder) (t : TrackedOrder)
    → ((shop : ℕ) → count (λ d. d.shop == shop) (c ∷ cs) ≤ 1)
    → count (λ u. u.id == t.id) rows ≤ 1
    → Member t rows
    → count (λ d. asks_for t.id (parcels_of (c ∷ cs) d rows)) (c ∷ cs)
      ≡ (if status_terminal t.last_status then 0 else 1)
unfolding parcels_of
asked_once c cs rows t one_each unique m =
    let all = c ∷ cs in
    let (d, picked, is_shared) = pick_connection-Member t.shop_id c cs in
    let once = picked_once all d one_each is_shared in
    let by_test =
      count-same (λ e. asks_for t.id (parcels_of all e rows))
        (λ e. is_active all t && polled_by e (pick_connection t.shop_id all))
        (λ e.
          any-filter_unique (λ u. is_active all u && polled_by e (pick_connection u.shop_id all))
            rows t unique m)
        all in
    by_test
    ∙ asked_count all all d t picked
    ∙ ap (λ n. if status_terminal t.last_status then 0 else n) once
