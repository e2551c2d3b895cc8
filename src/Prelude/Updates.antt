-- ===== src/Prelude/Updates.antt =====
-- What updates, searches and filters of a table have to do with each other.
use Prim.Native.Nat.{◌≤◌}
use mathlib.Core.Path.{◌≡◌, refl, ap}
use mathlib.Core.List.{List, [], ◌∷◌, ◌++◌}
use mathlib.Core.Logic.{inl, inr}
use mathlib.Core.Bool.{Bool, true, false, ◌||◌}
use mathlib.Core.Option.{some}
use native.Mathlib.Omega.{arith}
use beleevo_whatsapp.Prelude.Tests.{Bool-cases}
use beleevo_whatsapp.Prelude.Lists.{filter, find?, any, update, count, All}

module _ {ℓ} {A : Type ℓ} where
  -- A filter that keeps what a test passes keeps the test's count.
  pub count-filter_imp :
      (p q : A → Bool)
      → ((x : A) → p x ≡ true → q x ≡ true)
      → (xs : List A) → count p (filter q xs) ≡ count p xs
  count-filter_imp p q f [] = refl
  count-filter_imp p q f (x ∷ xs) = ground (arith, f x, count-filter_imp p q f xs)

module _ {ℓ} {A : Type ℓ} where
  -- An update that leaves what a search tests alone moves the row that the search finds.
  pub find-update :
      (q p : A → Bool) (f : A → A)
      → ((x : A) → q (f x) ≡ q x)
      → ((x : A) → q x ≡ true → p x ≡ true)
      → (xs : List A) (x : A) → find? q xs ≡ some x
      → find? q (update p f xs) ≡ some (f x)
  find-update q p f same hit [] x h = absurd (cc h)
  find-update q p f same hit (y ∷ ys) x h = elim (Bool-cases (q y)) [
    | inl found ↦
        let h = rw found at h in
        let e : y ≡ x = cc h in rw (hit y found, same y, found) (ap (λ z. some (f z)) e)
    | inr other ↦
        let h = rw other at h in
        elim (Bool-cases (p y)) [
          | inl changed ↦ rw (changed, same y, other) (find-update q p f same hit ys x h)
          | inr kept ↦ rw (kept, other) (find-update q p f same hit ys x h)
        ]
  ]

  pub find-update_other :
      (q p : A → Bool) (f : A → A)
      → ((x : A) → p x ≡ true → q x ≡ false)
      → ((x : A) → p x ≡ true → q (f x) ≡ false)
      → (xs : List A) → find? q (update p f xs) ≡ find? q xs
  find-update_other q p f before after [] = refl
  find-update_other q p f before after (x ∷ xs) =
      ground (arith, before x, after x, find-update_other q p f before after xs)

module _ {ℓ} {A : Type ℓ} where
  pub count-same :
      (p q : A → Bool) → ((x : A) → p x ≡ q x) → (xs : List A) → count p xs ≡ count q xs
  count-same p q same [] = refl
  count-same p q same (x ∷ xs) = ground (arith, same x, count-same p q same xs)

  pub any-filter_none :
      (p q : A → Bool) (xs : List A) → count p xs ≡ 0 → any p (filter q xs) ≡ false
  any-filter_none p q [] h = refl
  any-filter_none p q (x ∷ xs) h = ground (arith, any-filter_none p q xs)

pub update_none {ℓ} :
    {A : Type ℓ} (p : A → Bool) (f : A → A)
    → ((a : A) → p a ≡ false)
    → (xs : List A) → update p f xs ≡ xs
update_none p f no_hit [] = refl
update_none p f no_hit (x ∷ xs) = rw (no_hit x, update_none p f no_hit xs) refl

-- Two updates of one kind are one, where the first takes its rows out of the second's reach.
pub update-update {ℓ} :
    {A : Type ℓ} (p q r : A → Bool) (f : A → A)
    → ((a : A) → q (f a) ≡ false)
    → ((a : A) → r a ≡ (p a || q a))
    → (xs : List A) → update q f (update p f xs) ≡ update r f xs
update-update p q r f out both [] = refl
update-update p q r f out both (x ∷ xs) = elim (Bool-cases (p x)) [
  | inl first ↦ rw (first, out x, both x, first, update-update p q r f out both xs) refl
  | inr other ↦ rw (other, both x, other, update-update p q r f out both xs) refl
]

pub update-congr {ℓ} :
    {A : Type ℓ} (p q : A → Bool) (f : A → A)
    → ((a : A) → p a ≡ q a)
    → (xs : List A) → update p f xs ≡ update q f xs
update-congr p q f same [] = refl
update-congr p q f same (x ∷ xs) = rw (same x, update-congr p q f same xs) refl

pub filter-congr {ℓ} :
    {A : Type ℓ} (p q : A → Bool) (xs : List A)
    → All (λ a. p a ≡ q a) xs
    → filter p xs ≡ filter q xs
filter-congr p q [] h = refl
filter-congr p q (x ∷ xs) (e, h) = rw (e, filter-congr p q xs h) refl

pub find-of_count {ℓ} :
    {A : Type ℓ} (p : A → Bool) (xs : List A) → 1 ≤ count p xs → (a : A) × (find? p xs ≡ some a)
find-of_count p [] h = absurd (omega (arith, h))
find-of_count p (x ∷ xs) h = elim (Bool-cases (p x)) [
  | inl hit ↦ (x, rw hit refl)
  | inr miss ↦ let h' = rw miss at h in rw miss (find-of_count p xs h')
]

pub any-last {ℓ} :
    {A : Type ℓ} (p : A → Bool) (xs : List A) (a : A) → p a ≡ true → any p (xs ++ a ∷ []) ≡ true
any-last p [] a h = rw h refl
any-last p (x ∷ xs) a h = elim (Bool-cases (p x)) [
  | inl hit ↦ rw hit refl
  | inr miss ↦ rw miss (any-last p xs a h)
]
