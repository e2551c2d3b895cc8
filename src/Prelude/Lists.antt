-- ===== src/Prelude/Lists.antt =====
-- Lists measured and searched by native numbers and Boolean tests, under the library's names.
use Prim.Native.Nat.{ℕ, zero, suc, ◌+◌, ◌≤◌}
use mathlib.Core.Path.{◌≡◌, refl, ap}
use mathlib.Core.List.{List, [], ◌∷◌, ◌++◌, map}
use mathlib.Core.Bool.{Bool, true, false, ◌||◌}
use mathlib.Core.Option.{Option, none, some}
use native.Mathlib.Omega.{arith}
use beleevo_whatsapp.Prelude.Tests.{if◌then◌else◌}

module _ {ℓ} {A : Type ℓ} where
  abbrev pub length : List A → ℕ
  length [] = 0
  length (x ∷ xs) = suc (length xs)

  abbrev pub get_elem? : List A → ℕ → Option A
  get_elem? [] i = none
  get_elem? (x ∷ xs) zero = some x
  get_elem? (x ∷ xs) (suc i) = get_elem? xs i

  abbrev pub take : ℕ → List A → List A
  take zero xs = []
  take (suc n) [] = []
  take (suc n) (x ∷ xs) = x ∷ take n xs

  -- The rows that pass a test (`WHERE`), in order.
  abbrev pub filter : (A → Bool) → List A → List A
  filter p [] = []
  filter p (x ∷ xs) = let rest = filter p xs in if p x then x ∷ rest else rest

  -- The first row that passes a test (`LIMIT 1`).
  abbrev pub find? : (A → Bool) → List A → Option A
  find? p [] = none
  find? p (x ∷ xs) = let rest = find? p xs in if p x then some x else rest

  abbrev pub any : (A → Bool) → List A → Bool
  any p [] = false
  any p (x ∷ xs) = p x || any p xs

  -- `UPDATE … SET f WHERE p`.
  abbrev pub update : (A → Bool) → (A → A) → List A → List A
  update p f [] = []
  update p f (x ∷ xs) = (if p x then f x else x) ∷ update p f xs

  abbrev pub count : (A → Bool) → List A → ℕ
  count p [] = 0
  count p (x ∷ xs) = let rest = count p xs in if p x then suc rest else rest

  abbrev pub is_none : Option A → Bool
  is_none none = true
  is_none (some _) = false

module _ {ℓ κ} {A : Type ℓ} (P : A → Type κ) where
  abbrev pub All : List A → Type κ
  All [] = Unit
  All (x ∷ xs) = P x × All xs

module _ {ℓ} {A : Type ℓ} where
  pub length-append : (xs ys : List A) → length (xs ++ ys) ≡ length xs + length ys
  length-append [] ys = omega arith
  length-append (x ∷ xs) ys = omega (arith, length-append xs ys)

  pub length-take-le : (n : ℕ) (xs : List A) → length (take n xs) ≤ n
  length-take-le zero xs = omega arith
  length-take-le (suc n) [] = omega arith
  length-take-le (suc n) (x ∷ xs) = omega (arith, length-take-le n xs)

  pub length-update : (p : A → Bool) (f : A → A) (xs : List A) → length (update p f xs) ≡ length xs
  length-update p f [] = refl
  length-update p f (x ∷ xs) = ap suc (length-update p f xs)

  pub count-append : (p : A → Bool) (xs ys : List A) → count p (xs ++ ys) ≡ count p xs + count p ys
  count-append p [] ys = omega arith
  count-append p (x ∷ xs) ys = ground (arith, count-append p xs ys)

  pub count-filter-le : (p q : A → Bool) (xs : List A) → count p (filter q xs) ≤ count p xs
  count-filter-le p q [] = omega arith
  count-filter-le p q (x ∷ xs) = ground (arith, count-filter-le p q xs)

  -- An update that leaves what a test reads alone leaves its count alone.
  pub count-update :
      (q p : A → Bool) (f : A → A)
      → ((x : A) → q (f x) ≡ q x)
      → (xs : List A) → count q (update p f xs) ≡ count q xs
  count-update q p f same [] = refl
  count-update q p f same (x ∷ xs) = ground (arith, same x, count-update q p f same xs)

  pub any-count : (p : A → Bool) (xs : List A) → any p xs ≡ false → count p xs ≡ 0
  any-count p [] h = refl
  any-count p (x ∷ xs) h = ground (arith, any-count p xs)

module _ {ℓ κ} {A : Type ℓ} (P : A → Type κ) where
  pub All-append : (xs ys : List A) → All P xs → All P ys → All P (xs ++ ys)
  All-append [] ys hx hy = hy
  All-append (x ∷ xs) ys (px, hx) hy = (px, All-append xs ys hx hy)

  pub All-if : (b : Bool) (xs ys : List A) → All P xs → All P ys → All P (if b then xs else ys)
  All-if true xs ys hx hy = hx
  All-if false xs ys hx hy = hy

  pub All-filter : (q : A → Bool) (xs : List A) → All P xs → All P (filter q xs)
  All-filter q [] h = h
  All-filter q (x ∷ xs) (px, h) =
      let rest = All-filter q xs h in All-if (q x) (x ∷ filter q xs) (filter q xs) (px, rest) rest

  pub All-update :
      (q : A → Bool) (f : A → A)
      → ((x : A) → q x ≡ true → P x → P (f x))
      → (xs : List A) → All P xs
      → All P (update q f xs)
  All-update q f keep [] h = h
  All-update q f keep (x ∷ xs) (px, h) = (step (q x) refl, All-update q f keep xs h)
    where
      step : (b : Bool) → q x ≡ b → P (if b then f x else x)
      step true e = keep x e px
      step false e = px

-- Membership as data: where in the list the row stands.
pub data Member {ℓ} {A : Type ℓ} (a : A) : List A → Type ℓ where
  here : {xs : List A} → Member a (a ∷ xs)
  there : {x : A} {xs : List A} → Member a xs → Member a (x ∷ xs)

module _ {ℓ κ} {A : Type ℓ} (P : A → Type κ) where
  pub All-of_members : (xs : List A) → ((a : A) → Member a xs → P a) → All P xs
  All-of_members [] h = tt
  All-of_members (x ∷ xs) h = (h x here, All-of_members xs (λ a m. h a (there m)))

  pub All-at : {a : A} {xs : List A} → Member a xs → All P xs → P a
  All-at here h = h.0
  All-at (there m) h = All-at m h.1

module _ {ℓ κ} {A : Type ℓ} (P : A → Type κ) where
  pub All-take : (n : ℕ) (xs : List A) → All P xs → All P (take n xs)
  All-take zero xs h = tt
  All-take (suc n) [] h = h
  All-take (suc n) (x ∷ xs) h = (h.0, All-take n xs h.1)

module _ {ℓ κ μ} {A : Type ℓ} {B : Type κ} (P : B → Type μ) where
  pub All-map : (f : A → B) (xs : List A) → All (λ a. P (f a)) xs → All P (map f xs)
  All-map f [] h = tt
  All-map f (x ∷ xs) h = (h.0, All-map f xs h.1)

module _ {ℓ} {A : Type ℓ} where
  pub one-le-count :
      {a : A} {xs : List A} (p : A → Bool) → Member a xs → p a ≡ true → 1 ≤ count p xs
  one-le-count p here h = ground arith
  one-le-count p (there {x = x} m) h = ground (arith, one-le-count p m h)

  -- Rows that pass one of two tests that exclude each other are counted apart.
  pub count_apart :
      (p q r : A → Bool)
      → ((x : A) → p x ≡ true → r x ≡ true)
      → ((x : A) → q x ≡ true → r x ≡ true)
      → ((x : A) → p x ≡ true → q x ≡ false)
      → (xs : List A) → count p xs + count q xs ≤ count r xs
  count_apart p q r pr qr apart [] = omega arith
  count_apart p q r pr qr apart (x ∷ xs) =
      ground (arith, pr x, qr x, apart x, count_apart p q r pr qr apart xs)

  pub count_or :
      (p q : A → Bool) (xs : List A) → count (λ x. p x || q x) xs ≤ count p xs + count q xs
  count_or p q [] = omega arith
  count_or p q (x ∷ xs) = ground (arith, count_or p q xs)

  pub length-filter : (p : A → Bool) (xs : List A) → length (filter p xs) ≡ count p xs
  length-filter p [] = refl
  length-filter p (x ∷ xs) = ground (arith, length-filter p xs)

module _ {ℓ κ} {A : Type ℓ} (P : A → Type κ) where
  All-cons_if :
      (b : Bool) (x : A) (xs : List A)
      → (b ≡ true → P x)
      → All P xs
      → All P (if b then x ∷ xs else xs)
  All-cons_if true x xs hx h = (hx refl, h)
  All-cons_if false x xs hx h = h

  -- What the rows that pass a test have in common.
  pub All-filter_of_members :
      (p : A → Bool) (xs : List A)
      → ((a : A) → Member a xs → p a ≡ true → P a)
      → All P (filter p xs)
  All-filter_of_members p [] h = tt
  All-filter_of_members p (x ∷ xs) h =
      All-cons_if (p x) x (filter p xs) (h x here)
        (All-filter_of_members p xs (λ a m. h a (there m)))

module _ {ℓ} {A : Type ℓ} where
  pub count-false : (xs : List A) → count (λ _. false) xs ≡ 0
  count-false [] = refl
  count-false (x ∷ xs) = count-false xs

  pub length-map {κ} : {B : Type κ} (f : A → B) (xs : List A) → length (map f xs) ≡ length xs
  length-map f [] = refl
  length-map f (x ∷ xs) = ap suc (length-map f xs)

module _ {ℓ κ μ} {A : Type ℓ} (P : A → Type κ) (Q : A → Type μ) where
  pub All-imp : (xs : List A) → ((a : A) → P a → Q a) → All P xs → All Q xs
  All-imp [] f h = tt
  All-imp (x ∷ xs) f h = (f x h.0, All-imp xs f h.1)

  All-update_one :
      (q : Bool) (f : A → A) (x : A)
      → (q ≡ true → Q (f x))
      → (q ≡ false → Q x)
      → Q (if q then f x else x)
  All-update_one true f x hit miss = hit refl
  All-update_one false f x hit miss = miss refl

  -- What holds of the rows of an updated table, by cases on each row of the table before.
  pub All-update_cases :
      (q : A → Bool) (f : A → A) (xs : List A)
      → ((a : A) → Member a xs → P a → q a ≡ true → Q (f a))
      → ((a : A) → Member a xs → P a → q a ≡ false → Q a)
      → All P xs
      → All Q (update q f xs)
  All-update_cases q f [] hit miss h = tt
  All-update_cases q f (x ∷ xs) hit miss h = (
    All-update_one (q x) f x (hit x here h.0) (miss x here h.0),
    All-update_cases q f xs (λ a m. hit a (there m)) (λ a m. miss a (there m)) h.1,
  )
