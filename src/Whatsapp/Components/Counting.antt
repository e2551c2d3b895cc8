-- ===== src/Whatsapp/Components/Counting.antt =====
-- What `countTemplateVariablesRaw` of internal/whatsapp/send.go counts.
use mathlib.Core.Bool.{or_assoc}
use beleevo_whatsapp.Prelude.{
  string_eq, nat_eq, ◌==◌, if◌then◌else◌, ==_refl, Bool-cases, length, count, ℕ, suc, ◌≡◌, refl,
  sym, ap, inl, inr, Bool, true, false, ◌||◌, List, [], ◌∷◌, ◌++◌, arith,
}
use beleevo_whatsapp.Whatsapp.{Component}
use beleevo_whatsapp.Whatsapp.Placeholders.{placeholder_numbers}
use beleevo_whatsapp.Whatsapp.Components.{
  is_text, meta_comp_text, seen, add_all, distinct_numbers, count_template_variables_raw,
}

-- The numbers that stand in the texts of bodies and headers, in order and with repetitions.
abbrev pub all_numbers : List Component → List ℕ
all_numbers [] = []
all_numbers (c ∷ comps) =
    let rest = all_numbers comps in
    if is_text c then placeholder_numbers (meta_comp_text c) ++ rest else rest

abbrev pub times : ℕ → List ℕ → ℕ
times n ns = count (λ m. m == n) ns

abbrev pub one_if : Bool → ℕ
one_if b = if b then 1 else 0

-- The number is found once where the test holds, and nowhere otherwise.
abbrev Once : ℕ → Bool → List ℕ → Type 0
Once n b found = (seen n found ≡ b) × (times n found ≡ one_if b)

or_same : (b : Bool) → (b || true) ≡ true
or_same true = refl
or_same false = refl

or_other : (b : Bool) → (b || false) ≡ b
or_other true = refl
or_other false = refl

-- The number itself is added where it is not there yet.
add_same-Once :
    (n : ℕ) (b : Bool) (found : List ℕ)
    → Once n b found
    → Once n true (if seen n found then found else n ∷ found)
add_same-Once n true found (e, c) = rw (e) (e, c)
add_same-Once n false found (e, c) = let equal = ==_refl n in rw (e, equal) (refl, ap suc c)

-- Another number changes nothing.
add_other-Once :
    (m n : ℕ) (had b : Bool) (found : List ℕ)
    → (m == n) ≡ false
    → Once n b found
    → Once n b (if had then found else m ∷ found)
add_other-Once m n true b found other h = h
add_other-Once m n false b found other (e, c) = rw (other) (e, c)

add-Once :
    (m n : ℕ) (b : Bool) (found : List ℕ)
    → Once n b found
    → Once n (b || m == n) (if seen m found then found else m ∷ found)
add-Once m n b found h = elim (Bool-cases (m == n)) [
  | inl same ↦
      let equal : m ≡ n = ground (arith, same) in
      let equal' = ==_refl n in rw (equal, equal', or_same b) (add_same-Once n b found h)
  | inr other ↦ rw (other, or_other b) (add_other-Once m n (seen m found) b found other h)
]

add_all-Once :
    (n : ℕ) (ns : List ℕ) (b : Bool) (found : List ℕ)
    → Once n b found
    → Once n (b || seen n ns) (add_all ns found)
unfolding add_all
add_all-Once n [] b found h = rw (or_other b) h
add_all-Once n (m ∷ ns) b found h =
    let rest =
      add_all-Once n ns (b || m == n) (if seen m found then found else m ∷ found)
        (add-Once m n b found h) in
    let turned = rw (or_assoc b (m == n) (seen n ns)) at rest in turned

seen-append : (n : ℕ) (ns ms : List ℕ) → seen n (ns ++ ms) ≡ (seen n ns || seen n ms)
seen-append n [] ms = refl
seen-append n (m ∷ ns) ms = rw (seen-append n ns ms, or_assoc (m == n) (seen n ns) (seen n ms)) refl

distinct_numbers-Once :
    (n : ℕ) (comps : List Component) (b : Bool) (found : List ℕ)
    → Once n b found
    → Once n (b || seen n (all_numbers comps)) (distinct_numbers comps found)
unfolding distinct_numbers
distinct_numbers-Once n [] b found h = rw (or_other b) h
distinct_numbers-Once n (c ∷ comps) b found h = elim (Bool-cases (is_text c)) [
  | inl text ↦
      let ns = placeholder_numbers (meta_comp_text c) in
      let rest =
        distinct_numbers-Once n comps (b || seen n ns) (add_all ns found)
          (add_all-Once n ns b found h) in
      rw
        (
          text,
          seen-append n ns (all_numbers comps),
          sym (or_assoc b (seen n ns) (seen n (all_numbers comps))),
        )
        rest
  | inr other ↦ rw (other) (distinct_numbers-Once n comps b found h)
]

-- What is counted is a list of numbers that holds every number of the texts of bodies and headers
-- once and no other number.
pub count_template_variables_raw-distinct :
    (comps : List Component)
    → (ns : List ℕ) × (length ns ≡ count_template_variables_raw comps)
      × ((n : ℕ) → times n ns ≡ one_if (seen n (all_numbers comps)))
unfolding count_template_variables_raw
count_template_variables_raw-distinct comps =
    (distinct_numbers comps [], refl, λ n. (distinct_numbers-Once n comps false [] (refl, refl)).1)
