-- ===== src/Prelude/Text.antt =====
-- Texts as native strings where the program compares, joins and stores them whole, and numbers
-- written in decimal (strconv.Itoa).
use Prim.Native.Nat.{ℕ, zero, suc, ◌+◌, ◌-◌, ◌*◌, ◌/◌, ◌%◌, ◌<◌, ◌≤◌}
use Prim.Native.Char.{code}
use mathlib.Core.Path.{◌≡◌, refl, sym, ap, ◌∙◌}
use native.Mathlib.Omega.{arith}
use text.Mathlib.TextLemmas.{nil-append, cons-append}
use Prim.Native.String.{String, ◌++◌ as append_text}
use mathlib.Core.List.{List, [], ◌∷◌}
use beleevo_whatsapp.Prelude.Tests.{string_eq, nat_eq, ◌==◌, if◌then◌else◌, Bool-cases}
use mathlib.Core.Logic.{inl, inr}
use mathlib.Core.Bool.{true}

abbrev pub join_texts : List String → String
join_texts [] = ""
join_texts (s ∷ ss) = append_text s (join_texts ss)

digit : ℕ → String
digit d =
    if d == 0
    then "0"
    else if d == 1
    then "1"
    else if d == 2
    then "2"
    else if d == 3
    then "3"
    else if d == 4
    then "4"
    else if d == 5
    then "5"
    else if d == 6
    then "6"
    else if d == 7
    then "7"
    else if d == 8
    then "8"
    else "9"

-- The digits of `n` in front of `out`; a number has fewer digits than one more than its value.
write_digits : ℕ → ℕ → String → String
write_digits zero n out = out
write_digits (suc fuel) n out =
    let out' = append_text (digit (n % 10)) out in
    let rest = write_digits fuel (n / 10) out' in if n / 10 == 0 then out' else rest

unfoldable pub itoa : ℕ → String
unfolding write_digits digit
itoa n = write_digits (suc n) n ""

-- The number that decimal digits write, after the digits of `n`.
value_from : ℕ → String → ℕ
value_from n String.[] = n
value_from n (String.◌∷◌ c s) = value_from (n * 10 + (code c - b'0')) s

value_from-digit :
    (n d : ℕ) (s : String)
    → d < 10
    → value_from n (append_text (digit d) s) ≡ value_from (n * 10 + d) s
unfolding value_from digit
value_from-digit n zero s h = rw cons-append (rw nil-append refl)
value_from-digit n (suc zero) s h = rw cons-append (rw nil-append refl)
value_from-digit n (suc (suc zero)) s h = rw cons-append (rw nil-append refl)
value_from-digit n (suc (suc (suc zero))) s h = rw cons-append (rw nil-append refl)
value_from-digit n (suc (suc (suc (suc zero)))) s h = rw cons-append (rw nil-append refl)
value_from-digit n (suc (suc (suc (suc (suc zero))))) s h = rw cons-append (rw nil-append refl)
value_from-digit n (suc (suc (suc (suc (suc (suc zero)))))) s h =
    rw cons-append (rw nil-append refl)
value_from-digit n (suc (suc (suc (suc (suc (suc (suc zero))))))) s h =
    rw cons-append (rw nil-append refl)
value_from-digit n (suc (suc (suc (suc (suc (suc (suc (suc zero)))))))) s h =
    rw cons-append (rw nil-append refl)
value_from-digit n (suc (suc (suc (suc (suc (suc (suc (suc (suc zero))))))))) s h =
    rw cons-append (rw nil-append refl)
value_from-digit n (suc (suc (suc (suc (suc (suc (suc (suc (suc (suc m)))))))))) s h =
    absurd (omega (arith, h))

last_digit :
    (fuel n : ℕ) (out : String)
    → (n / 10 == 0) ≡ true
    → value_from 0 (write_digits (suc fuel) n out) ≡ value_from n out
unfolding write_digits
last_digit fuel n out last =
    let e : 0 * 10 + n % 10 ≡ n = ground arith in
    rw last (value_from-digit 0 (n % 10) out (omega arith) ∙ ap (λ k. value_from k out) e)

write_digits-value :
    (fuel n : ℕ) (out : String)
    → n ≤ fuel
    → value_from 0 (write_digits (suc fuel) n out) ≡ value_from n out
unfolding write_digits
write_digits-value zero n out h = last_digit zero n out (ground arith)
write_digits-value (suc fuel) n out h = elim (Bool-cases (n / 10 == 0)) [
  | inl last ↦ last_digit (suc fuel) n out last
  | inr more ↦
      let e : n / 10 * 10 + n % 10 ≡ n = omega arith in
      rw more (
        write_digits-value fuel (n / 10) (append_text (digit (n % 10)) out) (omega (arith, h))
        ∙ value_from-digit (n / 10) (n % 10) out (omega arith)
        ∙ ap (λ k. value_from k out) e)
]

itoa-value : (n : ℕ) → value_from 0 (itoa n) ≡ n
unfolding itoa value_from
itoa-value n = write_digits-value n n "" (omega arith)

-- Two numbers that are written alike are the same.
pub itoa-injective : (a b : ℕ) → itoa a ≡ itoa b → a ≡ b
itoa-injective a b h = sym (itoa-value a) ∙ ap (value_from 0) h ∙ itoa-value b
