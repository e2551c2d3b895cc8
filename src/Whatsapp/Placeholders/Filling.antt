-- ===== src/Whatsapp/Placeholders/Filling.antt =====
-- `fillPlaceholders` of internal/whatsapp/send.go on a text of segments.
use Prim.Native.Char.{Char, code}
use Prim.Native.String.{◌++◌ as append_text}
use text.Mathlib.TextLemmas.{nil-append, cons-append}
use beleevo_whatsapp.Prelude.{
  All, itoa, ℕ, zero, suc, ◌+◌, ◌≤◌, String, ◌≡◌, refl, ap, ◌∙◌, ◌≢◌, true, false, Option, none,
  some, List, [], ◌∷◌, arith,
}
use beleevo_whatsapp.Whatsapp.Placeholders.{
  is_digit, max_int, atoi_digits, is_space, trim_left, all_space, trim_right, trim_space, unsigned,
  canonical_key, split_at_close, placeholder_at, filled, size, fill_from, fill_placeholders,
}
use beleevo_whatsapp.Whatsapp.Placeholders.Segments.{
  Segment, plain, hole, braced, write, EachChar, IsSegment,
}
use beleevo_whatsapp.Whatsapp.{Variables, value_of}

split-digits :
    (ds rest : String)
    → EachChar (λ c. is_digit c ≡ true) ds
    → split_at_close (append_text ds (append_text "}}" rest)) ≡ some (ds, rest)
unfolding split_at_close
split-digits String.[] rest h = rw nil-append (rw cons-append (rw cons-append (rw nil-append)))
split-digits (String.◌∷◌ c ds) rest (hc, hs) =
    rw cons-append (ground (arith, split-digits ds rest hs))

digit-not_space : (c : Char) → is_digit c ≡ true → is_space c ≡ false
unfolding is_space
digit-not_space c h = ground arith

trim_right-digits : (ds : String) → EachChar (λ c. is_digit c ≡ true) ds → trim_right ds ≡ ds
unfolding trim_right all_space
trim_right-digits String.[] h = refl
trim_right-digits (String.◌∷◌ c ds) (hc, hs) =
    ground (arith, digit-not_space c hc, trim_right-digits ds hs)

trim_left-digits : (ds : String) → EachChar (λ c. is_digit c ≡ true) ds → trim_left ds ≡ ds
unfolding trim_left
trim_left-digits String.[] h = refl
trim_left-digits (String.◌∷◌ c ds) (hc, hs) = ground (arith, digit-not_space c hc)

trim_space-digits : (ds : String) → EachChar (λ c. is_digit c ≡ true) ds → trim_space ds ≡ ds
unfolding trim_space
trim_space-digits ds h = rw (trim_left-digits ds h) (trim_right-digits ds h)

canonical_key-digits :
    (ds : String) (n : ℕ)
    → EachChar (λ c. is_digit c ≡ true) ds
    → ds ≢ ""
    → atoi_digits max_int 0 ds ≡ some n
    → canonical_key ds ≡ some (itoa n)
canonical_key-digits String.[] n h some_digit e = absurd (some_digit refl)
canonical_key-digits (String.◌∷◌ c ds) n (hc, hs) some_digit e =
    unfold canonical_key in ground (arith, ap unsigned e)

placeholder_at-braced :
    (c : Char) (ds rest : String) (n : ℕ)
    → code c ≡ b'{'
    → IsSegment (hole ds)
    → atoi_digits max_int 0 ds ≡ some n
    → placeholder_at c (append_text "{" (append_text ds (append_text "}}" rest)))
      ≡ some (itoa n, rest)
unfolding placeholder_at
placeholder_at-braced c ds rest n e (all_digits, some_digit, _) number = rw cons-append (
    rw nil-append (
      ground (
        arith,
        split-digits ds rest all_digits,
        trim_space-digits ds all_digits,
        canonical_key-digits ds n all_digits some_digit number,
      )))

-- The text that the segments stand for once the variables are put in.
abbrev pub value_at : Option ℕ → Variables → String
value_at none vars = ""
value_at (some n) vars = filled (value_of (itoa n) vars)

abbrev pub expected : List Segment → Variables → String
expected [] vars = ""
expected (plain s ∷ segs) vars = append_text s (expected segs vars)
expected (hole ds ∷ segs) vars =
    append_text (value_at (atoi_digits max_int 0 ds) vars) (expected segs vars)

plain-not_placeholder : (c : Char) (s : String) → code c ≢ b'{' → placeholder_at c s ≡ none
unfolding placeholder_at
plain-not_placeholder c s h = ground arith

fill_step_plain :
    (fuel : ℕ) (c : Char) (s : String) (vars : Variables)
    → code c ≢ b'{'
    → fill_from (suc fuel) (String.◌∷◌ c s) vars ≡ String.◌∷◌ c (fill_from fuel s vars)
unfolding fill_from
fill_step_plain fuel c s vars h = ground (arith, plain-not_placeholder c s h)

fill_plain :
    (vars : Variables) (s rest out : String)
    → EachChar (λ c. code c ≢ b'{') s
    → ((f : ℕ) → size rest ≤ f → fill_from f rest vars ≡ out)
    → (f : ℕ) → size (append_text s rest) ≤ f
    → fill_from f (append_text s rest) vars ≡ append_text s out
fill_plain vars String.[] rest out h ih f enough =
    simp nil-append (ih f (simp nil-append at enough))
fill_plain vars (String.◌∷◌ c s) rest out (hc, hs) ih zero enough =
    let few : suc (size (append_text s rest)) ≤ 0 = simp cons-append at enough in
    absurd (omega arith)
fill_plain vars (String.◌∷◌ c s) rest out (hc, hs) ih (suc f) enough =
    let fewer : suc (size (append_text s rest)) ≤ suc f = simp cons-append at enough in
    simp cons-append (
      fill_step_plain f c (append_text s rest) vars hc
      ∙ ap (String.◌∷◌ c) (fill_plain vars s rest out hs ih f (omega arith)))

size-append : (s t : String) → size (append_text s t) ≡ size s + size t
size-append String.[] t = simp nil-append (omega arith)
size-append (String.◌∷◌ c s) t = simp cons-append (omega (arith, size-append s t))

abbrev brace : Char
brace = "{"

fill_step_hole :
    (fuel : ℕ) (ds rest : String) (vars : Variables) (n : ℕ)
    → IsSegment (hole ds)
    → atoi_digits max_int 0 ds ≡ some n
    → fill_from (suc fuel) (braced ds rest) vars
      ≡ append_text (filled (value_of (itoa n) vars)) (fill_from fuel rest vars)
unfolding fill_from
fill_step_hole fuel ds rest vars n h number =
    rw cons-append (ground (arith, placeholder_at-braced brace ds rest n refl h number))

fill-expected :
    (segs : List Segment) (vars : Variables)
    → All IsSegment segs
    → (f : ℕ) → size (write segs) ≤ f
    → fill_from f (write segs) vars ≡ expected segs vars
fill-expected [] vars h zero enough = unfold fill_from in refl
fill-expected [] vars h (suc f) enough = unfold fill_from in refl
fill-expected (plain s ∷ segs) vars h f enough =
    fill_plain vars s (write segs) (expected segs vars) h.0 (fill-expected segs vars h.1) f enough
fill-expected (hole ds ∷ segs) vars h zero enough =
    absurd (omega (arith, size-append "{{" (append_text ds (append_text "}}" (write segs)))))
fill-expected (hole ds ∷ segs) vars ((all_digits, some_digit, (n, number)), h) (suc f) enough =
    let fits : size (write segs) ≤ f = omega (
      arith,
      size-append "{{" (append_text ds (append_text "}}" (write segs))),
      size-append ds (append_text "}}" (write segs)),
      size-append "}}" (write segs),
    ) in
    fill_step_hole f ds (write segs) vars n (all_digits, some_digit, (n, number)) number
    ∙ ground (arith, fill-expected segs vars h f fits)

-- The filler replaces each hole of a text by the variable under the hole's number written without
-- leading zeros, or by a dash where the map has no such variable, and copies all other text. Here the
-- text is a list of segments: plain text without an opening brace, and holes "{{N}}" whose number
-- fits an int.
pub fill_placeholders-write :
    (segs : List Segment) (vars : Variables)
    → All IsSegment segs
    → fill_placeholders (write segs) vars ≡ expected segs vars
unfolding fill_placeholders
fill_placeholders-write segs vars h = fill-expected segs vars h (size (write segs)) (omega arith)
