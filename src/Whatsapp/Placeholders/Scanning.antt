-- ===== src/Whatsapp/Placeholders/Scanning.antt =====
-- `PlaceholderNumbers` of internal/whatsapp/send.go on a text of segments.
use Prim.Native.Char.{Char, code}
use Prim.Native.String.{◌++◌ as append_text}
use text.Mathlib.TextLemmas.{
  nil-append, cons-append, append_assoc as text_assoc, append-nil as text-append-nil,
}
use beleevo_whatsapp.Prelude.{
  All, ℕ, String, ◌≡◌, refl, ap, ◌∙◌, ◌≢◌, true, List, [], ◌∷◌, arith, eq_iff,
}
use beleevo_whatsapp.Whatsapp.Placeholders.{
  is_digit, max_int, atoi_digits, cons, snoc, outside, digits, scan_numbers, placeholder_numbers,
}
use beleevo_whatsapp.Whatsapp.Placeholders.Segments.{
  Segment, plain, hole, write, EachChar, IsSegment,
}

abbrev pub hole_numbers : List Segment → List ℕ
hole_numbers [] = []
hole_numbers (plain s ∷ segs) = hole_numbers segs
hole_numbers (hole ds ∷ segs) = cons (atoi_digits max_int 0 ds) (hole_numbers segs)

scan_plain_step :
    (c : Char) (s : String)
    → code c ≢ b'{'
    → scan_numbers outside (String.◌∷◌ c s) ≡ scan_numbers outside s
unfolding scan_numbers
scan_plain_step c s h = ground arith

scan_plain :
    (s rest : String)
    → EachChar (λ c. code c ≢ b'{') s
    → scan_numbers outside (append_text s rest) ≡ scan_numbers outside rest
scan_plain String.[] rest h = rw nil-append
scan_plain (String.◌∷◌ c s) rest (hc, hs) =
    rw cons-append (scan_plain_step c (append_text s rest) hc ∙ scan_plain s rest hs)

scan_digit_step :
    (c : Char) (before s : String)
    → is_digit c ≡ true
    → scan_numbers (digits before) (String.◌∷◌ c s) ≡ scan_numbers (digits (snoc before c)) s
unfolding scan_numbers
scan_digit_step c before s h = ground arith

snoc-append :
    (before : String) (c : Char) (ds : String)
    → append_text (snoc before c) ds ≡ append_text before (String.◌∷◌ c ds)
snoc-append before c ds = rw (text_assoc, cons-append, nil-append)

scan_digits :
    (ds before rest : String)
    → EachChar (λ c. is_digit c ≡ true) ds
    → scan_numbers (digits before) (append_text ds rest)
      ≡ scan_numbers (digits (append_text before ds)) rest
scan_digits String.[] before rest h = rw (nil-append, text-append-nil)
scan_digits (String.◌∷◌ c ds) before rest (hc, hs) =
    rw (cons-append, ← snoc-append)
      (scan_digit_step c before (append_text ds rest) hc ∙ scan_digits ds (snoc before c) rest hs)

-- The braces that end a placeholder: the second one is outside again.
scan_close :
    (ds rest : String)
    → ds ≢ ""
    → scan_numbers (digits ds) (append_text "}}" rest)
      ≡ cons (atoi_digits max_int 0 ds) (scan_numbers outside rest)
unfolding scan_numbers
scan_close ds rest h =
    rw cons-append (rw cons-append (rw nil-append (ground (arith, eq_iff ds ""))))

scan_open :
    (rest : String) → scan_numbers outside (append_text "{{" rest) ≡ scan_numbers (digits "") rest
unfolding scan_numbers
scan_open rest = rw cons-append (rw cons-append (rw nil-append))

-- On a text made of plain parts without the brace { and of holes {{digits}} whose number fits an int,
-- the scanner finds the number of each hole, in text order, and no other number.
pub placeholder_numbers-write :
    (segs : List Segment)
    → All IsSegment segs
    → placeholder_numbers (write segs) ≡ hole_numbers segs
unfolding placeholder_numbers scan_numbers
placeholder_numbers-write [] h = refl
placeholder_numbers-write (plain s ∷ segs) h =
    scan_plain s (write segs) h.0 ∙ placeholder_numbers-write segs h.1
placeholder_numbers-write (hole ds ∷ segs) ((all_digits, some_digit, _), h) = rw scan_open (
    scan_digits ds "" (append_text "}}" (write segs)) all_digits
    ∙ rw nil-append (
        scan_close ds (write segs) some_digit
        ∙ ap (cons (atoi_digits max_int 0 ds)) (placeholder_numbers-write segs h)))
