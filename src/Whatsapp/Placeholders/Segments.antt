-- ===== src/Whatsapp/Placeholders/Segments.antt =====
-- A template's text as segments: the form that `TokenizeTemplateBody` and the template editor write.
use Prim.Native.Char.{Char, code}
use Prim.Native.String.{◌++◌ as append_text}
use beleevo_whatsapp.Prelude.{ℕ, String, ◌≡◌, ◌≢◌, true, some, List, [], ◌∷◌}
use beleevo_whatsapp.Whatsapp.Placeholders.{is_digit, max_int, atoi_digits}

pub data Segment : Type 0 where
  plain : String → Segment
  hole : String → Segment

abbrev pub braced : String → String → String
braced ds rest = append_text "{{" (append_text ds (append_text "}}" rest))

abbrev pub write : List Segment → String
write [] = ""
write (plain s ∷ segs) = append_text s (write segs)
write (hole ds ∷ segs) = braced ds (write segs)

abbrev pub EachChar : (Char → Type 0) → String → Type 0
EachChar P String.[] = Unit
EachChar P (String.◌∷◌ c s) = P c × EachChar P s

-- Plain text holds no opening brace; a hole holds one digit or more, of a number that an int can hold.
abbrev pub IsSegment : Segment → Type 0
IsSegment (plain s) = EachChar (λ c. code c ≢ b'{') s
IsSegment (hole ds) =
    EachChar (λ c. is_digit c ≡ true) ds
    × (ds ≢ "")
    × ((n : ℕ) × (atoi_digits max_int 0 ds ≡ some n))
