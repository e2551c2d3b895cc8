-- ===== src/Whatsapp/Placeholders.antt =====
-- The {{N}} placeholders of a template's text in internal/whatsapp/send.go: `PlaceholderNumbers` and
-- `fillPlaceholders`. The source walks bytes; every byte that it tests for is ASCII, so the model
-- walks characters.
pub mod Scanning
pub mod Filling
pub mod Segments
use Prim.Native.Char.{Char, code}
use Prim.Native.String
use Prim.Native.String.{◌++◌ as append_text}
use beleevo_whatsapp.Prelude.{
  ltb, leb, ◌==◌, ◌!=◌, nat_eq, string_eq, if◌then◌else◌, itoa, ℕ, zero, suc, ◌+◌, ◌-◌, ◌*◌, ◌^◌,
  String, ◌≡◌, refl, Bool, true, false, ◌&&◌, ◌||◌, Option, none, some, List, [], ◌∷◌,
}
use beleevo_whatsapp.Whatsapp.{Variables, value_of}

abbrev pub is_digit : Char → Bool
is_digit c = leb b'0' (code c) && leb (code c) b'9'

abbrev pub max_int : ℕ
max_int = 2 ^ 63 - 1

-- strconv.Atoi on a text of digits: an error past the range of an int.
unfoldable pub atoi_digits : ℕ → ℕ → String → Option ℕ
atoi_digits limit n String.[] = if ltb limit n then none else some n
atoi_digits limit n (String.◌∷◌ c s) =
    let rest = atoi_digits limit (n * 10 + (code c - b'0')) s in if is_digit c then rest else none

abbrev pub cons : Option ℕ → List ℕ → List ℕ
cons none ns = ns
cons (some n) ns = n ∷ ns

abbrev pub snoc : String → Char → String
snoc s c = append_text s (String.◌∷◌ c String.[])

-- Where the scan stands: outside a placeholder, behind one brace, or among the digits behind two.
pub data Scan : Type 0 where
  outside one_brace : Scan
  digits : String → Scan

-- A number counts where a digit stood before the brace that ends the digits.
abbrev pub closed : String → Char → Option ℕ
closed ds c = if code c == b'}' && ds != "" then atoi_digits max_int 0 ds else none

-- The character that ends the digits is consumed, whatever it is (`i = j`, then `i++`).
unfoldable pub scan_numbers : Scan → String → List ℕ
scan_numbers mode String.[] = []
scan_numbers outside (String.◌∷◌ c s) =
    scan_numbers (if code c == b'{' then one_brace else outside) s
scan_numbers one_brace (String.◌∷◌ c s) =
    scan_numbers (if code c == b'{' then digits "" else outside) s
scan_numbers (digits ds) (String.◌∷◌ c s) =
    let more = scan_numbers (digits (snoc ds c)) s in
    let done = cons (closed ds c) (scan_numbers outside s) in if is_digit c then more else done

unfoldable pub placeholder_numbers : String → List ℕ
placeholder_numbers text = scan_numbers outside text

-- unicode.IsSpace.
unfoldable pub is_space : Char → Bool
is_space c =
    let n = code c in
    (leb 9 n && leb n 13)
    || (n == 32
        || (n == 0x85
            || (n == 0xa0
                || (n == 0x1680
                    || ((leb 0x2000 n && leb n 0x200a)
                        || (n == 0x2028
                            || (n == 0x2029 || (n == 0x202f || (n == 0x205f || n == 0x3000)))))))))

pub trim_left : String → String
trim_left String.[] = ""
trim_left (String.◌∷◌ c s) = let rest = trim_left s in if is_space c then rest else String.◌∷◌ c s

pub all_space : String → Bool
all_space String.[] = true
all_space (String.◌∷◌ c s) = is_space c && all_space s

pub trim_right : String → String
trim_right String.[] = ""
trim_right (String.◌∷◌ c s) =
    let rest = trim_right s in if all_space (String.◌∷◌ c s) then "" else String.◌∷◌ c rest

-- strings.TrimSpace.
unfoldable pub trim_space : String → String
unfolding is_space trim_left all_space trim_right
trim_space s = trim_right (trim_left s)

-- strconv.Atoi, and the text that strconv.Itoa writes for its result.
abbrev signed : Option ℕ → Option String
signed none = none
signed (some n) = some (if n == 0 then "0" else append_text "-" (itoa n))

abbrev pub unsigned : Option ℕ → Option String
unsigned none = none
unsigned (some n) = some (itoa n)

-- The key that `strconv.Itoa(n)` makes of the number `n` that `strconv.Atoi` reads; a minus sign
-- admits one more value, -2^63.
unfoldable pub canonical_key : String → Option String
canonical_key String.[] = none
canonical_key (String.◌∷◌ c s) =
    if code c == b'-'
    then (if s == "" then none else signed (atoi_digits (2 ^ 63) 0 s))
    else if code c == b'+'
    then (if s == "" then none else unsigned (atoi_digits max_int 0 s))
    else unsigned (atoi_digits max_int 0 (String.◌∷◌ c s))

abbrev pub extend : Char → Option (String × String) → Option (String × String)
extend c none = none
extend c (some (before, after)) = some (String.◌∷◌ c before, after)

abbrev pub opens_with : ℕ → String → Bool
opens_with n String.[] = false
opens_with n (String.◌∷◌ c s) = code c == n

abbrev pub tail : String → String
tail String.[] = ""
tail (String.◌∷◌ c s) = s

-- The text before the first "}}", and the text behind it.
unfoldable pub split_at_close : String → Option (String × String)
split_at_close String.[] = none
split_at_close (String.◌∷◌ c s) =
    let rest = extend c (split_at_close s) in
    if code c == b'}' && opens_with b'}' s then some ("", tail s) else rest

abbrev pub with_key : Option String → String → Option (String × String)
with_key none after = none
with_key (some key) after = some (key, after)

abbrev pub read_key : Option (String × String) → Option (String × String)
read_key none = none
read_key (some (inner, after)) = with_key (canonical_key (trim_space inner)) after

-- A placeholder at the start of a text: the key of its number, and the text behind it.
unfoldable pub placeholder_at : Char → String → Option (String × String)
placeholder_at c s =
    if code c == b'{' && opens_with b'{' s then read_key (split_at_close (tail s)) else none

abbrev pub dash : String
dash = "—"

abbrev pub filled : Option String → String
filled none = dash
filled (some v) = v

abbrev pub size : String → ℕ
size String.[] = 0
size (String.◌∷◌ c s) = suc (size s)

-- Each round consumes a character or more, so one unit of fuel for each character is enough.
unfoldable pub fill_from : ℕ → String → Variables → String
fill_from zero text vars = ""
fill_from (suc fuel) String.[] vars = ""
fill_from (suc fuel) (String.◌∷◌ c s) vars = elim (placeholder_at c s) [
  | none ↦ String.◌∷◌ c (fill_from fuel s vars)
  | some (key, after) ↦ append_text (filled (value_of key vars)) (fill_from fuel after vars)
]

unfoldable pub fill_placeholders : String → Variables → String
fill_placeholders text vars = fill_from (size text) text vars

numbers_in_order : placeholder_numbers "Hi {{1}}, order {{12}} {x} {{y}} {{3}" ≡ 1 ∷ 12 ∷ 3 ∷ []
unfolding placeholder_numbers scan_numbers atoi_digits
numbers_in_order = refl

filled_text :
    fill_placeholders "Hi {{ 1 }}, {{02}} and {{x}} {{3}}" (("1", "Ann") ∷ ("2", "Bob") ∷ [])
    ≡ "Hi Ann, Bob and {{x}} —"
unfolding fill_placeholders fill_from placeholder_at split_at_close canonical_key trim_space itoa
    atoi_digits
filled_text = refl
