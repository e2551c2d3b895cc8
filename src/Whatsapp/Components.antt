-- ===== src/Whatsapp/Components.antt =====
-- Stored template components in internal/whatsapp/send.go: what is counted, rendered and sent.
pub mod Building
pub mod Counting
use Prim.Native.Char.{code}
use Prim.Native.String.{◌++◌ as append_text}
use beleevo_whatsapp.Prelude.{
  leb, string_eq, nat_eq, ◌==◌, not, ◌!=◌, if◌then◌else◌, length, any, join_texts, itoa, rejection,
  Result, ok, err, ◌>>=◌, ℕ, ◌-◌, String, Bool, true, false, ◌&&◌, ◌||◌, Option, none, some, List,
  [], ◌∷◌, ◌++◌,
}
use beleevo_whatsapp.Whatsapp.{Variables, value_of, Parameter, Component}
use beleevo_whatsapp.Whatsapp.Gate.{template_variable_invalid}
use beleevo_whatsapp.Whatsapp.Placeholders.{placeholder_numbers, trim_space, fill_placeholders}

-- strings.ToUpper, where it is compared with a name in capital letters.
abbrev upper : ℕ → ℕ
upper n = if leb b'a' n && leb n b'z' then n - 32 else n

unfoldable pub is_type : String → String → Bool
is_type String.[] String.[] = true
is_type String.[] (String.◌∷◌ d t) = false
is_type (String.◌∷◌ c s) String.[] = false
is_type (String.◌∷◌ c s) (String.◌∷◌ d t) = upper (code c) == code d && is_type s t

abbrev pub is_text : Component → Bool
is_text c = is_type c.kind "BODY" || is_type c.kind "HEADER"

-- The first parameter of the kind "text".
abbrev first_text : List Parameter → String
first_text [] = ""
first_text (p ∷ ps) = let rest = first_text ps in if p.kind == "text" then p.text else rest

unfoldable pub meta_comp_text : Component → String
meta_comp_text c = if c.text != "" then c.text else first_text c.parameters

-- strings.Contains.
abbrev starts : String → String → Bool
starts String.[] s = true
starts (String.◌∷◌ c t) String.[] = false
starts (String.◌∷◌ c t) (String.◌∷◌ d s) = code c == code d && starts t s

contains : String → String → Bool
contains String.[] t = t == ""
contains (String.◌∷◌ c s) t = starts t (String.◌∷◌ c s) || contains s t

url_button : Component → Bool
unfolding contains meta_comp_text is_type
url_button c =
    if is_type c.kind "BUTTONS"
    then any (λ b. b.kind == "URL") c.buttons
    else is_type c.kind "BUTTON" && contains (meta_comp_text c) "http"

unfoldable pub meta_has_url_button : List Component → Bool
unfolding url_button
meta_has_url_button comps = any url_button comps

abbrev pub seen : ℕ → List ℕ → Bool
seen n ns = any (λ m. m == n) ns

-- The set `seen` of the source, as the list of its members.
unfoldable pub add_all : List ℕ → List ℕ → List ℕ
add_all [] found = found
add_all (n ∷ ns) found = add_all ns (if seen n found then found else n ∷ found)

unfoldable pub distinct_numbers : List Component → List ℕ → List ℕ
unfolding is_type meta_comp_text add_all
distinct_numbers [] found = found
distinct_numbers (c ∷ comps) found =
    distinct_numbers comps
      (if is_text c then add_all (placeholder_numbers (meta_comp_text c)) found else found)

unfoldable pub count_template_variables_raw : List Component → ℕ
unfolding distinct_numbers
count_template_variables_raw comps = length (distinct_numbers comps [])

-- The send shape: a header or body with its values in text order, or a button.
pub record SendComponent : Type 0 where
  pub kind : String
  pub sub_type : String
  pub index : String
  pub values : List String

abbrev pub value_for : Option String → ℕ → Result (List String) → Result (List String)
value_for none n rest =
    err (
      rejection template_variable_invalid (join_texts ("missing variable {{" ∷ itoa n ∷ "}}" ∷ [])))
value_for (some v) n rest = rest >>= λ vs. ok (v ∷ vs)

unfoldable pub values_for : List ℕ → Variables → Result (List String)
values_for [] vars = ok []
values_for (n ∷ ns) vars = value_for (value_of (itoa n) vars) n (values_for ns vars)

abbrev pub lower_type : Component → String
lower_type c = if is_type c.kind "BODY" then "body" else "header"

abbrev pub text_component : Component → List String → SendComponent
text_component c vs = record { kind = lower_type c; sub_type = ""; index = ""; values = vs }

abbrev pub is_empty : List ℕ → Bool
is_empty [] = true
is_empty (_ ∷ _) = false

-- The loop over the components, with those built so far.
unfoldable pub build_texts : List Component → Variables → Result (List SendComponent)
unfolding is_type meta_comp_text values_for
build_texts [] vars = ok []
build_texts (c ∷ comps) vars =
    let rest = build_texts comps vars in
    let numbers = placeholder_numbers (meta_comp_text c) in
    if is_text c && not (is_empty numbers)
    then values_for numbers vars >>= (λ vs. rest >>= λ out. ok (text_component c vs ∷ out))
    else rest

abbrev pub url_component : Option String → List SendComponent → Result (List SendComponent)
url_component none out =
    err (rejection template_variable_invalid "missing variable {{1}} for url button")
url_component (some v) out =
    ok (out ++ record { kind = "button"; sub_type = "URL"; index = "0"; values = v ∷ [] } ∷ [])

unfoldable pub build_components : List Component → Variables → Result (List SendComponent)
unfolding build_texts meta_has_url_button
build_components comps vars = build_texts comps vars >>= λ out.
    if meta_has_url_button comps then url_component (value_of "1" vars) out else ok out

-- The paragraphs of a message: the filled texts that are not blank.
unfoldable pub filled_texts : List Component → Variables → List String
unfolding is_type meta_comp_text
filled_texts [] vars = []
filled_texts (c ∷ comps) vars =
    let rest = filled_texts comps vars in
    if is_text c && trim_space (meta_comp_text c) != ""
    then fill_placeholders (meta_comp_text c) vars ∷ rest
    else rest

abbrev pub newline : ℕ
newline = 10

abbrev pub carriage_return : ℕ
carriage_return = 13

abbrev paragraphs : List String → String
paragraphs [] = ""
paragraphs (p ∷ []) = p
paragraphs (p ∷ q ∷ ps) = append_text p (append_text "\n\n" (paragraphs (q ∷ ps)))

-- strings.ReplaceAll(body, "\r\n", "\n").
unfoldable pub unify_newlines : String → String
unify_newlines String.[] = ""
unify_newlines (String.◌∷◌ c s) =
    let rest = unify_newlines s in
    if code c == carriage_return && starts "\n" s then rest else String.◌∷◌ c rest

unfoldable pub render_template_body : List Component → Variables → String
unfolding filled_texts unify_newlines
render_template_body comps vars = unify_newlines (paragraphs (filled_texts comps vars))
