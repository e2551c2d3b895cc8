-- ===== src/Whatsapp/Components/Building.antt =====
-- When `buildComponents` of internal/whatsapp/send.go has the components to send: its loops over the
-- components and over the numbers of one text.
use beleevo_whatsapp.Prelude.{
  not, if◌then◌else◌, filter, All, itoa, Result, ok, err, ◌>>=◌, ℕ, String, ◌↔◌, Bool, true, false,
  ◌&&◌, Option, none, some, List, [], ◌∷◌,
}
use beleevo_whatsapp.Whatsapp.{Variables, value_of, Component}
use beleevo_whatsapp.Whatsapp.Placeholders.{placeholder_numbers}
use beleevo_whatsapp.Whatsapp.Components.{
  is_text, meta_comp_text, meta_has_url_button, SendComponent, value_for, values_for,
  text_component, is_empty, build_texts, url_component, build_components,
}

abbrev pub IsOk {ℓ} : {A : Type ℓ} → Result A → Type 0
IsOk (ok _) = Unit
IsOk (err _) = ⊥

abbrev pub IsGiven {ℓ} : {A : Type ℓ} → Option A → Type 0
IsGiven none = ⊥
IsGiven (some _) = Unit

-- Every number has a variable of its decimal name.
abbrev pub AllGiven : Variables → List ℕ → Type 0
AllGiven vars ns = All (λ n. IsGiven (value_of (itoa n) vars)) ns

-- The number of a link button's only variable.
abbrev pub url_numbers : List Component → List ℕ
url_numbers comps = if meta_has_url_button comps then 1 ∷ [] else []

value_for-IsOk :
    (o : Option String) (n : ℕ) (rest : Result (List String))
    → IsOk (value_for o n rest) ↔ (IsGiven o × IsOk rest)
value_for-IsOk none n rest = (λ h. absurd h, λ h. h.0)
value_for-IsOk (some v) n (ok vs) = (λ h. (tt, tt), λ h. tt)
value_for-IsOk (some v) n (err e) = (λ h. absurd h, λ h. h.1)

values_for-IsOk : (ns : List ℕ) (vars : Variables) → IsOk (values_for ns vars) ↔ AllGiven vars ns
unfolding values_for
values_for-IsOk [] vars = (λ h. tt, λ h. tt)
values_for-IsOk (n ∷ ns) vars =
    let first = value_for-IsOk (value_of (itoa n) vars) n (values_for ns vars) in
    let rest = values_for-IsOk ns vars in
    (
      λ h. let (given, h') = first.0 h in (given, rest.0 h'),
      λ (given, h). first.1 (given, rest.1 h),
    )

-- A chain of two results is there where both are.
then-IsOk {ℓ κ μ} :
    {A : Type ℓ} {B : Type κ} {C : Type μ} (r : Result A) (s : Result B) (f : A → B → C)
    → IsOk (r >>= λ a. s >>= λ b. ok (f a b)) ↔ (IsOk r × IsOk s)
then-IsOk (err e) s f = (λ h. absurd h, λ h. h.0)
then-IsOk (ok a) (err e) f = (λ h. absurd h, λ h. h.1)
then-IsOk (ok a) (ok b) f = (λ h. (tt, tt), λ h. tt)

-- One turn of the loop over the components.
module _ (vars : Variables) (c : Component) (rest : Result (List SendComponent)) where
  turn-IsOk :
      (P : Component → Type 0) (cs : List Component)
      → IsOk rest ↔ All P cs
      → (counts : Bool) (ns : List ℕ) → P c ↔ AllGiven vars ns
      → IsOk (
          if counts && not (is_empty ns)
          then values_for ns vars >>= (λ vs. rest >>= λ out. ok (text_component c vs ∷ out))
          else rest)
        ↔ All P (if counts then c ∷ cs else cs)
  turn-IsOk P cs h false ns e = h
  turn-IsOk P cs h true [] e = (λ r. (e.1 tt, h.0 r), λ (_, r). h.1 r)
  turn-IsOk P cs h true (n ∷ ns) e =
      let values = values_for-IsOk (n ∷ ns) vars in
      let both = then-IsOk (values_for (n ∷ ns) vars) rest (λ vs out. text_component c vs ∷ out) in
      (
        λ r. let (vs, out) = both.0 r in (e.1 (values.0 vs), h.0 out),
        λ (given, r). both.1 (values.1 (e.0 given), h.1 r),
      )

-- The numbers of a component's own text are all given.
abbrev pub TextGiven : Variables → Component → Type 0
TextGiven vars c = AllGiven vars (placeholder_numbers (meta_comp_text c))

build_texts-IsOk :
    (comps : List Component) (vars : Variables)
    → IsOk (build_texts comps vars) ↔ All (TextGiven vars) (filter is_text comps)
unfolding build_texts
build_texts-IsOk [] vars = (λ h. tt, λ h. tt)
build_texts-IsOk (c ∷ comps) vars =
    turn-IsOk vars c (build_texts comps vars) (TextGiven vars) (filter is_text comps)
      (build_texts-IsOk comps vars) (is_text c) (placeholder_numbers (meta_comp_text c))
      (λ h. h, λ h. h)

url_component-IsOk :
    (o : Option String) (out : List SendComponent) → IsOk (url_component o out) ↔ IsGiven o
url_component-IsOk none out = (λ h. h, λ h. h)
url_component-IsOk (some v) out = (λ h. h, λ h. h)

button-IsOk :
    (texts : Result (List SendComponent)) (vars : Variables) (linked : Bool)
    → IsOk (texts >>= λ out. if linked then url_component (value_of "1" vars) out else ok out)
      ↔ (IsOk texts × AllGiven vars (if linked then 1 ∷ [] else []))
unfolding itoa
button-IsOk (err e) vars linked = (λ h. absurd h, λ h. h.0)
button-IsOk (ok out) vars false = (λ h. (tt, tt), λ h. tt)
button-IsOk (ok out) vars true =
    let url = url_component-IsOk (value_of "1" vars) out in
    (λ h. (tt, (url.0 h, tt)), λ (_, (given, _)). url.1 given)

-- The components to send can be built exactly where every number that stands in the text of a body
-- or a header has a variable, and the variable 1 is there too if the template has a link button; the
-- texts of other components ask for nothing.
pub build_components-IsOk :
    (comps : List Component) (vars : Variables)
    → IsOk (build_components comps vars)
      ↔ (All (TextGiven vars) (filter is_text comps) × AllGiven vars (url_numbers comps))
unfolding build_components
build_components-IsOk comps vars =
    let texts = build_texts-IsOk comps vars in
    let button = button-IsOk (build_texts comps vars) vars (meta_has_url_button comps) in
    (
      λ h. let (built, url) = button.0 h in (texts.0 built, url),
      λ (given, url). button.1 (texts.1 given, url),
    )
