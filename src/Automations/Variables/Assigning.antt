-- ===== src/Automations/Variables/Assigning.antt =====
-- Assignments to a map of variables, as `buildVariables` of internal/automations/processor.go makes
-- them.
use beleevo_whatsapp.Prelude.{
  string_eq, nat_eq, ◌==◌, Bool-cases, length, count, All, ◌+◌, String, ◌≡◌, refl, ◌≢◌, inl, inr,
  Bool, some, [], ◌∷◌, arith, eq_iff,
}
use beleevo_whatsapp.Whatsapp.{Variables, value_of}
use beleevo_whatsapp.Automations.Variables.{assign}

abbrev pub is_entry : String → String × String → Bool
is_entry key e = e.0 == key

pub length-assign :
    (key value : String) (vars : Variables)
    → count (is_entry key) vars ≡ 0
    → length (assign key value vars) ≡ length vars + 1
length-assign key value [] h = refl
length-assign key value ((k, old) ∷ vars) h = elim (Bool-cases (k == key)) [
  | inl same ↦ let h' = rw same at h in absurd (omega (arith, h'))
  | inr other ↦
      let h' = rw other at h in
      let rest = length-assign key value vars h' in rw other (omega (arith, rest))
]

pub count-assign_other :
    (key value other : String) (vars : Variables)
    → key ≢ other
    → count (is_entry other) (assign key value vars) ≡ count (is_entry other) vars
count-assign_other key value other [] h = ground (arith, eq_iff key other)
count-assign_other key value other ((k, old) ∷ vars) h = ground (
  arith,
  count-assign_other key value other vars h,
  eq_iff key other,
  eq_iff k key,
  eq_iff k other,
)

pub value_of-assign :
    (key value : String) (vars : Variables) → value_of key (assign key value vars) ≡ some value
value_of-assign key value [] = ground (arith, eq_iff key key)
value_of-assign key value ((k, old) ∷ vars) =
    ground (arith, value_of-assign key value vars, eq_iff key key)

pub value_of-assign_other :
    (key value other : String) (vars : Variables)
    → key ≢ other
    → value_of other (assign key value vars) ≡ value_of other vars
value_of-assign_other key value other [] h = ground (arith, eq_iff key other)
value_of-assign_other key value other ((k, old) ∷ vars) h = ground (
  arith,
  value_of-assign_other key value other vars h,
  eq_iff key other,
  eq_iff k key,
  eq_iff k other,
)

-- The value of an entry is not blank.
abbrev pub IsFilled : String × String → Type 0
IsFilled e = e.1 ≢ ""

pub All-assign :
    (key value : String) (vars : Variables)
    → value ≢ ""
    → All IsFilled vars
    → All IsFilled (assign key value vars)
All-assign key value [] given h = (given, tt)
All-assign key value ((k, old) ∷ vars) given h = elim (Bool-cases (k == key)) [
  | inl same ↦ rw same (given, h.1)
  | inr other ↦ rw other (h.0, All-assign key value vars given h.1)
]
