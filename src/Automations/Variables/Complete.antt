-- ===== src/Automations/Variables/Complete.antt =====
-- What `buildVariables` of internal/automations/processor.go hands to the send gate.
use native.Mathlib.Decide.{dec_lt}
use beleevo_whatsapp.Prelude.{
  string_eq, nat_eq, ◌==◌, Bool-cases, length, count, All, itoa, itoa-injective, ℕ, zero, suc, ◌+◌,
  ◌≤◌, ◌<◌, String, ◌≡◌, refl, sym, ap, ◌∙◌, ◌≢◌, ◌↔◌, inl, inr, true, false, some, List, [], ◌∷◌,
  ◌++◌, arith, eq_iff,
}
use beleevo_whatsapp.Whatsapp.{Variables, value_of}
use beleevo_whatsapp.Automations.Variables.{
  SendInput, MerchantTemplate, token_value, token_at, is_semantic, em_dash, filled_value, assign,
  report, build_from, build_variables,
}
use beleevo_whatsapp.Automations.Variables.Assigning.{
  is_entry, length-assign, count-assign_other, value_of-assign, value_of-assign_other, IsFilled,
  All-assign,
}

-- The values of the positions `i + 1`, …, `i + left`, as the tokens resolve.
abbrev pub Resolves : MerchantTemplate → SendInput → (left i : ℕ) → Type 0
Resolves t v zero i = Unit
Resolves t v (suc left) i = (token_value (token_at t (i + 1)) v ≢ "") × Resolves t v left (i + 1)

-- The value at a position: that of its token, or a dash.
abbrev pub value_at : MerchantTemplate → SendInput → (i : ℕ) → String
value_at t v i = filled_value (token_value (token_at t i) v)

value_at-IsFilled : (t : MerchantTemplate) (v : SendInput) (i : ℕ) → value_at t v i ≢ ""
value_at-IsFilled t v i =
    let value = token_value (token_at t i) v in
    ground (arith, eq_iff value "", eq_iff (filled_value value) "", eq_iff em_dash "")

-- The map has no entry for a position after `i`.
abbrev EndsAt : ℕ → Variables → Type 0
EndsAt i vars = (p : ℕ) → i < p → count (is_entry (itoa p)) vars ≡ 0

assign-EndsAt :
    (i : ℕ) (value : String) (vars : Variables)
    → EndsAt i vars
    → EndsAt (i + 1) (assign (itoa (i + 1)) value vars)
assign-EndsAt i value vars h p past =
    count-assign_other (itoa (i + 1)) value (itoa p) vars
      (λ same. let e = itoa-injective (i + 1) p same in absurd (omega (arith, e, past)))
    ∙ h p (omega (arith, past))

build_from-length :
    (t : MerchantTemplate) (v : SendInput) (left i : ℕ) (vars : Variables) (missing : List String)
    → EndsAt i vars
    → length (build_from t v left i (vars, missing)).0 ≡ length vars + left
unfolding build_from
build_from-length t v zero i vars missing h = omega arith
build_from-length t v (suc left) i vars missing h =
    let rest =
      build_from-length t v left (i + 1) (assign (itoa (i + 1)) (value_at t v (i + 1)) vars)
        (report t (i + 1) (token_value (token_at t (i + 1)) v) missing)
        (assign-EndsAt i (value_at t v (i + 1)) vars h) in
    let one = length-assign (itoa (i + 1)) (value_at t v (i + 1)) vars (h (i + 1) (omega arith)) in
    omega (arith, rest, one)

build_from-IsFilled :
    (t : MerchantTemplate) (v : SendInput) (left i : ℕ) (vars : Variables) (missing : List String)
    → All IsFilled vars
    → All IsFilled (build_from t v left i (vars, missing)).0
unfolding build_from
build_from-IsFilled t v zero i vars missing h = h
build_from-IsFilled t v (suc left) i vars missing h =
    build_from-IsFilled t v left (i + 1) _ _
      (All-assign (itoa (i + 1)) (value_at t v (i + 1)) vars (value_at-IsFilled t v (i + 1)) h)

-- The loop leaves the positions before it alone.
build_from-before :
    (t : MerchantTemplate) (v : SendInput) (left i p : ℕ) (vars : Variables) (missing : List String)
    → p ≤ i
    → value_of (itoa p) (build_from t v left i (vars, missing)).0 ≡ value_of (itoa p) vars
unfolding build_from
build_from-before t v zero i p vars missing h = refl
build_from-before t v (suc left) i p vars missing h =
    build_from-before t v left (i + 1) p _ _ (omega (arith, h))
    ∙ value_of-assign_other (itoa (i + 1)) (value_at t v (i + 1)) (itoa p) vars
        (λ same. let e = itoa-injective (i + 1) p same in absurd (omega (arith, e, h)))

build_from-value :
    (t : MerchantTemplate) (v : SendInput) (left i p : ℕ) (vars : Variables) (missing : List String)
    → i < p
    → p ≤ i + left
    → value_of (itoa p) (build_from t v left i (vars, missing)).0 ≡ some (value_at t v p)
unfolding build_from
build_from-value t v zero i p vars missing after upto = absurd (omega (arith, after, upto))
build_from-value t v (suc left) i p vars missing after upto = elim (dec_lt (i + 1) p) [
  | yes later ↦ build_from-value t v left (i + 1) p _ _ later (omega (arith, upto))
  | no present ↦
      let e : i + 1 ≡ p = omega (arith, present, after) in
      ap (λ q. value_of (itoa q) (build_from t v (suc left) i (vars, missing)).0) (sym e)
      ∙ build_from-before t v left (i + 1) (i + 1) _ _ (omega arith)
      ∙ value_of-assign (itoa (i + 1)) (value_at t v (i + 1)) vars
      ∙ ap (λ q. some (value_at t v q)) e
]

report-positional :
    (t : MerchantTemplate) (i : ℕ) (value : String) (missing : List String)
    → is_semantic t ≡ false
    → report t i value missing ≡ missing
report-positional t i value missing h = rw h refl

not_blank : (xs : List String) (x : String) → (xs ++ x ∷ []) ≢ []
not_blank [] x h = cc h
not_blank (y ∷ xs) x h = cc h

report-semantic :
    (t : MerchantTemplate) (i : ℕ) (value : String) (missing : List String)
    → is_semantic t ≡ true
    → (report t i value missing ≡ []) ↔ ((missing ≡ []) × (value ≢ ""))
report-semantic t i value missing h = elim (Bool-cases (value == "")) [
  | inl blank ↦
      rw (h, blank)
        (
          λ e. absurd (not_blank missing (token_at t i) e),
          λ (none_missing, given). absurd (given ((eq_iff value "").0 blank)),
        )
  | inr given ↦
      rw (h, given)
        (
          λ e. (e, λ b. absurd (cc (given, (eq_iff value "").1 b))),
          λ (none_missing, _). none_missing,
        )
]

build_from-positional :
    (t : MerchantTemplate) (v : SendInput) (left i : ℕ) (vars : Variables) (missing : List String)
    → is_semantic t ≡ false
    → (build_from t v left i (vars, missing)).1 ≡ missing
unfolding build_from
build_from-positional t v zero i vars missing h = refl
build_from-positional t v (suc left) i vars missing h =
    build_from-positional t v left (i + 1) _ _ h
    ∙ report-positional t (i + 1) (token_value (token_at t (i + 1)) v) missing h

build_from-missing :
    (t : MerchantTemplate) (v : SendInput) (left i : ℕ) (vars : Variables) (missing : List String)
    → is_semantic t ≡ true
    → ((build_from t v left i (vars, missing)).1 ≡ []) ↔ ((missing ≡ []) × Resolves t v left i)
unfolding build_from
build_from-missing t v zero i vars missing h = (λ e. (e, tt), λ (e, _). e)
build_from-missing t v (suc left) i vars missing h =
    let value = token_value (token_at t (i + 1)) v in
    let rest =
      build_from-missing t v left (i + 1) (assign (itoa (i + 1)) (filled_value value) vars)
        (report t (i + 1) value missing) h in
    let now = report-semantic t (i + 1) value missing h in
    (
      λ e.
          let (reported, others) = rest.0 e in
          let (before, given) = now.0 reported in (before, (given, others)),
      λ (before, (given, others)). rest.1 (now.1 (before, given), others),
    )

-- What is handed to the send gate: a map with as many entries as the template has variables, whose
-- entry at each of the positions 1, 2, … is the value of its token, or a dash where that is blank, so
-- that no entry is blank. And nothing is missing, so that the send goes on, exactly where every token of
-- a template written with tokens resolves to a text; a positional template never holds a send back.
pub build_variables_complete :
    (t : MerchantTemplate) (v : SendInput)
    → let (vars, missing) = build_variables t v in
      (length vars ≡ t.num_variables)
      × ((p : ℕ) → 1 ≤ p → p ≤ t.num_variables → value_of (itoa p) vars ≡ some (value_at t v p))
      × All IsFilled vars
      × (is_semantic t ≡ true → (missing ≡ []) ↔ Resolves t v t.num_variables 0)
      × (is_semantic t ≡ false → missing ≡ [])
unfolding build_variables
build_variables_complete t v =
    let n = t.num_variables in
    (
      omega (arith, build_from-length t v n 0 [] [] (λ p h. refl)),
      λ p first last. build_from-value t v n 0 p [] [] (omega (arith, first)) (omega (arith, last)),
      build_from-IsFilled t v n 0 [] [] tt,
      λ semantic.
          let all = build_from-missing t v n 0 [] [] semantic in
          (λ e. (all.0 e).1, λ given. all.1 (refl, given)),
      λ positional. build_from-positional t v n 0 [] [] positional,
    )
