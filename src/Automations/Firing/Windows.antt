-- ===== src/Automations/Firing/Windows.antt =====
-- On which day a fixed window of internal/automations/processor.go opens.
use native.Mathlib.Decide.{dec_lt}
use beleevo_whatsapp.Prelude.{
  ltb, not, if◌then◌else◌, Bool-cases, ℕ, zero, suc, ◌+◌, ◌-◌, ◌*◌, ◌%◌, ◌≤◌, ◌<◌, ◌≡◌, refl, ap,
  ◌∙◌, ◌⊎◌, inl, inr, Bool, true, false, Option, none, some, arith,
}
use beleevo_whatsapp.Automations.Firing.{
  Zone, FireRule, iso_weekday, allows, minute_ns, next_allowed_day, without_delay, scheduled_fire,
}

-- The window that opens `ahead` days behind `day`, on an allowed day, with no allowed day between.
pub record IsFirst (r : FireRule) (zone : Zone) (minute day : ℕ) (at : ℕ) : Type 0 where
  pub ahead : ℕ
  pub behind : 1 ≤ ahead
  pub within : ahead ≤ 7
  pub allowed : allows r (iso_weekday (day + ahead)) ≡ true
  pub first : (d : ℕ) → 1 ≤ d → d < ahead → allows r (iso_weekday (day + d)) ≡ false
  pub opens : at ≡ zone.instant (day + ahead) minute

shut_before :
    (r : FireRule) (day skipped hit : ℕ)
    → allows r (iso_weekday (day + hit)) ≡ true
    → allows r (iso_weekday (day + (skipped + 1))) ≡ false
    → skipped < hit
    → skipped + 1 < hit
shut_before r day skipped hit allowed shut before = elim (dec_lt (skipped + 1) hit) [
  | yes later ↦ later
  | no not_later ↦
      let same : hit ≡ skipped + 1 = omega (arith, before, not_later) in
      let allowed = rw same at allowed in absurd (cc (allowed, shut))
]

shut_until :
    (r : FireRule) (day skipped : ℕ)
    → allows r (iso_weekday (day + (skipped + 1))) ≡ false
    → ((d : ℕ) → 1 ≤ d → d ≤ skipped → allows r (iso_weekday (day + d)) ≡ false)
    → (d : ℕ) → 1 ≤ d
    → d ≤ skipped + 1
    → allows r (iso_weekday (day + d)) ≡ false
shut_until r day skipped shut none_before d one below = elim (dec_lt d (skipped + 1)) [
  | yes earlier ↦ none_before d one (omega (arith, earlier))
  | no not_earlier ↦ let same : d ≡ skipped + 1 = omega (arith, below, not_earlier) in rw same shut
]

-- The scan from `day`, with `skipped` days refused before it.
scan :
    (r : FireRule) (zone : Zone) (minute left day skipped hit : ℕ)
    → allows r (iso_weekday (day + hit)) ≡ true
    → skipped < hit
    → hit ≤ skipped + left
    → hit ≤ 7
    → ((d : ℕ) → 1 ≤ d → d ≤ skipped → allows r (iso_weekday (day + d)) ≡ false)
    → (at : ℕ) × (next_allowed_day r zone minute left (day + skipped) ≡ some at)
      × IsFirst r zone minute day at
unfolding next_allowed_day
scan r zone minute zero day skipped hit allowed before reach week none_before =
    absurd (omega (arith, before, reach))
scan r zone minute (suc left) day skipped hit allowed before reach week none_before =
    let here : (day + skipped) + 1 ≡ day + (skipped + 1) = omega arith in
    rw here (elim (Bool-cases (allows r (iso_weekday (day + (skipped + 1))))) [
      | inl opens ↦ rw opens (
        _,
        refl,
        record {
          ahead = skipped + 1;
          behind = omega arith;
          within = omega (arith, before, week);
          allowed = opens;
          first = λ d one below. none_before d one (omega (arith, below));
          opens = refl;
        },
      )
      | inr shut ↦ rw shut (
          scan r zone minute left day (skipped + 1) hit allowed
            (shut_before r day skipped hit allowed shut before) (omega (arith, reach)) week
            (shut_until r day skipped shut none_before))
    ])

-- Seven days in a row have every weekday.
weekday_ahead :
    (day wanted : ℕ)
    → 1 ≤ wanted
    → wanted ≤ 7
    → (ahead : ℕ) × (1 ≤ ahead) × (ahead ≤ 7) × (iso_weekday (day + ahead) ≡ wanted)
unfolding iso_weekday
weekday_ahead day wanted low high =
    let today = (day + 3) % 7 + 1 in
    elim (dec_lt today wanted) [
      | yes later ↦
          (wanted - today, omega (arith, later), omega (arith, high), omega (arith, later, high))
      | no passed ↦ (
        wanted + 7 - today,
        omega (arith, low),
        omega (arith, passed),
        omega (arith, low, high, passed),
      )
    ]

waits :
    (r : FireRule) (zone : Zone) (now minute : ℕ)
    → r.delay ≡ none
    → r.minute ≡ some minute
    → allows r (iso_weekday (zone.local_day now)) ≡ false
    → scheduled_fire r zone now ≡ next_allowed_day r zone minute 14 (zone.local_day now)
unfolding scheduled_fire
waits r zone now minute no_delay fixed shut =
    ap
      (λ (d : Option ℕ). elim d [
        | some minutes ↦ some (now + minutes * minute_ns)
        | none ↦ without_delay r zone now r.minute
      ])
      no_delay
    ∙ ap (without_delay r zone now) fixed
    ∙ ap
        (λ (b : Bool).
          if not b
          then next_allowed_day r zone minute 14 (zone.local_day now)
          else if ltb now (zone.instant (zone.local_day now) minute)
          then some (zone.instant (zone.local_day now) minute)
          else none)
        shut

-- A fixed window on a day that is not allowed, for a rule that allows some day of the week: the send
-- waits for the window of the first allowed day, which is one to seven days ahead.
pub scheduled_fire-IsFirst :
    (r : FireRule) (zone : Zone) (now minute wanted : ℕ)
    → r.delay ≡ none
    → r.minute ≡ some minute
    → allows r (iso_weekday (zone.local_day now)) ≡ false
    → 1 ≤ wanted
    → wanted ≤ 7
    → allows r wanted ≡ true
    → (at : ℕ) × (scheduled_fire r zone now ≡ some at)
      × IsFirst r zone minute (zone.local_day now) at
scheduled_fire-IsFirst r zone now minute wanted no_delay fixed shut low high allowed =
    let day = zone.local_day now in
    let (hit, behind, within, falls) = weekday_ahead day wanted low high in
    let opens : allows r (iso_weekday (day + hit)) ≡ true = rw falls allowed in
    let (at, found, is_first) =
      scan r zone minute 14 day 0 hit opens (omega (arith, behind)) (omega (arith, within)) within
        (λ d one below. absurd (omega (arith, one, below))) in
    (
      at,
      waits r zone now minute no_delay fixed shut
          ∙ ap (next_allowed_day r zone minute 14) (omega arith)
          ∙ found,
      is_first,
    )

-- A delay counts from the event, whatever the window; a rule without a delay or a window sends at
-- once; and on an allowed day the send waits for the window, or goes out at once where it has opened.
pub scheduled_fire_cases :
    (r : FireRule) (zone : Zone) (now : ℕ)
    → ((minutes : ℕ)
        → r.delay ≡ some minutes
        → scheduled_fire r zone now ≡ some (now + minutes * minute_ns))
      × (r.delay ≡ none → r.minute ≡ none → scheduled_fire r zone now ≡ none)
      × ((minute : ℕ)
          → r.delay ≡ none
          → r.minute ≡ some minute
          → allows r (iso_weekday (zone.local_day now)) ≡ true
          → ((now < zone.instant (zone.local_day now) minute)
              × (scheduled_fire r zone now ≡ some (zone.instant (zone.local_day now) minute)))
            ⊎ ((zone.instant (zone.local_day now) minute ≤ now)
                × (scheduled_fire r zone now ≡ none)))
unfolding scheduled_fire allows
scheduled_fire_cases r zone now = (
  λ minutes h. rw h refl,
  λ no_delay no_minute. rw (no_delay, no_minute) refl,
  λ minute no_delay fixed today. rw (no_delay, fixed, today) (ground arith),
)
