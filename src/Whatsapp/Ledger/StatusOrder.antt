-- ===== src/Whatsapp/Ledger/StatusOrder.antt =====
-- The order of the delivery statuses of internal/whatsapp/webhook.go, and what late and repeated updates do.
use mathlib.Core.List.{Perm, Permᴰ}
use mathlib.Core.Option
use mathlib.Core.Logic.{∥∥₁_elim}
use beleevo_whatsapp.Prelude.{
  string_eq, nat_eq, ◌==◌, if◌then◌else◌, Option-cases, String-IsSet, find?, update, ℕ, ◌≤◌, ◌<◌,
  String, ◌≡◌, refl, sym, ap, ◌∙◌, ◌⊎◌, inl, inr, Bool, true, false, Option, none, some, List, [],
  ◌∷◌, arith, eq_iff,
}
use beleevo_whatsapp.Whatsapp.Ledger.{
  Message, webhook_status_rank, should_advance_status, webhook_status_column, StatusUpdate,
  with_errors, set_status, has_meta_id, apply_status_update,
}

-- The status of the message that Meta knows by an id: that of the first row with the id.
unfoldable pub status_of : String → List Message → Option String
status_of meta_id [] = none
status_of meta_id (m ∷ ms) =
    let rest = status_of meta_id ms in if has_meta_id meta_id m then some m.status else rest

unfoldable pub advance : StatusUpdate → String → String
advance u stored = if should_advance_status stored u.status then u.status else stored

abbrev pub advanced : StatusUpdate → String → Option String → Option String
advanced u meta_id none = none
advanced u meta_id (some stored) =
    some (if u.meta_message_id == meta_id then advance u stored else stored)

with_errors_kept :
    (now : ℕ) (errors : List (ℕ × String)) (m : Message)
    → ((with_errors now errors m).status ≡ "failed")
      × ((with_errors now errors m).meta_message_id ≡ m.meta_message_id)
with_errors_kept now [] m = (refl, refl)
with_errors_kept now (e ∷ es) m = (refl, refl)

pub set_status_kept :
    (now : ℕ) (u : StatusUpdate) (m : Message)
    → ((set_status now u m).status ≡ u.status)
      × ((set_status now u m).meta_message_id ≡ m.meta_message_id)
unfolding set_status
set_status_kept now u m = ground (arith, with_errors_kept now u.errors m, eq_iff u.status "failed")

rank-injective :
    (a b : String)
    → webhook_status_rank a ≡ webhook_status_rank b
    → 0 < webhook_status_rank a
    → a ≡ b
unfolding webhook_status_rank
rank-injective a b same known = ground (
  arith,
  eq_iff a "sent",
  eq_iff a "delivered",
  eq_iff a "read",
  eq_iff a "failed",
  eq_iff b "sent",
  eq_iff b "delivered",
  eq_iff b "read",
  eq_iff b "failed",
)

column_at : Bool → Bool → Bool → Bool → String
column_at a b c d =
    if a
    then "sent_at"
    else if b
    then "delivered_at"
    else if c
    then "read_at"
    else if d
    then "failed_at"
    else ""

column_known_at :
    (a b c d : Bool)
    → 0 < (if a then 1 else if b then 2 else if c then 3 else if d then 4 else 0)
    → (column_at a b c d == "") ≡ false
unfolding column_at
column_known_at true b c d h = refl
column_known_at false true c d h = refl
column_known_at false false true d h = refl
column_known_at false false false true h = refl
column_known_at false false false false h = absurd (omega (arith, h))

column_known :
    (status : String)
    → 0 < webhook_status_rank status
    → (webhook_status_column status == "") ≡ false
unfolding webhook_status_rank webhook_status_column column_at
column_known status known =
    column_known_at (status == "sent") (status == "delivered") (status == "read")
      (status == "failed") known

advance_rank :
    (u : StatusUpdate) (stored : String)
    → (webhook_status_rank stored ≤ webhook_status_rank (advance u stored))
      × (webhook_status_rank u.status ≤ webhook_status_rank (advance u stored))
      × ((webhook_status_rank (advance u stored) ≡ webhook_status_rank stored)
          → advance u stored ≡ stored)
      × ((webhook_status_rank (advance u stored) ≡ webhook_status_rank stored)
          ⊎ (webhook_status_rank (advance u stored) ≡ webhook_status_rank u.status))
unfolding should_advance_status advance
advance_rank u stored = ground arith

advance_commutes :
    (a b : StatusUpdate) (stored : String)
    → advance a (advance b stored) ≡ advance b (advance a stored)
advance_commutes a b stored = ground (
  arith,
  advance_rank a (advance b stored),
  advance_rank b stored,
  advance_rank b (advance a stored),
  advance_rank a stored,
  rank-injective (advance a (advance b stored)) (advance b (advance a stored)),
)

advanced_commutes :
    (a b : StatusUpdate) (meta_id : String) (stored : Option String)
    → advanced a meta_id (advanced b meta_id stored)
      ≡ advanced b meta_id (advanced a meta_id stored)
advanced_commutes a b meta_id none = refl
advanced_commutes a b meta_id (some stored) = ground (arith, advance_commutes a b stored)

status_of-update :
    (now : ℕ) (u : StatusUpdate) (meta_id : String) (rows : List Message)
    → status_of meta_id (update (has_meta_id u.meta_message_id) (set_status now u) rows) ≡ (
        if u.meta_message_id == meta_id
        then Option.map (λ _. u.status) (status_of meta_id rows)
        else status_of meta_id rows)
unfolding status_of
status_of-update now u meta_id [] = ground arith
status_of-update now u meta_id (m ∷ ms) = ground (
  arith,
  set_status_kept now u m,
  status_of-update now u meta_id ms,
  eq_iff u.meta_message_id meta_id,
  eq_iff m.meta_message_id meta_id,
  eq_iff m.meta_message_id u.meta_message_id,
)

find_status :
    (meta_id : String) (rows : List Message)
    → Option.map (λ m. m.status) (find? (has_meta_id meta_id) rows) ≡ status_of meta_id rows
unfolding status_of
find_status meta_id [] = refl
find_status meta_id (m ∷ ms) = ground (arith, find_status meta_id ms)

should_advance-known :
    (stored incoming : String)
    → should_advance_status stored incoming ≡ true
    → (webhook_status_column incoming == "") ≡ false
unfolding should_advance_status
should_advance-known stored incoming h = ground (arith, column_known incoming)

apply_none :
    (now : ℕ) (u : StatusUpdate) (rows : List Message)
    → find? (has_meta_id u.meta_message_id) rows ≡ none
    → (apply_status_update none none now u rows rows).0 ≡ rows
unfolding apply_status_update
apply_none now u rows h = rw h refl

apply_some :
    (now : ℕ) (u : StatusUpdate) (rows : List Message) (m : Message)
    → find? (has_meta_id u.meta_message_id) rows ≡ some m
    → (apply_status_update none none now u rows rows).0 ≡ (
        if should_advance_status m.status u.status
        then update (has_meta_id u.meta_message_id) (set_status now u) rows
        else rows)
unfolding apply_status_update
apply_some now u rows m h = rw h (ground (arith, should_advance-known m.status u.status))

status_of-apply :
    (now : ℕ) (u : StatusUpdate) (meta_id : String) (rows : List Message)
    → status_of meta_id (apply_status_update none none now u rows rows).0
      ≡ advanced u meta_id (status_of meta_id rows)
unfolding advance
status_of-apply now u meta_id rows =
    let found = find_status u.meta_message_id rows in
    elim (Option-cases (find? (has_meta_id u.meta_message_id) rows)) [
      | inl h ↦
          rw (apply_none now u rows h)
            (let status = rw h at found in ground (arith, eq_iff u.meta_message_id meta_id))
      | inr (m, h) ↦ rw (apply_some now u rows m h) (
          let status = rw h at found in
          ground (arith, status_of-update now u meta_id rows, eq_iff u.meta_message_id meta_id))
    ]

-- Webhook deliveries, one after the other, in the order and at the times of their arrival.
unfoldable pub replay : List (ℕ × StatusUpdate) → List Message → List Message
replay [] rows = rows
replay ((now, u) ∷ us) rows = replay us (apply_status_update none none now u rows rows).0

abbrev outcome : String → List (ℕ × StatusUpdate) → Option String → Option String
outcome meta_id [] stored = stored
outcome meta_id (u ∷ us) stored = outcome meta_id us (advanced u.1 meta_id stored)

status_of-replay :
    (us : List (ℕ × StatusUpdate)) (meta_id : String) (rows : List Message)
    → status_of meta_id (replay us rows) ≡ outcome meta_id us (status_of meta_id rows)
unfolding replay
status_of-replay [] meta_id rows = refl
status_of-replay ((now, u) ∷ us) meta_id rows =
    status_of-replay us meta_id (apply_status_update none none now u rows rows).0
    ∙ ap (outcome meta_id us) (status_of-apply now u meta_id rows)

outcome_perm :
    (meta_id : String) {us vs : List (ℕ × StatusUpdate)}
    → Permᴰ us vs
    → (stored : Option String) → outcome meta_id us stored ≡ outcome meta_id vs stored
outcome_perm meta_id Permᴰ.nil stored = refl
outcome_perm meta_id (Permᴰ.cons {a = a} {b = b} {l₂ = l} e p) stored =
    outcome_perm meta_id p (advanced a.1 meta_id stored)
    ∙ ap (λ (u : ℕ × StatusUpdate). outcome meta_id l (advanced u.1 meta_id stored)) e
outcome_perm meta_id (Permᴰ.swap {a = a} {b = b} {a' = c} {b' = d} {l = l} e f) stored =
    ap (outcome meta_id l) (advanced_commutes b.1 a.1 meta_id stored)
    ∙ ap (λ (u : ℕ × StatusUpdate). outcome meta_id (u ∷ a ∷ l) stored) f
    ∙ ap (λ (u : ℕ × StatusUpdate). outcome meta_id (c ∷ u ∷ l) stored) e
outcome_perm meta_id (Permᴰ.trans p q) stored =
    outcome_perm meta_id p stored ∙ outcome_perm meta_id q stored

-- Webhook deliveries may arrive late and in any order: the same updates applied in two orders, one
-- after the other and each at its own time, leave every message with the same status.
pub replay_order :
    (us vs : List (ℕ × StatusUpdate)) (rows : List Message) (meta_id : String)
    → Perm us vs
    → status_of meta_id (replay us rows) ≡ status_of meta_id (replay vs rows)
replay_order us vs rows meta_id p = ∥∥₁_elim p (Option.is_set String-IsSet _ _) λ d.
    status_of-replay us meta_id rows
    ∙ outcome_perm meta_id d (status_of meta_id rows)
    ∙ sym (status_of-replay vs meta_id rows)
