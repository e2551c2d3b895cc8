-- ===== src/Whatsapp/Ledger/StatusRank.antt =====
-- The rank of a stored status under the webhooks of internal/whatsapp/webhook.go.
use beleevo_whatsapp.Prelude.{
  string_eq, nat_eq, ◌==◌, if◌then◌else◌, Bool-cases, get_elem?, find?, update, count, Error,
  Result, ok, err, query_row, exec, ℕ, zero, suc, ◌≤◌, ◌<◌, String, ◌≡◌, refl, sym, ap, ◌∙◌, ◌≢◌,
  inl, inr, Bool, true, Option, none, some, List, [], ◌∷◌, arith,
}
use beleevo_whatsapp.Whatsapp.Ledger.{
  Message, webhook_status_rank, should_advance_status, webhook_status_column, StatusUpdate,
  with_errors, set_status, has_meta_id, write_status, apply_status_update,
}
use beleevo_whatsapp.Whatsapp.Ledger.StatusOrder.{set_status_kept}

get_elem-update :
    (p : Message → Bool) (f : Message → Message) (rows : List Message) (i : ℕ) (m : Message)
    → get_elem? rows i ≡ some m
    → get_elem? (update p f rows) i ≡ some (if p m then f m else m)
get_elem-update p f [] i m h = absurd (cc h)
get_elem-update p f (x ∷ rows) zero m h =
    let same : x ≡ m = cc h in ap (λ (y : Message). some (if p y then f y else y)) same
get_elem-update p f (x ∷ rows) (suc i) m h = get_elem-update p f rows i m h

one_of_count :
    (p : Message → Bool) (rows : List Message) (i : ℕ) (m : Message)
    → get_elem? rows i ≡ some m
    → p m ≡ true
    → 1 ≤ count p rows
one_of_count p [] i m h hit = absurd (cc h)
one_of_count p (x ∷ rows) zero m h hit =
    let same : x ≡ m = cc h in let hit' : p x ≡ true = ap p same ∙ hit in rw hit' (omega arith)
one_of_count p (x ∷ rows) (suc i) m h hit =
    let rest = one_of_count p rows i m h hit in ground (arith, rest)

-- The row that a search finds is the only row that passes the test.
found_only :
    (p : Message → Bool) (rows : List Message) (m0 : Message) (i : ℕ) (m : Message)
    → count p rows ≤ 1
    → find? p rows ≡ some m0
    → get_elem? rows i ≡ some m
    → p m ≡ true
    → m ≡ m0
found_only p [] m0 i m one found placed hit = absurd (cc placed)
found_only p (x ∷ rows) m0 zero m one found placed hit =
    let same : x ≡ m = cc placed in
    let hit' : p x ≡ true = ap p same ∙ hit in
    let found' = rw hit' at found in let first : x ≡ m0 = cc found' in sym same ∙ first
found_only p (x ∷ rows) m0 (suc i) m one found placed hit =
    let more = one_of_count p rows i m placed hit in
    elim (Bool-cases (p x)) [
      | inl first ↦ let one' = rw first at one in absurd (omega (arith, one', more))
      | inr other ↦
          let found' = rw other at found in
          let one' = rw other at one in found_only p rows m0 i m one' found' placed hit
    ]

-- A later row of one message: the same message, its status not behind, and failed where it was.
abbrev pub Follows : Message → Message → Type 0
Follows m m' =
    (m'.id ≡ m.id)
    × (m'.meta_message_id ≡ m.meta_message_id)
    × (webhook_status_rank m.status ≤ webhook_status_rank m'.status)
    × (m.status ≡ "failed" → m'.status ≡ "failed")

Follows-same : (m : Message) → Follows m m
Follows-same m = (refl, refl, omega arith, λ h. h)

with_errors-id :
    (now : ℕ) (errors : List (ℕ × String)) (m : Message) → (with_errors now errors m).id ≡ m.id
with_errors-id now [] m = refl
with_errors-id now (e ∷ es) m = refl

set_status-id : (now : ℕ) (u : StatusUpdate) (m : Message) → (set_status now u m).id ≡ m.id
unfolding set_status
set_status-id now u m = ground (arith, with_errors-id now u.errors m)

advances_up :
    (stored incoming : String)
    → should_advance_status stored incoming ≡ true
    → webhook_status_rank stored < webhook_status_rank incoming
unfolding should_advance_status
advances_up stored incoming h = ground arith

rank_bound : (status : String) → webhook_status_rank status ≤ 4
unfolding webhook_status_rank
rank_bound status = ground arith

failed-rank : webhook_status_rank "failed" ≡ 4
unfolding webhook_status_rank
failed-rank = refl

failed_is_last :
    (stored incoming : String) → should_advance_status stored incoming ≡ true → stored ≢ "failed"
failed_is_last stored incoming h e =
    let top = ap webhook_status_rank e in
    omega (arith, top, failed-rank, rank_bound incoming, advances_up stored incoming h)

advanced-Follows :
    (now : ℕ) (u : StatusUpdate) (m : Message)
    → should_advance_status m.status u.status ≡ true
    → Follows m (set_status now u m)
advanced-Follows now u m h =
    let (status, meta) = set_status_kept now u m in
    let higher = advances_up m.status u.status h in
    (
      set_status-id now u m,
      meta,
      rw status (omega (arith, higher)),
      λ failed. absurd (failed_is_last m.status u.status h failed),
    )

moved-Follows :
    (now : ℕ) (u : StatusUpdate) (rows : List Message) (m0 : Message) (i : ℕ) (m : Message)
    → count (has_meta_id u.meta_message_id) rows ≤ 1
    → find? (has_meta_id u.meta_message_id) rows ≡ some m0
    → should_advance_status m0.status u.status ≡ true
    → get_elem? rows i ≡ some m
    → Follows m (if has_meta_id u.meta_message_id m then set_status now u m else m)
moved-Follows now u rows m0 i m one found forward placed =
    elim (Bool-cases (has_meta_id u.meta_message_id m)) [
      | inr other ↦ rw other (Follows-same m)
      | inl hit ↦
          let same = found_only (has_meta_id u.meta_message_id) rows m0 i m one found placed hit in
          let forward' : should_advance_status m.status u.status ≡ true =
            ap (λ (y : Message). should_advance_status y.status u.status) same ∙ forward in
          rw hit (advanced-Follows now u m forward')
    ]

-- What becomes of the row at a place of the table.
abbrev pub Kept : List Message → List Message → Type 0
Kept rows rows' =
    (i : ℕ) (m : Message)
    → get_elem? rows i ≡ some m
    → (m' : Message) × (get_elem? rows' i ≡ some m') × Follows m m'

written-Kept :
    (failure : Option Error) (now : ℕ) (u : StatusUpdate) (rows : List Message)
    (found : Result Message)
    → ((m0 : Message)
        → found ≡ ok m0
        → should_advance_status m0.status u.status ≡ true
        → Kept rows (update (has_meta_id u.meta_message_id) (set_status now u) rows))
    → Kept rows (write_status failure now u rows found).0
written-Kept failure now u rows (err e) moved = λ i m h. (m, h, Follows-same m)
written-Kept failure now u rows (ok m0) moved =
    elim (Bool-cases (should_advance_status m0.status u.status)) [
      | inr back ↦ rw back (λ i m h. (m, h, Follows-same m))
      | inl forward ↦ elim (Bool-cases (webhook_status_column u.status == "")) [
        | inl unknown ↦ rw (forward, unknown) (λ i m h. (m, h, Follows-same m))
        | inr known ↦ rw (forward, known) (ended failure (moved m0 refl forward))
      ]
    ]
  where
    ended :
        (e : Option Error)
        → Kept rows (update (has_meta_id u.meta_message_id) (set_status now u) rows)
        → Kept rows (exec e rows (update (has_meta_id u.meta_message_id) (set_status now u) rows))
    ended none h = h
    ended (some e) h = λ i m placed. (m, placed, Follows-same m)

-- One webhook, whatever it reports of whichever message and whatever fails, where one row at most has
-- the Meta id that it names and no other write comes between its lookup and its update: every row of
-- the table stays the row of its message, its status does not fall behind in the order sent, delivered,
-- read, failed, and a failed message stays failed.
pub status_never_regresses :
    (lookup failure : Option Error) (now : ℕ) (u : StatusUpdate) (rows : List Message)
    → count (has_meta_id u.meta_message_id) rows ≤ 1
    → Kept rows (apply_status_update lookup failure now u rows rows).0
unfolding apply_status_update
status_never_regresses lookup failure now u rows one =
    written-Kept failure now u rows (query_row lookup (find? (has_meta_id u.meta_message_id) rows))
      λ m0 read forward i m placed. (
        if has_meta_id u.meta_message_id m then set_status now u m else m,
        get_elem-update (has_meta_id u.meta_message_id) (set_status now u) rows i m placed,
        moved-Follows now u rows m0 i m one
            (read_found lookup (find? (has_meta_id u.meta_message_id) rows) m0 read) forward placed,
      )
  where
    read_found :
        (e : Option Error) (found : Option Message) (m0 : Message)
        → query_row e found ≡ ok m0
        → found ≡ some m0
    read_found none none m0 h = absurd (cc h)
    read_found none (some m) m0 h = let same : m ≡ m0 = cc h in ap some same
    read_found (some e) found m0 h = absurd (cc h)
