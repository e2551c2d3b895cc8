-- ===== src/Whatsapp/Sending/Rows.antt =====
-- The calls and the rows for one shop and key, counted along a send of internal/whatsapp/send.go.
use mathlib.Core.Path.{subst}
use beleevo_whatsapp.Whatsapp.Gate.{meta_api_error}
use beleevo_whatsapp.Prelude.{
  string_eq, nat_eq, ◌==◌, if◌then◌else◌, Bool-cases, any, update, count, count-append,
  count-update, Error, Result, ok, err, exec, ℕ, ◌+◌, ◌≤◌, String, ◌≡◌, refl, inl, inr, Bool, true,
  false, ◌&&◌, Option, none, some, List, [], ◌∷◌, ◌++◌, arith, eq_iff,
}
use beleevo_whatsapp.Whatsapp.{Variables, TemplateState}
use beleevo_whatsapp.Whatsapp.Components.{SendComponent, build_components}
use beleevo_whatsapp.Whatsapp.Ledger.{
  Message, has_key, collides, insert_message, is_message, as_sent, mark_message_sent, as_failed,
  mark_message_failed,
}
use beleevo_whatsapp.Whatsapp.Directory.{Credentials, credentials}
use beleevo_whatsapp.Whatsapp.Service.{Call, Outside, Service, charge}
use beleevo_whatsapp.Whatsapp.Sending.{
  meta_error_json, not_connected_reason, record_answer, call_of, deliver, reserve, send_built,
  send_charged,
}
use beleevo_whatsapp.Whatsapp.Sending.Safety.{charge-kept}

abbrev pub is_call_for : ℕ → String → Call → Bool
is_call_for shop key c = c.shop_id == shop && c.idempotency_key == key

module _ (shop : ℕ) (key : String) (keyed : (key == "") ≡ false) where
  abbrev pub calls_for : Service → ℕ
  calls_for s = count (is_call_for shop key) s.calls

  abbrev pub rows_for : List Message → ℕ
  rows_for rows = count (has_key shop key) rows

  -- Every call has its row, and the index admits one row.
  abbrev pub Once : Service → Type 0
  Once s = (calls_for s ≤ rows_for s.messages) × (rows_for s.messages ≤ 1)

  pub absent :
      (m : Message) (rows : List Message)
      → any (collides m) rows ≡ false
      → has_key shop key m ≡ true
      → rows_for rows ≡ 0
  absent m [] free mine = refl
  absent m (r ∷ rs) free mine = ground (
    arith,
    absent m rs,
    keyed,
    eq_iff m.idempotency_key key,
    eq_iff m.idempotency_key "",
    eq_iff key "",
    eq_iff r.idempotency_key key,
    eq_iff r.idempotency_key m.idempotency_key,
  )

  rows_for-append :
      (m : Message) (rows : List Message)
      → any (collides m) rows ≡ false
      → rows_for rows ≤ 1
      → (rows_for (rows ++ m ∷ []) ≤ 1)
        × (rows_for (rows ++ m ∷ [])
            ≡ (if has_key shop key m then rows_for rows + 1 else rows_for rows))
  rows_for-append m rows free one =
      ground (arith, count-append (has_key shop key) rows (m ∷ []), absent m rows free)

  insert_message-rows :
      (failure : Option Error) (m : Message) (rows rows' : List Message)
      → rows_for rows ≤ 1
      → insert_message failure m rows ≡ ok rows'
      → (rows_for rows' ≤ 1)
        × (rows_for rows' ≡ (if has_key shop key m then rows_for rows + 1 else rows_for rows))
  unfolding insert_message
  insert_message-rows (some e) m rows rows' one h = absurd (cc h)
  insert_message-rows none m rows rows' one h = elim (Bool-cases (any (collides m) rows)) [
    | inl taken ↦ let h = rw taken at h in absurd (cc h)
    | inr free ↦
        let h = rw free at h in
        let same : rows ++ m ∷ [] ≡ rows' = cc h in
        subst
          (λ (rs : List Message).
            (rows_for rs ≤ 1)
            × (rows_for rs ≡ (if has_key shop key m then rows_for rows + 1 else rows_for rows)))
          same (rows_for-append m rows free one)
  ]

  pub exec-rows :
      (failure : Option Error) (p : Message → Bool) (f : Message → Message) (rows : List Message)
      → ((m : Message) → has_key shop key (f m) ≡ has_key shop key m)
      → rows_for (exec failure rows (update p f rows)) ≡ rows_for rows
  exec-rows none p f rows same = count-update (has_key shop key) p f same rows
  exec-rows (some e) p f rows same = refl

  pub record_answer-Once :
      (o : Outside) (id : ℕ) (s : Service) (r : Result String)
      → Once s
      → Once (record_answer o id s r).0
  unfolding mark_message_sent mark_message_failed
  record_answer-Once o id s (ok meta_id) (calls, one) =
      let kept =
        exec-rows o.mark_failure (is_message id) (as_sent o.now meta_id) s.messages (λ m. refl) in
      omega (arith, kept, calls, one)
  record_answer-Once o id s (err e) (calls, one) =
      let kept =
        exec-rows o.mark_failure (is_message id)
          (as_failed o.now meta_api_error (o.show e) (meta_error_json e)) s.messages (λ m. refl) in
      omega (arith, kept, calls, one)

  module _ (o : Outside) (m : Message) (to : String) (t : TemplateState) (owner : ℕ) where
    -- With the row stored, and its call still to be made.
    abbrev Reserved : Service → Type 0
    Reserved s =
        ((if has_key shop key m then calls_for s + 1 else calls_for s) ≤ rows_for s.messages)
        × (rows_for s.messages ≤ 1)

    pub deliver-Once :
        (comps : List SendComponent) (k : Result Credentials) (s : Service)
        → Reserved s
        → Once (deliver o m to t comps k s).0
    unfolding mark_message_failed
    deliver-Once comps (err e) s (calls, one) =
        let kept =
          exec-rows o.mark_failure (is_message m.id)
            (as_failed o.now meta_api_error not_connected_reason none) s.messages (λ m. refl) in
        ground (arith, kept)
    deliver-Once comps (ok k) s (calls, one) =
        let c = call_of m to t comps k in
        let added = count-append (is_call_for shop key) s.calls (c ∷ []) in
        record_answer-Once o m.id (record s { calls = s.calls ++ c ∷ [] }) (o.meta c)
          (ground (arith, added), one)

    pub reserve-Once :
        (comps : List SendComponent) (rows : Result (List Message)) (s : Service)
        → insert_message o.insert_failure m s.messages ≡ rows
        → Once s
        → Once (reserve o m to t owner comps rows s).0
    reserve-Once comps (err e) s h once = once
    reserve-Once comps (ok rows) s h (calls, one) =
        let (one', counted) = insert_message-rows o.insert_failure m s.messages rows one h in
        deliver-Once comps (credentials o.decrypt o.integration_failure owner s.directory)
          (record s { messages = rows }) (ground (arith), one')

    pub send_built-Once :
        (comps : Result (List SendComponent)) (s : Service)
        → Once s
        → Once (send_built o m to t owner comps s).0
    send_built-Once (err e) s once = once
    send_built-Once (ok comps) s once =
        reserve-Once comps (insert_message o.insert_failure m s.messages) s refl once

    pub send_charged-Once :
        (vars : Variables) (s : Service) (e : Option Error)
        → Once s
        → Once (send_charged o m to t owner vars (s, e)).0
    send_charged-Once vars s (some e) once = once
    send_charged-Once vars s none once = send_built-Once (build_components t.components vars) s once

  pub charge-Once : (o : Outside) (id : ℕ) (s : Service) → Once s → Once (charge o id s).0
  charge-Once o id s once =
      let (calls, messages, _) = charge-kept o id s in rw (calls, messages) once
