-- ===== src/Whatsapp/Sending/Once.antt =====
-- One call to Meta for each idempotency key, over interleaved sends of internal/whatsapp/send.go.
-- A send looks its key up in a table that other sends may have changed since.
use beleevo_whatsapp.Prelude.{
  string_eq, nat_eq, ◌==◌, Bool-cases, find?, count, Error, is_no_rows, Result, ok, err, query_row,
  ℕ, ◌≤◌, String, ◌≡◌, refl, ◌≢◌, inl, inr, false, Option, List, [], ◌∷◌, arith, eq_iff,
}
use beleevo_whatsapp.Whatsapp.{TemplateState, SendRequest, SendResult}
use beleevo_whatsapp.Whatsapp.Ledger.{
  Message, has_key, find_message_by_idempotency, StatusUpdate, with_errors, set_status, has_meta_id,
  write_status, apply_status_update,
}
use beleevo_whatsapp.Whatsapp.Directory.{Directory}
use beleevo_whatsapp.Whatsapp.RateLimit.{RateLimiter}
use beleevo_whatsapp.Whatsapp.Service.{Outside, Service, Loaded, gate, charge}
use beleevo_whatsapp.Whatsapp.Sending.{
  queued_message, send_gated, send_new, send_unless_found, send_template_message,
}
use beleevo_whatsapp.Whatsapp.TestSending.{
  TestTemplateRequest, strip_spaces, matches_phone_pattern, test_message, test_gate,
  send_test_gated, send_template_test,
}
use beleevo_whatsapp.Whatsapp.Sending.Rows.{
  is_call_for, rows_for, Once, exec-rows, send_charged-Once, charge-Once,
}
use beleevo_whatsapp.Whatsapp.Components.{seen}

-- What may happen to the service: a send or a delivery webhook whose lookup reads any table, a test
-- send, and any change of the other tables and of the limiter.
pub data Step : Service → Service → Type 0 where
  send :
      (o : Outside) (seen : List Message) (req : SendRequest) (s : Service)
      → Step s (send_template_message o seen req s).0
  test :
      (o : Outside) (req : TestTemplateRequest) (s : Service)
      → Step s (send_template_test o req s).0
  webhook :
      (lookup failure : Option Error) (now : ℕ) (u : StatusUpdate) (seen : List Message)
      (s : Service)
      → Step s
          (record s { messages = (apply_status_update lookup failure now u seen s.messages).0 })
  elsewhere :
      (d : Directory) (l : Option RateLimiter) (s : Service)
      → Step s (record s { directory = d; rate = l })

pub data Run : Service → Service → Type 0 where
  start : {s : Service} → Run s s
  next : {s t u : Service} → Run s t → Step t u → Run s u

module _ (shop : ℕ) (key : String) (keyed : (key == "") ≡ false) where
  send_gated-Once :
      (o : Outside) (req : SendRequest) (g : Result Loaded) (s : Service)
      → Once shop key keyed s
      → Once shop key keyed (send_gated o req g s).0
  send_gated-Once o req (err e) s once = once
  send_gated-Once o req (ok l) s once =
      send_charged-Once shop key keyed o (queued_message o req l.template s.directory)
        l.customer.phone l.template l.owner_shop req.variables (charge o req.shop_id s).0
        (charge o req.shop_id s).1 (charge-Once shop key keyed o req.shop_id s once)

  send_unless_found-Once :
      (o : Outside) (req : SendRequest) (found : Result SendResult) (s : Service)
      → Once shop key keyed s
      → Once shop key keyed (send_new o req s).0
      → Once shop key keyed (send_unless_found o req found s).0
  send_unless_found-Once o req (ok r) s once new = once
  send_unless_found-Once o req (err e) s once new = elim (Bool-cases (is_no_rows e)) [
    | inl missing ↦ rw missing new
    | inr failed ↦ rw failed once
  ]

  send-Once :
      (o : Outside) (seen : List Message) (req : SendRequest) (s : Service)
      → Once shop key keyed s
      → Once shop key keyed (send_template_message o seen req s).0
  unfolding send_template_message send_new
  send-Once o seen req s once =
      let new = send_gated-Once o req (gate o req s.directory) s once in
      elim (Bool-cases (req.idempotency_key == "")) [
        | inl without_key ↦ rw without_key new
        | inr with_key ↦ rw with_key (
            send_unless_found-Once o req
              (find_message_by_idempotency o.lookup_failure req.shop_id req.idempotency_key seen) s
              once new)
      ]

  send_test_gated-Once :
      (o : Outside) (req : TestTemplateRequest) (to : String) (g : Result (TemplateState × ℕ))
      (s : Service)
      → Once shop key keyed s
      → Once shop key keyed (send_test_gated o req to g s).0
  send_test_gated-Once o req to (err e) s once = once
  send_test_gated-Once o req to (ok (t, owner)) s once =
      send_charged-Once shop key keyed o (test_message o req to t) to t owner req.variables
        (charge o req.shop_id s).0 (charge o req.shop_id s).1
        (charge-Once shop key keyed o req.shop_id s once)

  test-Once :
      (o : Outside) (req : TestTemplateRequest) (s : Service)
      → Once shop key keyed s
      → Once shop key keyed (send_template_test o req s).0
  unfolding send_template_test
  test-Once o req s once = elim (Bool-cases (matches_phone_pattern (strip_spaces req.to))) [
    | inl phone ↦
        rw phone
          (send_test_gated-Once o req (strip_spaces req.to) (test_gate o req s.directory) s once)
    | inr other ↦ rw other once
  ]

  with_errors-key :
      (now : ℕ) (es : List (ℕ × String)) (m : Message)
      → has_key shop key (with_errors now es m) ≡ has_key shop key m
  with_errors-key now [] m = refl
  with_errors-key now (e ∷ es) m = refl

  set_status-key :
      (now : ℕ) (u : StatusUpdate) (m : Message)
      → has_key shop key (set_status now u m) ≡ has_key shop key m
  unfolding set_status
  set_status-key now u m = ground (arith, with_errors-key now u.errors m)

  write_status-rows :
      (failure : Option Error) (now : ℕ) (u : StatusUpdate) (rows : List Message)
      (found : Result Message)
      → rows_for shop key keyed (write_status failure now u rows found).0
        ≡ rows_for shop key keyed rows
  write_status-rows failure now u rows (err e) = refl
  write_status-rows failure now u rows (ok m) = ground (
    arith,
    exec-rows shop key keyed failure (has_meta_id u.meta_message_id) (set_status now u) rows
        (set_status-key now u),
  )

  Step-Once : {s t : Service} → Step s t → Once shop key keyed s → Once shop key keyed t
  unfolding apply_status_update
  Step-Once (Step.send o seen req s) once = send-Once o seen req s once
  Step-Once (test o req s) once = test-Once o req s once
  Step-Once (webhook lookup failure now u seen s) (calls, one) =
      let kept =
        write_status-rows failure now u s.messages
          (query_row lookup (find? (has_meta_id u.meta_message_id) seen)) in
      (omega (arith, kept, calls), omega (arith, kept, one))
  Step-Once (elsewhere d l s) once = once

  Run-Once : {s t : Service} → Run s t → Once shop key keyed s → Once shop key keyed t
  Run-Once start once = once
  Run-Once (next run step) once = Step-Once step (Run-Once run once)

-- From a service with an empty ledger, over any sequence of sends whose lookups may all be stale, of
-- test sends, webhooks and other changes, Meta is called at most once for a shop and an idempotency
-- key that is not empty, and the ledger has at least as many rows for them as calls were made.
pub Run-calls-once :
    (s t : Service) (shop : ℕ) (key : String)
    → s.messages ≡ []
    → s.calls ≡ []
    → key ≢ ""
    → Run s t
    → (count (is_call_for shop key) t.calls ≤ 1)
      × (count (is_call_for shop key) t.calls ≤ count (has_key shop key) t.messages)
Run-calls-once s t shop key no_messages no_calls keyed run =
    let other : (key == "") ≡ false = ground (arith, eq_iff key "") in
    let (calls, one) =
      Run-Once shop key other run (rw (no_messages, no_calls) (omega arith, omega arith)) in
    (omega (arith, calls, one), calls)
