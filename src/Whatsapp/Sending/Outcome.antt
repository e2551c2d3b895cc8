-- ===== src/Whatsapp/Sending/Outcome.antt =====
-- What a send of internal/whatsapp/send.go leaves in the ledger, on every branch.
use beleevo_whatsapp.Prelude.{
  ◌==◌, nat_eq, string_eq, Bool-cases, any, update, Error, rejection, is_no_rows, Result, ok, err,
  ℕ, String, ◌≡◌, refl, sym, ap, ◌∙◌, ◌≢◌, ◌⊎◌, inl, inr, false, Option, none, some, List, [], ◌∷◌,
  ◌++◌, arith, eq_iff,
}
use beleevo_whatsapp.Whatsapp.{Variables, TemplateState, SendRequest, SendResult}
use beleevo_whatsapp.Whatsapp.Gate.{meta_api_error}
use beleevo_whatsapp.Whatsapp.Components.{SendComponent, build_components}
use beleevo_whatsapp.Whatsapp.Ledger.{
  Message, collides, insert_message, find_message_by_idempotency, is_message, as_sent,
  mark_message_sent, as_failed, mark_message_failed,
}
use beleevo_whatsapp.Whatsapp.Directory.{Credentials, credentials}
use beleevo_whatsapp.Whatsapp.Service.{Outside, Service, Loaded, gate, charge}
use beleevo_whatsapp.Whatsapp.Sending.{
  wrap_meta_error, meta_error_json, not_connected_reason, record_answer, call_of, deliver, reserve,
  send_built, send_charged, queued_message, send_gated, send_new, send_unless_found,
  send_template_message,
}
use beleevo_whatsapp.Whatsapp.Sending.Safety.{charge-kept}

-- The stored row agrees with the result that the caller gets.
pub data Agree (o : Outside) (m : Message) : Result SendResult → Type 0 where
  sent :
      m.status ≡ "sent"
      → m.sent_at ≡ some o.now
      → Agree o m
          (ok (record { message_id = m.id; meta_message_id = m.meta_message_id; status = "sent" }))
  failed :
      (reason : String)
      → m.status ≡ "failed"
      → m.failed_at ≡ some o.now
      → Agree o m (err (rejection meta_api_error reason))

-- A send that stores no row makes no call and returns an error; a send that stores a row leaves it
-- in the state that it reports.
pub data Outcome (o : Outside) (s : Service) : Service → Result SendResult → Type 0 where
  refused :
      {s' : Service} (e : Error)
      → s'.messages ≡ s.messages
      → s'.calls ≡ s.calls
      → Outcome o s s' (err e)
  stored :
      {s' : Service} {r : Result SendResult} (m : Message)
      → s'.messages ≡ s.messages ++ m ∷ []
      → m.id ≡ o.fresh
      → Agree o m r
      → Outcome o s s' r

update_last :
    (f : Message → Message) (m : Message) (rows : List Message)
    → any (collides m) rows ≡ false
    → update (is_message m.id) f (rows ++ m ∷ []) ≡ rows ++ f m ∷ []
update_last f m [] free = ground arith
update_last f m (r ∷ rs) free = ground (arith, update_last f m rs)

insert_message_ok :
    (failure : Option Error) (m : Message) (rows rows' : List Message)
    → insert_message failure m rows ≡ ok rows'
    → (any (collides m) rows ≡ false) × (rows ++ m ∷ [] ≡ rows')
unfolding insert_message
insert_message_ok (some e) m rows rows' h = absurd (cc h)
insert_message_ok none m rows rows' h = elim (Bool-cases (any (collides m) rows)) [
  | inl taken ↦ let h = rw taken at h in absurd (cc h)
  | inr free ↦ let h = rw free at h in (free, cc h)
]

wrap_meta_error-rejection :
    (show : Error → String) (e : Error)
    → (reason : String) × (wrap_meta_error show e ≡ rejection meta_api_error reason)
unfolding wrap_meta_error
wrap_meta_error-rejection show e = (_, refl)

module _ (o : Outside) (m : Message) (marked : o.mark_failure ≡ none) (fresh : m.id ≡ o.fresh)
    (unsent : m.sent_at ≡ none) where
  record_answer-Outcome :
      (s t : Service) (answer : Result String)
      → any (collides m) s.messages ≡ false
      → t.messages ≡ s.messages ++ m ∷ []
      → let (t', r) = record_answer o m.id t answer in Outcome o s t' r
  unfolding mark_message_sent mark_message_failed
  record_answer-Outcome s t (ok meta_id) free rows =
      stored (as_sent o.now meta_id m)
        (rw (marked, rows) (update_last (as_sent o.now meta_id) m s.messages free)) fresh
        (Agree.sent refl (rw unsent refl))
  record_answer-Outcome s t (err e) free rows =
      let fail = as_failed o.now meta_api_error (o.show e) (meta_error_json e) in
      let (reason, is_rejection) = wrap_meta_error-rejection o.show e in
      stored (fail m) (rw (marked, rows) (update_last fail m s.messages free)) fresh
        (rw is_rejection (Agree.failed reason refl refl))

  deliver-Outcome :
      (to : String) (t : TemplateState) (comps : List SendComponent) (k : Result Credentials)
      (s s' : Service)
      → any (collides m) s.messages ≡ false
      → s'.messages ≡ s.messages ++ m ∷ []
      → let (s'', r) = deliver o m to t comps k s' in Outcome o s s'' r
  unfolding mark_message_failed
  deliver-Outcome to t comps (err e) s s' free rows =
      let fail = as_failed o.now meta_api_error not_connected_reason none in
      stored (fail m) (rw (marked, rows) (update_last fail m s.messages free)) fresh
        (Agree.failed not_connected_reason refl refl)
  deliver-Outcome to t comps (ok k) s s' free rows =
      let c = call_of m to t comps k in
      record_answer-Outcome s (record s' { calls = s'.calls ++ c ∷ [] }) (o.meta c) free rows

  reserve-Outcome :
      (to : String) (t : TemplateState) (owner : ℕ) (comps : List SendComponent)
      (rows : Result (List Message)) (s : Service)
      → insert_message o.insert_failure m s.messages ≡ rows
      → let (s', r) = reserve o m to t owner comps rows s in Outcome o s s' r
  reserve-Outcome to t owner comps (err e) s h = refused e refl refl
  reserve-Outcome to t owner comps (ok rows) s h =
      let (free, same) = insert_message_ok o.insert_failure m s.messages rows h in
      deliver-Outcome to t comps (credentials o.decrypt o.integration_failure owner s.directory) s
        (record s { messages = rows }) free (sym same)

  send_built-Outcome :
      (to : String) (t : TemplateState) (owner : ℕ) (comps : Result (List SendComponent))
      (s : Service)
      → let (s', r) = send_built o m to t owner comps s in Outcome o s s' r
  send_built-Outcome to t owner (err e) s = refused e refl refl
  send_built-Outcome to t owner (ok comps) s =
      reserve-Outcome to t owner comps (insert_message o.insert_failure m s.messages) s refl

  send_charged-Outcome :
      (to : String) (t : TemplateState) (owner : ℕ) (vars : Variables) (s : Service)
      (e : Option Error)
      → let (s', r) = send_charged o m to t owner vars (s, e) in Outcome o s s' r
  send_charged-Outcome to t owner vars s (some e) = refused e refl refl
  send_charged-Outcome to t owner vars s none =
      send_built-Outcome to t owner (build_components t.components vars) s

Outcome-from :
    (o : Outside) (s t s' : Service) (r : Result SendResult)
    → t.messages ≡ s.messages
    → t.calls ≡ s.calls
    → Outcome o t s' r
    → Outcome o s s' r
Outcome-from o s t s' _ rows calls (refused e rows' calls') =
    refused e (rows' ∙ rows) (calls' ∙ calls)
Outcome-from o s t s' r rows calls (stored m rows' fresh agree) =
    stored m (rows' ∙ ap (λ (ms : List Message). ms ++ m ∷ []) rows) fresh agree

send_gated-Outcome :
    (o : Outside) (req : SendRequest) (g : Result Loaded) (s : Service)
    → o.mark_failure ≡ none
    → let (s', r) = send_gated o req g s in Outcome o s s' r
unfolding queued_message
send_gated-Outcome o req (err e) s marked = refused e refl refl
send_gated-Outcome o req (ok l) s marked =
    let (calls, rows, _) = charge-kept o req.shop_id s in
    let (t, e) = charge o req.shop_id s in
    Outcome-from o s t _ _ rows calls (
      send_charged-Outcome o (queued_message o req l.template s.directory) marked refl refl
        l.customer.phone l.template l.owner_shop req.variables t e)

send_unless_found-Outcome :
    (o : Outside) (seen : List Message) (req : SendRequest) (keyed : req.idempotency_key ≢ "")
    (found : Result SendResult) (s : Service)
    → find_message_by_idempotency o.lookup_failure req.shop_id req.idempotency_key seen ≡ found
    → (let (s', r) = send_new o req s in Outcome o s s' r)
    → let (s', r) = send_unless_found o req found s in
      ((s' ≡ s)
        × (req.idempotency_key ≢ "")
        × (r ≡ find_message_by_idempotency o.lookup_failure req.shop_id req.idempotency_key seen))
      ⊎ Outcome o s s' r
send_unless_found-Outcome o seen req keyed (ok r) s h new = inl (refl, keyed, sym h)
send_unless_found-Outcome o seen req keyed (err e) s h new = elim (Bool-cases (is_no_rows e)) [
  | inl missing ↦ rw missing (inr new)
  | inr other ↦ rw other (inl (refl, keyed, sym h))
]

-- `SendTemplateMessage`, where its last write succeeds. Either the request has a key and its lookup has
-- the say: what it returned is returned, and nothing changes; or no row is stored, no call is made and an error is
-- returned; or one row is added, under a new id, which is "sent" and stamped where the caller gets
-- that row's result, and "failed" and stamped where the caller gets a rejection with the code of a
-- Meta failure.
pub send_template_message-Outcome :
    (o : Outside) (seen : List Message) (req : SendRequest) (s : Service)
    → o.mark_failure ≡ none
    → let (s', r) = send_template_message o seen req s in
      ((s' ≡ s)
        × (req.idempotency_key ≢ "")
        × (r ≡ find_message_by_idempotency o.lookup_failure req.shop_id req.idempotency_key seen))
      ⊎ Outcome o s s' r
unfolding send_template_message send_new
send_template_message-Outcome o seen req s marked =
    let new = send_gated-Outcome o req (gate o req s.directory) s marked in
    elim (Bool-cases (req.idempotency_key == "")) [
      | inl without_key ↦ rw without_key (inr new)
      | inr with_key ↦
          let keyed : req.idempotency_key ≢ "" = ground (arith, eq_iff req.idempotency_key "") in
          rw with_key (
            send_unless_found-Outcome o seen req keyed
              (find_message_by_idempotency o.lookup_failure req.shop_id req.idempotency_key seen) s
              refl new)
    ]
