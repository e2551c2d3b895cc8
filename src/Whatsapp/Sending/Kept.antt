-- ===== src/Whatsapp/Sending/Kept.antt =====
-- The tables that a send of internal/whatsapp/send.go reads: shops, customers, consents, templates and
-- connections.
use beleevo_whatsapp.Prelude.{
  string_eq, nat_eq, ◌==◌, Bool-cases, Error, is_no_rows, Result, ok, err, ℕ, String, ◌≡◌, refl,
  ◌∙◌, inl, inr, Option, none, some, List, [], ◌∷◌, ◌++◌,
}
use beleevo_whatsapp.Whatsapp.{Variables, TemplateState, SendRequest, SendResult}
use beleevo_whatsapp.Whatsapp.Components.{SendComponent, build_components}
use beleevo_whatsapp.Whatsapp.Ledger.{Message, insert_message, find_message_by_idempotency}
use beleevo_whatsapp.Whatsapp.Directory.{Credentials, credentials}
use beleevo_whatsapp.Whatsapp.Service.{Outside, Service, Loaded, gate, charge}
use beleevo_whatsapp.Whatsapp.Sending.{
  record_answer, call_of, deliver, reserve, send_built, send_charged, queued_message, send_gated,
  send_new, send_unless_found, send_template_message,
}
use beleevo_whatsapp.Whatsapp.Sending.Safety.{charge-kept}

record_answer-directory :
    (o : Outside) (id : ℕ) (s : Service) (r : Result String)
    → (record_answer o id s r).0.directory ≡ s.directory
record_answer-directory o id s (ok _) = refl
record_answer-directory o id s (err _) = refl

module _ (o : Outside) (m : Message) (to : String) (t : TemplateState) (owner : ℕ) where
  deliver-directory :
      (comps : List SendComponent) (k : Result Credentials) (s : Service)
      → (deliver o m to t comps k s).0.directory ≡ s.directory
  deliver-directory comps (err e) s = refl
  deliver-directory comps (ok creds) s =
      let c = call_of m to t comps creds in
      record_answer-directory o m.id (record s { calls = s.calls ++ c ∷ [] }) (o.meta c)

  reserve-directory :
      (comps : List SendComponent) (rows : Result (List Message)) (s : Service)
      → (reserve o m to t owner comps rows s).0.directory ≡ s.directory
  reserve-directory comps (err e) s = refl
  reserve-directory comps (ok rows) s =
      deliver-directory comps (credentials o.decrypt o.integration_failure owner s.directory)
        (record s { messages = rows })

  send_built-directory :
      (comps : Result (List SendComponent)) (s : Service)
      → (send_built o m to t owner comps s).0.directory ≡ s.directory
  send_built-directory (err e) s = refl
  send_built-directory (ok comps) s =
      reserve-directory comps (insert_message o.insert_failure m s.messages) s

  send_charged-directory :
      (vars : Variables) (s : Service) (e : Option Error)
      → (send_charged o m to t owner vars (s, e)).0.directory ≡ s.directory
  send_charged-directory vars s (some e) = refl
  send_charged-directory vars s none = send_built-directory (build_components t.components vars) s

send_gated-directory :
    (o : Outside) (req : SendRequest) (g : Result Loaded) (s : Service)
    → (send_gated o req g s).0.directory ≡ s.directory
send_gated-directory o req (err e) s = refl
send_gated-directory o req (ok l) s =
    let (t, e) = charge o req.shop_id s in
    let (_, _, kept) = charge-kept o req.shop_id s in
    send_charged-directory o (queued_message o req l.template s.directory) l.customer.phone
      l.template l.owner_shop req.variables t e
    ∙ kept

send_unless_found-directory :
    (o : Outside) (req : SendRequest) (found : Result SendResult) (s : Service)
    → (send_new o req s).0.directory ≡ s.directory
    → (send_unless_found o req found s).0.directory ≡ s.directory
send_unless_found-directory o req (ok r) s new = refl
send_unless_found-directory o req (err e) s new = elim (Bool-cases (is_no_rows e)) [
  | inl missing ↦ rw missing new
  | inr failed ↦ rw failed refl
]

pub send_template_message-directory :
    (o : Outside) (seen : List Message) (req : SendRequest) (s : Service)
    → (send_template_message o seen req s).0.directory ≡ s.directory
unfolding send_template_message send_new
send_template_message-directory o seen req s =
    let new = send_gated-directory o req (gate o req s.directory) s in
    elim (Bool-cases (req.idempotency_key == "")) [
      | inl without_key ↦ rw without_key new
      | inr with_key ↦ rw with_key (
          send_unless_found-directory o req
            (find_message_by_idempotency o.lookup_failure req.shop_id req.idempotency_key seen) s
            new)
    ]
