-- ===== src/Whatsapp/Sending/Safety.antt =====
-- What must hold for a send of internal/whatsapp/send.go to reach Meta, and what the call carries.
use mathlib.Core.Path.{subst}
use beleevo_whatsapp.Prelude.{
  ◌==◌, nat_eq, string_eq, Bool-cases, Error, is_no_rows, Result, ok, err, ◌>>=◌, ℕ, String, ◌≡◌,
  refl, ap, ◌∙◌, ◌⊎◌, inl, inr, Option, none, some, List, [], ◌∷◌, ◌++◌,
}
use beleevo_whatsapp.Whatsapp.{Variables, TemplateState, SendRequest, SendResult}
use beleevo_whatsapp.Whatsapp.Components.{SendComponent, build_components}
use beleevo_whatsapp.Whatsapp.RateLimit.{RateLimiter}
use beleevo_whatsapp.Whatsapp.Ledger.{Message, insert_message, find_message_by_idempotency}
use beleevo_whatsapp.Whatsapp.Directory.{Directory, Credentials, credentials}
use beleevo_whatsapp.Whatsapp.Service.{
  Call, Outside, Service, Loaded, load, permitted, gate, charge_limiter, charge,
}
use beleevo_whatsapp.Whatsapp.Sending.{
  record_answer, call_of, deliver, reserve, send_built, send_charged, queued_message, send_gated,
  send_new, send_unless_found, send_template_message,
}
use beleevo_whatsapp.Whatsapp.Gate.{evaluate_send_rule}
use beleevo_whatsapp.Whatsapp.Gate.Permission.{CanSend, evaluate_send_rule_iff}

record_answer-calls :
    (o : Outside) (id : ℕ) (s : Service) (r : Result String)
    → (record_answer o id s r).0.calls ≡ s.calls
record_answer-calls o id s (ok _) = refl
record_answer-calls o id s (err _) = refl

-- The call of a send: the stored row's, to the given number, with the credentials of the shop that
-- owns the template and the components built from its stored ones.
pub record IsCall (o : Outside) (m : Message) (to : String) (t : TemplateState) (owner : ℕ)
    (vars : Variables) (d : Directory) (c : Call) : Type 0 where
  pub creds : Credentials
  pub comps : List SendComponent
  pub connected : credentials o.decrypt o.integration_failure owner d ≡ ok creds
  pub built : build_components t.components vars ≡ ok comps
  pub is_call : c ≡ call_of m to t comps creds

module _ (o : Outside) (m : Message) (to : String) (t : TemplateState) (owner : ℕ)
    (vars : Variables) where
  -- Either the log is as it was, or it has one more call.
  abbrev pub Calls : Service → Service → Type 0
  Calls s s' =
      (s'.calls ≡ s.calls)
      ⊎ ((c : Call) × (s'.calls ≡ s.calls ++ c ∷ []) × IsCall o m to t owner vars s.directory c)

  deliver-Calls :
      (comps : List SendComponent) (k : Result Credentials) (s : Service)
      → build_components t.components vars ≡ ok comps
      → credentials o.decrypt o.integration_failure owner s.directory ≡ k
      → Calls s (deliver o m to t comps k s).0
  deliver-Calls comps (err e) s built connected = inl refl
  deliver-Calls comps (ok creds) s built connected =
      let c = call_of m to t comps creds in
      inr (
        c,
        record_answer-calls o m.id (record s { calls = s.calls ++ c ∷ [] }) (o.meta c),
        record {
          creds = creds;
          comps = comps;
          connected = connected;
          built = built;
          is_call = refl;
        },
      )

  reserve-Calls :
      (comps : List SendComponent) (rows : Result (List Message)) (s : Service)
      → build_components t.components vars ≡ ok comps
      → Calls s (reserve o m to t owner comps rows s).0
  reserve-Calls comps (err e) s built = inl refl
  reserve-Calls comps (ok rows) s built =
      deliver-Calls comps (credentials o.decrypt o.integration_failure owner s.directory)
        (record s { messages = rows }) built refl

  send_built-Calls :
      (comps : Result (List SendComponent)) (s : Service)
      → build_components t.components vars ≡ comps
      → Calls s (send_built o m to t owner comps s).0
  send_built-Calls (err e) s built = inl refl
  send_built-Calls (ok comps) s built =
      reserve-Calls comps (insert_message o.insert_failure m s.messages) s built

  send_charged-Calls :
      (s : Service) (e : Option Error)
      → ((e ≡ none) × Calls s (send_charged o m to t owner vars (s, e)).0)
        ⊎ ((send_charged o m to t owner vars (s, e)).0 ≡ s)
  send_charged-Calls s (some e) = inr refl
  send_charged-Calls s none =
      inl (refl, send_built-Calls (build_components t.components vars) s refl)

charge_limiter-kept :
    (o : Outside) (shop : ℕ) (s : Service) (l : Option RateLimiter)
    → ((charge_limiter o shop s l).0.calls ≡ s.calls)
      × ((charge_limiter o shop s l).0.messages ≡ s.messages)
      × ((charge_limiter o shop s l).0.directory ≡ s.directory)
charge_limiter-kept o shop s none = (refl, refl, refl)
charge_limiter-kept o shop s (some l) = (refl, refl, refl)

pub charge-kept :
    (o : Outside) (shop : ℕ) (s : Service)
    → ((charge o shop s).0.calls ≡ s.calls)
      × ((charge o shop s).0.messages ≡ s.messages)
      × ((charge o shop s).0.directory ≡ s.directory)
unfolding charge
charge-kept o shop s = charge_limiter-kept o shop s s.rate

permitted_ok : (l l' : Loaded) (e : Option Error) → permitted l e ≡ ok l' → (l ≡ l') × (e ≡ none)
permitted_ok l l' none h = (cc, refl)
permitted_ok l l' (some e) h = absurd (cc h)

gate_ok_of :
    (req : SendRequest) (loaded : Result Loaded) (l : Loaded)
    → (loaded >>= λ l.
        permitted l (evaluate_send_rule l.merchant l.customer l.consent l.template req))
      ≡ ok l
    → (loaded ≡ ok l) × (evaluate_send_rule l.merchant l.customer l.consent l.template req ≡ none)
gate_ok_of req (err e) l h = absurd (cc h)
gate_ok_of req (ok l') l h =
    let (same, allowed) =
      permitted_ok l' l (evaluate_send_rule l'.merchant l'.customer l'.consent l'.template req) h in
    (
      ap ok same,
      subst
          (λ (k : Loaded). evaluate_send_rule k.merchant k.customer k.consent k.template req ≡ none)
          same allowed,
    )

gate_ok :
    (o : Outside) (req : SendRequest) (d : Directory) (l : Loaded)
    → gate o req d ≡ ok l
    → (load o req d ≡ ok l) × CanSend l.merchant l.customer l.consent l.template req
unfolding gate
gate_ok o req d l h =
    let (loaded, allowed) = gate_ok_of req (load o req d) l h in
    (loaded, (evaluate_send_rule_iff l.merchant l.customer l.consent l.template req).0 allowed)

-- What a send that reached Meta has gone through.
pub record Reached (o : Outside) (req : SendRequest) (s s' : Service) : Type 0 where
  pub loaded : Loaded
  pub is_loaded : load o req s.directory ≡ ok loaded
  pub can_send : CanSend loaded.merchant loaded.customer loaded.consent loaded.template req
  pub granted : (charge o req.shop_id s).1 ≡ none
  pub call : Call
  pub called : s'.calls ≡ s.calls ++ call ∷ []
  pub is_call :
      IsCall o
        (queued_message o req loaded.template s.directory)
        loaded.customer.phone
        loaded.template
        loaded.owner_shop
        req.variables
        s.directory
        call

send_gated-Reached :
    (o : Outside) (req : SendRequest) (s : Service) (g : Result Loaded)
    → gate o req s.directory ≡ g
    → ((send_gated o req g s).0.calls ≡ s.calls) ⊎ Reached o req s (send_gated o req g s).0
send_gated-Reached o req s (err e) h = inl refl
send_gated-Reached o req s (ok l) h =
    let (is_loaded, can_send) = gate_ok o req s.directory l h in
    let m = queued_message o req l.template s.directory in
    let (calls, messages, directory) = charge-kept o req.shop_id s in
    elim (send_charged-Calls o m l.customer.phone l.template l.owner_shop req.variables
      (charge o req.shop_id s).0 (charge o req.shop_id s).1) [
        | inr same ↦ inl (ap (λ (s : Service). s.calls) same ∙ calls)
        | inl (granted, inl same) ↦ inl (same ∙ calls)
        | inl (granted, inr (c, called, is_call)) ↦ inr (record {
          loaded = l;
          is_loaded = is_loaded;
          can_send = can_send;
          granted = granted;
          call = c;
          called = called ∙ ap (λ (cs : List Call). cs ++ c ∷ []) calls;
          is_call =
              subst
                (λ (d : Directory).
                  IsCall o m l.customer.phone l.template l.owner_shop req.variables d c)
                directory is_call;
        })
      ]

send_unless_found-Reached :
    (o : Outside) (req : SendRequest) (found : Result SendResult) (s : Service)
    → ((send_new o req s).0.calls ≡ s.calls) ⊎ Reached o req s (send_new o req s).0
    → ((send_unless_found o req found s).0.calls ≡ s.calls)
      ⊎ Reached o req s (send_unless_found o req found s).0
send_unless_found-Reached o req (ok r) s h = inl refl
send_unless_found-Reached o req (err e) s h = elim (Bool-cases (is_no_rows e)) [
  | inl missing ↦ rw missing h
  | inr failed ↦ rw failed (inl refl)
]

-- Whatever the database, the limiter and Meta do, a run of `SendTemplateMessage` makes no call to Meta
-- or exactly one; and it makes one only where the snapshots that it loaded satisfy every condition
-- of CAN_SEND, the limiter grants the send, the components are built from the template and the
-- variables of the request, and the shop that owns the template has a connection. That call goes
-- to the phone of the loaded customer, under the template's name, with that shop's credentials.
pub send_template_message-Reached :
    (o : Outside) (seen : List Message) (req : SendRequest) (s : Service)
    → let s' = (send_template_message o seen req s).0 in (s'.calls ≡ s.calls) ⊎ Reached o req s s'
unfolding send_template_message send_new
send_template_message-Reached o seen req s =
    let new = send_gated-Reached o req s (gate o req s.directory) refl in
    elim (Bool-cases (req.idempotency_key == "")) [
      | inl without_key ↦ rw without_key new
      | inr with_key ↦ rw with_key (
          send_unless_found-Reached o req
            (find_message_by_idempotency o.lookup_failure req.shop_id req.idempotency_key seen) s
            new)
    ]
