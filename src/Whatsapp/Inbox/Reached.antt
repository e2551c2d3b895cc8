-- ===== src/Whatsapp/Inbox/Reached.antt =====
-- What must hold for a reply of internal/whatsapp/chat.go to reach Meta, and what it asks there.
use beleevo_whatsapp.Prelude.{
  ltb, string_eq, nat_eq, ◌==◌, if◌then◌else◌, ltb→lt, Bool-cases, length, count, All, Error,
  message, Result, ok, err, ℕ, suc, ◌≤◌, ◌<◌, String, ◌≡◌, refl, sym, ap, ◌∙◌, ◌⊎◌, inl, inr, Bool,
  true, false, Option, none, some, List, [], ◌∷◌, ◌++◌, append_assoc, append-nil, arith,
}
use beleevo_whatsapp.Whatsapp.RateLimit.{RateLimiter, allow}
use beleevo_whatsapp.Whatsapp.Directory.{Credentials}
use beleevo_whatsapp.Whatsapp.Inbox.{
  Bytes, Conversation, ChatMessage, ReplyCall, send_text, upload_media, send_audio, send_image,
  Inbox, InboxOutside, inbox_credentials, is_voice_note, normalize_audio,
}
use beleevo_whatsapp.Whatsapp.Inbox.Media.{
  deliver_uploaded, deliver_media, max_outbound_media_bytes, keep_remuxed, is_given, voice_filename,
  deliver_normalized, audio_reply, too_large, send_audio_reply, caption_of, image_reply,
  deliver_image, send_image_reply,
}
use beleevo_whatsapp.Whatsapp.Inbox.Replies.{
  ReplyResult, thread, is_window_open, allowed, rated, connected, in_window, reply_gate, Reply,
  queued_reply, finish_reply, log_call, message_customer, Delivery, stored_reply, gated_reply,
  deliver_text, text_reply, send_reply,
}
use beleevo_whatsapp.Whatsapp.Placeholders.{trim_space}
use beleevo_whatsapp.Whatsapp.Inbox.Content.{voice_label}
use beleevo_whatsapp.Whatsapp.Inbox.Inbound.{insert_chat}

-- The call is a message to a customer, and not an upload.
abbrev pub is_message : ReplyCall → Bool
is_message (send_text _ _ _) = true
is_message (upload_media _ _ _ _) = false
is_message (send_audio _ _ _ _) = true
is_message (send_image _ _ _ _) = true

-- The call is made with the credentials, and a message goes to the customer of the conversation.
abbrev pub Carries : Conversation → Credentials → ReplyCall → Type 0
Carries c creds (send_text k to text) = (k ≡ creds) × (to ≡ c.customer_phone)
Carries c creds (upload_media k mime bytes filename) = k ≡ creds
Carries c creds (send_audio k to media_id voice) = (k ≡ creds) × (to ≡ c.customer_phone)
Carries c creds (send_image k to media_id caption) = (k ≡ creds) × (to ≡ c.customer_phone)

abbrev pub Granted : InboxOutside → ℕ → Option RateLimiter → Type 0
Granted o shop none = Unit
Granted o shop (some l) = (allow o.show_id o.rate_failure o.prune_failure o.now shop l).1 ≡ none

-- The thread is there and its window open, its shop is connected and the limiter grants the reply.
pub record MayReply (o : InboxOutside) (id : ℕ) (x : Inbox) (c : Conversation) (creds : Credentials)
    : Type 0 where
  pub found : thread o id x ≡ ok c
  pub in_time : o.now < c.window_expires_at
  pub is_connected : inbox_credentials o c.shop_id x ≡ ok creds
  pub granted : Granted o c.shop_id x.rate

-- The calls that a step adds: one message at most, each carried with the credentials.
abbrev Adds : Conversation → Credentials → (before after : Inbox) → Type 0
Adds c creds x x' =
    (calls : List ReplyCall) × (x'.calls ≡ x.calls ++ calls)
    × (count is_message calls ≤ 1)
    × All (Carries c creds) calls

-- Nothing is asked of Meta, or the guards hold, and one message at most is sent.
abbrev pub Reached : InboxOutside → ℕ → (before after : Inbox) → Type 0
Reached o id x x' =
    (x'.calls ≡ x.calls)
    ⊎ ((c : Conversation) × (creds : Credentials) × MayReply o id x c creds
        × ((calls : List ReplyCall) × (x'.calls ≡ x.calls ++ calls)
            × (count is_message calls ≤ 1)
            × All (Carries c creds) calls))

finish_reply-calls :
    (o : InboxOutside) (id : ℕ) (body : String) (r : Result String) (x : Inbox)
    → (finish_reply o id body r x).0.calls ≡ x.calls
finish_reply-calls o id body (ok meta_id) x = refl
finish_reply-calls o id body (err e) x = refl

message_customer-Adds :
    (o : InboxOutside) (id : ℕ) (body : String) (call : ReplyCall) (c : Conversation)
    (creds : Credentials) (x : Inbox)
    → Carries c creds call
    → Adds c creds x (message_customer o id body call x).0
message_customer-Adds o id body call c creds x carried = (
  call ∷ [],
  finish_reply-calls o id body (o.meta call) (log_call call x),
  one (is_message call),
  (carried, tt),
)
  where
    one : (b : Bool) → (if b then suc 0 else 0) ≤ 1
    one true = omega arith
    one false = omega arith

deliver_media-Adds :
    (o : InboxOutside) (id : ℕ) (body : String) (mime filename : String) (bytes : Bytes)
    (call : String → ReplyCall) (c : Conversation) (creds : Credentials) (x : Inbox)
    → ((media_id : String) → Carries c creds (call media_id))
    → Adds c creds x (deliver_media o id body (upload_media creds mime bytes filename) call x).0
deliver_media-Adds o id body mime filename bytes call c creds x carried = step (o.meta upload)
  where
    upload : ReplyCall
    upload = upload_media creds mime bytes filename

    step :
        (r : Result String)
        → Adds c creds x (deliver_uploaded o id body call r (log_call upload x)).0
    step (err e) = (upload ∷ [], refl, omega arith, (refl, tt))
    step (ok media_id) =
        let (calls, added, one, all) =
          message_customer-Adds o id body (call media_id) c creds (log_call upload x)
            (carried media_id) in
        (upload ∷ calls, added ∙ append_assoc x.calls (upload ∷ []) calls, one, (refl, all))

abbrev IsDelivery : Delivery → Type 0
IsDelivery deliver =
    (c : Conversation) (creds : Credentials) (x : Inbox) → Adds c creds x (deliver c creds x).0

deliver_text-IsDelivery :
    (o : InboxOutside) (id : ℕ) (text : String) → IsDelivery (deliver_text o id text)
deliver_text-IsDelivery o id text c creds x =
    message_customer-Adds o id text (send_text creds c.customer_phone text) c creds x (refl, refl)

deliver_image-IsDelivery :
    (o : InboxOutside) (id : ℕ) (mime filename : String) (bytes : Bytes) (caption : String)
    → IsDelivery (deliver_image o id mime filename bytes caption)
deliver_image-IsDelivery o id mime filename bytes caption c creds x =
    deliver_media-Adds o id (caption_of caption) mime filename bytes
      (λ media_id. send_image creds c.customer_phone media_id (trim_space caption)) c creds x
      (λ media_id. (refl, refl))

deliver_normalized-IsDelivery :
    (o : InboxOutside) (id : ℕ) (filename : String) (r : Result (String × Bytes))
    → IsDelivery (deliver_normalized o id filename r)
deliver_normalized-IsDelivery o id filename (err e) c creds x =
    ([], sym (append-nil x.calls), omega arith, tt)
deliver_normalized-IsDelivery o id filename (ok (mime, bytes)) c creds x =
    step (is_given mime bytes)
  where
    step :
        (b : Bool)
        → Adds c creds x
            (deliver_media o id voice_label
              (upload_media creds mime bytes (voice_filename mime filename bytes))
              (λ media_id. send_audio creds c.customer_phone media_id (is_voice_note mime))
              (if b then keep_remuxed o mime bytes x else x)).0
    step true =
        deliver_media-Adds o id voice_label mime (voice_filename mime filename bytes) bytes
          (λ media_id. send_audio creds c.customer_phone media_id (is_voice_note mime)) c creds
          (keep_remuxed o mime bytes x) (λ media_id. (refl, refl))
    step false =
        deliver_media-Adds o id voice_label mime (voice_filename mime filename bytes) bytes
          (λ media_id. send_audio creds c.customer_phone media_id (is_voice_note mime)) c creds x
          (λ media_id. (refl, refl))

-- What the guards leave: no call, and where they pass, all that a reply needs.
abbrev Gated : InboxOutside → ℕ → Inbox → Inbox × Result (Conversation × Credentials) → Type 0
Gated o id x (x', err e) = x'.calls ≡ x.calls
Gated o id x (x', ok (c, creds)) = (x'.calls ≡ x.calls) × MayReply o id x c creds

allowed-Gated :
    (o : InboxOutside) (id : ℕ) (x : Inbox) (c : Conversation) (creds : Credentials)
    (l : RateLimiter × Option Error)
    → ((l.1 ≡ none) → MayReply o id x c creds)
    → Gated o id x (allowed x c creds l)
allowed-Gated o id x c creds (l, some e) may = refl
allowed-Gated o id x c creds (l, none) may = (refl, may refl)

rated-Gated :
    (o : InboxOutside) (id : ℕ) (x : Inbox) (c : Conversation) (creds : Credentials)
    (rate : Option RateLimiter)
    → (Granted o c.shop_id rate → MayReply o id x c creds)
    → Gated o id x (rated o x c creds rate)
rated-Gated o id x c creds none may = (refl, may tt)
rated-Gated o id x c creds (some l) may =
    allowed-Gated o id x c creds (allow o.show_id o.rate_failure o.prune_failure o.now c.shop_id l)
      may

connected-Gated :
    (o : InboxOutside) (id : ℕ) (x : Inbox) (c : Conversation) (k : Result Credentials)
    → thread o id x ≡ ok c
    → o.now < c.window_expires_at
    → inbox_credentials o c.shop_id x ≡ k
    → Gated o id x (connected o x c k)
connected-Gated o id x c (err e) found in_time known = refl
connected-Gated o id x c (ok creds) found in_time known =
    rated-Gated o id x c creds x.rate (λ granted. record {
      found = found;
      in_time = in_time;
      is_connected = known;
      granted = granted;
    })

in_window-Gated :
    (o : InboxOutside) (id : ℕ) (x : Inbox) (r : Result Conversation)
    → thread o id x ≡ r
    → Gated o id x (in_window o x r)
in_window-Gated o id x (err e) found = refl
in_window-Gated o id x (ok c) found = elim (Bool-cases (is_window_open o.now c)) [
  | inl in_time ↦ rw in_time (
      connected-Gated o id x c (inbox_credentials o c.shop_id x) found
        (ltb→lt o.now c.window_expires_at in_time) refl)
  | inr late ↦ rw late refl
]

gated_reply-Reached :
    (o : InboxOutside) (id : ℕ) (r : Reply) (deliver : Delivery) (x : Inbox)
    (g : Inbox × Result (Conversation × Credentials))
    → IsDelivery deliver
    → Gated o id x g
    → Reached o id x (gated_reply o id r deliver g).0
gated_reply-Reached o id r deliver x (x', err e) delivers same = inl same
gated_reply-Reached o id r deliver x (x', ok (c, creds)) delivers (same, may) =
    stored (insert_chat o.queued_failure (queued_reply o id r) x'.chats)
  where
    stored :
        (chats : Result (List ChatMessage))
        → Reached o id x (stored_reply deliver c creds x' chats).0
    stored (err e) = inl same
    stored (ok rows) =
        let (calls, added, one, all) = delivers c creds (record x' { chats = rows }) in
        inr (c, creds, may, (calls, added ∙ ap (λ (z : List ReplyCall). z ++ calls) same, one, all))

guarded-Reached :
    (o : InboxOutside) (id : ℕ) (r : Reply) (deliver : Delivery) (x : Inbox)
    → IsDelivery deliver
    → Reached o id x (gated_reply o id r deliver (reply_gate o id x)).0
unfolding reply_gate
guarded-Reached o id r deliver x delivers =
    gated_reply-Reached o id r deliver x (in_window o x (thread o id x)) delivers
      (in_window-Gated o id x (thread o id x) refl)

text-Reached :
    (o : InboxOutside) (id : ℕ) (text : String) (x : Inbox)
    → Reached o id x (send_reply o id text x).0
unfolding send_reply
text-Reached o id text x = elim (Bool-cases (trim_space text == "")) [
  | inl empty ↦ rw empty (inl refl)
  | inr given ↦ rw given (
      guarded-Reached o id (text_reply (trim_space text)) (deliver_text o id (trim_space text)) x
        (deliver_text-IsDelivery o id (trim_space text)))
]

sized-Reached :
    (o : InboxOutside) (id : ℕ) (x : Inbox) (empty large : Bool) (e e' : Error)
    (sent : Inbox × Result ReplyResult)
    → Reached o id x sent.0
    → Reached o id x (if empty then (x, err e) else if large then (x, err e') else sent).0
sized-Reached o id x true large e e' sent h = inl refl
sized-Reached o id x false true e e' sent h = inl refl
sized-Reached o id x false false e e' sent h = h

-- Whatever the database, the limiter, the audio tools and Meta do: a reply of each of the three kinds
-- asks nothing of Meta, or its conversation is there, its service window is open, its shop has a
-- connection, the limiter grants it, and it then sends one message at most; every call is made with the
-- credentials of that shop, and the message goes to the customer of that conversation.
pub replies-Reached :
    (o : InboxOutside) (id : ℕ) (text mime filename caption : String) (bytes : Bytes)
    (duration_ms : ℕ) (x : Inbox)
    → Reached o id x (send_reply o id text x).0
      × Reached o id x (send_audio_reply o id mime filename bytes duration_ms x).0
      × Reached o id x (send_image_reply o id mime filename bytes caption x).0
unfolding send_audio_reply send_image_reply
replies-Reached o id text mime filename caption bytes duration_ms x = (
  text-Reached o id text x,
  sized-Reached o id x (length bytes == 0) (ltb max_outbound_media_bytes (length bytes))
      (message "empty audio") (too_large "audio" bytes) _
      (guarded-Reached o id (audio_reply mime filename bytes duration_ms)
        (deliver_normalized o id filename (normalize_audio o mime bytes)) x
        (deliver_normalized-IsDelivery o id filename (normalize_audio o mime bytes))),
  sized-Reached o id x (length bytes == 0) (ltb max_outbound_media_bytes (length bytes))
      (message "empty image") (too_large "image" bytes) _
      (guarded-Reached o id (image_reply mime filename bytes caption)
        (deliver_image o id mime filename bytes caption) x
        (deliver_image-IsDelivery o id mime filename bytes caption)),
)
