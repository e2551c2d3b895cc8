-- ===== src/Whatsapp/Inbox/Kept.antt =====
-- What every step of internal/whatsapp/chat.go and autoreply.go keeps of the table `conversations`.
use beleevo_whatsapp.Prelude.{
  ltb, string_eq, nat_eq, ◌==◌, if◌then◌else◌, Bool-cases, length, any, update, is_none, Error,
  message, Result, ok, err, exec, ℕ, String, ◌≡◌, refl, inl, inr, Bool, true, false, Option, none,
  some, List, [], ◌∷◌, ◌++◌,
}
use beleevo_whatsapp.Whatsapp.Placeholders.{trim_space}
use beleevo_whatsapp.Whatsapp.RateLimit.{RateLimiter, allow}
use beleevo_whatsapp.Whatsapp.Directory.{Credentials}
use beleevo_whatsapp.Whatsapp.Inbox.{
  Bytes, Conversation, ChatMessage, ReplyCall, send_text, upload_media, send_audio, Inbox,
  InboxOutside, inbox_credentials, is_voice_note, normalize_audio,
}
use beleevo_whatsapp.Whatsapp.Inbox.Content.{voice_label}
use beleevo_whatsapp.Whatsapp.Inbox.Inbound.{insert_chat}
use beleevo_whatsapp.Whatsapp.Inbox.Media.{
  deliver_uploaded, max_outbound_media_bytes, keep_remuxed, is_given, voice_filename,
  deliver_normalized, audio_reply, too_large, send_audio_reply, caption_of, image_reply,
  deliver_image, send_image_reply,
}
use beleevo_whatsapp.Whatsapp.Inbox.Replies.{
  ReplyResult, has_conversation_id, thread, is_window_open, allowed, rated, connected, in_window,
  reply_gate, Reply, queued_reply, replied, finish_reply, log_call, Delivery, stored_reply,
  gated_reply, deliver_text, text_reply, send_reply,
}

-- An update keeps whose conversation it is, and takes back no claim of a greeting.
pub record IsRenewal (f : Conversation → Conversation) : Type 0 where
  pub id : (c : Conversation) → (f c).id ≡ c.id
  pub shop : (c : Conversation) → (f c).shop_id ≡ c.shop_id
  pub phone : (c : Conversation) → (f c).customer_phone ≡ c.customer_phone
  pub claim :
      (c : Conversation)
      → is_none (f c).first_contact_autoreplied_at ≡ true
      → is_none c.first_contact_autoreplied_at ≡ true

abbrev pub KeptByUpdate : (List Conversation → Type 0) → Type 0
KeptByUpdate P =
    (p : Conversation → Bool) (f : Conversation → Conversation) (rows : List Conversation)
    → IsRenewal f
    → P rows
    → P (update p f rows)

abbrev pub KeptByInsert : (List Conversation → Type 0) → Type 0
KeptByInsert P =
    (new : Conversation) (rows : List Conversation)
    → any (λ (c : Conversation). c.id == new.id) rows ≡ false
    → P rows
    → P (rows ++ new ∷ [])

module _ (P : List Conversation → Type 0) (updated : KeptByUpdate P)
    (inserted : KeptByInsert P) where
  exec-kept :
      (failure : Option Error) (before after : List Conversation)
      → P before
      → P after
      → P (exec failure before after)
  exec-kept none before after h h' = h'
  exec-kept (some e) before after h h' = h

  finish_reply-kept :
      (o : InboxOutside) (id : ℕ) (body : String) (r : Result String) (x : Inbox)
      → P x.conversations
      → P (finish_reply o id body r x).0.conversations
  finish_reply-kept o id body (err e) x h = h
  finish_reply-kept o id body (ok meta_id) x h =
      exec-kept o.touch_failure x.conversations
        (update (has_conversation_id id) (replied o.now body) x.conversations) h
        (updated (has_conversation_id id) (replied o.now body) x.conversations
          (record { id = λ c. refl; shop = λ c. refl; phone = λ c. refl; claim = λ c e. e }) h)

  deliver_uploaded-kept :
      (o : InboxOutside) (id : ℕ) (body : String) (call : String → ReplyCall) (r : Result String)
      (x : Inbox)
      → P x.conversations
      → P (deliver_uploaded o id body call r x).0.conversations
  deliver_uploaded-kept o id body call (err e) x h = h
  deliver_uploaded-kept o id body call (ok media_id) x h =
      finish_reply-kept o id body (o.meta (call media_id)) (log_call (call media_id) x) h

  abbrev IsKeeping : Delivery → Type 0
  IsKeeping deliver =
      (c : Conversation) (creds : Credentials) (x : Inbox)
      → P x.conversations
      → P (deliver c creds x).0.conversations

  deliver_normalized-kept :
      (o : InboxOutside) (id : ℕ) (filename : String) (r : Result (String × Bytes))
      → IsKeeping (deliver_normalized o id filename r)
  deliver_normalized-kept o id filename (err e) c creds x h = h
  deliver_normalized-kept o id filename (ok (mime, bytes)) c creds x h = step (is_given mime bytes)
    where
      call : ReplyCall
      call = upload_media creds mime bytes (voice_filename mime filename bytes)

      step :
          (b : Bool)
          → P
              (deliver_uploaded o id voice_label
                (λ media_id. send_audio creds c.customer_phone media_id (is_voice_note mime))
                (o.meta call)
                (log_call call (if b then keep_remuxed o mime bytes x else x))).0.conversations
      step true =
          deliver_uploaded-kept o id voice_label _ (o.meta call)
            (log_call call (keep_remuxed o mime bytes x)) h
      step false = deliver_uploaded-kept o id voice_label _ (o.meta call) (log_call call x) h

  allowed-kept :
      (x : Inbox) (c : Conversation) (creds : Credentials) (l : RateLimiter × Option Error)
      → P x.conversations
      → P (allowed x c creds l).0.conversations
  allowed-kept x c creds (l, some e) h = h
  allowed-kept x c creds (l, none) h = h

  rated-kept :
      (o : InboxOutside) (x : Inbox) (c : Conversation) (creds : Credentials)
      (rate : Option RateLimiter)
      → P x.conversations
      → P (rated o x c creds rate).0.conversations
  rated-kept o x c creds none h = h
  rated-kept o x c creds (some l) h =
      allowed-kept x c creds (allow o.show_id o.rate_failure o.prune_failure o.now c.shop_id l) h

  connected-kept :
      (o : InboxOutside) (x : Inbox) (c : Conversation) (k : Result Credentials)
      → P x.conversations
      → P (connected o x c k).0.conversations
  connected-kept o x c (err e) h = h
  connected-kept o x c (ok creds) h = rated-kept o x c creds x.rate h

  in_window-kept :
      (o : InboxOutside) (x : Inbox) (r : Result Conversation)
      → P x.conversations
      → P (in_window o x r).0.conversations
  in_window-kept o x (err e) h = h
  in_window-kept o x (ok c) h = elim (Bool-cases (is_window_open o.now c)) [
    | inl in_time ↦ rw in_time (connected-kept o x c (inbox_credentials o c.shop_id x) h)
    | inr late ↦ rw late h
  ]

  gated_reply-kept :
      (o : InboxOutside) (id : ℕ) (r : Reply) (deliver : Delivery)
      (g : Inbox × Result (Conversation × Credentials))
      → IsKeeping deliver
      → P g.0.conversations
      → P (gated_reply o id r deliver g).0.conversations
  gated_reply-kept o id r deliver (x, err e) keep h = h
  gated_reply-kept o id r deliver (x, ok (c, creds)) keep h =
      stored (insert_chat o.queued_failure (queued_reply o id r) x.chats)
    where
      stored :
          (chats : Result (List ChatMessage))
          → P (stored_reply deliver c creds x chats).0.conversations
      stored (err e) = h
      stored (ok rows) = keep c creds (record x { chats = rows }) h

  guarded-kept :
      (o : InboxOutside) (id : ℕ) (r : Reply) (deliver : Delivery) (x : Inbox)
      → IsKeeping deliver
      → P x.conversations
      → P (gated_reply o id r deliver (reply_gate o id x)).0.conversations
  unfolding reply_gate
  guarded-kept o id r deliver x keep h =
      gated_reply-kept o id r deliver (in_window o x (thread o id x)) keep
        (in_window-kept o x (thread o id x) h)

  pub send_reply-kept :
      (o : InboxOutside) (id : ℕ) (text : String) (x : Inbox)
      → P x.conversations
      → P (send_reply o id text x).0.conversations
  unfolding send_reply
  send_reply-kept o id text x h = elim (Bool-cases (trim_space text == "")) [
    | inl empty ↦ rw empty h
    | inr given ↦ rw given (
        guarded-kept o id (text_reply (trim_space text)) (deliver_text o id (trim_space text)) x
          (λ c creds y k.
            finish_reply-kept o id (trim_space text)
              (o.meta (send_text creds c.customer_phone (trim_space text)))
              (log_call (send_text creds c.customer_phone (trim_space text)) y) k)
          h)
  ]

  sized-kept :
      (x : Inbox) (empty large : Bool) (e e' : Error) (sent : Inbox × Result ReplyResult)
      → P x.conversations
      → P sent.0.conversations
      → P (if empty then (x, err e) else if large then (x, err e') else sent).0.conversations
  sized-kept x true large e e' sent h h' = h
  sized-kept x false true e e' sent h h' = h
  sized-kept x false false e e' sent h h' = h'

  pub send_audio_reply-kept :
      (o : InboxOutside) (id : ℕ) (mime filename : String) (bytes : Bytes) (duration_ms : ℕ)
      (x : Inbox)
      → P x.conversations
      → P (send_audio_reply o id mime filename bytes duration_ms x).0.conversations
  unfolding send_audio_reply
  send_audio_reply-kept o id mime filename bytes duration_ms x h =
      sized-kept x (length bytes == 0) (ltb max_outbound_media_bytes (length bytes))
        (message "empty audio") (too_large "audio" bytes) _ h
        (guarded-kept o id (audio_reply mime filename bytes duration_ms)
          (deliver_normalized o id filename (normalize_audio o mime bytes)) x
          (deliver_normalized-kept o id filename (normalize_audio o mime bytes)) h)

  pub send_image_reply-kept :
      (o : InboxOutside) (id : ℕ) (mime filename : String) (bytes : Bytes) (caption : String)
      (x : Inbox)
      → P x.conversations
      → P (send_image_reply o id mime filename bytes caption x).0.conversations
  unfolding send_image_reply
  send_image_reply-kept o id mime filename bytes caption x h =
      sized-kept x (length bytes == 0) (ltb max_outbound_media_bytes (length bytes))
        (message "empty image") (too_large "image" bytes) _ h
        (guarded-kept o id (image_reply mime filename bytes caption)
          (deliver_image o id mime filename bytes caption) x
          (λ c creds y k.
            deliver_uploaded-kept o id (caption_of caption) _
              (o.meta (upload_media creds mime bytes filename))
              (log_call (upload_media creds mime bytes filename) y) k)
          h)
