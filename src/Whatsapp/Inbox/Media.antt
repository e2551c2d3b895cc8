-- ===== src/Whatsapp/Inbox/Media.antt =====
-- The replies with media in internal/whatsapp/chat.go: a voice message and an image.
use beleevo_whatsapp.Prelude.{
  ltb, string_eq, nat_eq, ◌==◌, not, ◌!=◌, if◌then◌else◌, length, update, join_texts, itoa, Error,
  message, Result, ok, err, exec, ℕ, ◌*◌, ◌^◌, String, Bool, ◌&&◌, some, [], ◌∷◌,
}
use beleevo_whatsapp.Whatsapp.Placeholders.{trim_space}
use beleevo_whatsapp.Whatsapp.Inbox.{
  Bytes, ChatMessage, ReplyCall, upload_media, send_audio, send_image, Inbox, InboxOutside,
  is_voice_note, audio_ext_for_mime, normalize_audio,
}
use beleevo_whatsapp.Whatsapp.Inbox.Content.{image_label, voice_label}
use beleevo_whatsapp.Whatsapp.Inbox.Replies.{
  ReplyResult, reply_gate, Reply, is_chat, fail_reply, log_call, message_customer, Delivery,
  gated_reply,
}

-- A message with media that Meta has taken.
abbrev pub deliver_uploaded :
    InboxOutside
    → (id : ℕ) → (body : String) → (String → ReplyCall)
    → Result String
    → Inbox
    → Inbox × Result ReplyResult
deliver_uploaded o id body call (err e) x = fail_reply o e x
deliver_uploaded o id body call (ok media_id) x = message_customer o id body (call media_id) x

abbrev pub deliver_media :
    InboxOutside
    → (id : ℕ) → (body : String) → (upload : ReplyCall) → (String → ReplyCall)
    → Inbox
    → Inbox × Result ReplyResult
deliver_media o id body upload call x =
    deliver_uploaded o id body call (o.meta upload) (log_call upload x)

abbrev pub max_outbound_media_bytes : ℕ
max_outbound_media_bytes = 16 * 2 ^ 20

abbrev pub remuxed : (mime : String) → Bytes → ChatMessage → ChatMessage
remuxed mime bytes c = record c { media_mime = mime; media_bytes = some bytes }

abbrev pub keep_remuxed : InboxOutside → (mime : String) → Bytes → Inbox → Inbox
keep_remuxed o mime bytes x = record x {
  chats =
      exec o.remuxed_failure x.chats (update (is_chat o.fresh_chat) (remuxed mime bytes) x.chats);
}

abbrev pub is_given : (mime : String) → Bytes → Bool
is_given mime bytes = mime != "" && not (length bytes == 0)

abbrev pub voice_filename : (mime filename : String) → Bytes → String
voice_filename mime filename bytes =
    if is_given mime bytes && audio_ext_for_mime mime != ""
    then join_texts ("voice." ∷ audio_ext_for_mime mime ∷ [])
    else filename

abbrev pub deliver_normalized :
    InboxOutside → (id : ℕ) → (filename : String) → Result (String × Bytes) → Delivery
deliver_normalized o id filename (err e) c creds x = fail_reply o e x
deliver_normalized o id filename (ok (mime, bytes)) c creds x =
    deliver_media o id voice_label
      (upload_media creds mime bytes (voice_filename mime filename bytes))
      (λ media_id. send_audio creds c.customer_phone media_id (is_voice_note mime))
      (if is_given mime bytes then keep_remuxed o mime bytes x else x)

abbrev pub audio_reply : (mime filename : String) → Bytes → (duration_ms : ℕ) → Reply
audio_reply mime filename bytes duration_ms = record {
  body = voice_label;
  media_kind = "audio";
  media_mime = mime;
  media_bytes = some bytes;
  media_duration_ms = duration_ms;
  media_filename = filename;
}

abbrev pub too_large : String → Bytes → Error
too_large kind bytes =
    message (join_texts (kind ∷ " too large: " ∷ itoa (length bytes) ∷ " bytes" ∷ []))

unfoldable pub send_audio_reply :
    InboxOutside
    → (id : ℕ) → (mime filename : String) → Bytes
    → (duration_ms : ℕ) → Inbox
    → Inbox × Result ReplyResult
send_audio_reply o id mime filename bytes duration_ms x =
    let sent =
      gated_reply o id (audio_reply mime filename bytes duration_ms)
        (deliver_normalized o id filename (normalize_audio o mime bytes)) (reply_gate o id x) in
    if length bytes == 0
    then (x, err (message "empty audio"))
    else if ltb max_outbound_media_bytes (length bytes)
    then (x, err (too_large "audio" bytes))
    else sent

abbrev pub caption_of : String → String
caption_of caption = if trim_space caption == "" then image_label else trim_space caption

abbrev pub image_reply : (mime filename : String) → Bytes → (caption : String) → Reply
image_reply mime filename bytes caption = record {
  body = caption_of caption;
  media_kind = "image";
  media_mime = mime;
  media_bytes = some bytes;
  media_duration_ms = 0;
  media_filename = filename;
}

abbrev pub deliver_image :
    InboxOutside → (id : ℕ) → (mime filename : String) → Bytes → (caption : String) → Delivery
deliver_image o id mime filename bytes caption c creds x =
    deliver_media o id (caption_of caption) (upload_media creds mime bytes filename)
      (λ media_id. send_image creds c.customer_phone media_id (trim_space caption)) x

unfoldable pub send_image_reply :
    InboxOutside
    → (id : ℕ) → (mime filename : String) → Bytes
    → (caption : String) → Inbox
    → Inbox × Result ReplyResult
send_image_reply o id mime filename bytes caption x =
    let sent =
      gated_reply o id (image_reply mime filename bytes caption)
        (deliver_image o id mime filename bytes caption) (reply_gate o id x) in
    if length bytes == 0
    then (x, err (message "empty image"))
    else if ltb max_outbound_media_bytes (length bytes)
    then (x, err (too_large "image" bytes))
    else sent
