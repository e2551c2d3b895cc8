-- ===== src/Whatsapp/Inbox/Content.antt =====
-- A message of a customer in internal/whatsapp/webhook.go and chat.go, and what is stored of it: its
-- text or its media, which are downloaded.
use beleevo_whatsapp.Prelude.{
  ltb, string_eq, nat_eq, ◌==◌, ◌!=◌, if◌then◌else◌, join_texts, Error, Result, ok, err, ◌>>=◌, ℕ,
  ◌*◌, String, Bool, ◌&&◌, ◌||◌, Option, none, some, [], ◌∷◌,
}
use beleevo_whatsapp.Queue.{second}
use beleevo_whatsapp.Whatsapp.Directory.{Credentials}
use beleevo_whatsapp.Whatsapp.Inbox.{
  Bytes, WebhookReceipt, Inbox, InboxOutside, inbox_credentials, record_webhook_receipt,
}

-- The timestamp is in seconds.
pub record InboundMessage : Type 0 where
  pub meta_message_id : String
  pub from : String
  pub profile_name : String
  pub timestamp : ℕ
  pub kind : String
  pub text_body : String
  pub phone_number_id : String
  pub media_id : String
  pub media_mime : String
  pub media_filename : String
  pub media_duration_ms : ℕ
  pub caption : String

-- 2020-01-01, in seconds; an earlier time is not believed.
abbrev pub year_2020 : ℕ
year_2020 = 1577836800

abbrev pub received_at : ℕ → InboundMessage → ℕ
received_at now m = if ltb m.timestamp year_2020 then now else m.timestamp * second

-- What is stored of a message: its text or label, and its media.
pub record Content : Type 0 where
  pub body : String
  pub media_kind : String
  pub media_mime : String
  pub media_bytes : Option Bytes

abbrev pub downloaded_again :
    InboxOutside → Credentials → String → Option Error → Result (Bytes × String)
downloaded_again o creds media_id (some e) = err e
downloaded_again o creds media_id none = o.download creds media_id 1

abbrev pub downloaded_once :
    InboxOutside → Credentials → String → Result (Bytes × String) → Result (Bytes × String)
downloaded_once o creds media_id (ok m) = ok m
downloaded_once o creds media_id (err e) = downloaded_again o creds media_id o.interrupted

-- Two attempts at most, the second only where the wait between them is not interrupted.
unfoldable pub download_inbound_media :
    InboxOutside → (shop : ℕ) → (media_id : String) → Inbox → Result (Bytes × String)
download_inbound_media o shop media_id x = inbox_credentials o shop x >>= λ creds.
    downloaded_once o creds media_id (o.download creds media_id 0)

abbrev pub number_of : Result Credentials → String
number_of (ok c) = c.phone_number_id
number_of (err e) = ""

abbrev pub media_receipt :
    InboxOutside → (kind : String) → (shop : ℕ) → InboundMessage → Inbox → WebhookReceipt
media_receipt o kind shop m x = record {
  received_at = o.now;
  kind = kind;
  meta_message_id = m.meta_message_id;
  from_phone = m.from;
  phone_number_id = number_of (inbox_credentials o shop x);
  shop_id = shop;
}

abbrev pub is_image : InboundMessage → Bool
is_image m = m.kind == "image"

abbrev pub is_media : InboundMessage → Bool
is_media m = m.kind == "audio" || (m.kind == "voice" || is_image m)

abbrev pub image_label : String
image_label = "🖼\u{fe0f} Image"

abbrev pub voice_label : String
voice_label = "🎤 Voice message"

-- The label of a media message, before its bytes.
abbrev pub label_of : InboundMessage → Content
label_of m =
    if is_image m
    then record {
      body = if m.caption == "" then image_label else m.caption;
      media_kind = "image";
      media_mime = m.media_mime;
      media_bytes = none;
    }
    else record { body = voice_label; media_kind = "audio"; media_mime = ""; media_bytes = none }

abbrev pub with_media :
    InboxOutside → (shop : ℕ) → InboundMessage → Result (Bytes × String) → Inbox → Inbox × Content
with_media o shop m (err e) x =
    (record_webhook_receipt o (media_receipt o "media_download_failed" shop m x) x, label_of m)
with_media o shop m (ok (bytes, mime)) x =
    (x, record (label_of m) { media_bytes = some bytes; media_mime = mime })

abbrev pub text_content : InboundMessage → Content
text_content m = record {
  body =
      if m.kind != "" && (m.kind != "text" && m.text_body == "")
      then join_texts ("[" ∷ m.kind ∷ "]" ∷ [])
      else m.text_body;
  media_kind = "";
  media_mime = "";
  media_bytes = none;
}

unfoldable pub content_of : InboxOutside → (shop : ℕ) → InboundMessage → Inbox → Inbox × Content
content_of o shop m x =
    let unlabelled : Inbox × Content =
      (record_webhook_receipt o (media_receipt o "media_missing_id" shop m x) x, label_of m) in
    let fetched = with_media o shop m (download_inbound_media o shop m.media_id x) x in
    if is_media m then (if m.media_id == "" then unlabelled else fetched) else (x, text_content m)
