-- ===== src/Whatsapp/Inbox.antt =====
-- The customer inbox of internal/whatsapp/chat.go: its tables, what a run of it meets, and the small
-- functions that the other parts share. Media are lists of bytes.
pub mod Content
pub mod Inbound
pub mod Replies
pub mod Media
pub mod Threads
pub mod Autoreply
pub mod Greetings
pub mod Reached
pub mod Kept
pub mod Written
pub mod Greeted
pub mod Life
pub mod Once
pub mod Contacts
pub mod Redelivery
use beleevo_whatsapp.Prelude.{
  ltb, string_eq, nat_eq, ◌==◌, not, ◌!=◌, if◌then◌else◌, length, filter, Error, message, wrapped,
  Result, ok, err, exec, ℕ, ◌+◌, ◌*◌, String, Bool, ◌||◌, Option, none, some, List, [], ◌∷◌, ◌++◌,
}
use beleevo_whatsapp.Queue.{minute, Row}
use beleevo_whatsapp.Whatsapp.Placeholders.{trim_space}
use beleevo_whatsapp.Whatsapp.RateLimit.{RateLimiter}
use beleevo_whatsapp.Whatsapp.Directory.{Directory, Credentials, credentials}
use beleevo_whatsapp.Whatsapp.Templates.{starts_lower}

abbrev pub Bytes : Type 0
Bytes = List ℕ

abbrev pub customer_service_window : ℕ
customer_service_window = 24 * (60 * minute)

pub record Conversation : Type 0 where
  pub id : ℕ
  pub shop_id : ℕ
  pub customer_phone : String
  pub customer_name : String
  pub last_message_direction : String
  pub last_message_body : String
  pub last_message_at : ℕ
  pub unread_count : ℕ
  pub window_expires_at : ℕ
  pub first_contact_autoreplied_at : Option ℕ

-- A row of `chat_messages`.
pub record ChatMessage : Type 0 where
  pub id : ℕ
  pub conversation_id : ℕ
  pub direction : String
  pub body : String
  pub meta_message_id : String
  pub status : String
  pub error_message : String
  pub media_kind : String
  pub media_mime : String
  pub media_bytes : Option Bytes
  pub media_duration_ms : ℕ
  pub media_filename : String
  pub sent_at : Option ℕ
  pub created_at : ℕ

-- A row of `webhook_receipts`, without its text for the reader of the trail.
pub record WebhookReceipt : Type 0 where
  pub received_at : ℕ
  pub kind : String
  pub meta_message_id : String
  pub from_phone : String
  pub phone_number_id : String
  pub shop_id : ℕ

pub record FirstContactAutoreply : Type 0 where
  pub shop_id : ℕ
  pub enabled : Bool
  pub kind : String
  pub text_body : String
  pub caption : String
  pub media_mime : String
  pub media_bytes : Option Bytes
  pub media_duration_ms : ℕ
  pub media_filename : String

-- What is asked of Meta for a reply.
pub data ReplyCall : Type 0 where
  send_text : Credentials → (to text : String) → ReplyCall
  upload_media : Credentials → (mime : String) → Bytes → (filename : String) → ReplyCall
  send_audio : Credentials → (to media_id : String) → (voice : Bool) → ReplyCall
  send_image : Credentials → (to media_id caption : String) → ReplyCall

pub record Inbox : Type 0 where
  pub conversations : List Conversation
  pub chats : List ChatMessage
  pub autoreplies : List FirstContactAutoreply
  pub receipts : List WebhookReceipt
  pub jobs : List Row
  pub directory : Directory
  pub rate : Option RateLimiter
  pub calls : List ReplyCall

pub record FirstContactReplyJob : Type 0 where
  pub shop_id : ℕ
  pub conversation_id : ℕ

-- What a run meets: the clock, generated ids, Meta's answers, the two attempts at a download, the audio
-- tools, the failures of the statements, and the tables as a SELECT reads them, which others may change
-- before the next statement.
pub record InboxOutside : Type 0 where
  pub now : ℕ
  pub fresh_conversation : ℕ
  pub fresh_chat : ℕ
  pub fresh_job : ℕ
  pub show : Error → String
  pub show_id : ℕ → String
  pub encode : FirstContactReplyJob → Result String
  pub decrypt : String → Result String
  pub meta : ReplyCall → Result String
  pub download : Credentials → (media_id : String) → (attempt : ℕ) → Result (Bytes × String)
  pub interrupted : Option Error
  pub probe_audio_codec : Bytes → Result String
  pub remux_opus_mp4_to_ogg : Bytes → Result Bytes
  pub read_conversations : List Conversation → List Conversation
  pub read_chats : List ChatMessage → List ChatMessage
  pub integration_failure : Option Error
  pub rate_failure : Option Error
  pub prune_failure : Option Error
  pub exists_failure : Option Error
  pub begin_failure : Option Error
  pub conversation_failure : Option Error
  pub chat_failure : Option Error
  pub commit_failure : Option Error
  pub receipt_failure : Option Error
  pub receipt_purge_failure : Option Error
  pub thread_failure : Option Error
  pub thread_rows_failure : Option Error
  pub queued_failure : Option Error
  pub failed_failure : Option Error
  pub sent_failure : Option Error
  pub touch_failure : Option Error
  pub remuxed_failure : Option Error
  pub config_failure : Option Error
  pub config_media_failure : Option Error
  pub claim_failure : Option Error
  pub enqueue_failure : Option Error

abbrev pub inbox_credentials : InboxOutside → ℕ → Inbox → Result Credentials
inbox_credentials o shop x = credentials o.decrypt o.integration_failure shop x.directory

-- `first_failure` is the error of the first statement that fails.
abbrev pub first_failure : Option Error → Option Error → Option Error
first_failure none e = e
first_failure (some e) _ = some e

abbrev pub reply_window_closed : Error
reply_window_closed =
    message
      "customer service window closed; free-form replies are only available for 24h after the customer's last message"

abbrev pub conversation_not_found : Error
conversation_not_found = message "conversation not found"

abbrev pub retention : ℕ
retention = 30 * (24 * (60 * minute))

abbrev pub is_recent : ℕ → WebhookReceipt → Bool
is_recent now r = not (ltb (r.received_at + retention) now)

-- A receipt is added and the old ones age out; a failure of either is only logged.
abbrev pub add_receipt : InboxOutside → Option Error → WebhookReceipt → Inbox → Inbox
add_receipt o (some e) r x = x
add_receipt o none r x = record x {
  receipts =
      exec o.receipt_purge_failure (x.receipts ++ r ∷ [])
        (filter (is_recent o.now) (x.receipts ++ r ∷ []));
}

unfoldable pub record_webhook_receipt : InboxOutside → WebhookReceipt → Inbox → Inbox
record_webhook_receipt o r x = add_receipt o o.receipt_failure r x

-- strings.HasPrefix of the text in lower case, for the two names of the source.
unfoldable pub is_voice_note : String → Bool
unfolding starts_lower
is_voice_note mime = starts_lower "audio/ogg" (trim_space mime)

abbrev pub is_opus : String → Bool
is_opus codec = starts_lower "opus" codec

unfoldable pub audio_ext_for_mime : String → String
audio_ext_for_mime mime =
    if mime == "audio/ogg"
    then "ogg"
    else if mime == "audio/mp4"
    then "m4a"
    else if mime == "audio/mpeg"
    then "mp3"
    else if mime == "audio/aac"
    then "aac"
    else if mime == "audio/amr"
    then "amr"
    else ""

abbrev pub with_ogg : Result Bytes → Result (String × Bytes)
with_ogg (ok out) = ok ("audio/ogg", out)
with_ogg (err e) =
    err (wrapped "microphone recording is OPUS-in-MP4 and remuxing it failed (ffmpeg needed)" e)

abbrev pub normalize_probed :
    InboxOutside → (mime : String) → Bytes → Result String → Result (String × Bytes)
normalize_probed o mime bytes (err e) = ok (mime, bytes)
normalize_probed o mime bytes (ok codec) =
    if codec == "" || not (is_opus codec)
    then ok (mime, bytes)
    else with_ogg (o.remux_opus_mp4_to_ogg bytes)

unfoldable pub normalize_audio : InboxOutside → (mime : String) → Bytes → Result (String × Bytes)
unfolding starts_lower
normalize_audio o mime bytes =
    if mime != "audio/mp4" || length bytes == 0
    then ok (mime, bytes)
    else normalize_probed o mime bytes (o.probe_audio_codec bytes)
