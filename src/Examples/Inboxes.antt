-- ===== src/Examples/Inboxes.antt =====
-- Concrete runs of the inbox: a customer's first message, its greeting, and the replies to it.
use beleevo_whatsapp.Prelude.{
  itoa, message, is_no_rows, Result, ok, err, String, ◌≡◌, refl, ◌⊎◌, true, false, none, [], ◌∷◌,
}
use beleevo_whatsapp.Whatsapp.Placeholders.{trim_space}
use beleevo_whatsapp.Whatsapp.Inbox.{
  FirstContactAutoreply, send_text, Inbox, FirstContactReplyJob, InboxOutside,
}
use beleevo_whatsapp.Whatsapp.Inbox.Content.{InboundMessage, content_of}
use beleevo_whatsapp.Whatsapp.Inbox.Inbound.{
  no_result, upsert_conversation, insert_chat, upsert_inbound,
}
use beleevo_whatsapp.Whatsapp.Inbox.Media.{send_audio_reply, send_image_reply}
use beleevo_whatsapp.Whatsapp.Inbox.Replies.{thread, reply_gate, send_reply}
use beleevo_whatsapp.Whatsapp.Inbox.Autoreply.{
  get_first_contact_autoreply, first_contact_autoreply_media, autoreply_configured,
}
use beleevo_whatsapp.Whatsapp.Inbox.Greetings.{greet, send_first_contact_reply_job}
use beleevo_whatsapp.Whatsapp.Inbox.Reached.{Reached, replies-Reached}
use beleevo_whatsapp.Whatsapp.Inbox.Life.{Run}
use beleevo_whatsapp.Whatsapp.Inbox.Once.{greeted_once}
use beleevo_whatsapp.Whatsapp.Inbox.Redelivery.{redelivery_ignored}
use beleevo_whatsapp.Whatsapp.Inbox.Contacts.{first_contact_once}
use beleevo_whatsapp.Examples.Fixtures.{directory}
use beleevo_whatsapp.Whatsapp.Directory.{credentials}

abbrev greeting : FirstContactAutoreply
greeting = record {
  shop_id = 1;
  enabled = true;
  kind = "text";
  text_body = "Welcome";
  caption = "";
  media_mime = "";
  media_bytes = none;
  media_duration_ms = 0;
  media_filename = "";
}

abbrev inbox : Inbox
inbox = record {
  conversations = [];
  chats = [];
  autoreplies = greeting ∷ [];
  receipts = [];
  jobs = [];
  directory = directory;
  rate = none;
  calls = [];
}

abbrev hello : InboundMessage
hello = record {
  meta_message_id = "wamid.9";
  from = "21620000000";
  profile_name = "Amel";
  timestamp = 1600000000;
  kind = "text";
  text_body = "Hello";
  phone_number_id = "77";
  media_id = "";
  media_mime = "";
  media_filename = "";
  media_duration_ms = 0;
  caption = "";
}

abbrev quiet : InboxOutside
quiet = record {
  now = 1600000001000000000;
  fresh_conversation = 21;
  fresh_chat = 31;
  fresh_job = 41;
  show = λ e. "failed";
  show_id = itoa;
  encode = λ j. ok "{}";
  decrypt = λ s. ok "token";
  meta = λ c. ok "wamid.10";
  download = λ creds id attempt. err (message "no media");
  interrupted = none;
  probe_audio_codec = λ b. ok "aac";
  remux_opus_mp4_to_ogg = λ b. ok b;
  read_conversations = λ rows. rows;
  read_chats = λ rows. rows;
  integration_failure = none;
  rate_failure = none;
  prune_failure = none;
  exists_failure = none;
  begin_failure = none;
  conversation_failure = none;
  chat_failure = none;
  commit_failure = none;
  receipt_failure = none;
  receipt_purge_failure = none;
  thread_failure = none;
  thread_rows_failure = none;
  queued_failure = none;
  failed_failure = none;
  sent_failure = none;
  touch_failure = none;
  remuxed_failure = none;
  config_failure = none;
  config_media_failure = none;
  claim_failure = none;
  enqueue_failure = none;
}

abbrev later : InboxOutside
later = record quiet { fresh_chat = 32 }

abbrev greeted : FirstContactReplyJob
greeted = record { shop_id = 1; conversation_id = 21 }

abbrev decode_greeting : String → Result FirstContactReplyJob
decode_greeting s = ok greeted

abbrev after_hello : Inbox
after_hello = (upsert_inbound quiet 1 hello inbox).0

-- The greeting goes out: one message to the customer.
greeted_customer :
    (send_first_contact_reply_job decode_greeting later "{}" after_hello).0.calls
    ≡ send_text
        (record {
          access_token = "token";
          phone_number_id = "77";
          messaging_account_id = "";
          phone_number = "21670000000";
        })
        "21620000000"
        "Welcome"
      ∷ []
unfolding send_first_contact_reply_job get_first_contact_autoreply autoreply_configured
    first_contact_autoreply_media greet send_reply reply_gate thread credentials insert_chat
    upsert_inbound content_of upsert_conversation trim_space is_no_rows
greeted_customer = refl

greeted_once_example :
    let x = (send_first_contact_reply_job decode_greeting later "{}" after_hello).0 in
    (x ≡ after_hello) ⊎ ((send_first_contact_reply_job decode_greeting quiet "{}" x).0 ≡ x)
greeted_once_example =
    greeted_once decode_greeting decode_greeting later quiet "{}" "{}" greeted after_hello
      (send_first_contact_reply_job decode_greeting later "{}" after_hello).0 refl refl Run.start

replies-Reached_example :
    Reached later 21 after_hello (send_reply later 21 "Thank you" after_hello).0
    × Reached later 21 after_hello
        (send_audio_reply later 21 "audio/ogg" "v.ogg" (1 ∷ []) 900 after_hello).0
    × Reached later 21 after_hello
        (send_image_reply later 21 "audio/ogg" "v.ogg" (1 ∷ []) "" after_hello).0
replies-Reached_example =
    replies-Reached later 21 "Thank you" "audio/ogg" "v.ogg" "" (1 ∷ []) 900 after_hello

abbrev second_hello : InboundMessage
second_hello = record hello { meta_message_id = "wamid.11" }

first_contact_once_example : (true ≡ false) ⊎ (false ≡ false)
unfolding upsert_inbound content_of upsert_conversation insert_chat
first_contact_once_example =
    first_contact_once quiet later 1 hello second_hello inbox after_hello
      (record { conversation_id = 21; first_contact = true })
      (record { conversation_id = 21; first_contact = false }) refl refl Run.start refl

redelivery_ignored_example : upsert_inbound later 1 hello after_hello ≡ (after_hello, ok no_result)
unfolding upsert_inbound content_of upsert_conversation insert_chat
redelivery_ignored_example =
    redelivery_ignored quiet later 1 1 hello inbox
      (record { conversation_id = 21; first_contact = true }) refl refl refl refl
