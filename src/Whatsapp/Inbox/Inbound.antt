-- ===== src/Whatsapp/Inbox/Inbound.antt =====
-- `UpsertInbound` of internal/whatsapp/chat.go: a customer's message on the conversation that it opens
-- or goes on with.
use beleevo_whatsapp.Prelude.{
  string_eq, nat_eq, ◌==◌, ◌!=◌, if◌then◌else◌, find?, any, update, Error, infrastructure, Result,
  ok, err, ℕ, ◌+◌, String, Bool, true, false, ◌&&◌, ◌||◌, Option, none, some, List, [], ◌∷◌, ◌++◌,
}
use beleevo_whatsapp.Whatsapp.Inbox.{
  customer_service_window, Conversation, ChatMessage, Inbox, InboxOutside, first_failure,
}
use beleevo_whatsapp.Whatsapp.Inbox.Content.{InboundMessage, received_at, Content, content_of}

pub record InboundResult : Type 0 where
  pub conversation_id : ℕ
  pub first_contact : Bool

abbrev pub no_result : InboundResult
no_result = record { conversation_id = 0; first_contact = false }

abbrev pub is_inbound : String → ChatMessage → Bool
is_inbound meta_id c = c.meta_message_id == meta_id && c.direction == "inbound"

-- The unique key of a conversation.
abbrev pub is_thread : (shop : ℕ) → (phone : String) → Conversation → Bool
is_thread shop phone c = c.shop_id == shop && c.customer_phone == phone

abbrev pub opened : InboxOutside → (shop : ℕ) → InboundMessage → Content → Conversation
opened o shop m k = record {
  id = o.fresh_conversation;
  shop_id = shop;
  customer_phone = m.from;
  customer_name = m.profile_name;
  last_message_direction = "inbound";
  last_message_body = k.body;
  last_message_at = received_at o.now m;
  unread_count = 1;
  window_expires_at = received_at o.now m + customer_service_window;
  first_contact_autoreplied_at = none;
}

abbrev pub continued : InboxOutside → InboundMessage → Content → Conversation → Conversation
continued o m k c = record c {
  customer_name = if m.profile_name != "" then m.profile_name else c.customer_name;
  last_message_direction = "inbound";
  last_message_body = k.body;
  last_message_at = received_at o.now m;
  unread_count = c.unread_count + 1;
  window_expires_at = received_at o.now m + customer_service_window;
}

abbrev pub duplicate_key : Error
duplicate_key = infrastructure "duplicate key value violates unique constraint"

abbrev pub conversation_saved :
    InboxOutside
    → (shop : ℕ) → InboundMessage
    → Content
    → List Conversation
    → Option Conversation
    → Result (List Conversation × InboundResult)
conversation_saved o shop m k rows (some c) = ok (
  update (is_thread shop m.from) (continued o m k) rows,
  record { conversation_id = c.id; first_contact = false },
)
conversation_saved o shop m k rows none =
    if any (λ (c : Conversation). c.id == o.fresh_conversation) rows
    then err duplicate_key
    else ok (
      rows ++ opened o shop m k ∷ [],
      record { conversation_id = o.fresh_conversation; first_contact = true },
    )

-- `INSERT … ON CONFLICT (shop_id, customer_phone) DO UPDATE … RETURNING id, xmax = 0`: the table after
-- it, the conversation's id, and whether the row is new.
unfoldable pub upsert_conversation :
    InboxOutside
    → (shop : ℕ) → InboundMessage
    → Content
    → List Conversation
    → Result (List Conversation × InboundResult)
upsert_conversation o shop m k rows =
    conversation_saved o shop m k rows (find? (is_thread shop m.from) rows)

abbrev pub inbound_row : InboxOutside → (conversation : ℕ) → InboundMessage → Content → ChatMessage
inbound_row o conversation m k = record {
  id = o.fresh_chat;
  conversation_id = conversation;
  direction = "inbound";
  body = k.body;
  meta_message_id = m.meta_message_id;
  status = "delivered";
  error_message = "";
  media_kind = k.media_kind;
  media_mime = k.media_mime;
  media_bytes = k.media_bytes;
  media_duration_ms = m.media_duration_ms;
  media_filename = m.media_filename;
  sent_at = some (received_at o.now m);
  created_at = received_at o.now m;
}

unfoldable pub insert_chat :
    Option Error → ChatMessage → List ChatMessage → Result (List ChatMessage)
insert_chat (some e) new rows = err e
insert_chat none new rows =
    if any (λ (c : ChatMessage). c.id == new.id) rows
    then err duplicate_key
    else ok (rows ++ new ∷ [])

abbrev pub committed :
    Inbox
    → List Conversation × InboundResult
    → List ChatMessage
    → Option Error
    → Inbox × Result InboundResult
committed x saved chats (some e) = (x, err e)
committed x saved chats none = (record x { conversations = saved.0; chats = chats }, ok saved.1)

abbrev pub save_chat :
    InboxOutside
    → InboundMessage
    → Content
    → Inbox
    → List Conversation × InboundResult
    → Result (List ChatMessage)
    → Inbox × Result InboundResult
save_chat o m k x saved (err e) = (x, err e)
save_chat o m k x saved (ok chats) = committed x saved chats o.commit_failure

abbrev pub save_conversation :
    InboxOutside
    → InboundMessage
    → Content
    → Inbox
    → Result (List Conversation × InboundResult)
    → Inbox × Result InboundResult
save_conversation o m k x (err e) = (x, err e)
save_conversation o m k x (ok saved) =
    save_chat o m k x saved
      (insert_chat o.chat_failure (inbound_row o saved.1.conversation_id m k) x.chats)

-- The transaction: what it does not commit is rolled back.
abbrev pub in_transaction :
    InboxOutside
    → (shop : ℕ) → InboundMessage
    → Option Error
    → Inbox × Content
    → Inbox × Result InboundResult
in_transaction o shop m (some e) (x, k) = (x, err e)
in_transaction o shop m none (x, k) =
    save_conversation o m k x (upsert_conversation o shop m k x.conversations)

abbrev pub unless_seen :
    InboxOutside → (shop : ℕ) → InboundMessage → Option Error → Inbox → Inbox × Result InboundResult
unless_seen o shop m (some e) x = (x, err e)
unless_seen o shop m none x =
    let taken =
      in_transaction o shop m (first_failure o.begin_failure o.conversation_failure)
        (content_of o shop m x) in
    if any (is_inbound m.meta_message_id) (o.read_chats x.chats) then (x, ok no_result) else taken

unfoldable pub upsert_inbound :
    InboxOutside → (shop : ℕ) → InboundMessage → Inbox → Inbox × Result InboundResult
upsert_inbound o shop m x =
    let taken = unless_seen o shop m o.exists_failure x in
    if m.from == "" || m.meta_message_id == "" then (x, ok no_result) else taken
