-- ===== src/Whatsapp/Inbox/Replies.antt =====
-- The operator's replies in internal/whatsapp/chat.go: the guards and the rows that every kind of
-- reply shares, and the reply in text.
use beleevo_whatsapp.Prelude.{
  ltb, string_eq, nat_eq, ◌==◌, not, if◌then◌else◌, find?, update, Error, message, is_no_rows,
  Result, ok, err, query_row, exec, ℕ, String, Bool, Option, none, some, List, [], ◌∷◌, ◌++◌,
}
use beleevo_whatsapp.Whatsapp.Placeholders.{trim_space}
use beleevo_whatsapp.Whatsapp.RateLimit.{RateLimiter, allow}
use beleevo_whatsapp.Whatsapp.Directory.{Credentials}
use beleevo_whatsapp.Whatsapp.Ledger.{coalesce}
use beleevo_whatsapp.Whatsapp.Inbox.{
  Bytes, Conversation, ChatMessage, ReplyCall, send_text, Inbox, InboxOutside, inbox_credentials,
  reply_window_closed, conversation_not_found,
}
use beleevo_whatsapp.Whatsapp.Inbox.Inbound.{insert_chat}

pub record ReplyResult : Type 0 where
  pub message_id : ℕ
  pub meta_message_id : String

abbrev pub has_conversation_id : ℕ → Conversation → Bool
has_conversation_id id c = c.id == id

abbrev pub thread_rows : Option Error → Conversation → Result Conversation
thread_rows none c = ok c
thread_rows (some e) c = err e

abbrev pub thread_found : InboxOutside → Result Conversation → Result Conversation
thread_found o (ok c) = thread_rows o.thread_rows_failure c
thread_found o (err e) = if is_no_rows e then err conversation_not_found else err e

-- `Thread`, as far as a reply uses it: the conversation; the query of its messages may fail too.
unfoldable pub thread : InboxOutside → ℕ → Inbox → Result Conversation
thread o id x = thread_found o (
    query_row o.thread_failure
      (find? (has_conversation_id id) (o.read_conversations x.conversations)))

abbrev pub is_window_open : (now : ℕ) → Conversation → Bool
is_window_open now c = ltb now c.window_expires_at

abbrev pub allowed :
    Inbox
    → Conversation
    → Credentials
    → RateLimiter × Option Error
    → Inbox × Result (Conversation × Credentials)
allowed x c creds (l, some e) = (record x { rate = some l }, err e)
allowed x c creds (l, none) = (record x { rate = some l }, ok (c, creds))

abbrev pub rated :
    InboxOutside
    → Inbox
    → Conversation
    → Credentials
    → Option RateLimiter
    → Inbox × Result (Conversation × Credentials)
rated o x c creds none = (x, ok (c, creds))
rated o x c creds (some l) =
    allowed x c creds (allow o.show_id o.rate_failure o.prune_failure o.now c.shop_id l)

abbrev pub connected :
    InboxOutside
    → Inbox
    → Conversation
    → Result Credentials
    → Inbox × Result (Conversation × Credentials)
connected o x c (err e) = (x, err e)
connected o x c (ok creds) = rated o x c creds x.rate

abbrev pub in_window :
    InboxOutside → Inbox → Result Conversation → Inbox × Result (Conversation × Credentials)
in_window o x (err e) = (x, err e)
in_window o x (ok c) =
    let next = connected o x c (inbox_credentials o c.shop_id x) in
    if not (is_window_open o.now c) then (x, err reply_window_closed) else next

-- The guards that every reply passes: the thread, its window, the connection of its shop, the limiter.
unfoldable pub reply_gate : InboxOutside → ℕ → Inbox → Inbox × Result (Conversation × Credentials)
reply_gate o id x = in_window o x (thread o id x)

-- The content of an outbound row.
pub record Reply : Type 0 where
  pub body : String
  pub media_kind : String
  pub media_mime : String
  pub media_bytes : Option Bytes
  pub media_duration_ms : ℕ
  pub media_filename : String

abbrev pub queued_reply : InboxOutside → (conversation : ℕ) → Reply → ChatMessage
queued_reply o conversation r = record {
  id = o.fresh_chat;
  conversation_id = conversation;
  direction = "outbound";
  body = r.body;
  meta_message_id = "";
  status = "queued";
  error_message = "";
  media_kind = r.media_kind;
  media_mime = r.media_mime;
  media_bytes = r.media_bytes;
  media_duration_ms = r.media_duration_ms;
  media_filename = r.media_filename;
  sent_at = none;
  created_at = o.now;
}

abbrev pub is_chat : ℕ → ChatMessage → Bool
is_chat id c = c.id == id

abbrev pub reply_failed : String → ChatMessage → ChatMessage
reply_failed text c = record c { status = "failed"; error_message = text }

abbrev pub fail_reply : InboxOutside → Error → Inbox → Inbox × Result ReplyResult
fail_reply o e x = (
  record x {
    chats =
        exec o.failed_failure x.chats
          (update (is_chat o.fresh_chat) (reply_failed (o.show e)) x.chats);
  },
  err e,
)

abbrev pub reply_sent : (now : ℕ) (meta_id : String) → ChatMessage → ChatMessage
reply_sent now meta_id c = record c {
  status = "sent";
  meta_message_id = meta_id;
  sent_at = coalesce c.sent_at now;
}

abbrev pub replied : (now : ℕ) (body : String) → Conversation → Conversation
replied now body c = record c {
  last_message_direction = "outbound";
  last_message_body = body;
  last_message_at = now;
}

abbrev pub touched : InboxOutside → Option Error → (meta_id : String) → Result ReplyResult
touched o none meta_id = ok (record { message_id = o.fresh_chat; meta_message_id = meta_id })
touched o (some e) meta_id = err e

-- What follows Meta's answer to a message: a failure to mark it sent is only logged.
abbrev pub finish_reply :
    InboxOutside
    → (conversation : ℕ) → (body : String) → Result String
    → Inbox
    → Inbox × Result ReplyResult
finish_reply o conversation body (err e) x = fail_reply o e x
finish_reply o conversation body (ok meta_id) x = (
  record x {
    chats =
        exec o.sent_failure x.chats
          (update (is_chat o.fresh_chat) (reply_sent o.now meta_id) x.chats);
    conversations =
        exec o.touch_failure x.conversations
          (update (has_conversation_id conversation) (replied o.now body) x.conversations);
  },
  touched o o.touch_failure meta_id,
)

abbrev pub log_call : ReplyCall → Inbox → Inbox
log_call call x = record x { calls = x.calls ++ call ∷ [] }

-- One message to the customer.
abbrev pub message_customer :
    InboxOutside
    → (conversation : ℕ) → (body : String) → ReplyCall
    → Inbox
    → Inbox × Result ReplyResult
message_customer o conversation body call x =
    finish_reply o conversation body (o.meta call) (log_call call x)

-- What a kind of reply does once its row is stored.
abbrev pub Delivery : Type 0
Delivery = Conversation → Credentials → Inbox → Inbox × Result ReplyResult

abbrev pub stored_reply :
    Delivery
    → Conversation
    → Credentials
    → Inbox
    → Result (List ChatMessage)
    → Inbox × Result ReplyResult
stored_reply deliver c creds x (err e) = (x, err e)
stored_reply deliver c creds x (ok chats) = deliver c creds (record x { chats = chats })

abbrev pub gated_reply :
    InboxOutside
    → (id : ℕ) → Reply
    → Delivery
    → Inbox × Result (Conversation × Credentials)
    → Inbox × Result ReplyResult
gated_reply o id r deliver (x, err e) = (x, err e)
gated_reply o id r deliver (x, ok (c, creds)) =
    stored_reply deliver c creds x (insert_chat o.queued_failure (queued_reply o id r) x.chats)

abbrev pub deliver_text : InboxOutside → (id : ℕ) → (text : String) → Delivery
deliver_text o id text c creds x =
    message_customer o id text (send_text creds c.customer_phone text) x

abbrev pub text_reply : String → Reply
text_reply text = record {
  body = text;
  media_kind = "";
  media_mime = "";
  media_bytes = none;
  media_duration_ms = 0;
  media_filename = "";
}

unfoldable pub send_reply :
    InboxOutside → (id : ℕ) → (text : String) → Inbox → Inbox × Result ReplyResult
send_reply o id text x =
    let trimmed = trim_space text in
    let sent =
      gated_reply o id (text_reply trimmed) (deliver_text o id trimmed) (reply_gate o id x) in
    if trimmed == "" then (x, err (message "empty reply")) else sent
