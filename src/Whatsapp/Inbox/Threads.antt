-- ===== src/Whatsapp/Inbox/Threads.antt =====
-- The other statements of internal/whatsapp/chat.go on a thread: the unread counter, the media and
-- their retention, and the delivery statuses of replies.
use beleevo_whatsapp.Prelude.{
  ltb, string_eq, nat_eq, ◌==◌, not, ◌!=◌, if◌then◌else◌, find?, update, count, is_none, Error,
  is_no_rows, Result, ok, err, query_row, exec, ℕ, String, Bool, ◌&&◌, Option, none, some, List, [],
  ◌∷◌,
}
use beleevo_whatsapp.Whatsapp.Ledger.{should_advance_status, StatusUpdate}
use beleevo_whatsapp.Whatsapp.Inbox.{
  Bytes, Conversation, ChatMessage, Inbox, conversation_not_found,
}
use beleevo_whatsapp.Whatsapp.Inbox.Replies.{has_conversation_id}

abbrev pub read_by_operator : Conversation → Conversation
read_by_operator c = record c { unread_count = 0 }

unfoldable pub mark_thread_read : Option Error → (id : ℕ) → Inbox → Inbox × Option Error
mark_thread_read failure id x = (
  record x {
    conversations =
        exec failure x.conversations
          (update (has_conversation_id id) read_by_operator x.conversations);
  },
  failure,
)

abbrev pub media_of : Result ChatMessage → Result (Option Bytes × String)
media_of (ok c) = ok (c.media_bytes, c.media_mime)
media_of (err e) = if is_no_rows e then err conversation_not_found else err e

unfoldable pub media_for_message :
    Option Error → (conversation id : ℕ) → Inbox → Result (Option Bytes × String)
media_for_message failure conversation id x = media_of (
    query_row failure
      (find? (λ (c : ChatMessage). c.id == id && c.conversation_id == conversation) x.chats))

abbrev pub is_old_media : (older_than : ℕ) → ChatMessage → Bool
is_old_media older_than c =
    c.media_kind != "" && (not (is_none c.media_bytes) && ltb c.created_at older_than)

abbrev pub without_media : ChatMessage → ChatMessage
without_media c = record c {
  media_bytes = none;
  media_mime = "";
  media_duration_ms = 0;
  media_filename = "";
}

abbrev pub purged : Option Error → (older_than : ℕ) → Inbox → Inbox × Result ℕ
purged (some e) older_than x = (x, err e)
purged none older_than x = (
  record x { chats = update (is_old_media older_than) without_media x.chats },
  ok (count (is_old_media older_than) x.chats),
)

unfoldable pub purge_chat_media : Option Error → (older_than : ℕ) → Inbox → Inbox × Result ℕ
purge_chat_media failure older_than x = purged failure older_than x

abbrev pub is_outbound : String → ChatMessage → Bool
is_outbound meta_id c = c.meta_message_id == meta_id && c.direction == "outbound"

abbrev pub with_title : List (ℕ × String) → (status : String) → ChatMessage → ChatMessage
with_title [] status c = record c { status = status }
with_title (e ∷ es) status c =
    if status == "failed"
    then record c { status = "failed"; error_message = e.1 }
    else record c { status = status }

abbrev pub advance : Option Error → StatusUpdate → Inbox → Result ChatMessage → Inbox × Option Error
advance failure u x (err e) = if is_no_rows e then (x, none) else (x, some e)
advance failure u x (ok c) = if not (should_advance_status c.status u.status) then (x, none) else (
  record x {
    chats =
        exec failure x.chats
          (update (is_outbound u.meta_message_id) (with_title u.errors u.status) x.chats);
  },
  failure,
)

-- `lookup` and `failure` are the errors of the SELECT and of the UPDATE.
unfoldable pub update_chat_message_status :
    (lookup failure : Option Error) → StatusUpdate → Inbox → Inbox × Option Error
update_chat_message_status lookup failure u x =
    advance failure u x (query_row lookup (find? (is_outbound u.meta_message_id) x.chats))
