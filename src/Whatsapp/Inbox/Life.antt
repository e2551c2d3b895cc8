-- ===== src/Whatsapp/Inbox/Life.antt =====
-- The life of the inbox of internal/whatsapp: any sequence of inbound messages, replies, greeting jobs
-- and statements on its tables, and what it keeps of the conversations.
use beleevo_whatsapp.Prelude.{
  Bool-cases, find?, Error, is_no_rows, Result, ok, err, query_row, ℕ, String, refl, inl, inr,
  Option, none, some, List,
}
use beleevo_whatsapp.Queue.{Row}
use beleevo_whatsapp.Whatsapp.RateLimit.{RateLimiter}
use beleevo_whatsapp.Whatsapp.Directory.{Directory}
use beleevo_whatsapp.Whatsapp.Ledger.{should_advance_status, StatusUpdate}
use beleevo_whatsapp.Whatsapp.Inbox.{
  Bytes, Conversation, ChatMessage, WebhookReceipt, FirstContactAutoreply, Inbox,
  FirstContactReplyJob, InboxOutside,
}
use beleevo_whatsapp.Whatsapp.Inbox.Content.{InboundMessage}
use beleevo_whatsapp.Whatsapp.Inbox.Inbound.{upsert_inbound}
use beleevo_whatsapp.Whatsapp.Inbox.Media.{send_audio_reply, send_image_reply}
use beleevo_whatsapp.Whatsapp.Inbox.Replies.{has_conversation_id, send_reply}
use beleevo_whatsapp.Whatsapp.Inbox.Threads.{
  read_by_operator, mark_thread_read, purged, purge_chat_media, is_outbound, advance,
  update_chat_message_status,
}
use beleevo_whatsapp.Whatsapp.Inbox.Autoreply.{
  get_first_contact_autoreply, save_first_contact_autoreply,
}
use beleevo_whatsapp.Whatsapp.Inbox.Greetings.{
  schedule_first_contact_reply, send_first_contact_reply_job,
}
use beleevo_whatsapp.Whatsapp.Inbox.Kept.{
  KeptByUpdate, KeptByInsert, send_reply-kept, send_audio_reply-kept, send_image_reply-kept,
}
use beleevo_whatsapp.Whatsapp.Inbox.Written.{upsert_inbound-kept}
use beleevo_whatsapp.Whatsapp.Inbox.Greeted.{greet_decoded-kept, schedule_configured-kept}

-- The other parts of the program change the connections, the limiter, the jobs and the trail.
pub data Step : Inbox → Inbox → Type 0 where
  inbound :
      (o : InboxOutside) (shop : ℕ) (m : InboundMessage) (x : Inbox)
      → Step x (upsert_inbound o shop m x).0
  reply :
      (o : InboxOutside) (id : ℕ) (text : String) (x : Inbox) → Step x (send_reply o id text x).0
  audio :
      (o : InboxOutside) (id : ℕ) (mime filename : String) (bytes : Bytes) (duration_ms : ℕ)
      (x : Inbox)
      → Step x (send_audio_reply o id mime filename bytes duration_ms x).0
  image :
      (o : InboxOutside) (id : ℕ) (mime filename : String) (bytes : Bytes) (caption : String)
      (x : Inbox)
      → Step x (send_image_reply o id mime filename bytes caption x).0
  greeting :
      (decode : String → Result FirstContactReplyJob) (o : InboxOutside) (payload : String)
      (x : Inbox)
      → Step x (send_first_contact_reply_job decode o payload x).0
  schedule :
      (o : InboxOutside) (shop conversation : ℕ) (x : Inbox)
      → Step x (schedule_first_contact_reply o shop conversation x).0
  configure :
      (failure : Option Error) (cfg : FirstContactAutoreply) (x : Inbox)
      → Step x (save_first_contact_autoreply failure cfg x).0
  mark_read :
      (failure : Option Error) (id : ℕ) (x : Inbox) → Step x (mark_thread_read failure id x).0
  purge :
      (failure : Option Error) (older_than : ℕ) (x : Inbox)
      → Step x (purge_chat_media failure older_than x).0
  status :
      (lookup failure : Option Error) (u : StatusUpdate) (x : Inbox)
      → Step x (update_chat_message_status lookup failure u x).0
  elsewhere :
      (d : Directory) (l : Option RateLimiter) (jobs : List Row) (receipts : List WebhookReceipt)
      (x : Inbox)
      → Step x (record x { directory = d; rate = l; jobs = jobs; receipts = receipts })

pub data Run (x : Inbox) : Inbox → Type 0 where
  start : Run x x
  next : {y z : Inbox} → Run x y → Step y z → Run x z

module _ (P : List Conversation → Type 0) (updated : KeptByUpdate P)
    (inserted : KeptByInsert P) where
  advance-kept :
      (failure : Option Error) (u : StatusUpdate) (x : Inbox) (r : Result ChatMessage)
      → P x.conversations
      → P (advance failure u x r).0.conversations
  advance-kept failure u x (err e) h = elim (Bool-cases (is_no_rows e)) [
    | inl missing ↦ rw missing h
    | inr failed ↦ rw failed h
  ]
  advance-kept failure u x (ok c) h = elim (Bool-cases (should_advance_status c.status u.status)) [
    | inl forward ↦ rw forward h
    | inr back ↦ rw back h
  ]

  purged-kept :
      (failure : Option Error) (older_than : ℕ) (x : Inbox)
      → P x.conversations
      → P (purged failure older_than x).0.conversations
  purged-kept (some e) older_than x h = h
  purged-kept none older_than x h = h

  mark_thread_read-kept :
      (failure : Option Error) (id : ℕ) (x : Inbox)
      → P x.conversations
      → P (mark_thread_read failure id x).0.conversations
  unfolding mark_thread_read
  mark_thread_read-kept none id x h =
      updated (has_conversation_id id) read_by_operator x.conversations
        (record { id = λ c. refl; shop = λ c. refl; phone = λ c. refl; claim = λ c e. e }) h
  mark_thread_read-kept (some e) id x h = h

  Step-kept : {x y : Inbox} → Step x y → P x.conversations → P y.conversations
  unfolding send_first_contact_reply_job schedule_first_contact_reply save_first_contact_autoreply
      purge_chat_media update_chat_message_status
  Step-kept (inbound o shop m x) h = upsert_inbound-kept P updated inserted o shop m x h
  Step-kept (reply o id text x) h = send_reply-kept P updated inserted o id text x h
  Step-kept (audio o id mime filename bytes duration_ms x) h =
      send_audio_reply-kept P updated inserted o id mime filename bytes duration_ms x h
  Step-kept (image o id mime filename bytes caption x) h =
      send_image_reply-kept P updated inserted o id mime filename bytes caption x h
  Step-kept (greeting decode o payload x) h =
      greet_decoded-kept P updated inserted o (decode payload) x h
  Step-kept (schedule o shop conversation x) h =
      schedule_configured-kept P updated inserted o shop conversation x
        (get_first_contact_autoreply o shop x) h
  Step-kept (configure failure cfg x) h = h
  Step-kept (mark_read failure id x) h = mark_thread_read-kept failure id x h
  Step-kept (purge failure older_than x) h = purged-kept failure older_than x h
  Step-kept (status lookup failure u x) h =
      advance-kept failure u x (query_row lookup (find? (is_outbound u.meta_message_id) x.chats)) h
  Step-kept (elsewhere d l jobs receipts x) h = h

  pub Run-kept : {x y : Inbox} → P x.conversations → Run x y → P y.conversations
  Run-kept h start = h
  Run-kept h (next run step) = Step-kept step (Run-kept h run)
