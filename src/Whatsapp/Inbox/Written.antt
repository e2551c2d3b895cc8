-- ===== src/Whatsapp/Inbox/Written.antt =====
-- The handling of an inbound message in internal/whatsapp/chat.go, and what it keeps of the
-- conversations.
use beleevo_whatsapp.Prelude.{
  string_eq, nat_eq, ◌==◌, Bool-cases, find?, any, Error, Result, ok, err, ℕ, String, refl, inl,
  inr, ◌||◌, Option, none, some, List,
}
use beleevo_whatsapp.Whatsapp.Inbox.{
  Bytes, Conversation, ChatMessage, WebhookReceipt, Inbox, InboxOutside, first_failure, add_receipt,
  record_webhook_receipt,
}
use beleevo_whatsapp.Whatsapp.Inbox.Content.{
  InboundMessage, Content, download_inbound_media, media_receipt, is_media, with_media, content_of,
}
use beleevo_whatsapp.Whatsapp.Inbox.Inbound.{
  InboundResult, is_inbound, is_thread, opened, continued, conversation_saved, upsert_conversation,
  inbound_row, insert_chat, committed, save_chat, save_conversation, in_transaction, unless_seen,
  upsert_inbound,
}
use beleevo_whatsapp.Whatsapp.Inbox.Kept.{KeptByUpdate, KeptByInsert}

module _ (P : List Conversation → Type 0) (updated : KeptByUpdate P)
    (inserted : KeptByInsert P) where
  -- The table that a statement leaves, where it succeeds.
  abbrev Leaves : Result (List Conversation × InboundResult) → Type 0
  Leaves (ok saved) = P saved.0
  Leaves (err e) = Unit

  upsert_conversation-kept :
      (o : InboxOutside) (shop : ℕ) (m : InboundMessage) (k : Content) (rows : List Conversation)
      → P rows
      → Leaves (upsert_conversation o shop m k rows)
  unfolding upsert_conversation
  upsert_conversation-kept o shop m k rows h = saved (find? (is_thread shop m.from) rows)
    where
      saved : (c : Option Conversation) → Leaves (conversation_saved o shop m k rows c)
      saved (some c) =
          updated (is_thread shop m.from) (continued o m k) rows
            (record { id = λ c. refl; shop = λ c. refl; phone = λ c. refl; claim = λ c e. e }) h
      saved none =
          elim (Bool-cases (any (λ (c : Conversation). c.id == o.fresh_conversation) rows)) [
            | inl clash ↦ rw clash tt
            | inr free ↦ rw free (inserted (opened o shop m k) rows free h)
          ]

  save_chat-kept :
      (o : InboxOutside) (m : InboundMessage) (k : Content) (x : Inbox)
      (saved : List Conversation × InboundResult) (chats : Result (List ChatMessage))
      → P x.conversations
      → P saved.0
      → P (save_chat o m k x saved chats).0.conversations
  save_chat-kept o m k x saved (err e) h h' = h
  save_chat-kept o m k x saved (ok chats) h h' = ended o.commit_failure
    where
      ended : (e : Option Error) → P (committed x saved chats e).0.conversations
      ended none = h'
      ended (some e) = h

  save_conversation-kept :
      (o : InboxOutside) (m : InboundMessage) (k : Content) (x : Inbox)
      (r : Result (List Conversation × InboundResult))
      → P x.conversations
      → Leaves r
      → P (save_conversation o m k x r).0.conversations
  save_conversation-kept o m k x (err e) h h' = h
  save_conversation-kept o m k x (ok saved) h h' =
      save_chat-kept o m k x saved
        (insert_chat o.chat_failure (inbound_row o saved.1.conversation_id m k) x.chats) h h'

  in_transaction-kept :
      (o : InboxOutside) (shop : ℕ) (m : InboundMessage) (e : Option Error) (y : Inbox × Content)
      → P y.0.conversations
      → P (in_transaction o shop m e y).0.conversations
  in_transaction-kept o shop m (some e) (x, k) h = h
  in_transaction-kept o shop m none (x, k) h =
      save_conversation-kept o m k x (upsert_conversation o shop m k x.conversations) h
        (upsert_conversation-kept o shop m k x.conversations h)

  record_webhook_receipt-kept :
      (o : InboxOutside) (r : WebhookReceipt) (x : Inbox)
      → P x.conversations
      → P (record_webhook_receipt o r x).conversations
  unfolding record_webhook_receipt
  record_webhook_receipt-kept o r x h = added o.receipt_failure
    where
      added : (e : Option Error) → P (add_receipt o e r x).conversations
      added none = h
      added (some e) = h

  with_media-kept :
      (o : InboxOutside) (shop : ℕ) (m : InboundMessage) (r : Result (Bytes × String)) (x : Inbox)
      → P x.conversations
      → P (with_media o shop m r x).0.conversations
  with_media-kept o shop m (ok k) x h = h
  with_media-kept o shop m (err e) x h =
      record_webhook_receipt-kept o (media_receipt o "media_download_failed" shop m x) x h

  pub content_of-kept :
      (o : InboxOutside) (shop : ℕ) (m : InboundMessage) (x : Inbox)
      → P x.conversations
      → P (content_of o shop m x).0.conversations
  unfolding content_of
  content_of-kept o shop m x h = elim (Bool-cases (is_media m)) [
    | inl media ↦ elim (Bool-cases (m.media_id == "")) [
      | inl missing ↦
          rw (media, missing)
            (record_webhook_receipt-kept o (media_receipt o "media_missing_id" shop m x) x h)
      | inr given ↦
          rw (media, given)
            (with_media-kept o shop m (download_inbound_media o shop m.media_id x) x h)
    ]
    | inr text ↦ rw text h
  ]

  unless_seen-kept :
      (o : InboxOutside) (shop : ℕ) (m : InboundMessage) (e : Option Error) (x : Inbox)
      → P x.conversations
      → P (unless_seen o shop m e x).0.conversations
  unless_seen-kept o shop m (some e) x h = h
  unless_seen-kept o shop m none x h =
      elim (Bool-cases (any (is_inbound m.meta_message_id) (o.read_chats x.chats))) [
        | inl seen ↦ rw seen h
        | inr new ↦ rw new (
            in_transaction-kept o shop m (first_failure o.begin_failure o.conversation_failure)
              (content_of o shop m x) (content_of-kept o shop m x h))
      ]

  pub upsert_inbound-kept :
      (o : InboxOutside) (shop : ℕ) (m : InboundMessage) (x : Inbox)
      → P x.conversations
      → P (upsert_inbound o shop m x).0.conversations
  unfolding upsert_inbound
  upsert_inbound-kept o shop m x h = elim (Bool-cases (m.from == "" || m.meta_message_id == "")) [
    | inl blank ↦ rw blank h
    | inr given ↦ rw given (unless_seen-kept o shop m o.exists_failure x h)
  ]
