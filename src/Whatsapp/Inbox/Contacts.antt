-- ===== src/Whatsapp/Inbox/Contacts.antt =====
-- First contacts in `UpsertInbound` of internal/whatsapp/chat.go.
use mathlib.Core.Path.{subst}
use beleevo_whatsapp.Prelude.{
  string_eq, nat_eq, ◌==◌, ==_refl, Bool-cases, find?, any, count-append, find-of_count, Error,
  Result, ok, err, ℕ, ◌≡◌, refl, ◌⊎◌, inl, inr, true, false, ◌||◌, Option, none, some, List, [],
  ◌∷◌, ◌++◌, arith,
}
use beleevo_whatsapp.Whatsapp.Inbox.{Conversation, ChatMessage, Inbox, InboxOutside, first_failure}
use beleevo_whatsapp.Whatsapp.Inbox.Content.{InboundMessage, Content, content_of}
use beleevo_whatsapp.Whatsapp.Inbox.Inbound.{
  InboundResult, no_result, is_inbound, is_thread, opened, conversation_saved, upsert_conversation,
  inbound_row, insert_chat, committed, save_chat, save_conversation, in_transaction, unless_seen,
  upsert_inbound,
}
use beleevo_whatsapp.Whatsapp.Inbox.Written.{content_of-kept}
use beleevo_whatsapp.Whatsapp.Inbox.Life.{Run, Run-kept}
use beleevo_whatsapp.Whatsapp.Inbox.Once.{HasThread, HasThread-KeptByUpdate, HasThread-KeptByInsert}

-- What holds of the result and of the inbox after it, where a message is taken without an error.
abbrev pub Answers : (InboundResult → Inbox → Type 0) → Inbox × Result InboundResult → Type 0
Answers P (x, ok r) = P r x
Answers P (x, err e) = Unit

-- A claim about every run of `upsert_inbound`, from what holds of its three ends.
module _ (P : InboundResult → Inbox → Type 0) (o : InboxOutside) (shop : ℕ) (m : InboundMessage)
    (x : Inbox) where
  save-Answers :
      (k : Content) (y : Inbox) (r : Result (List Conversation × InboundResult))
      → ((saved : List Conversation × InboundResult) (chats : List ChatMessage)
          → r ≡ ok saved
          → insert_chat o.chat_failure (inbound_row o saved.1.conversation_id m k) y.chats
            ≡ ok chats
          → P saved.1 (record y { conversations = saved.0; chats = chats }))
      → Answers P (save_conversation o m k y r)
  save-Answers k y (err e) h = tt
  save-Answers k y (ok saved) h =
      stored (insert_chat o.chat_failure (inbound_row o saved.1.conversation_id m k) y.chats) refl
    where
      stored :
          (chats : Result (List ChatMessage))
          → insert_chat o.chat_failure (inbound_row o saved.1.conversation_id m k) y.chats ≡ chats
          → Answers P (save_chat o m k y saved chats)
      stored (err e) same = tt
      stored (ok chats) same = done o.commit_failure
        where
          done : (e : Option Error) → Answers P (committed y saved chats e)
          done none = h saved chats refl same
          done (some e) = tt

  pub upsert-Answers :
      ((m.from == "" || m.meta_message_id == "") ≡ true → P no_result x)
      → (any (is_inbound m.meta_message_id) (o.read_chats x.chats) ≡ true → P no_result x)
      → ((k : Content) (y : Inbox) (saved : List Conversation × InboundResult)
            (chats : List ChatMessage)
          → content_of o shop m x ≡ (y, k)
          → upsert_conversation o shop m k y.conversations ≡ ok saved
          → insert_chat o.chat_failure (inbound_row o saved.1.conversation_id m k) y.chats
            ≡ ok chats
          → P saved.1 (record y { conversations = saved.0; chats = chats }))
      → Answers P (upsert_inbound o shop m x)
  unfolding upsert_inbound
  upsert-Answers blank known h = elim (Bool-cases (m.from == "" || m.meta_message_id == "")) [
    | inl none_given ↦ rw none_given (blank none_given)
    | inr given ↦ rw given (looked o.exists_failure)
  ]
    where
      begun :
          (e : Option Error) (c : Inbox × Content)
          → content_of o shop m x ≡ c
          → Answers P (in_transaction o shop m e c)
      begun (some e) (y, k) same = tt
      begun none (y, k) same =
          save-Answers k y (upsert_conversation o shop m k y.conversations)
            (λ saved chats. h k y saved chats same)

      looked : (e : Option Error) → Answers P (unless_seen o shop m e x)
      looked (some e) = tt
      looked none = elim (Bool-cases (any (is_inbound m.meta_message_id) (o.read_chats x.chats))) [
        | inl seen ↦ rw seen (known seen)
        | inr new ↦ rw new (
            begun (first_failure o.begin_failure o.conversation_failure) (content_of o shop m x)
              refl)
      ]

saved_first :
    (o : InboxOutside) (shop : ℕ) (m : InboundMessage) (k : Content) (rows : List Conversation)
    (c : Option Conversation) (saved : List Conversation × InboundResult)
    → conversation_saved o shop m k rows c ≡ ok saved
    → (saved.1.first_contact ≡ false) ⊎ HasThread shop m.from saved.0
saved_first o shop m k rows (some c) saved h = inl (cc h)
saved_first o shop m k rows none saved h =
    elim (Bool-cases (any (λ (c : Conversation). c.id == o.fresh_conversation) rows)) [
      | inl clash ↦ let h' = rw clash at h in absurd (cc h')
      | inr free ↦
          let h' = rw free at h in
          let e : saved.0 ≡ rows ++ opened o shop m k ∷ [] = cc h' in
          let mine : is_thread shop m.from (opened o shop m k) ≡ true =
            rw (==_refl shop, ==_refl m.from) refl in
          inr (
            rw (e, count-append (is_thread shop m.from) rows (opened o shop m k ∷ []), mine)
              (omega arith))
    ]

upsert_first :
    (o : InboxOutside) (shop : ℕ) (m : InboundMessage) (x : Inbox)
    → Answers
        (λ r y. (r.first_contact ≡ false) ⊎ HasThread shop m.from y.conversations)
        (upsert_inbound o shop m x)
unfolding upsert_conversation
upsert_first o shop m x =
    upsert-Answers (λ r y. (r.first_contact ≡ false) ⊎ HasThread shop m.from y.conversations) o shop
      m x (λ _. inl refl) (λ _. inl refl)
      (λ k y saved chats content conversation chat.
        saved_first o shop m k y.conversations (find? (is_thread shop m.from) y.conversations) saved
          conversation)

saved_again :
    (o : InboxOutside) (shop : ℕ) (m : InboundMessage) (k : Content) (rows : List Conversation)
    (saved : List Conversation × InboundResult)
    → HasThread shop m.from rows
    → conversation_saved o shop m k rows (find? (is_thread shop m.from) rows) ≡ ok saved
    → saved.1.first_contact ≡ false
saved_again o shop m k rows saved thread h =
    let (c, found) = find-of_count (is_thread shop m.from) rows thread in
    let h' = rw found at h in cc h'

upsert_again :
    (o : InboxOutside) (shop : ℕ) (m : InboundMessage) (x : Inbox)
    → HasThread shop m.from x.conversations
    → Answers (λ r y. r.first_contact ≡ false) (upsert_inbound o shop m x)
unfolding upsert_conversation
upsert_again o shop m x thread =
    upsert-Answers (λ r y. r.first_contact ≡ false) o shop m x (λ _. refl) (λ _. refl)
      (λ k y saved chats content conversation chat.
        let kept =
          content_of-kept (HasThread shop m.from) (HasThread-KeptByUpdate shop m.from)
            (HasThread-KeptByInsert shop m.from) o shop m x thread in
        saved_again o shop m k y.conversations saved (rw content at kept) conversation)

pub answer_at :
    (P : InboundResult → Inbox → Type 0) (y : Inbox × Result InboundResult) (r : InboundResult)
    → Answers P y
    → y.1 ≡ ok r
    → P r y.0
answer_at P (x, ok r') r h e = let e' : r' ≡ r = cc e in subst (λ q. P q x) e' h
answer_at P (x, err e') r h e = absurd (cc e)

-- Of two messages of one customer to one shop, with anything in between, at most one is reported as the
-- first contact: where both are taken without an error, one of the reports is false.
pub first_contact_once :
    (o o' : InboxOutside) (shop : ℕ) (m m' : InboundMessage) (x y : Inbox) (r r' : InboundResult)
    → m'.from ≡ m.from
    → (upsert_inbound o shop m x).1 ≡ ok r
    → Run (upsert_inbound o shop m x).0 y
    → (upsert_inbound o' shop m' y).1 ≡ ok r'
    → (r.first_contact ≡ false) ⊎ (r'.first_contact ≡ false)
first_contact_once o o' shop m m' x y r r' same taken run taken' =
    elim (answer_at (λ r y. (r.first_contact ≡ false) ⊎ HasThread shop m.from y.conversations)
      (upsert_inbound o shop m x) r (upsert_first o shop m x) taken) [
        | inl old ↦ inl old
        | inr thread ↦
            let later =
              Run-kept (HasThread shop m.from) (HasThread-KeptByUpdate shop m.from)
                (HasThread-KeptByInsert shop m.from) thread run in
            inr (
              answer_at (λ r y. r.first_contact ≡ false) (upsert_inbound o' shop m' y) r'
                (upsert_again o' shop m' y (rw same later)) taken')
      ]
