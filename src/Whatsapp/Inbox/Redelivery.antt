-- ===== src/Whatsapp/Inbox/Redelivery.antt =====
-- Messages that Meta delivers again, in `UpsertInbound` of internal/whatsapp/chat.go.
use mathlib.Core.Path.{subst}
use beleevo_whatsapp.Prelude.{
  string_eq, nat_eq, ◌==◌, ==_refl, Bool-cases, any, any-last, Error, ok, ℕ, ◌≡◌, refl, sym, ◌⊎◌,
  inl, inr, Bool, true, false, ◌||◌, Option, none, some, List, [], ◌∷◌, ◌++◌,
}
use beleevo_whatsapp.Whatsapp.Inbox.{ChatMessage, Inbox, InboxOutside}
use beleevo_whatsapp.Whatsapp.Inbox.Content.{InboundMessage}
use beleevo_whatsapp.Whatsapp.Inbox.Inbound.{
  InboundResult, no_result, is_inbound, inbound_row, insert_chat, unless_seen, upsert_inbound,
}
use beleevo_whatsapp.Whatsapp.Inbox.Contacts.{Answers, upsert-Answers, answer_at}

inserted-any :
    (failure : Option Error) (p : ChatMessage → Bool) (new : ChatMessage)
    (rows rows' : List ChatMessage)
    → p new ≡ true
    → insert_chat failure new rows ≡ ok rows'
    → any p rows' ≡ true
unfolding insert_chat
inserted-any (some e) p new rows rows' hit h = absurd (cc h)
inserted-any none p new rows rows' hit h =
    elim (Bool-cases (any (λ (c : ChatMessage). c.id == new.id) rows)) [
      | inl clash ↦ let h' = rw clash at h in absurd (cc h')
      | inr free ↦
          let h' = rw free at h in
          let e : rows' ≡ rows ++ new ∷ [] = cc h' in rw e (any-last p rows new hit)
    ]

-- The message has no sender or no id, or the inbox has it.
abbrev IsKnown : InboundMessage → Inbox → Type 0
IsKnown m x =
    ((m.from == "" || m.meta_message_id == "") ≡ true)
    ⊎ (any (is_inbound m.meta_message_id) x.chats ≡ true)

upsert-IsKnown :
    (o : InboxOutside) (shop : ℕ) (m : InboundMessage) (x : Inbox)
    → o.read_chats x.chats ≡ x.chats
    → Answers (λ r y. IsKnown m y) (upsert_inbound o shop m x)
upsert-IsKnown o shop m x current =
    upsert-Answers (λ r y. IsKnown m y) o shop m x (λ blank. inl blank)
      (λ seen. inr (rw current at seen))
      (λ k y saved chats content conversation chat. inr (
        inserted-any o.chat_failure (is_inbound m.meta_message_id)
          (inbound_row o saved.1.conversation_id m k) y.chats chats
          (rw (==_refl m.meta_message_id) refl) chat))

seen_ignored :
    (o : InboxOutside) (shop : ℕ) (m : InboundMessage) (e : Option Error) (y : Inbox)
    → e ≡ none
    → any (is_inbound m.meta_message_id) (o.read_chats y.chats) ≡ true
    → unless_seen o shop m e y ≡ (y, ok no_result)
seen_ignored o shop m none y reads seen = rw seen refl
seen_ignored o shop m (some e) y reads seen = absurd (cc reads)

known_ignored :
    (o : InboxOutside) (shop : ℕ) (m : InboundMessage) (y : Inbox)
    → o.exists_failure ≡ none
    → o.read_chats y.chats ≡ y.chats
    → IsKnown m y
    → upsert_inbound o shop m y ≡ (y, ok no_result)
unfolding upsert_inbound
known_ignored o shop m y reads current known =
    elim (Bool-cases (m.from == "" || m.meta_message_id == "")) [
      | inl blank ↦ rw blank refl
      | inr given ↦ rw given (
          seen_ignored o shop m o.exists_failure y reads (
            subst (λ chats. any (is_inbound m.meta_message_id) chats ≡ true) (sym current)
              (held given known)))
    ]
  where
    held :
        (m.from == "" || m.meta_message_id == "") ≡ false
        → IsKnown m y
        → any (is_inbound m.meta_message_id) y.chats ≡ true
    held given (inl blank) = absurd (cc (given, blank))
    held given (inr stored) = stored

-- A message that was taken without an error is ignored when Meta delivers it again: nothing changes and
-- no conversation is reported. The lookup of each delivery reads the table as it is at that time, and
-- that of the second does not fail.
pub redelivery_ignored :
    (o o' : InboxOutside) (shop shop' : ℕ) (m : InboundMessage) (x : Inbox) (r : InboundResult)
    → o.read_chats x.chats ≡ x.chats
    → (upsert_inbound o shop m x).1 ≡ ok r
    → o'.exists_failure ≡ none
    → o'.read_chats (upsert_inbound o shop m x).0.chats ≡ (upsert_inbound o shop m x).0.chats
    → upsert_inbound o' shop' m (upsert_inbound o shop m x).0
      ≡ ((upsert_inbound o shop m x).0, ok no_result)
redelivery_ignored o o' shop shop' m x r current taken reads current' =
    known_ignored o' shop' m (upsert_inbound o shop m x).0 reads current' (
      answer_at (λ r y. IsKnown m y) (upsert_inbound o shop m x) r
        (upsert-IsKnown o shop m x current) taken)
