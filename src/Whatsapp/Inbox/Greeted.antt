-- ===== src/Whatsapp/Inbox/Greeted.antt =====
-- The greeting job of internal/whatsapp/autoreply.go and its scheduling, and what they keep of the
-- conversations.
use beleevo_whatsapp.Prelude.{
  string_eq, nat_eq, ◌==◌, if◌then◌else◌, Bool-cases, length, count, Error, Result, ok, err, ℕ,
  String, refl, inl, inr, Bool, true, false, ◌||◌, Option, none, some, List,
}
use beleevo_whatsapp.Whatsapp.Inbox.{
  Bytes, Conversation, FirstContactAutoreply, Inbox, FirstContactReplyJob, InboxOutside,
}
use beleevo_whatsapp.Whatsapp.Inbox.Media.{send_audio_reply, send_image_reply}
use beleevo_whatsapp.Whatsapp.Inbox.Replies.{send_reply}
use beleevo_whatsapp.Whatsapp.Inbox.Autoreply.{
  autoreply_image, autoreply_audio, get_first_contact_autoreply, first_contact_autoreply_media,
  is_ready,
}
use beleevo_whatsapp.Whatsapp.Inbox.Greetings.{
  schedule_encoded, schedule_configured, ended, greet, is_unclaimed, claimed_at, claim_all,
  claim_then, greet_with_media, greet_configured, greet_decoded,
}
use beleevo_whatsapp.Whatsapp.Inbox.Kept.{
  KeptByUpdate, KeptByInsert, send_reply-kept, send_audio_reply-kept, send_image_reply-kept,
}
use beleevo_whatsapp.Whatsapp.Placeholders.{trim_space}

module _ (P : List Conversation → Type 0) (updated : KeptByUpdate P)
    (inserted : KeptByInsert P) where
  pub greet-kept :
      (o : InboxOutside) (job : FirstContactReplyJob) (cfg : FirstContactAutoreply)
      (media : Bytes × String) (x : Inbox)
      → P x.conversations
      → P (greet o job cfg media x).0.conversations
  unfolding greet
  greet-kept o job cfg (bytes, mime) x h =
      chosen (cfg.kind == autoreply_image) (cfg.kind == autoreply_audio) (length bytes == 0)
        (trim_space cfg.text_body == "")
    where
      chosen :
          (by_image by_audio no_bytes no_text : Bool)
          → P
              (if by_image
                then (if no_bytes
                    then (x, none)
                    else ended (
                        send_image_reply o job.conversation_id mime cfg.media_filename bytes
                          cfg.caption x))
                else if by_audio
                then (if no_bytes
                    then (x, none)
                    else ended (
                        send_audio_reply o job.conversation_id mime cfg.media_filename bytes
                          cfg.media_duration_ms x))
                else (if no_text
                    then (x, none)
                    else ended (
                        send_reply o job.conversation_id
                          (trim_space cfg.text_body)
                          x))).0.conversations
      chosen true _ true no_text = h
      chosen true _ false no_text =
          send_image_reply-kept P updated inserted o job.conversation_id mime cfg.media_filename
            bytes cfg.caption x h
      chosen false true true no_text = h
      chosen false true false no_text =
          send_audio_reply-kept P updated inserted o job.conversation_id mime cfg.media_filename
            bytes cfg.media_duration_ms x h
      chosen false false no_bytes true = h
      chosen false false no_bytes false =
          send_reply-kept P updated inserted o job.conversation_id (trim_space cfg.text_body) x h

  claim_then-kept :
      (o : InboxOutside) (job : FirstContactReplyJob) (cfg : FirstContactAutoreply)
      (media : Bytes × String) (e : Option Error) (x : Inbox)
      → P x.conversations
      → P (claim_then o job cfg media e x).0.conversations
  claim_then-kept o job cfg media (some e) x h = h
  claim_then-kept o job cfg media none x h =
      elim (Bool-cases (count (is_unclaimed job) x.conversations == 0)) [
        | inl taken ↦ rw taken h
        | inr free ↦ rw free (
            greet-kept o job cfg media (claim_all o job x) (
              updated (is_unclaimed job) (claimed_at o.now) x.conversations
                (record {
                  id = λ c. refl;
                  shop = λ c. refl;
                  phone = λ c. refl;
                  claim = λ c e. cc e;
                })
                h))
      ]

  greet_with_media-kept :
      (o : InboxOutside) (job : FirstContactReplyJob) (cfg : FirstContactAutoreply)
      (r : Result (Bytes × String)) (x : Inbox)
      → P x.conversations
      → P (greet_with_media o job cfg r x).0.conversations
  greet_with_media-kept o job cfg (err e) x h = h
  greet_with_media-kept o job cfg (ok media) x h =
      claim_then-kept o job cfg media o.claim_failure x h

  greet_configured-kept :
      (o : InboxOutside) (job : FirstContactReplyJob) (r : Result FirstContactAutoreply) (x : Inbox)
      → P x.conversations
      → P (greet_configured o job r x).0.conversations
  greet_configured-kept o job (err e) x h = h
  greet_configured-kept o job (ok cfg) x h = elim (Bool-cases (is_ready cfg)) [
    | inl ready ↦
        rw ready
          (greet_with_media-kept o job cfg (first_contact_autoreply_media o job.shop_id x) x h)
    | inr off ↦ rw off h
  ]

  pub greet_decoded-kept :
      (o : InboxOutside) (r : Result FirstContactReplyJob) (x : Inbox)
      → P x.conversations
      → P (greet_decoded o r x).0.conversations
  greet_decoded-kept o (err e) x h = h
  greet_decoded-kept o (ok job) x h =
      elim (Bool-cases (job.shop_id == 0 || job.conversation_id == 0)) [
        | inl missing ↦ rw missing h
        | inr given ↦
            rw given (greet_configured-kept o job (get_first_contact_autoreply o job.shop_id x) x h)
      ]

  pub schedule_configured-kept :
      (o : InboxOutside) (shop conversation : ℕ) (x : Inbox) (r : Result FirstContactAutoreply)
      → P x.conversations
      → P (schedule_configured o shop conversation x r).0.conversations
  schedule_configured-kept o shop conversation x (err e) h = h
  schedule_configured-kept o shop conversation x (ok cfg) h = elim (Bool-cases (is_ready cfg)) [
    | inl ready ↦
        rw ready (encoded (o.encode (record { shop_id = shop; conversation_id = conversation })))
    | inr off ↦ rw off h
  ]
    where
      encoded : (r : Result String) → P (schedule_encoded o shop conversation x r).0.conversations
      encoded (err e) = h
      encoded (ok payload) = h
