-- ===== src/Whatsapp/Inbox/Greetings.antt =====
-- The first-contact greeting of internal/whatsapp/autoreply.go: the job that is queued for a new
-- conversation, and the handler that claims the conversation and replies.
use beleevo_whatsapp.Prelude.{
  string_eq, nat_eq, ◌==◌, not, if◌then◌else◌, length, update, count, is_none, pos, join_texts,
  Error, message, wrapped, permanent, Result, ok, err, ℕ, String, Bool, true, false, ◌&&◌, ◌||◌,
  Option, none, some, List, [], ◌∷◌,
}
use beleevo_whatsapp.Queue.{Row, enqueue, Handler}
use beleevo_whatsapp.Whatsapp.Placeholders.{trim_space}
use beleevo_whatsapp.Whatsapp.Directory.{not_configured}
use beleevo_whatsapp.Whatsapp.Inbox.{
  Bytes, Conversation, FirstContactAutoreply, Inbox, FirstContactReplyJob, InboxOutside,
  reply_window_closed,
}
use beleevo_whatsapp.Whatsapp.Inbox.Media.{send_audio_reply, send_image_reply}
use beleevo_whatsapp.Whatsapp.Inbox.Replies.{ReplyResult, send_reply}
use beleevo_whatsapp.Whatsapp.Inbox.Autoreply.{
  autoreply_image, autoreply_audio, get_first_contact_autoreply, first_contact_autoreply_media,
  is_ready,
}

abbrev pub task_send_first_contact_reply : String
task_send_first_contact_reply = "send:first_contact_reply"

abbrev pub with_jobs : Inbox → List Row × Option Error → Inbox × Option Error
with_jobs x (jobs, e) = (record x { jobs = jobs }, e)

abbrev pub schedule_encoded :
    InboxOutside → (shop conversation : ℕ) → Inbox → Result String → Inbox × Option Error
schedule_encoded o shop conversation x (err e) = (x, some e)
schedule_encoded o shop conversation x (ok payload) = with_jobs x (
    enqueue true o.enqueue_failure o.now o.fresh_job
      (record {
        kind = task_send_first_contact_reply;
        shop_id = shop;
        payload = payload;
        run_at = none;
        dedupe_key = join_texts ("fc:" ∷ o.show_id conversation ∷ []);
        max_attempts = pos 0;
      })
      x.jobs)

abbrev pub schedule_configured :
    InboxOutside
    → (shop conversation : ℕ) → Inbox
    → Result FirstContactAutoreply
    → Inbox × Option Error
schedule_configured o shop conversation x (err e) = (x, some e)
schedule_configured o shop conversation x (ok cfg) =
    let job : FirstContactReplyJob = record { shop_id = shop; conversation_id = conversation } in
    let scheduled = schedule_encoded o shop conversation x (o.encode job) in
    if not (is_ready cfg) then (x, none) else scheduled

unfoldable pub schedule_first_contact_reply :
    InboxOutside → (shop conversation : ℕ) → Inbox → Inbox × Option Error
schedule_first_contact_reply o shop conversation x =
    schedule_configured o shop conversation x (get_first_contact_autoreply o shop x)

-- errors.Is for one of the program's own error values.
unfoldable pub is_error : String → Error → Bool
is_error text (message t) = t == text
is_error text (wrapped _ e) = is_error text e
is_error text (permanent e) = is_error text e
is_error text _ = false

abbrev pub error_text : Error → String
error_text (message t) = t
error_text _ = ""

-- A closed window and a missing connection are not tried again.
abbrev pub greeting_error : Result ReplyResult → Option Error
greeting_error (ok r) = none
greeting_error (err e) =
    if is_error (error_text reply_window_closed) e || is_error (error_text not_configured) e
    then some (permanent e)
    else some e

abbrev pub ended : Inbox × Result ReplyResult → Inbox × Option Error
ended (x, r) = (x, greeting_error r)

-- The reply of the greeting's kind.
unfoldable pub greet :
    InboxOutside
    → FirstContactReplyJob
    → FirstContactAutoreply
    → Bytes × String
    → Inbox
    → Inbox × Option Error
greet o job cfg (bytes, mime) x =
    let image =
      ended (send_image_reply o job.conversation_id mime cfg.media_filename bytes cfg.caption x) in
    let audio = ended (
      send_audio_reply o job.conversation_id mime cfg.media_filename bytes cfg.media_duration_ms
        x) in
    let text = ended (send_reply o job.conversation_id (trim_space cfg.text_body) x) in
    if cfg.kind == autoreply_image
    then (if length bytes == 0 then (x, none) else image)
    else if cfg.kind == autoreply_audio
    then (if length bytes == 0 then (x, none) else audio)
    else (if trim_space cfg.text_body == "" then (x, none) else text)

-- `UPDATE conversations … WHERE id AND shop_id AND first_contact_autoreplied_at IS NULL`.
abbrev pub is_unclaimed : FirstContactReplyJob → Conversation → Bool
is_unclaimed job c =
    (c.id == job.conversation_id && c.shop_id == job.shop_id)
    && is_none c.first_contact_autoreplied_at

abbrev pub claimed_at : ℕ → Conversation → Conversation
claimed_at now c = record c { first_contact_autoreplied_at = some now }

abbrev pub claim_all : InboxOutside → FirstContactReplyJob → Inbox → Inbox
claim_all o job x = record x {
  conversations = update (is_unclaimed job) (claimed_at o.now) x.conversations;
}

abbrev pub claim_then :
    InboxOutside
    → FirstContactReplyJob
    → FirstContactAutoreply
    → Bytes × String
    → Option Error
    → Inbox
    → Inbox × Option Error
claim_then o job cfg media (some e) x = (x, some e)
claim_then o job cfg media none x =
    let greeted = greet o job cfg media (claim_all o job x) in
    if count (is_unclaimed job) x.conversations == 0 then (x, none) else greeted

abbrev pub greet_with_media :
    InboxOutside
    → FirstContactReplyJob
    → FirstContactAutoreply
    → Result (Bytes × String)
    → Inbox
    → Inbox × Option Error
greet_with_media o job cfg (err e) x = (x, some e)
greet_with_media o job cfg (ok media) x = claim_then o job cfg media o.claim_failure x

abbrev pub greet_configured :
    InboxOutside
    → FirstContactReplyJob
    → Result FirstContactAutoreply
    → Inbox
    → Inbox × Option Error
greet_configured o job (err e) x = (x, some e)
greet_configured o job (ok cfg) x =
    let greeted = greet_with_media o job cfg (first_contact_autoreply_media o job.shop_id x) x in
    if not (is_ready cfg) then (x, none) else greeted

abbrev pub greet_decoded : InboxOutside → Result FirstContactReplyJob → Inbox → Inbox × Option Error
greet_decoded o (err e) x = (x, some (permanent (wrapped "first-contact reply: bad payload" e)))
greet_decoded o (ok job) x =
    let greeted = greet_configured o job (get_first_contact_autoreply o job.shop_id x) x in
    if job.shop_id == 0 || job.conversation_id == 0
    then (x, some (permanent (message "first-contact reply: missing shop or conversation")))
    else greeted

unfoldable pub send_first_contact_reply_job :
    (decode : String → Result FirstContactReplyJob) → InboxOutside → Handler Inbox
send_first_contact_reply_job decode o payload x = greet_decoded o (decode payload) x
