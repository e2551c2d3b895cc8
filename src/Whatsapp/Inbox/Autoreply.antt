-- ===== src/Whatsapp/Inbox/Autoreply.antt =====
-- The configuration of the first-contact greeting, in internal/whatsapp/autoreply.go.
use beleevo_whatsapp.Prelude.{
  string_eq, nat_eq, ◌==◌, not, ◌!=◌, if◌then◌else◌, find?, any, update, is_none, Error, is_no_rows,
  Result, ok, err, query_row, exec, ℕ, String, Bool, false, ◌&&◌, ◌||◌, Option, none, some, List,
  [], ◌∷◌, ◌++◌,
}
use beleevo_whatsapp.Whatsapp.Placeholders.{trim_space}
use beleevo_whatsapp.Whatsapp.Inbox.{Bytes, FirstContactAutoreply, Inbox, InboxOutside}

abbrev pub autoreply_text : String
autoreply_text = "text"

abbrev pub autoreply_image : String
autoreply_image = "image"

abbrev pub autoreply_audio : String
autoreply_audio = "audio"

abbrev pub no_greeting : ℕ → FirstContactAutoreply
no_greeting shop = record {
  shop_id = shop;
  enabled = false;
  kind = autoreply_text;
  text_body = "";
  caption = "";
  media_mime = "";
  media_bytes = none;
  media_duration_ms = 0;
  media_filename = "";
}

abbrev pub is_greeting_of : ℕ → FirstContactAutoreply → Bool
is_greeting_of shop a = a.shop_id == shop

-- Without the bytes of its media.
abbrev pub greeting_found : ℕ → Result FirstContactAutoreply → Result FirstContactAutoreply
greeting_found shop (ok a) = ok (record a { media_bytes = none })
greeting_found shop (err e) = if is_no_rows e then ok (no_greeting shop) else err e

unfoldable pub get_first_contact_autoreply :
    InboxOutside → (shop : ℕ) → Inbox → Result FirstContactAutoreply
get_first_contact_autoreply o shop x =
    greeting_found shop (query_row o.config_failure (find? (is_greeting_of shop) x.autoreplies))

abbrev pub bytes_of : Option Bytes → Bytes
bytes_of none = []
bytes_of (some b) = b

abbrev pub media_found : Result FirstContactAutoreply → Result (Bytes × String)
media_found (ok a) = ok (bytes_of a.media_bytes, a.media_mime)
media_found (err e) = if is_no_rows e then ok ([], "") else err e

unfoldable pub first_contact_autoreply_media :
    InboxOutside → (shop : ℕ) → Inbox → Result (Bytes × String)
first_contact_autoreply_media o shop x = media_found (
    query_row o.config_media_failure (
      find? (λ (a : FirstContactAutoreply). is_greeting_of shop a && not (is_none a.media_bytes))
        x.autoreplies))

abbrev pub kind_or_text : String → String
kind_or_text kind = if kind == "" then autoreply_text else kind

-- The upsert's CASE on a column of the media.
abbrev pub media_case {ℓ} :
    {A : Type ℓ} → (kind : String) → Option Bytes → (cleared new old : A) → A
media_case kind none cleared new old = if kind == "text" then cleared else old
media_case kind (some b) cleared new old = if kind == "text" then cleared else new

abbrev pub regreeted : FirstContactAutoreply → FirstContactAutoreply → FirstContactAutoreply
regreeted new a = record a {
  enabled = new.enabled;
  kind = new.kind;
  text_body = new.text_body;
  caption = new.caption;
  media_mime = media_case new.kind new.media_bytes "" new.media_mime a.media_mime;
  media_bytes = media_case new.kind new.media_bytes none new.media_bytes a.media_bytes;
  media_duration_ms =
      media_case new.kind new.media_bytes 0 new.media_duration_ms a.media_duration_ms;
  media_filename = media_case new.kind new.media_bytes "" new.media_filename a.media_filename;
}

abbrev pub upsert_greeting :
    FirstContactAutoreply → List FirstContactAutoreply → List FirstContactAutoreply
upsert_greeting new rows =
    if any (is_greeting_of new.shop_id) rows
    then update (is_greeting_of new.shop_id) (regreeted new) rows
    else rows ++ new ∷ []

unfoldable pub save_first_contact_autoreply :
    Option Error → FirstContactAutoreply → Inbox → Inbox × Option Error
save_first_contact_autoreply failure cfg x =
    let new : FirstContactAutoreply = record cfg { kind = kind_or_text cfg.kind } in
    (
      record x { autoreplies = exec failure x.autoreplies (upsert_greeting new x.autoreplies) },
      failure,
    )

-- Whether the greeting has the content that its kind needs.
unfoldable pub autoreply_configured : FirstContactAutoreply → Bool
autoreply_configured cfg =
    if cfg.kind == autoreply_image || cfg.kind == autoreply_audio
    then cfg.media_mime != ""
    else cfg.kind == autoreply_text && trim_space cfg.text_body != ""

abbrev pub is_ready : FirstContactAutoreply → Bool
is_ready cfg = cfg.enabled && autoreply_configured cfg
