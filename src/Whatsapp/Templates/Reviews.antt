-- ===== src/Whatsapp/Templates/Reviews.antt =====
-- `CreateTemplate`, `UpdateTemplate` and `SyncTemplates` of internal/whatsapp/templates.go: how Meta's
-- verdicts reach the rows.
use beleevo_whatsapp.Prelude.{
  string_eq, nat_eq, ◌==◌, not, if◌then◌else◌, find?, any, update, is_none, Error, message,
  infrastructure, rejection, wrapped, Result, ok, err, ℕ, String, Bool, false, ◌&&◌, ◌||◌, Option,
  none, some, List, [], ◌∷◌, ◌++◌,
}
use beleevo_whatsapp.Whatsapp.Gate.{meta_api_error}
use beleevo_whatsapp.Whatsapp.Directory.{Credentials}
use beleevo_whatsapp.Whatsapp.Sending.{not_connected_reason}
use beleevo_whatsapp.Whatsapp.Templates.{
  TemplateRow, TemplateDraft, negative_review, template_grace_remaining, normalize_source,
  warning_strings, warnings_indicate_marketing, template_by_id, submit, edit, Catalog,
  TemplateOutside, connection,
}
use beleevo_whatsapp.Whatsapp.Templates.Purges.{enqueue_unscheduled_purges}

abbrev pub not_connected : Error
not_connected = rejection meta_api_error not_connected_reason

-- The unique index on `(shop_id, meta_template_name, language)`.
abbrev pub is_named : (shop : ℕ) (name language : String) → TemplateRow → Bool
is_named shop name language r = r.shop_id == shop && (r.name == name && r.language == language)

-- `ON CONFLICT … DO UPDATE`: what a resubmission takes over from the new values.
abbrev pub resubmitted : (new : TemplateRow) → TemplateRow → TemplateRow
resubmitted new r = record r {
  meta_template_id = new.meta_template_id;
  category = new.category;
  status = new.status;
  approval_status = new.approval_status;
  rejection_reason = new.rejection_reason;
  marketing_flagged = new.marketing_flagged;
  meta_warnings = new.meta_warnings;
  negative_at = new.negative_at;
  purge_scheduled_at = none;
  components = new.components;
  variables = new.variables;
  source = new.source;
  updated_at = new.updated_at;
}

unfoldable pub store_template :
    Option Error → (new : TemplateRow) → List TemplateRow → Result (List TemplateRow)
store_template (some e) new rows = err e
store_template none new rows =
    let named = is_named new.shop_id new.name new.language in
    if any named rows
    then ok (update named (resubmitted new) rows)
    else if any (λ r. r.id == new.id) rows
    then err (infrastructure "duplicate key value violates unique constraint")
    else ok (rows ++ new ∷ [])

abbrev pub negative_at_expr : Bool → ℕ → Option ℕ
negative_at_expr negative now = if negative then some now else none

abbrev pub verdict_of : Option Error → String
verdict_of none = "pending"
verdict_of (some e) = "rejected"

abbrev pub reason_of : (Error → String) → Option Error → String
reason_of show none = ""
reason_of show (some e) = show e

-- The row of a submission, from Meta's answer to it.
abbrev pub submitted_row :
    TemplateOutside
    → (shop : ℕ) → TemplateDraft
    → (String × List String) × Option Error
    → TemplateRow
submitted_row o shop draft ((id, warnings), refused) =
    let text = warning_strings 0 "" warnings in
    let marketing = warnings_indicate_marketing text in
    record {
      id = o.fresh;
      shop_id = shop;
      name = draft.name;
      language = draft.language;
      category = draft.category;
      status = "submitted";
      approval_status = verdict_of refused;
      rejection_reason = reason_of o.show refused;
      marketing_flagged = marketing;
      meta_warnings = text;
      meta_template_id = id;
      negative_at = negative_at_expr (negative_review (verdict_of refused) marketing) o.now;
      purge_scheduled_at = none;
      components = draft.components;
      variables = draft.variables;
      source = normalize_source draft.source;
      created_at = o.now;
      updated_at = o.now;
    }

-- `RETURNING id, created_at, updated_at`.
abbrev pub returned : TemplateRow → Option TemplateRow → TemplateRow
returned new none = new
returned new (some r) = record new { id = r.id; created_at = r.created_at }

abbrev pub answer_of : TemplateOutside → Option Error → TemplateRow → Result TemplateRow
answer_of o none t = ok t
answer_of o (some e) t = err (rejection meta_api_error (o.show e))

abbrev pub stored :
    TemplateOutside
    → (new : TemplateRow) → Option Error
    → Catalog
    → Result (List TemplateRow)
    → Catalog × Result TemplateRow
stored o new refused c (err e) = (c, err (wrapped "store template" e))
stored o new refused c (ok rows) =
    let c' : Catalog = record c { templates = rows } in
    let swept = (enqueue_unscheduled_purges o c').0 in
    (
      if negative_review new.approval_status new.marketing_flagged then swept else c',
      answer_of o refused (returned new (find? (is_named new.shop_id new.name new.language) rows)),
    )

abbrev pub submit_with :
    TemplateOutside
    → (shop : ℕ) → TemplateDraft
    → Result Credentials
    → Catalog
    → Catalog × Result TemplateRow
submit_with o shop draft (err e) c = (c, err not_connected)
submit_with o shop draft (ok creds) c =
    let answer = o.meta_create creds draft in
    let new = submitted_row o shop draft answer in
    stored o new answer.1 (record c { calls = c.calls ++ submit shop draft ∷ [] })
      (store_template o.insert_failure new c.templates)

unfoldable pub create_template :
    TemplateOutside → (shop : ℕ) → TemplateDraft → Catalog → Catalog × Result TemplateRow
create_template o shop draft c = submit_with o shop draft (connection o shop c) c

abbrev pub template_not_editable : Error
template_not_editable = message "template is not editable"

abbrev pub refused_edit : (now : ℕ) (reason : String) → TemplateRow → TemplateRow
refused_edit now reason r = record r {
  approval_status = "rejected";
  rejection_reason = reason;
  negative_at = some now;
  purge_scheduled_at = none;
  updated_at = now;
}

abbrev pub accepted_edit : (now : ℕ) → TemplateDraft → TemplateRow → TemplateRow
accepted_edit now draft r = record r {
  approval_status = "pending";
  status = "submitted";
  rejection_reason = "";
  marketing_flagged = false;
  meta_warnings = "";
  negative_at = none;
  purge_scheduled_at = none;
  components = draft.components;
  variables = draft.variables;
  source = normalize_source draft.source;
  updated_at = now;
}

-- An UPDATE of one row, and what is returned after it.
abbrev pub edited :
    Option Error
    → (ℕ → TemplateRow → Bool)
    → (TemplateRow → TemplateRow)
    → ℕ
    → (Catalog → Result (Option TemplateRow))
    → Catalog
    → Catalog × Result (Option TemplateRow)
edited (some e) hit f id k c = (c, err e)
edited none hit f id k c =
    let c' : Catalog = record c { templates = update (hit id) f c.templates } in (c', k c')

abbrev pub has_template_id : ℕ → TemplateRow → Bool
has_template_id id r = r.id == id

abbrev pub after_edit :
    TemplateOutside
    → ℕ
    → TemplateDraft
    → Option Error
    → Catalog
    → Catalog × Result (Option TemplateRow)
after_edit o id draft (some e) c =
    edited o.refuse_failure has_template_id (refused_edit o.now (o.show e)) id
      (λ _. err (rejection meta_api_error (o.show e))) c
after_edit o id draft none c =
    edited o.edit_failure has_template_id (accepted_edit o.now draft) id
      (λ c'. template_by_id o.reload_failure id c'.templates) c

abbrev pub edit_with :
    TemplateOutside
    → TemplateRow
    → TemplateDraft
    → Result Credentials
    → Catalog
    → Catalog × Result (Option TemplateRow)
edit_with o t draft (err e) c = (c, err not_connected)
edit_with o t draft (ok creds) c =
    after_edit o t.id draft (o.meta_edit t.meta_template_id draft.components)
      (record c { calls = c.calls ++ edit t.meta_template_id draft.components ∷ [] })

-- The guards of an edit: a known row with a Meta id, whose window is open.
abbrev pub is_editable : TemplateOutside → TemplateRow → Bool
is_editable o t =
    not (t.id == 0 || t.meta_template_id == "")
    && not (is_none (template_grace_remaining t o.grace o.now))

abbrev pub edit_found :
    TemplateOutside
    → TemplateDraft
    → Result (Option TemplateRow)
    → Catalog
    → Catalog × Result (Option TemplateRow)
edit_found o draft (err e) c = (c, err e)
edit_found o draft (ok none) c = (c, err template_not_editable)
edit_found o draft (ok (some t)) c =
    let edit = edit_with o t draft (connection o t.shop_id c) c in
    if is_editable o t then edit else (c, err template_not_editable)

unfoldable pub update_template :
    TemplateOutside → (id : ℕ) → TemplateDraft → Catalog → Catalog × Result (Option TemplateRow)
update_template o id draft c =
    edit_found o draft (template_by_id o.lookup_failure id (o.snapshot c.templates)) c
