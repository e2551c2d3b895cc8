-- ===== src/Whatsapp/Templates/Syncing.antt =====
-- `SyncTemplates` of internal/whatsapp/templates.go: the rows of one shop brought to what Meta lists.
use beleevo_whatsapp.Prelude.{
  string_eq, nat_eq, not, ◌!=◌, if◌then◌else◌, update, count, is_none, Error, Result, ok, err, ℕ,
  ◌+◌, String, Bool, true, false, ◌&&◌, ◌||◌, Option, none, some, List, [], ◌∷◌,
}
use beleevo_whatsapp.Whatsapp.Directory.{Credentials}
use beleevo_whatsapp.Whatsapp.Templates.{
  TemplateRow, negative_review, normalize_approval, marketing_signal, Catalog, MetaTemplate,
  TemplateOutside, connection,
}
use beleevo_whatsapp.Whatsapp.Templates.Purges.{enqueue_unscheduled_purges}
use beleevo_whatsapp.Whatsapp.Templates.Reviews.{is_named}

-- Meta's verdict on a template, in the stored words: the approval, and whether it is marketing.
abbrev pub approval_of : MetaTemplate → String
approval_of m = normalize_approval m.status

abbrev pub marketing_of : MetaTemplate → Bool
marketing_of m = marketing_signal m.category m.rejected_reason

abbrev pub negative_of : MetaTemplate → Bool
negative_of m = negative_review (approval_of m) (marketing_of m)

abbrev pub same_bool : Bool → Bool → Bool
same_bool true b = b
same_bool false b = not b

abbrev pub verdict_differs : MetaTemplate → TemplateRow → Bool
verdict_differs m r =
    r.approval_status != approval_of m
    || (r.rejection_reason != m.rejected_reason
        || (not (same_bool r.marketing_flagged (marketing_of m))
            || not (same_bool (not (is_none r.negative_at)) (negative_of m))))

abbrev pub differs : MetaTemplate → TemplateRow → Bool
differs m r = verdict_differs m r || r.meta_template_id != m.id

abbrev pub coalesce_now : Option ℕ → ℕ → Option ℕ
coalesce_now none now = some now
coalesce_now (some at) now = some at

unfoldable pub reviewed : (now : ℕ) → MetaTemplate → TemplateRow → TemplateRow
reviewed now m r = record r {
  approval_status = approval_of m;
  rejection_reason = m.rejected_reason;
  marketing_flagged = marketing_of m;
  meta_template_id = if m.id != "" then m.id else r.meta_template_id;
  negative_at = if negative_of m then coalesce_now r.negative_at now else none;
  purge_scheduled_at = if negative_of m then r.purge_scheduled_at else none;
  updated_at = now;
}

abbrev pub is_changed : (shop : ℕ) → MetaTemplate → TemplateRow → Bool
is_changed shop m r = is_named shop m.name m.language r && differs m r

abbrev pub unless_failed :
    Option Error → List TemplateRow → List TemplateRow × Result ℕ → List TemplateRow × Result ℕ
unless_failed none before rest = rest
unless_failed (some e) before rest = (before, err e)

-- The loop over what Meta lists, which a failed UPDATE ends.
unfoldable pub sync_all :
    TemplateOutside
    → (shop : ℕ) → List MetaTemplate
    → (updated : ℕ) → List TemplateRow
    → List TemplateRow × Result ℕ
sync_all o shop [] updated rows = (rows, ok updated)
sync_all o shop (m ∷ ms) updated rows = unless_failed (o.sync_failure m) rows (
    sync_all o shop ms (updated + count (is_changed shop m) rows)
      (update (is_changed shop m) (reviewed o.now m) rows))

-- The purges are scheduled where the loop has come to its end; a failure of that is only logged.
abbrev pub sync_done : TemplateOutside → Catalog → List TemplateRow × Result ℕ → Catalog × Result ℕ
sync_done o c (rows, err e) = (record c { templates = rows }, err e)
sync_done o c (rows, ok n) =
    ((enqueue_unscheduled_purges o (record c { templates = rows })).0, ok n)

abbrev pub sync_listed :
    TemplateOutside → (shop : ℕ) → Result (List MetaTemplate) → Catalog → Catalog × Result ℕ
sync_listed o shop (err e) c = (c, err e)
sync_listed o shop (ok ms) c = sync_done o c (sync_all o shop ms 0 c.templates)

abbrev pub sync_with :
    TemplateOutside → (shop : ℕ) → Result Credentials → Catalog → Catalog × Result ℕ
sync_with o shop (err e) c = (c, ok 0)
sync_with o shop (ok creds) c = sync_listed o shop (o.meta_list creds) c

unfoldable pub sync_templates : TemplateOutside → (shop : ℕ) → Catalog → Catalog × Result ℕ
sync_templates o shop c = sync_with o shop (connection o shop c) c
