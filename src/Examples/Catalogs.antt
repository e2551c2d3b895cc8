-- ===== src/Examples/Catalogs.antt =====
-- Concrete catalogs of templates: a rejected template, its purge, and a sync that Meta answers.
use beleevo_whatsapp.Prelude.{
  length, update, count, Member, itoa, ok, err, ℕ, ◌+◌, ◌≡◌, refl, inr, true, false, none, some,
  List, [], ◌∷◌, map, arith,
}
use beleevo_whatsapp.Whatsapp.Placeholders.{trim_space}
use beleevo_whatsapp.Whatsapp.Directory.{Credentials, credentials}
use beleevo_whatsapp.Whatsapp.Templates.{
  TemplateRow, TemplateDraft, negative_review, normalize_approval, warnings_indicate_marketing,
  marketing_signal, Catalog, MetaTemplate, PurgeNegativeTemplateJob, TemplateOutside,
}
use beleevo_whatsapp.Whatsapp.Templates.Purges.{
  schedule_all, enqueue_unscheduled_purges, tombstone, purge_expired_negative,
  handle_purge_negative_template,
}
use beleevo_whatsapp.Whatsapp.Templates.Reviews.{
  create_template, template_not_editable, update_template,
}
use beleevo_whatsapp.Whatsapp.Templates.Syncing.{reviewed, sync_all, sync_templates}
use beleevo_whatsapp.Whatsapp.Templates.Kept.{IsReviewed, AreReviewed}
use beleevo_whatsapp.Whatsapp.Templates.Lifecycle.{Step, Run, Run-AreReviewed}
use beleevo_whatsapp.Whatsapp.Templates.Deletion.{is_target, deleted}
use beleevo_whatsapp.Whatsapp.Templates.Expiry.{
  is_reached, is_closed, closed_rows, purge_expired_negative_exact, purge_job_exact,
}
use beleevo_whatsapp.Whatsapp.Templates.Verdicts.{is_stale, sync_templates-verdicts}
use beleevo_whatsapp.Examples.Fixtures.{directory}

abbrev rejected : TemplateRow
rejected = record {
  id = 3;
  shop_id = 1;
  name = "parcel_ready";
  language = "fr";
  category = "UTILITY";
  status = "submitted";
  approval_status = "rejected";
  rejection_reason = "INVALID_FORMAT";
  marketing_flagged = false;
  meta_warnings = "";
  meta_template_id = "m3";
  negative_at = some 5;
  purge_scheduled_at = none;
  components = "[]";
  variables = [];
  source = "any";
  created_at = 1;
  updated_at = 5;
}

abbrev draft : TemplateDraft
draft = record {
  name = "parcel_ready";
  language = "fr";
  category = "UTILITY";
  components = "[]";
  variables = "order_id" ∷ [];
  source = "both";
}

abbrev approved : MetaTemplate
approved = record {
  id = "m3";
  name = "parcel_ready";
  language = "fr";
  status = "APPROVED";
  category = "UTILITY";
  rejected_reason = "";
}

abbrev purge_of_rejected : PurgeNegativeTemplateJob
purge_of_rejected = record { shop_id = 1; template_id = 3; name = "parcel_ready"; language = "fr" }

abbrev calm : TemplateOutside
calm = record {
  now = 2000000000;
  fresh = 3;
  fresh_job = λ id. 40 + id;
  grace = 1000000000;
  show = λ e. "refused";
  show_id = itoa;
  encode = λ j. "{}";
  decrypt = λ s. ok "token";
  meta_create = λ creds d. (("m3", "This is marketing" ∷ []), none);
  meta_edit = λ id comps. none;
  meta_list = λ creds. ok (approved ∷ []);
  snapshot = λ rows. rows;
  integration_failure = none;
  lookup_failure = none;
  reload_failure = none;
  insert_failure = none;
  edit_failure = none;
  refuse_failure = none;
  unscheduled_failure = none;
  expired_failure = none;
  enqueue_failure = λ id. none;
  stamp_failure = λ id. none;
  purge_failure = λ id. none;
  sync_failure = λ m. none;
}

abbrev catalog : List TemplateRow → Catalog
catalog rows = record { templates = rows; jobs = []; directory = directory; calls = [] }

Run-AreReviewed_example :
    AreReviewed
      (purge_expired_negative calm (create_template calm 1 draft (catalog [])).0).0.templates
Run-AreReviewed_example = Run-AreReviewed {s = catalog []} refl (
    Run.next (Run.next Run.start (Step.create calm 1 draft (catalog [])))
      (Step.sweep calm (create_template calm 1 draft (catalog [])).0))

rejected-IsReviewed : IsReviewed rejected
unfolding negative_review
rejected-IsReviewed = inr refl

purge_expired_negative_exact_example :
    let c = catalog (rejected ∷ []) in
    ((purge_expired_negative calm c).0.templates
      ≡ update (is_reached calm (closed_rows calm c)) (tombstone calm.now) c.templates)
    × ((purge_expired_negative calm c).1 ≡ ok (length (closed_rows calm c)))
purge_expired_negative_exact_example =
    purge_expired_negative_exact calm (catalog (rejected ∷ [])) refl refl (omega arith)
      (rejected-IsReviewed, tt)

purge_job_exact_example :
    let c = catalog (rejected ∷ []) in
    let (c', e) = handle_purge_negative_template (λ s. ok purge_of_rejected) calm "{}" c in
    (is_closed calm.grace calm.now rejected ≡ true
      → (c'.templates ≡ deleted calm.now purge_of_rejected c.templates)
        × (count (is_target purge_of_rejected) c'.templates ≡ 0)
        × (c'.jobs ≡ c.jobs)
        × (e ≡ none)
        × (update_template calm 3 draft c ≡ (c, err template_not_editable)))
    × (is_closed calm.grace calm.now rejected ≡ false → (c' ≡ c) × (e ≡ none))
purge_job_exact_example =
    purge_job_exact (λ s. ok purge_of_rejected) calm "{}" (catalog (rejected ∷ []))
      purge_of_rejected rejected draft refl refl refl refl refl refl rejected-IsReviewed

abbrev opened : Credentials
opened = record {
  access_token = "token";
  phone_number_id = "77";
  messaging_account_id = "";
  phone_number = "21670000000";
}

sync_templates-verdicts_example :
    let c = catalog (tombstone 9 rejected ∷ []) in
    (count (is_stale 1 approved) (sync_templates calm 1 c).0.templates ≡ 0)
    × ((k : ℕ) × ((sync_templates calm 1 c).1 ≡ ok k))
unfolding credentials
sync_templates-verdicts_example =
    sync_templates-verdicts calm 1 (catalog (tombstone 9 rejected ∷ [])) opened (approved ∷ [])
      approved refl refl (λ x. refl) (tt, tt) Member.here

-- A sync brings a deleted template back, as Meta still lists it.
revived :
    map
      (λ r. r.approval_status)
      (sync_templates calm 1 (catalog (tombstone 9 rejected ∷ []))).0.templates
    ≡ "approved" ∷ []
unfolding sync_templates credentials sync_all reviewed enqueue_unscheduled_purges schedule_all
    normalize_approval marketing_signal warnings_indicate_marketing negative_review trim_space
revived = refl
