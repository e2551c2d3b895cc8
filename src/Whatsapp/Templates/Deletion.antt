-- ===== src/Whatsapp/Templates/Deletion.antt =====
-- What `purgeTemplate` of internal/whatsapp/purge.go deletes.
use beleevo_whatsapp.Prelude.{
  string_eq, nat_eq, ◌==◌, ◌!=◌, Bool-cases, and_false, update, count, Result, ok, err, ℕ, ◌≡◌,
  refl, inl, inr, Bool, ◌&&◌, none, List, [], ◌∷◌,
}
use beleevo_whatsapp.Whatsapp.Directory.{Credentials}
use beleevo_whatsapp.Whatsapp.Templates.{
  TemplateRow, Catalog, PurgeNegativeTemplateJob, TemplateOutside, connection,
}
use beleevo_whatsapp.Whatsapp.Templates.Purges.{remove_with, purge_template}

-- The rows of the job's template that are not deleted.
abbrev pub is_target : PurgeNegativeTemplateJob → TemplateRow → Bool
is_target j t = (t.id == j.template_id && t.shop_id == j.shop_id) && t.approval_status != "deleted"

-- The catalog's table after the job's deletion.
abbrev pub deleted : (now : ℕ) → PurgeNegativeTemplateJob → List TemplateRow → List TemplateRow
deleted now j rows =
    update (is_target j)
      (λ t. record t {
        approval_status = "deleted";
        purge_scheduled_at = none;
        negative_at = none;
        updated_at = now;
      })
      rows

removed_only :
    (o : TemplateOutside) (j : PurgeNegativeTemplateJob) (c : Catalog) (r : Result Credentials)
    → ((remove_with j.shop_id j.name j.language r c).templates ≡ c.templates)
      × ((remove_with j.shop_id j.name j.language r c).jobs ≡ c.jobs)
removed_only o j c (ok k) = (refl, refl)
removed_only o j c (err e) = (refl, refl)

pub purge_template_exact :
    (o : TemplateOutside) (j : PurgeNegativeTemplateJob) (c : Catalog)
    → o.purge_failure j.template_id ≡ none
    → ((purge_template o j c).0.templates ≡ deleted o.now j c.templates)
      × ((purge_template o j c).0.jobs ≡ c.jobs)
      × ((purge_template o j c).1 ≡ none)
unfolding purge_template
purge_template_exact o j c writes =
    let (templates, jobs) = removed_only o j c (connection o j.shop_id c) in
    (rw (writes, templates) refl, jobs, writes)

pub gone :
    (now : ℕ) (j : PurgeNegativeTemplateJob) (rows : List TemplateRow)
    → count (is_target j) (deleted now j rows) ≡ 0
gone now j [] = refl
gone now j (t ∷ rows) = elim (Bool-cases (is_target j t)) [
  | inl hit ↦ rw hit (
      let off = and_false (t.id == j.template_id && t.shop_id == j.shop_id) in
      rw off (gone now j rows))
  | inr miss ↦ rw (miss, miss) (gone now j rows)
]
