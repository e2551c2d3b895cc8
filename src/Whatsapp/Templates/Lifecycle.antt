-- ===== src/Whatsapp/Templates/Lifecycle.antt =====
-- The life of the table `templates` under internal/whatsapp/templates.go and purge.go: whatever
-- sequence of submissions, edits, syncs, sweeps, purges and removals happens to it.
use beleevo_whatsapp.Prelude.{
  ltb, string_eq, nat_eq, ◌==◌, not, if◌then◌else◌, Bool-cases, filter, find?, Error, Result, ok,
  err, query_row, ℕ, ◌+◌, String, ◌≡◌, refl, inl, inr, Bool, true, false, ◌&&◌, Option, none, some,
  List, [], ◌∷◌, ◌++◌, arith,
}
use beleevo_whatsapp.Queue.{Row}
use beleevo_whatsapp.Whatsapp.Directory.{Directory, Credentials}
use beleevo_whatsapp.Whatsapp.Templates.{
  TemplateRow, TemplateDraft, negative_review, template_by_id, MetaCall, submit, Catalog,
  MetaTemplate, PurgeNegativeTemplateJob, TemplateOutside, connection,
}
use beleevo_whatsapp.Whatsapp.Templates.Purges.{
  purge_job_of, enqueue_unscheduled_purges, remove_with, purge_template, is_expired, purge_all,
  purge_read, purge_expired_negative, purge_due, purge_found, purge_decoded,
  handle_purge_negative_template, delete_by_merchant,
}
use beleevo_whatsapp.Whatsapp.Templates.Reviews.{
  is_named, store_template, submitted_row, stored, submit_with, create_template, refused_edit,
  accepted_edit, edited, has_template_id, after_edit, edit_with, is_editable, edit_found,
  update_template,
}
use beleevo_whatsapp.Whatsapp.Templates.Syncing.{
  sync_all, sync_done, sync_listed, sync_with, sync_templates,
}
use beleevo_whatsapp.Whatsapp.Templates.Kept.{
  IsReviewed, AreReviewed, update-AreReviewed, enqueue_unscheduled_purges-AreReviewed,
  bury-AreReviewed, remove_with-templates, purge_template-AreReviewed, verdict-IsReviewed, Leaves,
  store_template-AreReviewed, sync_all-AreReviewed,
}

-- The other parts of the program change the jobs and the connections.
pub data Step : Catalog → Catalog → Type 0 where
  create :
      (o : TemplateOutside) (shop : ℕ) (draft : TemplateDraft) (c : Catalog)
      → Step c (create_template o shop draft c).0
  edit :
      (o : TemplateOutside) (id : ℕ) (draft : TemplateDraft) (c : Catalog)
      → Step c (update_template o id draft c).0
  sync : (o : TemplateOutside) (shop : ℕ) (c : Catalog) → Step c (sync_templates o shop c).0
  schedule : (o : TemplateOutside) (c : Catalog) → Step c (enqueue_unscheduled_purges o c).0
  sweep : (o : TemplateOutside) (c : Catalog) → Step c (purge_expired_negative o c).0
  purge_job :
      (decode : String → Result PurgeNegativeTemplateJob) (o : TemplateOutside) (payload : String)
      (c : Catalog)
      → Step c (handle_purge_negative_template decode o payload c).0
  delete :
      (o : TemplateOutside) (t : TemplateRow) (c : Catalog) → Step c (delete_by_merchant o t c).0
  elsewhere :
      (jobs : List Row) (d : Directory) (c : Catalog)
      → Step c (record c { jobs = jobs; directory = d })

pub data Run (s : Catalog) : Catalog → Type 0 where
  start : Run s s
  next : {t u : Catalog} → Run s t → Step t u → Run s u

stored-AreReviewed :
    (o : TemplateOutside) (new : TemplateRow) (refused : Option Error) (c : Catalog)
    (r : Result (List TemplateRow))
    → Leaves r
    → AreReviewed c.templates
    → AreReviewed (stored o new refused c r).0.templates
stored-AreReviewed o new refused c (err e) done h = h
stored-AreReviewed o new refused c (ok rows) done h =
    elim (Bool-cases (negative_review new.approval_status new.marketing_flagged)) [
      | inl negative ↦
          rw negative
            (enqueue_unscheduled_purges-AreReviewed o (record c { templates = rows }) done)
      | inr good ↦ rw good done
    ]

submit_with-AreReviewed :
    (o : TemplateOutside) (shop : ℕ) (draft : TemplateDraft) (r : Result Credentials) (c : Catalog)
    → AreReviewed c.templates
    → AreReviewed (submit_with o shop draft r c).0.templates
submit_with-AreReviewed o shop draft (err e) c h = h
submit_with-AreReviewed o shop draft (ok creds) c h =
    let answer = o.meta_create creds draft in
    let new = submitted_row o shop draft answer in
    let c' : Catalog = record c { calls = c.calls ++ submit shop draft ∷ [] } in
    stored-AreReviewed o new answer.1 c' (store_template o.insert_failure new c.templates)
      (store_template-AreReviewed o.insert_failure new c.templates
        (verdict-IsReviewed new o.now refl) h)
      h

edited-AreReviewed :
    (failure : Option Error) (f : TemplateRow → TemplateRow) (id : ℕ)
    (k : Catalog → Result (Option TemplateRow)) (c : Catalog)
    → ((r : TemplateRow) → IsReviewed (f r))
    → ((shop : ℕ) (name language : String) (r : TemplateRow)
        → is_named shop name language (f r) ≡ is_named shop name language r)
    → AreReviewed c.templates
    → AreReviewed (edited failure has_template_id f id k c).0.templates
edited-AreReviewed (some e) f id k c fits named h = h
edited-AreReviewed none f id k c fits named h =
    update-AreReviewed (has_template_id id) f c.templates (λ r _ _. fits r) named h

refused-IsReviewed :
    (now : ℕ) (reason : String) (r : TemplateRow) → IsReviewed (refused_edit now reason r)
unfolding negative_review
refused-IsReviewed now reason r = inr (step r.marketing_flagged)
  where
    step : (b : Bool) → false ≡ not (if b then true else true)
    step true = refl
    step false = refl

accepted-IsReviewed :
    (now : ℕ) (draft : TemplateDraft) (r : TemplateRow) → IsReviewed (accepted_edit now draft r)
unfolding negative_review
accepted-IsReviewed now draft r = inr refl

after_edit-AreReviewed :
    (o : TemplateOutside) (id : ℕ) (draft : TemplateDraft) (e : Option Error) (c : Catalog)
    → AreReviewed c.templates
    → AreReviewed (after_edit o id draft e c).0.templates
after_edit-AreReviewed o id draft (some e) c h =
    edited-AreReviewed o.refuse_failure (refused_edit o.now (o.show e)) id _ c
      (refused-IsReviewed o.now (o.show e)) (λ shop name language r. refl) h
after_edit-AreReviewed o id draft none c h =
    edited-AreReviewed o.edit_failure (accepted_edit o.now draft) id _ c
      (accepted-IsReviewed o.now draft) (λ shop name language r. refl) h

edit_with-AreReviewed :
    (o : TemplateOutside) (t : TemplateRow) (draft : TemplateDraft) (r : Result Credentials)
    (c : Catalog)
    → AreReviewed c.templates
    → AreReviewed (edit_with o t draft r c).0.templates
edit_with-AreReviewed o t draft (err e) c h = h
edit_with-AreReviewed o t draft (ok creds) c h =
    after_edit-AreReviewed o t.id draft (o.meta_edit t.meta_template_id draft.components)
      (record c { calls = c.calls ++ MetaCall.edit t.meta_template_id draft.components ∷ [] }) h

edit_found-AreReviewed :
    (o : TemplateOutside) (draft : TemplateDraft) (r : Result (Option TemplateRow)) (c : Catalog)
    → AreReviewed c.templates
    → AreReviewed (edit_found o draft r c).0.templates
edit_found-AreReviewed o draft (err e) c h = h
edit_found-AreReviewed o draft (ok none) c h = h
edit_found-AreReviewed o draft (ok (some t)) c h = elim (Bool-cases (is_editable o t)) [
  | inl editable ↦ rw editable (edit_with-AreReviewed o t draft (connection o t.shop_id c) c h)
  | inr shut ↦ rw shut h
]

sync_with-AreReviewed :
    (o : TemplateOutside) (shop : ℕ) (r : Result Credentials) (c : Catalog)
    → AreReviewed c.templates
    → AreReviewed (sync_with o shop r c).0.templates
sync_with-AreReviewed o shop (err e) c h = h
sync_with-AreReviewed o shop (ok creds) c h = listed (o.meta_list creds)
  where
    ended :
        (x : List TemplateRow × Result ℕ)
        → AreReviewed x.0
        → AreReviewed (sync_done o c x).0.templates
    ended (rows, err e) k = k
    ended (rows, ok n) k =
        enqueue_unscheduled_purges-AreReviewed o (record c { templates = rows }) k

    listed : (r : Result (List MetaTemplate)) → AreReviewed (sync_listed o shop r c).0.templates
    listed (err e) = h
    listed (ok ms) =
        ended (sync_all o shop ms 0 c.templates) (sync_all-AreReviewed o shop ms 0 c.templates h)

purge_all-AreReviewed :
    (o : TemplateOutside) (rs : List TemplateRow) (c : Catalog)
    → AreReviewed c.templates
    → AreReviewed (purge_all o rs c).templates
unfolding purge_all
purge_all-AreReviewed o [] c h = h
purge_all-AreReviewed o (r ∷ rs) c h =
    purge_all-AreReviewed o rs (purge_template o (purge_job_of r) c).0
      (purge_template-AreReviewed o (purge_job_of r) c h)

purge_read-AreReviewed :
    (o : TemplateOutside) (e : Option Error) (c : Catalog)
    → AreReviewed c.templates
    → AreReviewed (purge_read o e c).0.templates
purge_read-AreReviewed o (some e) c h = h
purge_read-AreReviewed o none c h =
    purge_all-AreReviewed o (filter (is_expired o) (o.snapshot c.templates)) c h

purge_decoded-AreReviewed :
    (o : TemplateOutside) (r : Result PurgeNegativeTemplateJob) (c : Catalog)
    → AreReviewed c.templates
    → AreReviewed (purge_decoded o r c).0.templates
purge_decoded-AreReviewed o (err e) c h = h
purge_decoded-AreReviewed o (ok j) c h = found (
    query_row o.lookup_failure (
      find? (λ (r : TemplateRow). r.id == j.template_id && r.shop_id == j.shop_id)
        (o.snapshot c.templates)))
  where
    due : (at : Option ℕ) → AreReviewed (purge_due o j at c).0.templates
    due none = h
    due (some at) = elim (Bool-cases (ltb o.now (at + o.grace))) [
      | inl early ↦ rw early h
      | inr late ↦ rw late (purge_template-AreReviewed o j c h)
    ]

    found : (r : Result TemplateRow) → AreReviewed (purge_found o j r c).0.templates
    found (err e) = h
    found (ok r) = due r.negative_at

Step-AreReviewed : {s t : Catalog} → Step s t → AreReviewed s.templates → AreReviewed t.templates
unfolding create_template update_template sync_templates purge_expired_negative
    handle_purge_negative_template delete_by_merchant
Step-AreReviewed (create o shop draft c) h =
    submit_with-AreReviewed o shop draft (connection o shop c) c h
Step-AreReviewed (Step.edit o id draft c) h =
    edit_found-AreReviewed o draft (template_by_id o.lookup_failure id (o.snapshot c.templates)) c h
Step-AreReviewed (sync o shop c) h = sync_with-AreReviewed o shop (connection o shop c) c h
Step-AreReviewed (schedule o c) h = enqueue_unscheduled_purges-AreReviewed o c h
Step-AreReviewed (sweep o c) h = purge_read-AreReviewed o o.expired_failure c h
Step-AreReviewed (purge_job decode o payload c) h = purge_decoded-AreReviewed o (decode payload) c h
Step-AreReviewed (delete o t c) h =
    let r = connection o t.shop_id c in
    bury-AreReviewed o t.id t.shop_id (remove_with t.shop_id t.name t.language r c)
      (rw (remove_with-templates t.shop_id t.name t.language r c) h)
Step-AreReviewed (elsewhere jobs d c) h = h

-- Over any sequence of submissions, edits, syncs, sweeps, purge jobs and removals, whatever Meta
-- answers, whatever fails and however stale the reads are: from an empty table, every row is deleted
-- or has a time in `negative_at` exactly where Meta's verdict on it is negative, and a shop has one
-- row at most of a name and a language.
pub Run-AreReviewed : {s t : Catalog} → s.templates ≡ [] → Run s t → AreReviewed t.templates
Run-AreReviewed empty start = rw empty (tt, λ shop name language. omega arith)
Run-AreReviewed empty (next run step) = Step-AreReviewed step (Run-AreReviewed empty run)
