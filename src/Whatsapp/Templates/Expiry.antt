-- ===== src/Whatsapp/Templates/Expiry.antt =====
-- Which templates the purges of internal/whatsapp/purge.go delete, and which a merchant may edit.
use beleevo_whatsapp.Prelude.{
  ltb, string_eq, nat_eq, ◌==◌, not, if◌then◌else◌, Bool-cases, length, filter, find?, any, update,
  count, is_none, All, All-imp, update_none, update-update, update-congr, filter-congr, Error,
  Result, ok, err, exec, found_row, ℕ, ◌+◌, ◌-◌, ◌%◌, ◌≤◌, String, ◌≡◌, refl, sym, ap, ◌∙◌, inl,
  inr, Bool, true, false, ◌&&◌, ◌||◌, Option, none, some, List, [], ◌∷◌, arith, eq_iff,
}
use beleevo_whatsapp.Whatsapp.Templates.{
  TemplateRow, TemplateDraft, negative_review, remaining, template_grace_remaining, template_by_id,
  Catalog, PurgeNegativeTemplateJob, TemplateOutside, connection,
}
use beleevo_whatsapp.Whatsapp.Templates.Purges.{
  is_live, purge_job_of, tombstone, is_live_row, remove_with, purge_template, pg_interval, is_older,
  is_expired, purge_all, purge_read, purge_expired_negative, purge_due,
  handle_purge_negative_template,
}
use beleevo_whatsapp.Queue.{second}
use beleevo_whatsapp.Whatsapp.Templates.Kept.{is_negative, IsReviewed, remove_with-templates}
use beleevo_whatsapp.Whatsapp.Templates.Reviews.{
  template_not_editable, is_editable, update_template,
}
use beleevo_whatsapp.Whatsapp.Templates.Deletion.{is_target, deleted, purge_template_exact, gone}

-- The sweep's loop reaches the row: one of the rows of the loop is its row, and the write succeeds.
abbrev pub is_reached : TemplateOutside → List TemplateRow → TemplateRow → Bool
is_reached o rs r =
    is_live r
    && any
        (λ (x : TemplateRow).
          (r.id == x.id && r.shop_id == x.shop_id) && is_none (o.purge_failure x.id))
        rs

reached_first :
    (hit live more : Bool) → (live && (hit && true || more)) ≡ (hit && live || live && more)
reached_first true true more = refl
reached_first true false more = refl
reached_first false true more = refl
reached_first false false more = refl

reached_later : (hit live more : Bool) → (live && more) ≡ (live && (hit && false || more))
reached_later true true more = refl
reached_later true false more = refl
reached_later false true more = refl
reached_later false false more = refl

reached_none : (live : Bool) → (live && false) ≡ false
reached_none true = refl
reached_none false = refl

-- One turn of the sweep, and the turns after it.
turn_exact :
    (o : TemplateOutside) (x : TemplateRow) (rs ts : List TemplateRow) (e : Option Error)
    → o.purge_failure x.id ≡ e
    → update
        (is_reached o rs)
        (tombstone o.now)
        (exec e ts (update (is_live_row x.id x.shop_id) (tombstone o.now) ts))
      ≡ update (is_reached o (x ∷ rs)) (tombstone o.now) ts
turn_exact o x rs ts none done =
    update-update (is_live_row x.id x.shop_id) (is_reached o rs) (is_reached o (x ∷ rs))
      (tombstone o.now) (λ r. refl)
      (λ r. rw done (
        reached_first (r.id == x.id && r.shop_id == x.shop_id) (is_live r) (
          any
            (λ (y : TemplateRow).
              (r.id == y.id && r.shop_id == y.shop_id) && is_none (o.purge_failure y.id))
            rs)))
      ts
turn_exact o x rs ts (some e) failed =
    update-congr (is_reached o rs) (is_reached o (x ∷ rs)) (tombstone o.now)
      (λ r. rw failed (
        reached_later (r.id == x.id && r.shop_id == x.shop_id) (is_live r) (
          any
            (λ (y : TemplateRow).
              (r.id == y.id && r.shop_id == y.shop_id) && is_none (o.purge_failure y.id))
            rs)))
      ts

purge_all_exact :
    (o : TemplateOutside) (rs : List TemplateRow) (c : Catalog)
    → (purge_all o rs c).templates ≡ update (is_reached o rs) (tombstone o.now) c.templates
unfolding purge_all purge_template
purge_all_exact o [] c =
    sym
      (update_none (is_reached o []) (tombstone o.now) (λ r. reached_none (is_live r)) c.templates)
purge_all_exact o (x ∷ rs) c =
    let removed = remove_with x.shop_id x.name x.language (connection o x.shop_id c) c in
    let kept = remove_with-templates x.shop_id x.name x.language (connection o x.shop_id c) c in
    purge_all_exact o rs (purge_template o (purge_job_of x) c).0
    ∙ turn_exact o x rs removed.templates (o.purge_failure x.id) refl
    ∙ ap (update (is_reached o (x ∷ rs)) (tombstone o.now)) kept

-- The window in which a merchant may edit the row is over.
abbrev pub is_closed : (grace now : ℕ) → TemplateRow → Bool
is_closed grace now r = is_negative r && is_none (template_grace_remaining r grace now)

closed_since :
    (at : Option ℕ) (negative : Bool) (grace now : ℕ)
    → is_none at ≡ not negative
    → 1 ≤ now
    → is_older at grace now
      ≡ (negative && is_none (if not negative then none else remaining at grace (now - 1)))
closed_since none true grace now e h = cc
closed_since none false grace now e h = refl
closed_since (some at) true grace now e h = ground arith
closed_since (some at) false grace now e h = cc

never_live : (a b c : Bool) → (a && false) ≡ (b && c && false)
never_live true true true = refl
never_live true true false = refl
never_live true false c = refl
never_live false true true = refl
never_live false true false = refl
never_live false false c = refl

is_expired-closed :
    (o : TemplateOutside) (r : TemplateRow)
    → o.grace % second ≡ 0
    → 1 ≤ o.now
    → IsReviewed r
    → is_expired o r ≡ (is_closed o.grace (o.now - 1) r && is_live r)
unfolding template_grace_remaining
is_expired-closed o r whole h (inl deleted) = rw deleted (
    never_live (is_older r.negative_at (pg_interval o.grace) o.now)
      (negative_review "deleted" r.marketing_flagged) _)
is_expired-closed o r whole h (inr reviewed) =
    let same : pg_interval o.grace ≡ o.grace = omega (arith, whole) in
    rw (same, closed_since r.negative_at (is_negative r) o.grace o.now reviewed h) refl

-- The rows that the sweep finds: live, with a verdict that is negative, and a window that was over
-- before now.
abbrev pub closed_rows : TemplateOutside → Catalog → List TemplateRow
closed_rows o c =
    filter (λ r. is_closed o.grace (o.now - 1) r && is_live r) (o.snapshot c.templates)

read_exact :
    (o : TemplateOutside) (e : Option Error) (c : Catalog)
    → e ≡ none
    → filter (is_expired o) (o.snapshot c.templates) ≡ closed_rows o c
    → ((purge_read o e c).0.templates
        ≡ update (is_reached o (closed_rows o c)) (tombstone o.now) c.templates)
      × ((purge_read o e c).1 ≡ ok (length (closed_rows o c)))
read_exact o (some e) c read same = absurd (cc read)
read_exact o none c read same = rw same (purge_all_exact o (closed_rows o c) c, refl)

-- Where the window is a whole number of seconds, the sweep counts the rows of the table that it read
-- whose window was over before now, and turns into deleted rows exactly those rows of the table that
-- are live, are among them by id and shop, and whose write succeeds; every other row stays as it is.
-- The rows that it read are reviewed, and the time is not 0.
pub purge_expired_negative_exact :
    (o : TemplateOutside) (c : Catalog)
    → o.expired_failure ≡ none
    → o.grace % second ≡ 0
    → 1 ≤ o.now
    → All IsReviewed (o.snapshot c.templates)
    → ((purge_expired_negative o c).0.templates
        ≡ update (is_reached o (closed_rows o c)) (tombstone o.now) c.templates)
      × ((purge_expired_negative o c).1 ≡ ok (length (closed_rows o c)))
unfolding purge_expired_negative
purge_expired_negative_exact o c read whole later reviewed =
    let same =
      filter-congr (is_expired o) (λ r. is_closed o.grace (o.now - 1) r && is_live r)
        (o.snapshot c.templates)
        (All-imp IsReviewed (λ r. is_expired o r ≡ (is_closed o.grace (o.now - 1) r && is_live r))
          (o.snapshot c.templates) (λ r h. is_expired-closed o r whole later h) reviewed) in
    read_exact o o.expired_failure c read same

due_exact :
    (o : TemplateOutside) (j : PurgeNegativeTemplateJob) (at : Option ℕ) (negative : Bool)
    (c : Catalog)
    → is_none at ≡ not negative
    → purge_due o j at c ≡ (
        if negative && is_none (if not negative then none else remaining at o.grace o.now)
        then purge_template o j c
        else (c, none))
due_exact o j none true c e = cc
due_exact o j none false c e = refl
due_exact o j (some at) true c e = elim (Bool-cases (ltb o.now (at + o.grace))) [
  | inl early ↦ rw early refl
  | inr late ↦ rw late refl
]
due_exact o j (some at) false c e = cc

live-verdict :
    (r : TemplateRow)
    → is_live r ≡ true
    → IsReviewed r
    → is_none r.negative_at ≡ not (is_negative r)
live-verdict r live (inl deleted) = absurd (ground (arith, eq_iff r.approval_status "deleted"))
live-verdict r live (inr verdict) = verdict

closed_out :
    (known negative : Bool) (left : Option ℕ)
    → (negative && is_none (if not negative then none else left)) ≡ true
    → (known && not (is_none (if not negative then none else left))) ≡ false
closed_out true true none h = refl
closed_out true true (some d) h = absurd (cc h)
closed_out true false left h = refl
closed_out false negative left h = refl

not_editable :
    (o : TemplateOutside) (r : TemplateRow)
    → is_closed o.grace o.now r ≡ true
    → is_editable o r ≡ false
unfolding template_grace_remaining
not_editable o r closed =
    closed_out (not (r.id == 0 || r.meta_template_id == "")) (is_negative r)
      (remaining r.negative_at o.grace o.now) closed

purge_job_runs :
    (decode : String → Result PurgeNegativeTemplateJob) (o : TemplateOutside) (payload : String)
    (c : Catalog) (j : PurgeNegativeTemplateJob) (r : TemplateRow)
    → decode payload ≡ ok j
    → o.lookup_failure ≡ none
    → find?
        (λ (t : TemplateRow). t.id == j.template_id && t.shop_id == j.shop_id)
        (o.snapshot c.templates)
      ≡ some r
    → is_live r ≡ true
    → IsReviewed r
    → handle_purge_negative_template decode o payload c
      ≡ (if is_closed o.grace o.now r then purge_template o j c else (c, none))
unfolding handle_purge_negative_template template_grace_remaining
purge_job_runs decode o payload c j r decoded looked found live reviewed =
    let row =
      found_row o.lookup_failure
        (find? (λ (t : TemplateRow). t.id == j.template_id && t.shop_id == j.shop_id)
          (o.snapshot c.templates))
        r looked found in
    rw (decoded, row) (due_exact o j r.negative_at (is_negative r) c (live-verdict r live reviewed))

-- The purge job of a live, reviewed template, which its lookup finds. Where Meta's verdict is negative
-- and the window of its merchant is over, and the write succeeds, every row of the template is deleted
-- and keeps no time of a verdict or of a purge, every other row stays as it is, and the job ends without
-- an error; where the verdict is not negative or the window is not over, the job changes nothing. And
-- where the job may delete, an edit by the merchant, whose lookup finds the same row at the same time,
-- is refused and changes nothing.
pub purge_job_exact :
    (decode : String → Result PurgeNegativeTemplateJob) (o : TemplateOutside) (payload : String)
    (c : Catalog) (j : PurgeNegativeTemplateJob) (r : TemplateRow) (draft : TemplateDraft)
    → decode payload ≡ ok j
    → o.lookup_failure ≡ none
    → o.purge_failure j.template_id ≡ none
    → find?
        (λ (t : TemplateRow). t.id == j.template_id && t.shop_id == j.shop_id)
        (o.snapshot c.templates)
      ≡ some r
    → find? (λ (t : TemplateRow). t.id == j.template_id) (o.snapshot c.templates) ≡ some r
    → is_live r ≡ true
    → IsReviewed r
    → let (c', e) = handle_purge_negative_template decode o payload c in
      (is_closed o.grace o.now r ≡ true
        → (c'.templates ≡ deleted o.now j c.templates)
          × (count (is_target j) c'.templates ≡ 0)
          × (c'.jobs ≡ c.jobs)
          × (e ≡ none)
          × (update_template o j.template_id draft c ≡ (c, err template_not_editable)))
      × (is_closed o.grace o.now r ≡ false → (c' ≡ c) × (e ≡ none))
unfolding update_template template_by_id
purge_job_exact decode o payload c j r draft decoded looked writes found found' live reviewed =
    let run = purge_job_runs decode o payload c j r decoded looked found live reviewed in
    (
      λ closed.
          let ran : handle_purge_negative_template decode o payload c ≡ purge_template o j c =
            run ∙ rw closed refl in
          let (templates, jobs, ended) = purge_template_exact o j c writes in
          (
            rw ran templates,
            rw (ran, templates) (gone o.now j c.templates),
            rw ran jobs,
            rw ran ended,
            rw (looked, found', not_editable o r closed) refl,
          ),
      λ early.
          let ran : handle_purge_negative_template decode o payload c ≡ (c, none) =
            run ∙ rw early refl in
          rw ran (refl, refl),
    )
