-- ===== src/Whatsapp/Templates/Kept.antt =====
-- What every statement of internal/whatsapp/templates.go and purge.go keeps of the table `templates`.
use beleevo_whatsapp.Prelude.{
  string_eq, nat_eq, ◌==◌, not, if◌then◌else◌, Bool-cases, filter, any, update, count, is_none, All,
  count-append, count-update, any-count, All-append, All-update, Error, Result, ok, err, exec, ℕ,
  ◌+◌, ◌≤◌, String, ◌≡◌, refl, ◌⊎◌, inl, inr, Bool, true, false, Option, none, some, List, [], ◌∷◌,
  ◌++◌, arith, eq_iff,
}
use beleevo_whatsapp.Queue.{Row}
use beleevo_whatsapp.Whatsapp.Directory.{Credentials}
use beleevo_whatsapp.Whatsapp.Templates.{
  TemplateRow, negative_review, Catalog, MetaTemplate, PurgeNegativeTemplateJob, TemplateOutside,
  connection,
}
use beleevo_whatsapp.Whatsapp.Templates.Purges.{
  enqueue_purge, is_unscheduled, scheduled, stamp, schedule_at, go_on, schedule_all, schedule_read,
  enqueue_unscheduled_purges, tombstone, is_live_row, remove_with, bury, purge_template,
}
use beleevo_whatsapp.Whatsapp.Templates.Reviews.{
  is_named, resubmitted, store_template, negative_at_expr,
}
use beleevo_whatsapp.Whatsapp.Templates.Syncing.{
  negative_of, coalesce_now, reviewed, is_changed, unless_failed, sync_all,
}

abbrev pub is_negative : TemplateRow → Bool
is_negative r = negative_review r.approval_status r.marketing_flagged

-- The row is deleted, or `negative_at` is set exactly where Meta's verdict is negative.
abbrev pub IsReviewed : TemplateRow → Type 0
IsReviewed r = (r.approval_status ≡ "deleted") ⊎ (is_none r.negative_at ≡ not (is_negative r))

-- Every row is reviewed, and a shop has one row at most of a name and a language.
abbrev pub AreReviewed : List TemplateRow → Type 0
AreReviewed rows =
    All IsReviewed rows
    × ((shop : ℕ) (name language : String) → count (is_named shop name language) rows ≤ 1)

pub update-AreReviewed :
    (q : TemplateRow → Bool) (f : TemplateRow → TemplateRow) (rows : List TemplateRow)
    → ((r : TemplateRow) → q r ≡ true → IsReviewed r → IsReviewed (f r))
    → ((shop : ℕ) (name language : String) (r : TemplateRow)
        → is_named shop name language (f r) ≡ is_named shop name language r)
    → AreReviewed rows
    → AreReviewed (update q f rows)
update-AreReviewed q f rows keep named (all, one) = (
  All-update IsReviewed q f keep rows all,
  λ shop name language.
      rw (count-update (is_named shop name language) q f (named shop name language) rows)
        (one shop name language),
)

exec-AreReviewed :
    (failure : Option Error) (before after : List TemplateRow)
    → AreReviewed before
    → AreReviewed after
    → AreReviewed (exec failure before after)
exec-AreReviewed none before after h h' = h'
exec-AreReviewed (some e) before after h h' = h

stamp-AreReviewed :
    (o : TemplateOutside) (id : ℕ) (c : Catalog) (e : List Row × Option Error)
    → AreReviewed c.templates
    → AreReviewed (stamp o id c e).0.templates
stamp-AreReviewed o id c (jobs, some e) h = h
stamp-AreReviewed o id c (jobs, none) h =
    exec-AreReviewed (o.stamp_failure id) c.templates
      (update (λ r. r.id == id) (scheduled o.now) c.templates) h
      (update-AreReviewed (λ r. r.id == id) (scheduled o.now) c.templates (λ r _ k. k)
        (λ shop name language r. refl) h)

schedule_at-AreReviewed :
    (o : TemplateOutside) (r : TemplateRow) (at : Option ℕ) (c : Catalog)
    → AreReviewed c.templates
    → AreReviewed (schedule_at o r at c).0.templates
schedule_at-AreReviewed o r none c h = h
schedule_at-AreReviewed o r (some at) c h =
    stamp-AreReviewed o r.id c (enqueue_purge o r at c.jobs) h

go_on-AreReviewed :
    (x : Catalog × Option Error) (k : Catalog → Catalog × Option Error)
    → ((c : Catalog) → AreReviewed c.templates → AreReviewed (k c).0.templates)
    → AreReviewed x.0.templates
    → AreReviewed (go_on x k).0.templates
go_on-AreReviewed (c, some e) k keep h = h
go_on-AreReviewed (c, none) k keep h = keep c h

schedule_all-AreReviewed :
    (o : TemplateOutside) (rs : List TemplateRow) (c : Catalog)
    → AreReviewed c.templates
    → AreReviewed (schedule_all o rs c).0.templates
unfolding schedule_all
schedule_all-AreReviewed o [] c h = h
schedule_all-AreReviewed o (r ∷ rs) c h =
    go_on-AreReviewed (schedule_at o r r.negative_at c) (schedule_all o rs)
      (schedule_all-AreReviewed o rs) (schedule_at-AreReviewed o r r.negative_at c h)

schedule_read-AreReviewed :
    (o : TemplateOutside) (e : Option Error) (c : Catalog)
    → AreReviewed c.templates
    → AreReviewed (schedule_read o e c).0.templates
schedule_read-AreReviewed o (some e) c h = h
schedule_read-AreReviewed o none c h =
    schedule_all-AreReviewed o (filter is_unscheduled (o.snapshot c.templates)) c h

pub enqueue_unscheduled_purges-AreReviewed :
    (o : TemplateOutside) (c : Catalog)
    → AreReviewed c.templates
    → AreReviewed (enqueue_unscheduled_purges o c).0.templates
unfolding enqueue_unscheduled_purges
enqueue_unscheduled_purges-AreReviewed o c h = schedule_read-AreReviewed o o.unscheduled_failure c h

pub bury-AreReviewed :
    (o : TemplateOutside) (id shop : ℕ) (c : Catalog)
    → AreReviewed c.templates
    → AreReviewed (bury o id shop c).templates
bury-AreReviewed o id shop c h =
    exec-AreReviewed (o.purge_failure id) c.templates
      (update (is_live_row id shop) (tombstone o.now) c.templates) h
      (update-AreReviewed (is_live_row id shop) (tombstone o.now) c.templates (λ r _ _. inl refl)
        (λ shop name language r. refl) h)

pub remove_with-templates :
    (shop : ℕ) (name language : String) (r : Result Credentials) (c : Catalog)
    → (remove_with shop name language r c).templates ≡ c.templates
remove_with-templates shop name language (err e) c = refl
remove_with-templates shop name language (ok k) c = refl

pub purge_template-AreReviewed :
    (o : TemplateOutside) (j : PurgeNegativeTemplateJob) (c : Catalog)
    → AreReviewed c.templates
    → AreReviewed (purge_template o j c).0.templates
unfolding purge_template
purge_template-AreReviewed o j c h =
    let r = connection o j.shop_id c in
    bury-AreReviewed o j.template_id j.shop_id (remove_with j.shop_id j.name j.language r c)
      (rw (remove_with-templates j.shop_id j.name j.language r c) h)

-- A verdict and its time, as a submission and a resubmission write them.
pub verdict-IsReviewed :
    (r : TemplateRow) (now : ℕ)
    → r.negative_at ≡ negative_at_expr (is_negative r) now
    → IsReviewed r
verdict-IsReviewed r now e = inr (rw e (step (is_negative r)))
  where
    step : (b : Bool) → is_none (negative_at_expr b now) ≡ not b
    step true = refl
    step false = refl

not_named-count :
    (s shop : ℕ) (n name l language : String) (rows : List TemplateRow)
    → s ≡ shop
    → n ≡ name
    → l ≡ language
    → any (is_named s n l) rows ≡ false
    → count (is_named shop name language) rows ≡ 0
not_named-count s shop n name l language rows es en el none_named =
    any-count (is_named shop name language) rows (rw (← es, ← en, ← el) none_named)

-- A row is added where no row of its shop has its name and language.
append-AreReviewed :
    (new : TemplateRow) (rows : List TemplateRow)
    → IsReviewed new
    → any (is_named new.shop_id new.name new.language) rows ≡ false
    → AreReviewed rows
    → AreReviewed (rows ++ new ∷ [])
append-AreReviewed new rows fits none_named (all, one) = (
  All-append IsReviewed rows (new ∷ []) all (fits, tt),
  λ shop name language.
      rw (count-append (is_named shop name language) rows (new ∷ []))
        (elim (Bool-cases (is_named shop name language new)) [
          | inl same ↦
              let zero_rows =
                not_named-count new.shop_id shop new.name name new.language language rows
                  (ground (arith, same, eq_iff new.name name, eq_iff new.language language))
                  (ground (arith, same, eq_iff new.name name, eq_iff new.language language))
                  (ground (arith, same, eq_iff new.name name, eq_iff new.language language))
                  none_named in
              rw (same, zero_rows) (omega arith)
          | inr other ↦ rw other (omega (arith, one shop name language))
        ]),
)

-- What holds of the table that a statement leaves, where it succeeds.
abbrev pub Leaves : Result (List TemplateRow) → Type 0
Leaves (ok rows) = AreReviewed rows
Leaves (err e) = Unit

pub store_template-AreReviewed :
    (failure : Option Error) (new : TemplateRow) (rows : List TemplateRow)
    → IsReviewed new
    → AreReviewed rows
    → Leaves (store_template failure new rows)
unfolding store_template
store_template-AreReviewed (some e) new rows fits h = tt
store_template-AreReviewed none new rows fits h =
    let named = is_named new.shop_id new.name new.language in
    elim (Bool-cases (any named rows)) [
      | inl hit ↦ rw hit (
          update-AreReviewed named (resubmitted new) rows (λ r _ _. fits)
            (λ shop name language r. refl) h)
      | inr miss ↦ elim (Bool-cases (any (λ (r : TemplateRow). r.id == new.id) rows)) [
        | inl clash ↦ rw (miss, clash) tt
        | inr free ↦ rw (miss, free) (append-AreReviewed new rows fits miss h)
      ]
    ]

reviewed-IsReviewed : (now : ℕ) (m : MetaTemplate) (r : TemplateRow) → IsReviewed (reviewed now m r)
unfolding reviewed
reviewed-IsReviewed now m r = inr (step (negative_of m) r.negative_at)
  where
    step : (b : Bool) (at : Option ℕ) → is_none (if b then coalesce_now at now else none) ≡ not b
    step true none = refl
    step true (some at) = refl
    step false at = refl

unless_failed-AreReviewed :
    (failure : Option Error) (before : List TemplateRow) (rest : List TemplateRow × Result ℕ)
    → AreReviewed before
    → AreReviewed rest.0
    → AreReviewed (unless_failed failure before rest).0
unless_failed-AreReviewed none before rest h h' = h'
unless_failed-AreReviewed (some e) before rest h h' = h

pub sync_all-AreReviewed :
    (o : TemplateOutside) (shop : ℕ) (ms : List MetaTemplate) (n : ℕ) (rows : List TemplateRow)
    → AreReviewed rows
    → AreReviewed (sync_all o shop ms n rows).0
unfolding sync_all reviewed
sync_all-AreReviewed o shop [] n rows h = h
sync_all-AreReviewed o shop (m ∷ ms) n rows h =
    let rows' = update (is_changed shop m) (reviewed o.now m) rows in
    let n' = n + count (is_changed shop m) rows in
    unless_failed-AreReviewed (o.sync_failure m) rows (sync_all o shop ms n' rows') h (
      sync_all-AreReviewed o shop ms n' rows' (
        update-AreReviewed (is_changed shop m) (reviewed o.now m) rows
          (λ r _ _. reviewed-IsReviewed o.now m r) (λ shop' name language r. refl) h))
