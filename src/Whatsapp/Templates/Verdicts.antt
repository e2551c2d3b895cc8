-- ===== src/Whatsapp/Templates/Verdicts.antt =====
-- What a sync of internal/whatsapp/templates.go leaves of Meta's verdicts.
use beleevo_whatsapp.Prelude.{
  string_eq, nat_eq, ◌==◌, not, ◌!=◌, if◌then◌else◌, ==_refl, Bool-cases, and_false, filter, update,
  count, is_none, All, count-update, Member, Error, Result, ok, err, exec, ℕ, ◌+◌, ◌≡◌, refl, ◌∙◌,
  inl, inr, Bool, true, false, ◌&&◌, ◌||◌, Option, none, some, List, [], ◌∷◌, arith, eq_iff,
}
use beleevo_whatsapp.Whatsapp.Templates.{
  TemplateRow, Catalog, MetaTemplate, TemplateOutside, connection,
}
use beleevo_whatsapp.Whatsapp.Templates.Reviews.{is_named}
use beleevo_whatsapp.Whatsapp.Templates.Syncing.{
  approval_of, marketing_of, negative_of, same_bool, verdict_differs, coalesce_now, reviewed,
  is_changed, sync_all, sync_done, sync_templates,
}
use beleevo_whatsapp.Queue.{Row}
use beleevo_whatsapp.Whatsapp.Directory.{Credentials}
use beleevo_whatsapp.Whatsapp.Templates.Purges.{
  enqueue_purge, is_unscheduled, scheduled, stamp, schedule_at, go_on, schedule_all, schedule_read,
  enqueue_unscheduled_purges,
}

-- A row of the shop that has the name and the language, and not the verdict.
abbrev pub is_stale : (shop : ℕ) → MetaTemplate → TemplateRow → Bool
is_stale shop m r = is_named shop m.name m.language r && verdict_differs m r

same_bool_refl : (b : Bool) → same_bool b b ≡ true
same_bool_refl true = refl
same_bool_refl false = refl

negative_time :
    (b : Bool) (at : Option ℕ) (now : ℕ)
    → same_bool (not (is_none (if b then coalesce_now at now else none))) b ≡ true
negative_time true none now = refl
negative_time true (some at) now = refl
negative_time false at now = refl

reviewed-fresh :
    (now : ℕ) (m : MetaTemplate) (r : TemplateRow) → verdict_differs m (reviewed now m r) ≡ false
unfolding reviewed
reviewed-fresh now m r =
    let approval = ==_refl (approval_of m) in
    let reason = ==_refl m.rejected_reason in
    let time = negative_time (negative_of m) r.negative_at now in
    rw (approval, reason, same_bool_refl (marketing_of m), time) refl

unchanged-fresh : (n d i : Bool) → (n && (d || i)) ≡ false → (n && d) ≡ false
unchanged-fresh true true i h = h
unchanged-fresh true false i h = refl
unchanged-fresh false d i h = refl

turn-fresh :
    (shop now : ℕ) (m : MetaTemplate) (rows : List TemplateRow)
    → count (is_stale shop m) (update (is_changed shop m) (reviewed now m) rows) ≡ 0
turn-fresh shop now m [] = refl
turn-fresh shop now m (r ∷ rows) = elim (Bool-cases (is_changed shop m r)) [
  | inl changed ↦
      rw
        (
          changed,
          reviewed-fresh now m r,
          and_false (is_named shop m.name m.language (reviewed now m r)),
          turn-fresh shop now m rows,
        )
        refl
  | inr same ↦
      rw
        (
          same,
          unchanged-fresh (is_named shop m.name m.language r) (verdict_differs m r)
              (r.meta_template_id != m.id) same,
          turn-fresh shop now m rows,
        )
        refl
]

abbrev pub same_name : MetaTemplate → MetaTemplate → Bool
same_name m x = m.name == x.name && m.language == x.language

-- The list has one template at most of a name and a language.
abbrev pub AreDistinct : List MetaTemplate → Type 0
AreDistinct [] = Unit
AreDistinct (m ∷ ms) = All (λ x. same_name m x ≡ false) ms × AreDistinct ms

other-turn :
    (shop now : ℕ) (m x : MetaTemplate) (rows : List TemplateRow)
    → same_name m x ≡ false
    → count (is_stale shop m) (update (is_changed shop x) (reviewed now x) rows)
      ≡ count (is_stale shop m) rows
unfolding reviewed
other-turn shop now m x [] other = refl
other-turn shop now m x (r ∷ rows) other = elim (Bool-cases (is_changed shop x r)) [
  | inl changed ↦
      let unnamed : is_named shop m.name m.language r ≡ false = ground (
        arith,
        other,
        changed,
        eq_iff r.name m.name,
        eq_iff r.name x.name,
        eq_iff r.language m.language,
        eq_iff r.language x.language,
        eq_iff m.name x.name,
        eq_iff m.language x.language,
      ) in
      rw (changed, unnamed, other-turn shop now m x rows other) refl
  | inr same ↦ rw (same, other-turn shop now m x rows other) refl
]

-- The turns of the loop on other templates.
others-fresh :
    (o : TemplateOutside) (shop : ℕ) (m : MetaTemplate) (ms : List MetaTemplate) (n : ℕ)
    (rows : List TemplateRow)
    → ((x : MetaTemplate) → o.sync_failure x ≡ none)
    → All (λ x. same_name m x ≡ false) ms
    → count (is_stale shop m) (sync_all o shop ms n rows).0 ≡ count (is_stale shop m) rows
unfolding sync_all
others-fresh o shop m [] n rows done others = refl
others-fresh o shop m (x ∷ ms) n rows done (other, others) = rw (done x) (
    others-fresh o shop m ms (n + count (is_changed shop x) rows)
      (update (is_changed shop x) (reviewed o.now x) rows) done others
    ∙ other-turn shop o.now m x rows other)

sync_all-fresh :
    (o : TemplateOutside) (shop : ℕ) (m : MetaTemplate) (ms : List MetaTemplate) (n : ℕ)
    (rows : List TemplateRow)
    → ((x : MetaTemplate) → o.sync_failure x ≡ none)
    → AreDistinct ms
    → Member m ms
    → count (is_stale shop m) (sync_all o shop ms n rows).0 ≡ 0
unfolding sync_all
sync_all-fresh o shop m [] n rows done distinct member = elim member [ ]
sync_all-fresh o shop m (_ ∷ ms) n rows done (others, distinct) Member.here = rw (done m) (
    others-fresh o shop m ms (n + count (is_changed shop m) rows)
      (update (is_changed shop m) (reviewed o.now m) rows) done others
    ∙ turn-fresh shop o.now m rows)
sync_all-fresh o shop m (x ∷ ms) n rows done (others, distinct) (Member.there member) =
    rw (done x) (
      sync_all-fresh o shop m ms (n + count (is_changed shop x) rows)
        (update (is_changed shop x) (reviewed o.now x) rows) done distinct member)

sync_all_ends :
    (o : TemplateOutside) (shop : ℕ) (ms : List MetaTemplate) (n : ℕ) (rows : List TemplateRow)
    → ((x : MetaTemplate) → o.sync_failure x ≡ none)
    → (k : ℕ) × ((sync_all o shop ms n rows).1 ≡ ok k)
unfolding sync_all
sync_all_ends o shop [] n rows done = (n, refl)
sync_all_ends o shop (x ∷ ms) n rows done = rw (done x) (
    sync_all_ends o shop ms (n + count (is_changed shop x) rows)
      (update (is_changed shop x) (reviewed o.now x) rows) done)

-- Scheduling changes nothing but the time at which a purge was scheduled.
module _ (q : TemplateRow → Bool)
    (blind : (now : ℕ) (r : TemplateRow) → q (scheduled now r) ≡ q r) where
  exec-count :
      (failure : Option Error) (before after : List TemplateRow)
      → count q after ≡ count q before
      → count q (exec failure before after) ≡ count q before
  exec-count none before after h = h
  exec-count (some e) before after h = refl

  stamp-count :
      (o : TemplateOutside) (id : ℕ) (c : Catalog) (e : List Row × Option Error)
      → count q (stamp o id c e).0.templates ≡ count q c.templates
  stamp-count o id c (jobs, some e) = refl
  stamp-count o id c (jobs, none) =
      exec-count (o.stamp_failure id) c.templates
        (update (λ r. r.id == id) (scheduled o.now) c.templates)
        (count-update q (λ r. r.id == id) (scheduled o.now) (blind o.now) c.templates)

  schedule_at-count :
      (o : TemplateOutside) (r : TemplateRow) (at : Option ℕ) (c : Catalog)
      → count q (schedule_at o r at c).0.templates ≡ count q c.templates
  schedule_at-count o r none c = refl
  schedule_at-count o r (some at) c = stamp-count o r.id c (enqueue_purge o r at c.jobs)

  go_on-count :
      (x : Catalog × Option Error) (k : Catalog → Catalog × Option Error)
      → ((c : Catalog) → count q (k c).0.templates ≡ count q c.templates)
      → count q (go_on x k).0.templates ≡ count q x.0.templates
  go_on-count (c, some e) k h = refl
  go_on-count (c, none) k h = h c

  schedule_all-count :
      (o : TemplateOutside) (rs : List TemplateRow) (c : Catalog)
      → count q (schedule_all o rs c).0.templates ≡ count q c.templates
  unfolding schedule_all
  schedule_all-count o [] c = refl
  schedule_all-count o (r ∷ rs) c =
      go_on-count (schedule_at o r r.negative_at c) (schedule_all o rs) (schedule_all-count o rs)
      ∙ schedule_at-count o r r.negative_at c

  schedule_read-count :
      (o : TemplateOutside) (e : Option Error) (c : Catalog)
      → count q (schedule_read o e c).0.templates ≡ count q c.templates
  schedule_read-count o (some e) c = refl
  schedule_read-count o none c =
      schedule_all-count o (filter is_unscheduled (o.snapshot c.templates)) c

sync_done-fresh :
    (o : TemplateOutside) (shop : ℕ) (m : MetaTemplate) (c : Catalog)
    (x : List TemplateRow × Result ℕ)
    → (k : ℕ) × (x.1 ≡ ok k)
    → count (is_stale shop m) x.0 ≡ 0
    → (count (is_stale shop m) (sync_done o c x).0.templates ≡ 0) × ((sync_done o c x).1 ≡ x.1)
unfolding enqueue_unscheduled_purges
sync_done-fresh o shop m c (rows, err e) (k, ended) h = absurd (cc ended)
sync_done-fresh o shop m c (rows, ok n) (k, ended) h = (
  schedule_read-count (is_stale shop m) (λ now r. refl) o o.unscheduled_failure
        (record c { templates = rows })
      ∙ h,
  refl,
)

-- A sync of a connected shop, where Meta answers with a list that names each template once and no
-- write fails, ends without an error, and no row of the shop with the name and language of a listed
-- template then differs from Meta's verdict in its approval, its reason, the marketing flag or in
-- having a time of its negative verdict: a row that was deleted is no exception.
pub sync_templates-verdicts :
    (o : TemplateOutside) (shop : ℕ) (c : Catalog) (creds : Credentials) (ms : List MetaTemplate)
    (m : MetaTemplate)
    → connection o shop c ≡ ok creds
    → o.meta_list creds ≡ ok ms
    → ((x : MetaTemplate) → o.sync_failure x ≡ none)
    → AreDistinct ms
    → Member m ms
    → (count (is_stale shop m) (sync_templates o shop c).0.templates ≡ 0)
      × ((k : ℕ) × ((sync_templates o shop c).1 ≡ ok k))
unfolding sync_templates
sync_templates-verdicts o shop c creds ms m connected listed done distinct member =
    let ended = sync_all_ends o shop ms 0 c.templates done in
    let (fresh, same) =
      sync_done-fresh o shop m c (sync_all o shop ms 0 c.templates) ended
        (sync_all-fresh o shop m ms 0 c.templates done distinct member) in
    rw (connected, listed) (fresh, (ended.0, same ∙ ended.1))
