-- ===== src/Whatsapp/Templates.antt =====
-- The templates of internal/whatsapp/templates.go: the rows of the table `templates`, Meta's verdicts
-- on them, and the window in which a merchant may still edit a template that Meta did not accept.
pub mod Purges
pub mod Reviews
pub mod Syncing
pub mod Verdicts
pub mod Kept
pub mod Lifecycle
pub mod Deletion
pub mod Expiry
use Prim.Native.Char.{code}
use Prim.Native.String.{◌++◌ as append_text}
use beleevo_whatsapp.Prelude.{
  ltb, leb, string_eq, nat_eq, ◌==◌, not, if◌then◌else◌, find?, Error, is_no_rows, Result, ok, err,
  query_row, ℕ, ◌+◌, ◌-◌, String, Bool, true, false, ◌&&◌, ◌||◌, Option, none, some, List, [], ◌∷◌,
}
use beleevo_whatsapp.Queue.{Row}
use beleevo_whatsapp.Whatsapp.Placeholders.{trim_space}
use beleevo_whatsapp.Whatsapp.Directory.{Directory, Credentials, credentials}

-- A row of `templates`; `components` is the stored JSON.
pub record TemplateRow : Type 0 where
  pub id : ℕ
  pub shop_id : ℕ
  pub name : String
  pub language : String
  pub category : String
  pub status : String
  pub approval_status : String
  pub rejection_reason : String
  pub marketing_flagged : Bool
  pub meta_warnings : String
  pub meta_template_id : String
  pub negative_at : Option ℕ
  pub purge_scheduled_at : Option ℕ
  pub components : String
  pub variables : List String
  pub source : String
  pub created_at : ℕ
  pub updated_at : ℕ

pub record TemplateDraft : Type 0 where
  pub name : String
  pub language : String
  pub category : String
  pub components : String
  pub variables : List String
  pub source : String

unfoldable pub negative_review : String → Bool → Bool
negative_review approval marketing =
    if marketing then true else approval == "rejected" || approval == "paused"

abbrev pub remaining : Option ℕ → (grace now : ℕ) → Option ℕ
remaining none grace now = some grace
remaining (some at) grace now = if not (ltb now (at + grace)) then none else some (at + grace - now)

unfoldable pub template_grace_remaining : TemplateRow → (grace now : ℕ) → Option ℕ
template_grace_remaining t grace now =
    if not (negative_review t.approval_status t.marketing_flagged)
    then none
    else remaining t.negative_at grace now

unfoldable pub normalize_source : String → String
normalize_source source =
    if source == "converty" || (source == "delivery" || source == "any") then source else "any"

unfoldable pub normalize_approval : String → String
normalize_approval status =
    if status == "APPROVED"
    then "approved"
    else if status == "PENDING" || status == "IN_APPEAL"
    then "pending"
    else if status == "REJECTED"
    then "rejected"
    else if status == "PAUSED"
    then "paused"
    else if status == "DELETED"
    then "deleted"
    else "pending"

-- The messages that are not empty, up to the one at which the loop breaks; an empty message goes on
-- before the test of its position.
unfoldable pub warning_strings : (i : ℕ) (out : String) → List String → String
warning_strings i out [] = out
warning_strings i out (w ∷ ws) =
    let out' = if out == "" then w else append_text out (append_text "; " w) in
    let skipped = warning_strings (i + 1) out ws in
    let more = warning_strings (i + 1) out' ws in
    if w == "" then skipped else if leb 5 i then out' else more

-- strings.ToLower, where it is compared with ASCII letters: the Kelvin sign and the dotted capital I
-- have the lower case `k` and `i` too.
abbrev lower : ℕ → ℕ
lower n =
    if leb b'A' n && leb n b'Z'
    then n + 32
    else if n == 0x212A
    then b'k'
    else if n == 0x130
    then b'i'
    else n

unfoldable pub starts_lower : String → String → Bool
starts_lower String.[] s = true
starts_lower (String.◌∷◌ c t) String.[] = false
starts_lower (String.◌∷◌ c t) (String.◌∷◌ d s) = code c == lower (code d) && starts_lower t s

-- strings.Contains of the text in lower case.
mentions : String → String → Bool
unfolding starts_lower
mentions String.[] t = t == ""
mentions (String.◌∷◌ c s) t = starts_lower t (String.◌∷◌ c s) || mentions s t

unfoldable pub warnings_indicate_marketing : String → Bool
unfolding mentions
warnings_indicate_marketing warnings =
    if warnings == ""
    then false
    else if mentions warnings "not a marketing"
        || (mentions warnings "not marketing"
            || (mentions warnings "isn't marketing"
                || mentions warnings "not considered marketing"))
    then false
    else mentions warnings "marketing" || mentions warnings "promotional"

-- strings.EqualFold with a name in capital letters.
abbrev fold : ℕ → ℕ
fold n = if leb b'a' n && leb n b'z' then n - 32 else if n == 0x212A then b'K' else n

equal_fold : String → String → Bool
equal_fold String.[] String.[] = true
equal_fold String.[] (String.◌∷◌ d t) = false
equal_fold (String.◌∷◌ c s) String.[] = false
equal_fold (String.◌∷◌ c s) (String.◌∷◌ d t) = fold (code c) == code d && equal_fold s t

unfoldable pub marketing_signal : (category rejected_reason : String) → Bool
unfolding equal_fold
marketing_signal category rejected_reason =
    if equal_fold (trim_space category) "MARKETING"
    then true
    else warnings_indicate_marketing rejected_reason

abbrev pub found_template : Result TemplateRow → Result (Option TemplateRow)
found_template (ok t) = ok (some t)
found_template (err e) = if is_no_rows e then ok none else err e

-- A row that is not there is the empty template, and no error.
unfoldable pub template_by_id : Option Error → ℕ → List TemplateRow → Result (Option TemplateRow)
template_by_id failure id rows = found_template (query_row failure (find? (λ t. t.id == id) rows))

-- What is asked of Meta: a submission, an edit, a removal.
pub data MetaCall : Type 0 where
  submit : (shop_id : ℕ) → TemplateDraft → MetaCall
  edit : (meta_template_id components : String) → MetaCall
  remove : (shop_id : ℕ) → (name language : String) → MetaCall

pub record Catalog : Type 0 where
  pub templates : List TemplateRow
  pub jobs : List Row
  pub directory : Directory
  pub calls : List MetaCall

-- One of the templates that Meta lists.
pub record MetaTemplate : Type 0 where
  pub id : String
  pub name : String
  pub language : String
  pub status : String
  pub category : String
  pub rejected_reason : String

pub record PurgeNegativeTemplateJob : Type 0 where
  pub shop_id : ℕ
  pub template_id : ℕ
  pub name : String
  pub language : String

-- What a run meets: the clock, generated ids, the configured window, Meta's answers, the encoding of a
-- payload, the failures of the statements, by template where they stand in a loop, and the table as a
-- SELECT reads it, which others may change before the next statement.
pub record TemplateOutside : Type 0 where
  pub now : ℕ
  pub fresh : ℕ
  pub fresh_job : ℕ → ℕ
  pub grace : ℕ
  pub show : Error → String
  pub show_id : ℕ → String
  pub encode : PurgeNegativeTemplateJob → String
  pub decrypt : String → Result String
  pub meta_create : Credentials → TemplateDraft → (String × List String) × Option Error
  pub meta_edit : (meta_template_id components : String) → Option Error
  pub meta_list : Credentials → Result (List MetaTemplate)
  pub snapshot : List TemplateRow → List TemplateRow
  pub integration_failure : Option Error
  pub lookup_failure : Option Error
  pub reload_failure : Option Error
  pub insert_failure : Option Error
  pub edit_failure : Option Error
  pub refuse_failure : Option Error
  pub unscheduled_failure : Option Error
  pub expired_failure : Option Error
  pub enqueue_failure : ℕ → Option Error
  pub stamp_failure : ℕ → Option Error
  pub purge_failure : ℕ → Option Error
  pub sync_failure : MetaTemplate → Option Error

abbrev pub connection : TemplateOutside → ℕ → Catalog → Result Credentials
connection o shop c = credentials o.decrypt o.integration_failure shop c.directory
