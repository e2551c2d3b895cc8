-- ===== src/Worker/Sends.antt =====
-- A queued send from its row of the job queue to the ledger: internal/worker/worker.go over
-- internal/queue and internal/whatsapp/send_job.go.
use beleevo_whatsapp.Prelude.{
  leb, string_eq, nat_eq, ◌==◌, ◌!=◌, if◌then◌else◌, Bool-cases, filter, update, Error, Result, ok,
  err, ℕ, ◌+◌, String, ◌≡◌, refl, ap, ◌≢◌, ◌⊎◌, inl, inr, Bool, true, false, ◌||◌, Option, none,
  some, List, arith,
}
use beleevo_whatsapp.Queue.{
  Row, Job, is_permanent, backoff, Action, complete, drop, retry, decide, delete, reschedule,
  settle, Handlers, handle, Surroundings, run_one,
}
use beleevo_whatsapp.Whatsapp.{SendResult}
use beleevo_whatsapp.Whatsapp.Ledger.{Message}
use beleevo_whatsapp.Whatsapp.Service.{Outside, Service}
use beleevo_whatsapp.Whatsapp.Sending.{send_template_message}
use beleevo_whatsapp.Whatsapp.SendJob.{
  task_send_whatsapp_template, SendWhatsAppTemplateJob, request_of, is_rejection, job_error,
  handle_send_whatsapp_template,
}
use beleevo_whatsapp.Worker.{Lookup, gate_active, gate_decoded, gate_automation}

-- The runner's handlers with the worker's handler for sends.
abbrev pub send_handlers :
    (String → Result SendWhatsAppTemplateJob)
    → Lookup
    → Outside
    → List Message
    → Handlers Service
    → Handlers Service
send_handlers decode lookup o seen handlers =
    handle task_send_whatsapp_template
      (gate_automation decode lookup (handle_send_whatsapp_template decode o seen)) handlers

-- A job of a paused or deleted automation sends nothing: the runner leaves the ledger, the limiter
-- and the log of calls as they are, and removes the job's row, where its write succeeds.
pub paused_automation_sends_nothing :
    (decode : String → Result SendWhatsAppTemplateJob) (lookup : Lookup) (o : Outside)
    (seen : List Message) (handlers : Handlers Service) (env : Surroundings)
    (sent : SendWhatsAppTemplateJob) (job : Job) (rows : List Row) (s : Service)
    → job.kind ≡ task_send_whatsapp_template
    → decode job.payload ≡ ok sent
    → sent.automation_id ≢ 0
    → lookup sent.automation_id ≡ ok false
    → env.bookkeeping ≡ none
    → run_one env (send_handlers decode lookup o seen handlers) job rows s
      ≡ (filter (λ r. r.id != job.id) rows, s)
unfolding run_one handle gate_automation decide settle delete
paused_automation_sends_nothing decode lookup o seen handlers env sent job rows s kind reads
      automated paused books =
    let automated' : (sent.automation_id == 0) ≡ false = ground arith in
    rw (kind, reads, automated', paused, books) refl

-- The job's row after its run: gone.
abbrev pub removed : Job → List Row → List Row
removed job rows = filter (λ r. r.id != job.id) rows

-- The job's row after its run: free of its lease, and due after the delay.
abbrev pub postponed : (now delay : ℕ) (cause : String) → Job → List Row → List Row
postponed now delay cause job rows =
    update (λ r. r.id == job.id)
      (λ r. record r { lease_until = none; run_at = now + delay; last_error = cause }) rows

-- The automation of the job is not known to be off.
abbrev pub MaySend : Lookup → SendWhatsAppTemplateJob → Type 0
MaySend lookup sent = (sent.automation_id ≡ 0) ⊎ (lookup sent.automation_id ≢ ok false)

gate_open :
    {W : Type 0} (lookup : Lookup) (sent : SendWhatsAppTemplateJob) (w : W)
    (next : W × Option Error)
    → MaySend lookup sent
    → gate_decoded lookup (ok sent) w next ≡ next
gate_open lookup sent w next (inl manual) = rw manual refl
gate_open lookup sent w next (inr on) = elim (Bool-cases (sent.automation_id == 0)) [
  | inl manual ↦ rw manual refl
  | inr automated ↦ rw automated (checked (lookup sent.automation_id) on)
]
  where
    checked : (r : Result Bool) → r ≢ ok false → gate_active r w next ≡ next
    checked (ok true) h = refl
    checked (ok false) h = absurd (h refl)
    checked (err e) h = refl

settle_failed :
    (show : Error → String) (e : Error) (now : ℕ) (a : Action) (job : Job) (rows : List Row)
    → settle show (some e) now a job rows ≡ rows
unfolding settle delete reschedule
settle_failed show e now complete job rows = refl
settle_failed show e now (drop x) job rows = refl
settle_failed show e now (retry x delay) job rows = refl

run_send :
    (decode : String → Result SendWhatsAppTemplateJob) (lookup : Lookup) (o : Outside)
    (seen : List Message) (handlers : Handlers Service) (env : Surroundings) (job : Job)
    (rows : List Row) (s : Service) (sent : SendWhatsAppTemplateJob)
    → job.kind ≡ task_send_whatsapp_template
    → decode job.payload ≡ ok sent
    → MaySend lookup sent
    → let (t, r) = send_template_message o seen (request_of sent) s in
      run_one env (send_handlers decode lookup o seen handlers) job rows s
      ≡ (settle env.show env.bookkeeping env.now (decide (job_error r) job) job rows, t)
unfolding run_one handle gate_automation handle_send_whatsapp_template
run_send decode lookup o seen handlers env job rows s sent kind reads on =
    let (t, r) = send_template_message o seen (request_of sent) s in
    rw (kind, reads, gate_open lookup sent s (t, job_error r) on) refl

-- A run of a send's job by the worker, where its automation is not known to be off. The service is left
-- as the send leaves it. Where the write to the queue succeeds, the job's row is removed after a send
-- and after a refusal; after any other error that is not permanent it is freed from its lease and due
-- again after the queue's delay while attempts are left, and removed with the last one; after a
-- permanent error it is removed at once. Where that write fails the queue stays as it is, whatever the
-- send returned.
pub send_job_settled :
    (decode : String → Result SendWhatsAppTemplateJob) (lookup : Lookup) (o : Outside)
    (seen : List Message) (handlers : Handlers Service) (env : Surroundings) (job : Job)
    (rows : List Row) (s : Service) (sent : SendWhatsAppTemplateJob)
    → job.kind ≡ task_send_whatsapp_template
    → decode job.payload ≡ ok sent
    → MaySend lookup sent
    → let (t, r) = send_template_message o seen (request_of sent) s in
      let (rows', s') = run_one env (send_handlers decode lookup o seen handlers) job rows s in
      (s' ≡ t)
      × (env.bookkeeping ≡ none
          → ((a : SendResult) → r ≡ ok a → rows' ≡ removed job rows)
            × ((x : Error) → r ≡ err x → is_rejection x ≡ true → rows' ≡ removed job rows)
            × ((x : Error)
                → r ≡ err x
                → is_rejection x ≡ false
                → rows' ≡ (
                    if is_permanent x || leb job.max_attempts job.attempts
                    then removed job rows
                    else postponed env.now (backoff job.attempts) (env.show x) job rows)))
      × ((e : Error) → env.bookkeeping ≡ some e → rows' ≡ rows)
unfolding decide settle delete reschedule
send_job_settled decode lookup o seen handlers env job rows s sent kind reads on =
    let run = run_send decode lookup o seen handlers env job rows s sent kind reads on in
    let r = (send_template_message o seen (request_of sent) s).1 in
    (
      ap (λ (p : List Row × Service). p.1) run,
      λ books. (
        λ a h. rw (run, books, h) refl,
        λ x h rej. rw (run, books, h, rej) refl,
        λ x h rej.
            rw (run, books, h, rej)
              (elim (Bool-cases (is_permanent x || leb job.max_attempts job.attempts)) [
                | inl last ↦ rw last refl
                | inr left ↦ rw left refl
              ]),
      ),
      λ e books.
          rw (run, books) (settle_failed env.show e env.now (decide (job_error r) job) job rows),
    )

-- A send's job whose payload cannot be read is removed at once, however many attempts are left, and
-- sends nothing, where the write to the queue succeeds.
pub unreadable_send_removed :
    (decode : String → Result SendWhatsAppTemplateJob) (lookup : Lookup) (o : Outside)
    (seen : List Message) (handlers : Handlers Service) (env : Surroundings) (job : Job)
    (rows : List Row) (s : Service) (x : Error)
    → job.kind ≡ task_send_whatsapp_template
    → decode job.payload ≡ err x
    → env.bookkeeping ≡ none
    → run_one env (send_handlers decode lookup o seen handlers) job rows s ≡ (removed job rows, s)
unfolding run_one handle gate_automation handle_send_whatsapp_template decide is_permanent settle
    delete
unreadable_send_removed decode lookup o seen handlers env job rows s x kind fails books =
    rw (kind, fails, books) refl
