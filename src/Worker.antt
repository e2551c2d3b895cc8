-- ===== src/Worker.antt =====
-- internal/worker/worker.go: the check of an automation before its queued send, `gateAutomation`, and
-- the handler that the runner calls for a send.
pub mod Sends
use beleevo_whatsapp.Prelude.{
  ◌==◌, nat_eq, string_eq, if◌then◌else◌, Error, Result, ok, err, ℕ, String, Bool, true, false,
  Option, none,
}
use beleevo_whatsapp.Queue.{Handler}
use beleevo_whatsapp.Whatsapp.SendJob.{SendWhatsAppTemplateJob}

-- `AutomationEnabled`, as the gate meets it: its answer or its error.
abbrev pub Lookup : Type 0
Lookup = ℕ → Result Bool

module _ {W : Type 0} where
  abbrev pub gate_active : Result Bool → W → W × Option Error → W × Option Error
  gate_active (ok true) w sent = sent
  gate_active (ok false) w sent = (w, none)
  gate_active (err e) w sent = sent

  abbrev pub gate_decoded :
      Lookup → Result SendWhatsAppTemplateJob → W → W × Option Error → W × Option Error
  gate_decoded lookup (err e) w sent = sent
  gate_decoded lookup (ok job) w sent =
      let checked = gate_active (lookup job.automation_id) w sent in
      if job.automation_id == 0 then sent else checked

  unfoldable pub gate_automation :
      (decode : String → Result SendWhatsAppTemplateJob) → Lookup → Handler W → Handler W
  gate_automation decode lookup next payload w =
      gate_decoded lookup (decode payload) w (next payload w)
