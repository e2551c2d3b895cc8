-- ===== src/Lib.antt =====
-- A model of BeleevoWhatsapp, a Go server that sends WhatsApp template messages for the shops
-- of one operator when their orders and parcels change, and the theorems that make its core
-- correct.
--
-- How the parts interact. An order event (internal/converty) or a parcel's new status
-- (internal/delivery) is matched with an automation (internal/automations), which sends at once
-- or parks a job in the Postgres queue (internal/queue). The worker (internal/worker) drains
-- the queue and hands each send to internal/whatsapp, which loads the shop, the customer, the
-- consent and the template, applies the send gate and the rate limiter, stores a ledger row,
-- calls Meta and records the answer; webhooks move the row's status on.
--
-- Where to find it.
--
-- Queue.antt: internal/queue/queue.go. `Row` is a row of job_queue; `enqueue`, `claim`,
--   `decide`, `settle` and `drain` are Enqueue, claim, decide, the bookkeeping of runOne, and
--   Drain.
-- Whatsapp.antt: the records of internal/whatsapp/send.go. Below it Gate (EvaluateSendRule),
--   Placeholders and Components (the text of templates), RateLimit (ratelimit.go), Ledger (the
--   table messages: state.go, messages.go, webhook.go), Directory (the tables that a send
--   reads, and the consents: state.go, service.go), Service and Sending (SendTemplateMessage),
--   TestSending (SendTemplateTest), SendJob (send_job.go).
-- Worker.antt: gateAutomation of internal/worker/worker.go.
-- Delivery.antt: internal/delivery/tracked.go and the statuses of mescolis.go; Funnel
--   (recordTransition and onSocketEvent of socket.go), Polling (Reconcile of service.go),
--   Socket (the reconnect delay).
-- Whatsapp/Templates.antt: the table templates of internal/whatsapp/templates.go, and Meta's
--   verdicts; below it Purges (purge.go), Reviews (CreateTemplate and UpdateTemplate), Syncing
--   (SyncTemplates) and the theorems on them.
-- Whatsapp/Inbox.antt: the tables of internal/whatsapp/chat.go; below it Content (the text and
--   the media of a message) and Inbound (UpsertInbound), Replies (the guards of every reply,
--   SendReply), Media (SendAudioReply, SendImageReply), Threads (statuses, media, the unread
--   counter), Autoreply and Greetings (autoreply.go) and the theorems on them.
-- Automations.antt: the rows and schedules of internal/automations/automations.go; Parsing
--   (ParseSchedule), Firing (scheduledFire of processor.go), Variables (buildVariables of
--   processor.go over the tokens of internal/whatsapp/variables.go), Pipeline (send of
--   processor.go, with the held-back rows of suppressions.go).
-- Prelude.antt: tests, lists, errors and results. Examples.antt: concrete runs.
--
-- How the code is translated. A table is the list of its rows, a statement a function on it,
-- and each statement that may fail takes its error as an argument, so that a theorem without a
-- hypothesis on these covers every failure. Go's error chains are the data type Error, with
-- errors.Is and errors.As as walks down the chain. Clocks and generated ids are arguments; ids
-- are numbers, where 0 is the nil id and NULL. What runs side by side is a sequence of steps: a
-- send and a delivery webhook take the table that their lookup reads as an argument of its own,
-- so that any interleaving with other writes is covered, and a batch of jobs takes the order in
-- which it finishes. One run of the rate limiter takes one time for all its readings of the
-- clock. A Go map is the list of its entries, and an assignment replaces the entry of its key.
-- The shift of the retry delay wraps at 64 bits; all other numbers stay far below the width of
-- an int64.
--
-- Loops run over lists by recursion. Fuel is used in two places: the filler of placeholders
-- takes the size of its text, of which every step consumes a part, and the digits of a number n
-- are written with n + 1, which is more than their count.
--
-- Parameters stand for what is not under this repository or is opaque to it: the JSON codec,
-- decryption, the answers of Meta and of the carrier, and the texts of errors.
--
-- Not modelled: HTTP handlers, views, translations, sessions, configuration, media, encryption
-- and SQL that only lists rows for a page. Nor are the Converty payloads, the entry points that
-- match an event with an automation, the retries of held-back sends and the editor of template
-- bodies.
pub mod Prelude
pub mod Queue
pub mod Whatsapp
pub mod Worker
pub mod Delivery
pub mod Automations
pub mod Examples
