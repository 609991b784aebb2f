-- ===== src/Audit/Writer/Complete.antt =====
-- The audit file of src/audit.rs holds the events that were sent.
use docker_proxy.Common.{
  ◌+◌, ◌≤◌, ◌≡◌, refl, sym, ap, ◌∙◌, true, Option, none, some, List, [], ◌∷◌, ◌++◌, arith, Str,
  length, length-append,
}
use mathlib.Core.List.{append_assoc, append-nil}
use docker_proxy.Audit.{AuditEvent, AuditSink, open_sink, closed, disabled, recv, audit_capacity}
use docker_proxy.Audit.Channel.{send_room}
use docker_proxy.Audit.Writer.{
  Written, whole, AuditLog, line_of, Turn, sends, takes, write_event, write_json, run, spawn,
}

-- The events that are sent.
abbrev pub sent : List Turn → List AuditEvent
sent [] = []
sent (sends ev ∷ turns) = ev ∷ sent turns
sent (takes w ∷ turns) = sent turns

-- Every write ends well.
abbrev pub WritesWell : List Turn → Type 0
WritesWell [] = Unit
WritesWell (sends ev ∷ turns) = WritesWell turns
WritesWell (takes w ∷ turns) = (w ≡ whole) × WritesWell turns

-- The queue of an open channel.
abbrev pub queue_of : AuditSink → List AuditEvent
queue_of (open_sink queue) = queue
queue_of closed = []
queue_of disabled = []

abbrev printed : Option Str → Str
printed none = []
printed (some json) = line_of json

write_json-whole : (o : Option Str) (file : Str) → write_json whole o file ≡ file ++ printed o
write_json-whole none file = sym (append-nil file)
write_json-whole (some json) file = refl

module _ (to_json : AuditEvent → Option Str) where
  -- The lines of the events that can be printed, one line for each.
  unfoldable pub lines_of : List AuditEvent → Str
  lines_of [] = []
  lines_of (ev ∷ events) = printed (to_json ev) ++ lines_of events

  -- What the file holds when the task has taken all that is in the channel.
  abbrev pub contents : AuditLog → Str
  contents log = log.file ++ lines_of (queue_of log.sink)

  lines_of-append : (xs ys : List AuditEvent) → lines_of (xs ++ ys) ≡ lines_of xs ++ lines_of ys
  unfolding lines_of
  lines_of-append [] ys = refl
  lines_of-append (ev ∷ xs) ys =
      ap (λ t. printed (to_json ev) ++ t) (lines_of-append xs ys)
      ∙ sym (append_assoc (printed (to_json ev)) (lines_of xs) (lines_of ys))

  lines_of_later :
      (queue events : List AuditEvent) (ev : AuditEvent)
      → lines_of (queue ++ ev ∷ []) ++ lines_of events ≡ lines_of queue ++ lines_of (ev ∷ events)
  lines_of_later queue events ev =
      sym (lines_of-append (queue ++ ev ∷ []) events)
      ∙ (ap lines_of (append_assoc queue (ev ∷ []) events) ∙ lines_of-append queue (ev ∷ events))

  write_event-whole :
      (w : Written) (ev : AuditEvent) (file : Str)
      → w ≡ whole
      → write_event to_json w ev file ≡ file ++ printed (to_json ev)
  unfolding write_event
  write_event-whole w ev file e = rw e (write_json-whole (to_json ev) file)

  taken :
      (file : Str) (queue events : List AuditEvent) (ev : AuditEvent)
      → (file ++ printed (to_json ev)) ++ (lines_of queue ++ lines_of events)
        ≡ file ++ (lines_of (ev ∷ queue) ++ lines_of events)
  unfolding lines_of
  taken file queue events ev =
      append_assoc file (printed (to_json ev)) (lines_of queue ++ lines_of events)
      ∙ ap (λ t. file ++ t)
          (sym (append_assoc (printed (to_json ev)) (lines_of queue) (lines_of events)))

  -- From a log whose channel is open and has room for what is sent.
  run_from :
      (turns : List Turn) (queue : List AuditEvent) (file : Str)
      → WritesWell turns
      → length queue + length (sent turns) ≤ audit_capacity
      → contents (run to_json turns (record { sink = open_sink queue; file = file }))
        ≡ file ++ (lines_of queue ++ lines_of (sent turns))
  unfolding run recv
  run_from [] queue file h fits =
      ap (λ t. file ++ t) (ap lines_of (sym (append-nil queue)) ∙ lines_of-append queue [])
  run_from (sends ev ∷ turns) queue file h fits =
      ap (λ s. contents (run to_json turns (record { sink = s; file = file })))
        (send_room ev queue (omega arith))
      ∙ (run_from turns (queue ++ ev ∷ []) file h (omega (arith, length-append queue (ev ∷ [])))
          ∙ ap (λ t. file ++ t) (lines_of_later queue (sent turns) ev))
  run_from (takes w ∷ turns) [] file (e, h) fits = run_from turns [] file h fits
  run_from (takes w ∷ turns) (ev ∷ queue) file (e, h) fits =
      ap (λ f. contents (run to_json turns (record { sink = open_sink queue; file = f })))
        (write_event-whole w ev file e)
      ∙ (run_from turns queue (file ++ printed (to_json ev)) h (omega arith)
          ∙ taken file queue (sent turns) ev)

  -- While no more events are sent than the channel has places, and every write ends well, the file
  -- and the channel together hold a line for each event that was sent and can be printed, in the
  -- order in which they were sent, whenever the task takes its turns.
  pub contents-run :
      (turns : List Turn) (file : Str)
      → WritesWell turns
      → length (sent turns) ≤ audit_capacity
      → contents (run to_json turns (spawn true file)) ≡ file ++ lines_of (sent turns)
  unfolding spawn lines_of
  contents-run turns file h fits = run_from turns [] file h (omega arith)
