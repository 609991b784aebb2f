-- ===== src/Audit/Writer.antt =====
-- `AuditSink::spawn` and `write_event` of src/audit.rs: the task that takes the events from the
-- channel and appends them to the file. How an event is printed and what a write does are arguments.
pub mod Complete
use docker_proxy.Common.{ℕ, Bool, true, false, Option, none, some, List, [], ◌∷◌, ◌++◌, Str, take}
use docker_proxy.Audit.{AuditEvent, AuditSink, open_sink, closed, send, recv}

-- What `write_all` and `flush` of a line do: all of it is in the file, or only that many bytes of it
-- and there is an error.
pub data Written : Type 0 where
  whole : Written
  only : ℕ → Written

-- The channel and the file.
pub record AuditLog : Type 0 where
  pub sink : AuditSink
  pub file : Str

-- The file opens or does not; with no file the task ends and the channel is closed.
unfoldable pub spawn : Bool → Str → AuditLog
spawn true file = record { sink = open_sink []; file = file }
spawn false file = record { sink = closed; file = file }

abbrev pub line_of : Str → Str
line_of json = json ++ b'\n' ∷ []

abbrev pub appended : Written → Str → Str
appended whole line = line
appended (only n) line = take n line

-- What happens to the log: the program sends an event, or the task takes the next one, if any, and
-- the write ends in some way.
pub data Turn : Type 0 where
  sends : AuditEvent → Turn
  takes : Written → Turn

-- An event that cannot be printed is an error, and nothing is written.
abbrev pub write_json : Written → Option Str → Str → Str
write_json w none file = file
write_json w (some json) file = file ++ appended w (line_of json)

-- `to_json` is `serde_json::to_string`.
module _ (to_json : AuditEvent → Option Str) where
  unfoldable pub write_event : Written → AuditEvent → Str → Str
  write_event w ev file = write_json w (to_json ev) file

  abbrev pub write_taken : Written → Option AuditEvent × AuditSink → Str → AuditLog
  write_taken w (none, sink) file = record { sink = sink; file = file }
  write_taken w (some ev, sink) file = record { sink = sink; file = write_event w ev file }

  unfoldable pub turn : Turn → AuditLog → AuditLog
  unfolding send recv write_event
  turn (sends ev) log = record log { sink = send ev log.sink }
  turn (takes w) log = write_taken w (recv log.sink) log.file

  unfoldable pub run : List Turn → AuditLog → AuditLog
  unfolding turn
  run [] log = log
  run (t ∷ turns) log = run turns (turn t log)
