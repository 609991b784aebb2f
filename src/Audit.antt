-- ===== src/Audit.antt =====
-- `AuditEvent` and `AuditSink` of src/audit.rs. The channel of 4096 events is a list, the oldest
-- first; the task that writes them to the file takes them from it. The time stamp is left out.
pub mod Channel
pub mod Writer
use Prim.Native.String.{String}
use docker_proxy.Common.{
  ℕ, Bool, true, false, Option, none, some, List, [], ◌∷◌, ◌++◌, Str, codes, length, ltb,
  if◌then◌else◌,
}

pub record AuditEvent : Type 0 where
  pub event : Str
  pub peer_ip : Str
  pub method : Str
  pub path : Str
  pub user_agent : Str
  pub user_role : Option Str
  pub identity : Option Str
  pub rule_name : Option Str
  pub rule_action : Option Str
  pub status : ℕ
  pub dry_run : Bool
  pub message : Option Str

-- `AuditEvent::new`.
unfoldable pub new_event : String → Str → Str → Str → Str → AuditEvent
new_event event peer_ip method path user_agent = record {
  event = codes event;
  peer_ip = peer_ip;
  method = method;
  path = path;
  user_agent = user_agent;
  user_role = none;
  identity = none;
  rule_name = none;
  rule_action = none;
  status = 0;
  dry_run = false;
  message = none;
}

-- `closed`: the task has ended, since it could not open its file.
pub data AuditSink : Type 0 where
  disabled : AuditSink
  open_sink : List AuditEvent → AuditSink
  closed : AuditSink

abbrev pub audit_capacity : ℕ
audit_capacity = 4096

-- `try_send`: a full channel drops the event.
unfoldable pub send : AuditEvent → AuditSink → AuditSink
send ev disabled = disabled
send ev (open_sink events) =
    if ltb (length events) audit_capacity then open_sink (events ++ ev ∷ []) else open_sink events
send ev closed = closed

unfoldable pub is_enabled : AuditSink → Bool
is_enabled disabled = false
is_enabled (open_sink events) = true
is_enabled closed = true

-- `rx.recv().await` of the task, and the event that it gives.
unfoldable pub recv : AuditSink → Option AuditEvent × AuditSink
recv (open_sink (ev ∷ events)) = (some ev, open_sink events)
recv sink = (none, sink)
