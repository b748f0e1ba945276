-- ===== src/Audit/Event.antt =====
-- audit/logger.py: `AuditEventType` and `AuditEvent`.
use pico_dome.Base.{String, Option, some, List, [], ◌∷◌, ◌≡◌, refl}
use pico_dome.Base.Dict.{Dict}
use pico_dome.Base.Result.{Result, ok, ◌>>=◌, required, get_or, member, or_value_error}

pub data AuditEventType : Type 0 where
  scan_start scan_complete scan_alert : AuditEventType
  policy_create policy_update policy_rollback policy_delete : AuditEventType
  baseline_create baseline_update baseline_delete : AuditEventType
  daemon_start daemon_stop auth_success auth_failure : AuditEventType
  command_denied rate_limited : AuditEventType
  data_retention_cleanup data_export data_delete : AuditEventType

unfoldable pub event_value : AuditEventType → String
event_value scan_start = "scan_start"
event_value scan_complete = "scan_complete"
event_value scan_alert = "scan_alert"
event_value policy_create = "policy_create"
event_value policy_update = "policy_update"
event_value policy_rollback = "policy_rollback"
event_value policy_delete = "policy_delete"
event_value baseline_create = "baseline_create"
event_value baseline_update = "baseline_update"
event_value baseline_delete = "baseline_delete"
event_value daemon_start = "daemon_start"
event_value daemon_stop = "daemon_stop"
event_value auth_success = "auth_success"
event_value auth_failure = "auth_failure"
event_value command_denied = "command_denied"
event_value rate_limited = "rate_limited"
event_value data_retention_cleanup = "data_retention_cleanup"
event_value data_export = "data_export"
event_value data_delete = "data_delete"

abbrev pub all_events : List AuditEventType
all_events =
    scan_start ∷ scan_complete ∷ scan_alert ∷ policy_create ∷ policy_update ∷ policy_rollback
    ∷ policy_delete ∷ baseline_create ∷ baseline_update ∷ baseline_delete ∷ daemon_start
    ∷ daemon_stop ∷ auth_success ∷ auth_failure ∷ command_denied ∷ rate_limited
    ∷ data_retention_cleanup ∷ data_export ∷ data_delete ∷ []

-- `AuditEventType(text)`
unfoldable pub parse_event : String → Result AuditEventType
unfolding member event_value
parse_event text = or_value_error (member event_value all_events text)

pub parse_event-event_value : (t : AuditEventType) → parse_event (event_value t) ≡ ok t
unfolding parse_event event_value
parse_event-event_value scan_start = refl
parse_event-event_value _ = refl

pub record AuditEvent : Type 0 where
  pub event_type : AuditEventType
  pub actor : String
  pub detail : String
  pub target : String
  pub metadata : Dict String
  pub event_id : String
  pub timestamp : String
  pub prev_hash : String

-- A line of the log, as `json.loads` gives it. A key may be missing.
pub record EventData : Type 0 where
  pub event_type : Option String
  pub actor : Option String
  pub detail : Option String
  pub target : Option String
  pub metadata : Option (Dict String)
  pub event_id : Option String
  pub timestamp : Option String
  pub prev_hash : Option String

-- `AuditEvent.to_dict`, without the schema version, which is a constant.
unfoldable pub event_to_dict : AuditEvent → EventData
unfolding event_value
event_to_dict e = record {
  event_type = some (event_value e.event_type);
  actor = some e.actor;
  detail = some e.detail;
  target = some e.target;
  metadata = some e.metadata;
  event_id = some e.event_id;
  timestamp = some e.timestamp;
  prev_hash = some e.prev_hash;
}

-- The event that `query` makes of a line.
unfoldable pub event_from_dict : EventData → Result AuditEvent
unfolding parse_event
event_from_dict d = do
  text ← required d.event_type
  event_type ← parse_event text
  ok (record {
    event_type = event_type;
    actor = get_or d.actor "";
    detail = get_or d.detail "";
    target = get_or d.target "";
    metadata = get_or d.metadata [];
    event_id = get_or d.event_id "";
    timestamp = get_or d.timestamp "";
    prev_hash = get_or d.prev_hash "";
  })

pub event_from_dict-event_to_dict : (e : AuditEvent) → event_from_dict (event_to_dict e) ≡ ok e
unfolding event_from_dict event_to_dict
event_from_dict-event_to_dict e = rw (parse_event-event_value e.event_type) refl
