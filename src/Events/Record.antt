-- ===== src/Events/Record.antt =====
-- `Event` of pipeline/event_stream.py, the factory `from_raw_json`, and of storage/sqlite_store.py
-- the material of the deduplication key, `_event_hash`.
use linux_xai_security_assis.Base.{
  Option, none, some, List, [], ◌∷◌, if◌then◌else◌, Text, codes, same_text, Keyed, lookup,
}
use linux_xai_security_assis.Policy.{pos}
use linux_xai_security_assis.Events.{
  finite, Json, null, real, text, array, object, no_items, Items, Members, no_members, member, Raw,
  or_default, is_true,
}

pub data EventType : Type 0 where
  process_exec tcp_connect file_open file_write auth_session service_state ipc_event : EventType
  system_health : EventType
  telemetry_startup telemetry_shutdown telemetry_info telemetry_warning : EventType

abbrev pub name_of : EventType → Text
name_of process_exec = codes "process_exec"
name_of tcp_connect = codes "tcp_connect"
name_of file_open = codes "file_open"
name_of file_write = codes "file_write"
name_of auth_session = codes "auth_session"
name_of service_state = codes "service_state"
name_of ipc_event = codes "ipc_event"
name_of system_health = codes "system_health"
name_of telemetry_startup = codes "telemetry_startup"
name_of telemetry_shutdown = codes "telemetry_shutdown"
name_of telemetry_info = codes "telemetry_info"
name_of telemetry_warning = codes "telemetry_warning"

abbrev pub all_types : List EventType
all_types =
    process_exec ∷ tcp_connect ∷ file_open ∷ file_write ∷ auth_session ∷ service_state ∷ ipc_event
    ∷ system_health ∷ telemetry_startup ∷ telemetry_shutdown ∷ telemetry_info ∷ telemetry_warning
    ∷ []

-- The fields that two events are compared by, then those of the observation.
pub record Event : Type 0 where
  pub event_type : EventType
  pub timestamp : Json
  pub timestamp_ns : Json
  pub pid : Json
  pub ppid : Json
  pub uid : Json
  pub gid : Json
  pub comm : Json
  pub executable : Json
  pub parent_comm : Json
  pub ancestry : Items
  pub payload : Keyed Json
  pub source : Json
  pub version : Json
  pub host_id : Json
  pub timestamp_monotonic : Json
  pub boot_id : Json
  pub agent_id : Json
  pub session_id : Json

-- `EventType(event_type_str)`, `none` where it raises
unfoldable pub type_among : List EventType → Text → Option EventType
unfolding same_text
type_among [] name = none
type_among (t ∷ types) name =
    let rest = type_among types name in if same_text (name_of t) name then some t else rest

unfoldable pub event_type_of : Json → Option EventType
unfolding type_among
event_type_of (text name) = type_among all_types name
event_type_of j = none

abbrev pub items_of : Json → Items
items_of (array js) = js
items_of j = no_items

-- A record, by what `lookup` finds in it.
abbrev pub Lookup : Type 0
Lookup = Text → Option Json

abbrev pub field : Lookup → Text → Json
field found key = or_default null (found key)

-- The payload of one key of the record for each key.
abbrev fields : Lookup → List Text → Keyed Json
fields found [] = []
fields found (key ∷ keys) = (key, field found key) ∷ fields found keys

abbrev file_payload : Lookup → Keyed Json
file_payload found =
    let filename = or_default (field found (codes "path")) (found (codes "filename")) in
    (codes "filename", filename)
    ∷ (codes "path", or_default filename (found (codes "path")))
    ∷ (codes "operation", field found (codes "operation"))
    ∷ (codes "success", field found (codes "success"))
    ∷ []

abbrev message_payload : Lookup → Keyed Json
message_payload found = fields found (codes "message" ∷ [])

unfoldable pub payload_of : Lookup → EventType → Keyed Json
payload_of found process_exec = fields found (codes "filename" ∷ [])
payload_of found tcp_connect = fields found (codes "dest_ip" ∷ codes "dest_port" ∷ [])
payload_of found file_open = file_payload found
payload_of found file_write = file_payload found
payload_of found auth_session =
    fields found
      (codes "action" ∷ codes "result" ∷ codes "service" ∷ codes "account" ∷ codes "message" ∷ [])
payload_of found service_state =
    fields found (
      codes "unit" ∷ codes "reporter_unit" ∷ codes "action" ∷ codes "result" ∷ codes "message" ∷ [])
payload_of found ipc_event = fields found (
    codes "action"
    ∷ codes "kind"
    ∷ codes "endpoint"
    ∷ codes "read_fd"
    ∷ codes "write_fd"
    ∷ codes "success"
    ∷ codes "errno"
    ∷ [])
payload_of found system_health = fields found (
    codes "cpu_percent"
    ∷ codes "mem_percent"
    ∷ codes "disk_percent"
    ∷ codes "mem_available_mb"
    ∷ [])
payload_of found telemetry_startup = message_payload found
payload_of found telemetry_shutdown = message_payload found
payload_of found telemetry_info = message_payload found
payload_of found telemetry_warning = message_payload found

-- `raw.get("executable") or raw.get("filename")`
unfoldable pub executable_of : Lookup → Json
unfolding is_true
executable_of found =
    if is_true (field found (codes "executable"))
    then field found (codes "executable")
    else field found (codes "filename")

abbrev pub event_of : Lookup → EventType → Event
event_of found event_type = record {
  event_type = event_type;
  timestamp = or_default (real (finite (pos 0))) (found (codes "timestamp"));
  timestamp_ns = field found (codes "timestamp_ns");
  pid = field found (codes "pid");
  ppid = field found (codes "ppid");
  uid = field found (codes "uid");
  gid = field found (codes "gid");
  comm = field found (codes "comm");
  executable = executable_of found;
  parent_comm = field found (codes "parent_comm");
  ancestry = items_of (or_default (array no_items) (found (codes "ancestry")));
  payload = payload_of found event_type;
  source = or_default (text (codes "telemetry_bcc")) (found (codes "source"));
  version = or_default (text (codes "1.0")) (found (codes "version"));
  host_id = field found (codes "host_id");
  timestamp_monotonic = field found (codes "timestamp_monotonic");
  boot_id = field found (codes "boot_id");
  agent_id = field found (codes "agent_id");
  session_id = field found (codes "session_id");
}

abbrev pub typed_event : Lookup → Option EventType → Option Event
typed_event found none = none
typed_event found (some event_type) = some (event_of found event_type)

-- `from_raw_json`
unfoldable pub from_lookup : Lookup → Option Event
unfolding event_type_of payload_of executable_of
from_lookup found =
    typed_event found (event_type_of (or_default (text []) (found (codes "event_type"))))

unfoldable pub from_raw_json : Raw → Option Event
unfolding from_lookup lookup
from_raw_json raw = from_lookup (λ key. lookup key raw)

-- A payload as a value.
abbrev members_of : Keyed Json → Members
members_of [] = no_members
members_of ((key, j) ∷ rest) = member key j (members_of rest)

-- The material of `_event_hash`, whose JSON text is hashed: neither the clock of the boot nor the
-- ids of boot, agent and session are in it. The timestamp of a normalized event is a double already.
abbrev pub material : Event → Keyed Json
material e =
    (codes "event_type", text (name_of e.event_type))
    ∷ (codes "timestamp", e.timestamp)
    ∷ (codes "timestamp_ns", e.timestamp_ns)
    ∷ (codes "pid", e.pid)
    ∷ (codes "ppid", e.ppid)
    ∷ (codes "uid", e.uid)
    ∷ (codes "gid", e.gid)
    ∷ (codes "comm", e.comm)
    ∷ (codes "executable", e.executable)
    ∷ (codes "parent_comm", e.parent_comm)
    ∷ (codes "ancestry", array e.ancestry)
    ∷ (codes "payload", object (members_of e.payload))
    ∷ (codes "source", e.source)
    ∷ (codes "version", e.version)
    ∷ (codes "host_id", e.host_id)
    ∷ []

-- `_event_hash`, with the hash of a mapping's JSON text given
unfoldable pub event_hash : (Keyed Json → Text) → Event → Text
event_hash hash_of e = hash_of (material e)
