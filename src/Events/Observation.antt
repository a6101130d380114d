-- ===== src/Events/Observation.antt =====
-- What the observation of an event by pipeline/event_stream.py adds to its record, and what it leaves.
use linux_xai_security_assis.Base.{
  ◌≡◌, refl, sym, ap, ◌∙◌, inl, inr, Bool, true, false, false≢true, Option, none, some, List, [],
  ◌∷◌, any, if◌then◌else◌, Bool-cases, Text, codes, same_text, same_text→eq, Keyed, lookup,
  lookup-put_other,
}
use linux_xai_security_assis.Events.{Double, Json, text, Raw, get, or_default}
use linux_xai_security_assis.Events.Record.{
  EventType, process_exec, tcp_connect, file_open, file_write, auth_session, service_state,
  ipc_event, system_health, telemetry_startup, telemetry_shutdown, telemetry_info,
  telemetry_warning, Event, Lookup, event_type_of, typed_event, from_lookup, from_raw_json,
  material, payload_of, executable_of,
}
use linux_xai_security_assis.Events.Normalizer.{
  Environment, host_id, nullable_text, is_null, put_missing, stamp_observation,
}

-- The keys of a record that describe its observation and not the event.
abbrev observation_keys : List Text
observation_keys =
    codes "timestamp_monotonic" ∷ codes "session_id" ∷ codes "agent_id" ∷ codes "boot_id" ∷ []

abbrev is_observation : Text → Bool
is_observation key = any (same_text key) observation_keys

-- A record without those keys.
abbrev masked : Lookup → Lookup
masked found key = if is_observation key then none else found key

abbrev pub materials : Option Event → Option (Keyed Json)
materials none = none
materials (some e) = some (material e)

payload_of-masked :
    (found : Lookup) (t : EventType) → payload_of found t ≡ payload_of (masked found) t
unfolding same_text payload_of
payload_of-masked found process_exec = refl
payload_of-masked found tcp_connect = refl
payload_of-masked found file_open = refl
payload_of-masked found file_write = refl
payload_of-masked found auth_session = refl
payload_of-masked found service_state = refl
payload_of-masked found ipc_event = refl
payload_of-masked found system_health = refl
payload_of-masked found telemetry_startup = refl
payload_of-masked found telemetry_shutdown = refl
payload_of-masked found telemetry_info = refl
payload_of-masked found telemetry_warning = refl

materials-typed :
    (found : Lookup) (o : Option EventType)
    → materials (typed_event found o) ≡ materials (typed_event (masked found) o)
unfolding same_text executable_of
materials-typed found none = refl
materials-typed found (some t) = rw (payload_of-masked found t) refl

-- The material of an event does not read them.
materials-masked :
    (found : Lookup) → materials (from_lookup found) ≡ materials (from_lookup (masked found))
unfolding same_text from_lookup
materials-masked found =
    materials-typed found (event_type_of (or_default (text []) (found (codes "event_type"))))

put_missing-other :
    (key : Text) (j : Json) (asked : Text) (raw : Raw)
    → same_text key asked ≡ false
    → lookup asked (put_missing key j raw) ≡ lookup asked raw
unfolding put_missing
put_missing-other key j asked raw h = elim (Bool-cases (is_null (get key raw))) [
  | inl missing ↦ rw missing (lookup-put_other key j asked raw h)
  | inr there ↦ rw there refl
]

-- Two observations of one record differ at most in those keys.
abbrev pub Agree : Raw → Raw → Type 0
Agree r q = (key : Text) → is_observation key ≡ false → lookup key r ≡ lookup key q

masked_at :
    (r q : Raw)
    → Agree r q
    → (key : Text) → masked (λ k. lookup k r) key ≡ masked (λ k. lookup k q) key
masked_at r q h key = elim (Bool-cases (is_observation key)) [
  | inl own ↦ rw own refl
  | inr other ↦ rw other (h key other)
]

masked-Agree : (r q : Raw) → Agree r q → masked (λ key. lookup key r) ≡ masked (λ key. lookup key q)
masked-Agree r q h = λ i key. masked_at r q h key i

pub materials-Agree :
    (r q : Raw) → Agree r q → materials (from_raw_json r) ≡ materials (from_raw_json q)
unfolding from_raw_json
materials-Agree r q h =
    materials-masked (λ key. lookup key r)
    ∙ ap (λ found. materials (from_lookup found)) (masked-Agree r q h)
    ∙ sym (materials-masked (λ key. lookup key q))

not_observed :
    (key asked : Text)
    → is_observation asked ≡ false
    → is_observation key ≡ true
    → same_text key asked ≡ false
not_observed key asked h own = elim (Bool-cases (same_text key asked)) [
  | inr other ↦ other
  | inl same ↦
      absurd (false≢true (sym h ∙ ap is_observation (sym (same_text→eq key asked same)) ∙ own))
]

-- What one agent adds to a record leaves the other keys, but for the host.
pub stamp_observation-other :
    (env : Environment) (clock : Double) (raw : Raw) (key : Text)
    → is_observation key ≡ false
    → lookup key (stamp_observation env clock raw)
      ≡ lookup key (put_missing (codes "host_id") (nullable_text (host_id env)) raw)
unfolding stamp_observation same_text
stamp_observation-other env clock raw key h =
    put_missing-other (codes "timestamp_monotonic") _ key _
      (not_observed (codes "timestamp_monotonic") key h refl)
    ∙ put_missing-other (codes "session_id") _ key _ (not_observed (codes "session_id") key h refl)
    ∙ put_missing-other (codes "agent_id") _ key _ (not_observed (codes "agent_id") key h refl)
    ∙ put_missing-other (codes "boot_id") _ key _ (not_observed (codes "boot_id") key h refl)
