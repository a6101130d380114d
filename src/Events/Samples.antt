-- ===== src/Events/Samples.antt =====
-- A record of pipeline/event_stream.py normalized by two agents.
use linux_xai_security_assis.Base.{
  ◌≡◌, refl, inl, Option, none, some, [], ◌∷◌, map, Text, codes, Keyed, length,
}
use linux_xai_security_assis.Policy.{pos}
use linux_xai_security_assis.Events.{Json, Python, finite, integer, real, text, Raw, is_true}
use linux_xai_security_assis.Events.Record.{Event, file_open, event_of, from_raw_json}
use linux_xai_security_assis.Events.Normalizer.{
  Environment, host_id, put_all, coercions, stamp_observation, put_missing, normalize, session_id,
}
use linux_xai_security_assis.Events.Deduplicated.{dedup_key, event_hash-normalize}
use linux_xai_security_assis.Events.Identity.{IsObserved, normalize-IsObserved}
use linux_xai_security_assis.Events.Session.{IsSource, session_id-IsSource}

-- A host that reads no number from a text.
abbrev python : Python
python = record {
  float_of_text = λ t. none;
  float_of_integer = λ z. some (finite z);
  integer_of_text = λ t. none;
}

abbrev agent : Text → Environment
agent name = record {
  machine_id = some (codes "m1");
  boot_line = some (codes "b1");
  security_agent_id = some name;
  security_session_id = some (codes "not a session");
  xdg_session_id = some (codes "c2");
  strip = λ t. t;
  hmac_sha256 = λ t. t;
  uuid = codes "u";
}

abbrev raw : Raw
raw =
    (codes "event_type", text (codes "file_open"))
    ∷ (codes "timestamp", real (finite (pos 5)))
    ∷ (codes "pid", integer (pos 7))
    ∷ (codes "path", text (codes "/etc/shadow"))
    ∷ (codes "boot_id", text (codes "recorded"))
    ∷ []

abbrev hash : Keyed Json → Text
hash fields = map (λ (f : Text × Json). length f.0) fields

abbrev from_option : Option Event → Event
from_option none = event_of (λ key. none) file_open
from_option (some e) = e

session_run : session_id (agent (codes "a")) ≡ some (codes "c2")
unfolding session_id
session_run = refl

boot_run :
    map
      (λ (e : Event). e.boot_id)
      (elim (normalize python (agent (codes "a")) (finite (pos 1)) raw) [
        | none ↦ []
        | some e ↦ e ∷ []
      ])
    ≡ text (codes "recorded") ∷ []
unfolding normalize put_all coercions stamp_observation from_raw_json is_true put_missing
boot_run = refl

-- Two agents on one host, at different times.
event_hash-normalize_example :
    dedup_key hash (normalize python (agent (codes "a")) (finite (pos 1)) raw)
    ≡ dedup_key hash (normalize python (agent (codes "b")) (finite (pos 9)) raw)
unfolding host_id
event_hash-normalize_example =
    event_hash-normalize python raw hash (agent (codes "a")) (agent (codes "b")) (finite (pos 1))
      (finite (pos 9)) (inl refl)

-- The event that `normalize` makes of the record.
abbrev event : Event
event = from_option (normalize python (agent (codes "a")) (finite (pos 1)) raw)

event_made : normalize python (agent (codes "a")) (finite (pos 1)) raw ≡ some event
unfolding normalize put_all coercions stamp_observation from_raw_json is_true put_missing
event_made = refl

normalize-IsObserved_example : IsObserved (agent (codes "a")) (finite (pos 1)) raw event
normalize-IsObserved_example =
    normalize-IsObserved python (agent (codes "a")) (finite (pos 1)) raw event event_made

session_id-IsSource_example : IsSource (agent (codes "a")) (session_id (agent (codes "a")))
session_id-IsSource_example = session_id-IsSource (agent (codes "a"))
