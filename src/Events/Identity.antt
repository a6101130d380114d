-- ===== src/Events/Identity.antt =====
-- The identity that an event of pipeline/event_stream.py carries: what its record recorded, or else
-- what pipeline/identity.py says of this host.
use linux_xai_security_assis.Base.{
  ◌≡◌, refl, ap, ◌∙◌, inl, inr, false, Option, none, some, List, [], ◌∷◌, if◌then◌else◌, Bool-cases,
  Option-cases, Text, codes, same_text, same_text→eq, lookup, lookup-put_self, lookup-put_other,
}
use linux_xai_security_assis.Events.{
  Python, Double, Json, null, real, text, Raw, get, or_default, is_true,
}
use linux_xai_security_assis.Events.Record.{
  Event, Lookup, EventType, event_type_of, typed_event, event_of, from_lookup, from_raw_json,
}
use linux_xai_security_assis.Events.Normalizer.{
  Environment, host_id, boot_id, agent_id, session_id, nullable_text, is_null, put_missing,
  fill_missing, stamps, stamp_observation, put_all, coercions, normalize,
}
use linux_xai_security_assis.Events.Deduplicated.{is_coerced, coercions-Kept}

-- What the record recorded, or the stamp.
abbrev pub recorded_or : Json → Json → Json
recorded_or stamp recorded = if is_null recorded then stamp else recorded

abbrev stamped : Text → List (Text × Json) → Json → Json
stamped key [] j = j
stamped key (s ∷ stamps) j = stamped key stamps (if same_text s.0 key then recorded_or s.1 j else j)

get-put_own :
    (own : Text) (j : Json) (raw : Raw)
    → get own (put_missing own j raw) ≡ recorded_or j (get own raw)
unfolding put_missing
get-put_own own j raw = elim (Bool-cases (is_null (get own raw))) [
  | inl missing ↦ rw missing (ap (or_default null) (lookup-put_self own j raw))
  | inr there ↦ rw there refl
]

get-put_missing :
    (own key : Text) (j : Json) (raw : Raw)
    → get key (put_missing own j raw)
      ≡ (if same_text own key then recorded_or j (get key raw) else get key raw)
unfolding put_missing
get-put_missing own key j raw = elim (Bool-cases (same_text own key)) [
  | inr other ↦ elim (Bool-cases (is_null (get own raw))) [
    | inl missing ↦
        rw (other, missing) (ap (or_default null) (lookup-put_other own j key raw other))
    | inr there ↦ rw (other, there) refl
  ]
  | inl same ↦ rw same (rw (← same_text→eq own key same) (get-put_own own j raw))
]

get-fill_missing :
    (key : Text) (stamps : List (Text × Json)) (raw : Raw)
    → get key (fill_missing stamps raw) ≡ stamped key stamps (get key raw)
unfolding fill_missing
get-fill_missing key [] raw = refl
get-fill_missing key (s ∷ stamps) raw =
    get-fill_missing key stamps (put_missing s.0 s.1 raw)
    ∙ ap (stamped key stamps) (get-put_missing s.0 key s.1 raw)

-- The event's five fields of observation.
pub record IsObserved (env : Environment) (clock : Double) (raw : Raw) (e : Event) : Type 0 where
  pub host : e.host_id ≡ recorded_or (nullable_text (host_id env)) (get (codes "host_id") raw)
  pub boot : e.boot_id ≡ recorded_or (nullable_text (boot_id env)) (get (codes "boot_id") raw)
  pub agent : e.agent_id ≡ recorded_or (text (agent_id env)) (get (codes "agent_id") raw)
  pub session :
      e.session_id ≡ recorded_or (nullable_text (session_id env)) (get (codes "session_id") raw)
  pub monotonic :
      e.timestamp_monotonic ≡ recorded_or (real clock) (get (codes "timestamp_monotonic") raw)

typed_event-some :
    (found : Lookup) (o : Option EventType) (e : Event)
    → typed_event found o ≡ some e
    → (t : EventType) × (e ≡ event_of found t)
typed_event-some found none e h = cc
typed_event-some found (some t) e h = (t, cc h)

from_lookup-fields :
    (found : Lookup) (e : Event)
    → from_lookup found ≡ some e
    → (t : EventType) × (e ≡ event_of found t)
unfolding from_lookup
from_lookup-fields found e h =
    typed_event-some found (event_type_of (or_default (text []) (found (codes "event_type")))) e h

module _ (py : Python) (env : Environment) (clock : Double) (raw : Raw) where
  observed :
      (key : Text) (r : Raw)
      → is_coerced key ≡ false
      → put_all (coercions py) raw ≡ some r
      → get key (stamp_observation env clock r) ≡ stamped key (stamps env clock) (get key raw)
  unfolding stamp_observation
  observed key r untouched coerced =
      get-fill_missing key (stamps env clock) r
      ∙ ap (λ o. stamped key (stamps env clock) (or_default null o))
          (coercions-Kept key raw untouched py r coerced)

  normalize-some :
      (e : Event)
      → normalize py env clock raw ≡ some e
      → (r : Raw) × (put_all (coercions py) raw ≡ some r)
        × (from_raw_json (stamp_observation env clock r) ≡ some e)
  unfolding normalize
  normalize-some e h = elim (Bool-cases (is_true (get (codes "event_type") raw))) [
    | inr untyped ↦ cc (rw untyped at h)
    | inl typed ↦ elim (Option-cases (put_all (coercions py) raw)) [
      | inl fails ↦ cc (rw (typed, fails) at h)
      | inr (r, coerced) ↦ (r, coerced, rw (typed, coerced) at h)
    ]
  ]

  -- An event keeps each of the host, boot, agent, session and monotonic time that its record
  -- recorded, and has this process's own for each one that is missing or null.
  pub normalize-IsObserved :
      (e : Event) → normalize py env clock raw ≡ some e → IsObserved env clock raw e
  unfolding from_raw_json same_text
  normalize-IsObserved e h =
      let (r, coerced, made) = normalize-some e h in
      let (t, is_made) =
        from_lookup-fields (λ key. lookup key (stamp_observation env clock r)) e made in
      record {
        host = ap (λ (d : Event). d.host_id) is_made ∙ observed (codes "host_id") r refl coerced;
        boot = ap (λ (d : Event). d.boot_id) is_made ∙ observed (codes "boot_id") r refl coerced;
        agent = ap (λ (d : Event). d.agent_id) is_made ∙ observed (codes "agent_id") r refl coerced;
        session =
            ap (λ (d : Event). d.session_id) is_made ∙ observed (codes "session_id") r refl coerced;
        monotonic =
            ap (λ (d : Event). d.timestamp_monotonic) is_made
            ∙ observed (codes "timestamp_monotonic") r refl coerced;
      }
