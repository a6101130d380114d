-- ===== src/Events/Normalizer.antt =====
-- `CanonicalNormalizer` of pipeline/event_stream.py, and pipeline/identity.py, from which it takes
-- the identity that it stamps. An exception of `normalize` is caught there and skips the record.
use linux_xai_security_assis.Base.{
  ℕ, Bool, true, false, ◌&&◌, ◌||◌, Option, none, some, List, [], ◌∷◌, all, length, take, leb, ◌==◌,
  if◌then◌else◌, Text, codes, lookup, put,
}
use linux_xai_security_assis.Events.{
  Python, Double, finite, Json, null, integer, real, text, array, Raw, get, is_true, value, default,
  raises, coerce_float, coerce_int, coerce_uid,
}
use linux_xai_security_assis.Events.Record.{Event, items_of, from_raw_json}

-- What the process reads of its environment: the first lines of the two files and the variables,
-- `none` where there is none; how `str.strip` trims; the keyed digest; a fresh `uuid4`.
pub record Environment : Type 0 where
  pub machine_id : Option Text
  pub boot_line : Option Text
  pub security_agent_id : Option Text
  pub security_session_id : Option Text
  pub xdg_session_id : Option Text
  pub strip : Text → Text
  pub hmac_sha256 : Text → Text
  pub uuid : Text

-- `value or None`, and a variable that is not set
abbrev pub not_empty : Text → Option Text
not_empty [] = none
not_empty (c ∷ t) = some (c ∷ t)

abbrev pub stripped : Environment → Option Text → Option Text
stripped env none = none
stripped env (some line) = not_empty (env.strip line)

-- `host_id`, with `_derive`
unfoldable pub host_id : Environment → Option Text
host_id env = elim (stripped env env.machine_id) [
  | none ↦ none
  | some raw ↦ some (take 32 (env.hmac_sha256 raw))
]

unfoldable pub boot_id : Environment → Option Text
boot_id env = stripped env env.boot_line

unfoldable pub agent_id : Environment → Text
agent_id env = elim (stripped env env.security_agent_id) [ none ↦ env.uuid | some name ↦ name ]

-- The class `[A-Za-z0-9_-]`
abbrev pub is_session_char : ℕ → Bool
is_session_char c =
    (leb 65 c && leb c 90)
    || (leb 97 c && leb c 122)
    || (leb 48 c && leb c 57)
    || c == 95
    || c == 45

-- `\A[A-Za-z0-9_-]{1,32}\Z`
unfoldable pub matches_session : Text → Bool
matches_session t = leb 1 (length t) && leb (length t) 32 && all is_session_char t

-- `_validate_session_id`
unfoldable pub validate_session_id : Environment → Option Text → Option Text
unfolding matches_session
validate_session_id env raw = elim (stripped env raw) [
  | none ↦ none
  | some t ↦ if matches_session t then some t else none
]

abbrev pub or_else {ℓ} : {A : Type ℓ} → Option A → Option A → Option A
or_else none other = other
or_else (some a) other = some a

unfoldable pub session_id : Environment → Option Text
unfolding validate_session_id
session_id env =
    or_else (validate_session_id env env.security_session_id)
      (validate_session_id env env.xdg_session_id)

abbrev pub nullable_text : Option Text → Json
nullable_text none = null
nullable_text (some t) = text t

-- `if record.get(key) is None: record[key] = value`
abbrev pub is_null : Json → Bool
is_null null = true
is_null j = false

unfoldable pub put_missing : Text → Json → Raw → Raw
unfolding put lookup
put_missing key j raw = if is_null (get key raw) then put key j raw else raw

unfoldable pub fill_missing : List (Text × Json) → Raw → Raw
fill_missing [] raw = raw
fill_missing (stamp ∷ stamps) raw = fill_missing stamps (put_missing stamp.0 stamp.1 raw)

-- `_stamp_observation`, at one reading of the monotonic clock
abbrev pub stamps : Environment → Double → List (Text × Json)
stamps env clock =
    (codes "host_id", nullable_text (host_id env))
    ∷ (codes "boot_id", nullable_text (boot_id env))
    ∷ (codes "agent_id", text (agent_id env))
    ∷ (codes "session_id", nullable_text (session_id env))
    ∷ (codes "timestamp_monotonic", real clock)
    ∷ []

unfoldable pub stamp_observation : Environment → Double → Raw → Raw
unfolding fill_missing
stamp_observation env clock raw = fill_missing (stamps env clock) raw

-- The writes of `normalize` to its copy of the record, each of which may raise.
abbrev pub put_some : Text → Option Json → Raw → Option Raw
put_some key none raw = none
put_some key (some j) raw = some (put key j raw)

infixl 1 ◌>>=◌
abbrev pub ◌>>=◌ {ℓ κ} : {A : Type ℓ} {B : Type κ} → Option A → (A → Option B) → Option B
none >>= f = none
some a >>= f = f a

-- A timestamp that is a number and finite.
unfoldable pub timestamp_of : Python → Raw → Option Json
unfolding coerce_float lookup
timestamp_of py raw = elim (coerce_float py (get (codes "timestamp") raw)) [
  | value (finite z) ↦ some (real (finite z))
  | value d ↦ none
  | default ↦ none
  | raises ↦ none
]

unfoldable pub number_of : Python → Json → Option Json
unfolding coerce_int
number_of py j = elim (coerce_int py j) [
  | value z ↦ some (integer z)
  | default ↦ some null
  | raises ↦ none
]

abbrev text_or_null : Json → Json
text_or_null (text t) = text t
text_or_null j = null

unfoldable pub put_all : List (Text × (Raw → Option Json)) → Raw → Option Raw
unfolding put
put_all [] raw = some raw
put_all (step ∷ steps) raw = put_some step.0 (step.1 raw) raw >>= put_all steps

-- What `normalize` writes to each key; the ancestry is copied, an empty list where there is none.
unfoldable pub coercions : Python → List (Text × (Raw → Option Json))
unfolding timestamp_of coerce_uid number_of lookup
coercions py =
    (codes "timestamp", timestamp_of py)
    ∷ (codes "uid", λ raw. coerce_uid py (get (codes "uid") raw))
    ∷ (codes "pid", λ raw. number_of py (get (codes "pid") raw))
    ∷ (codes "ppid", λ raw. number_of py (get (codes "ppid") raw))
    ∷ (codes "gid", λ raw. number_of py (get (codes "gid") raw))
    ∷ (codes "parent_comm", λ raw. some (text_or_null (get (codes "parent_comm") raw)))
    ∷ (codes "ancestry", λ raw. some (array (items_of (get (codes "ancestry") raw))))
    ∷ []

-- `normalize`
unfoldable pub normalize : Python → Environment → Double → Raw → Option Event
normalize py env clock raw =
    if is_true (get (codes "event_type") raw)
    then (put_all (coercions py) raw
        >>= (λ coerced. from_raw_json (stamp_observation env clock coerced)))
    else none
