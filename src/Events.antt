-- ===== src/Events.antt =====
-- pipeline/event_stream.py: the values of a collector's record, as `json.loads` makes them, and what
-- the normalizer makes of one number. What Python's `float` and `int` make of a text, and of an
-- integer too large for a double, is the parameter `Python`.
pub mod Record
pub mod Normalizer
pub mod Pipeline
pub mod Observation
pub mod Deduplicated
pub mod Identity
pub mod Session
mod Samples
use linux_xai_security_assis.Base.{
  ℕ, zero, suc, ◌+◌, ◌/◌, Bool, true, false, not, Option, none, some, List, [], ◌∷◌, ◌==◌, Text,
  codes, Keyed, lookup,
}
use linux_xai_security_assis.Policy.{ℤ, pos, negsuc, one}

-- A double; a finite one is counted in multiples of 2 ^ -1074.
pub data Double : Type 0 where
  nan : Double
  infinite : Bool → Double
  finite : ℤ → Double

mutual
  pub data Json : Type 0 where
    null : Json
    boolean : Bool → Json
    integer : ℤ → Json
    real : Double → Json
    text : Text → Json
    array : Items → Json
    object : Members → Json

  pub data Items : Type 0 where
    no_items : Items
    item : Json → Items → Items

  pub data Members : Type 0 where
    no_members : Members
    member : Text → Json → Members → Members

pub record Python : Type 0 where
  pub float_of_text : Text → Option Double
  pub float_of_integer : ℤ → Option Double
  pub integer_of_text : Text → Option ℤ

abbrev pub Raw : Type 0
Raw = Keyed Json

-- `record.get(key, default)` and `record.get(key)`, of what the dict holds under the key
abbrev pub or_default : Json → Option Json → Json
or_default default none = default
or_default default (some j) = j

abbrev pub get : Text → Raw → Json
get key raw = or_default null (lookup key raw)

-- Python's truth of a value.
unfoldable pub is_true : Json → Bool
is_true null = false
is_true (boolean b) = b
is_true (integer (pos n)) = not (n == 0)
is_true (integer (negsuc n)) = true
is_true (real (finite (pos n))) = not (n == 0)
is_true (real d) = true
is_true (text []) = false
is_true (text (c ∷ t)) = true
is_true (array no_items) = false
is_true (array (item j js)) = true
is_true (object no_members) = false
is_true (object (member k j ms)) = true

-- What a coercion does: it gives a value, it gives its default, or it raises.
pub data Coerced {ℓ} (A : Type ℓ) : Type ℓ where
  value : A → Coerced A
  default : Coerced A
  raises : Coerced A

abbrev or_raises {ℓ} : {A : Type ℓ} → Option A → Coerced A
or_raises none = raises
or_raises (some a) = value a

abbrev pub or_absent {ℓ} : {A : Type ℓ} → Option A → Coerced A
or_absent none = default
or_absent (some a) = value a

-- `_coerce_float`
unfoldable pub coerce_float : Python → Json → Coerced Double
coerce_float py (integer z) = or_raises (py.float_of_integer z)
coerce_float py (real d) = value d
coerce_float py (text t) = or_absent (py.float_of_text t)
coerce_float py j = default

-- `int(d)` of a finite double drops its fraction.
abbrev minus : ℕ → ℤ
minus zero = pos 0
minus (suc n) = negsuc n

unfoldable pub truncated : ℤ → ℤ
truncated (pos n) = pos (n / one)
truncated (negsuc n) = minus (suc n / one)

-- `_coerce_int`: `int` of an infinity raises what the function does not catch.
unfoldable pub coerce_int : Python → Json → Coerced ℤ
unfolding truncated
coerce_int py (integer z) = value z
coerce_int py (real (finite z)) = value (truncated z)
coerce_int py (real (infinite b)) = raises
coerce_int py (text t) = or_absent (py.integer_of_text t)
coerce_int py j = default

-- The `uid` of a record: missing, an `int` (as is `True`), or what `int` makes of it.
unfoldable pub coerce_uid : Python → Json → Option Json
unfolding truncated
coerce_uid py null = some null
coerce_uid py (boolean b) = some (boolean b)
coerce_uid py (integer z) = some (integer z)
coerce_uid py (real (finite z)) = some (integer (truncated z))
coerce_uid py (text t) = elim (py.integer_of_text t) [ none ↦ none | some z ↦ some (integer z) ]
coerce_uid py j = none
