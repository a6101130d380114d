-- ===== src/Failure/InForce.antt =====
-- What a hysteresis counter of detection/system_failure.py means: when a condition is in force, in
-- terms of the readings of the windows.
use linux_xai_security_assis.Base.{
  ltb, ℕ, suc, ◌≤◌, ◌<◌, Bool, true, not, Option, none, some, List, [], ◌∷◌, if◌then◌else◌,
}
use linux_xai_security_assis.Failure.{Counter, observe}

-- How many readings at the front of a history, the newest first, pass a test.
abbrev pub leading {ℓ} : {V : Type ℓ} → (V → Bool) → List V → ℕ
leading p [] = 0
leading p (v ∷ history) = let rest = leading p history in if p v then suc rest else 0

-- In force: the last `breach` windows all breached, or it was in force before and fewer than
-- `clear` windows in a row have been clear since.
pub data InForce {V : Type 0} (enter leave : V → Bool) (breach clear : ℕ) : List V → Type 0 where
  fired : (h : List V) → breach ≤ leading enter h → InForce enter leave breach clear h
  held :
      (v : V) (h : List V)
      → InForce enter leave breach clear h
      → leading leave (v ∷ h) < clear
      → InForce enter leave breach clear (v ∷ h)

-- Readings, each with the window that it is of, in the order in which they arrive.
-- The test that the code makes of a reading knows whether the condition is active.
module _ {V : Type 0} (breaches : Bool → V → Bool) where
  unfoldable pub feed : Counter → List (V × ℕ) → Counter
  feed c [] = c
  feed c (r ∷ readings) = feed (observe (breaches c.active r.0) r.1 c).counter readings

  abbrev pub leaves_at : V → Bool
  leaves_at v = not (breaches true v)

-- A window after the last one.
abbrev pub is_new : Option ℕ → ℕ → Bool
is_new none window = true
is_new (some last) window = ltb last window

-- The reading that counts for each window is its first, unless a later window has come before it.
unfoldable pub history : {V : Type 0} → Option ℕ → List V → List (V × ℕ) → List V
history last h [] = h
history last h (r ∷ readings) =
    let old = history last h readings in
    let new = history (some r.1) (r.0 ∷ h) readings in if is_new last r.1 then new else old
