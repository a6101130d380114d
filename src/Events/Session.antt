-- ===== src/Events/Session.antt =====
-- `session_id` of pipeline/identity.py: the login session that is observed.
use linux_xai_security_assis.Base.{
  ℕ, ◌≤◌, ◌≡◌, ◌↔◌, refl, sym, ◌∙◌, ◌⊎◌, inl, inr, true, false≢true, Option, none, some, [], ◌∷◌,
  arith, All, all, length, Bool-cases, Option-cases, Text,
}
use linux_xai_security_assis.Events.Normalizer.{
  Environment, session_id, validate_session_id, matches_session, is_session_char, stripped,
}

-- A letter, a digit, `_` or `-`.
abbrev pub IsSessionChar : ℕ → Type 0
IsSessionChar c =
    ((65 ≤ c) × (c ≤ 90))
    ⊎ (((97 ≤ c) × (c ≤ 122)) ⊎ (((48 ≤ c) × (c ≤ 57)) ⊎ ((c ≡ 95) ⊎ (c ≡ 45))))

-- The shape of an id of logind.
abbrev pub IsSession : Text → Type 0
IsSession t = (1 ≤ length t) × (length t ≤ 32) × All IsSessionChar t

-- A variable that is missing or blank, or has not the shape.
abbrev pub Unusable : Option Text → Type 0
Unusable none = Unit
Unusable (some t) = ¬ IsSession t

-- Where an id comes from: the first of the two variables that, trimmed, has the shape.
pub data IsSource (env : Environment) : Option Text → Type 0 where
  declared :
      (t : Text)
      → stripped env env.security_session_id ≡ some t
      → IsSession t
      → IsSource env (some t)
  inherited :
      (t : Text)
      → Unusable (stripped env env.security_session_id)
      → stripped env env.xdg_session_id ≡ some t
      → IsSession t
      → IsSource env (some t)
  neither :
      Unusable (stripped env env.security_session_id)
      → Unusable (stripped env env.xdg_session_id)
      → IsSource env none

char-IsSessionChar : (c : ℕ) → is_session_char c ≡ true → IsSessionChar c
char-IsSessionChar c h = ground arith

IsSessionChar-char : (c : ℕ) → IsSessionChar c → is_session_char c ≡ true
IsSessionChar-char c h = ground arith

all_iff : (t : Text) → (all is_session_char t ≡ true) ↔ All IsSessionChar t
all_iff [] = ((λ h. tt), λ h. refl)
all_iff (c ∷ t) = elim (Bool-cases (is_session_char c)) [
  | inl good ↦ rw good ((λ h. (char-IsSessionChar c good, (all_iff t).0 h)), λ h. (all_iff t).1 h.1)
  | inr bad ↦
      rw bad (
        (λ h. absurd (false≢true h)),
        λ h. absurd (false≢true (sym bad ∙ IsSessionChar-char c h.0)),
      )
]

matches_session_iff : (t : Text) → (matches_session t ≡ true) ↔ IsSession t
unfolding matches_session
matches_session_iff t = elim (Bool-cases (all is_session_char t)) [
  | inl good ↦ rw good ((λ h. (ground arith, ground arith, (all_iff t).0 good)), λ h. ground arith)
  | inr bad ↦ rw bad ((λ h. ground arith), λ h. absurd (false≢true (sym bad ∙ (all_iff t).1 h.2)))
]

-- What `_validate_session_id` makes of a variable.
validated :
    (env : Environment) (raw : Option Text)
    → (Unusable (stripped env raw) × (validate_session_id env raw ≡ none))
      ⊎ ((t : Text) × (stripped env raw ≡ some t)
          × IsSession t
          × (validate_session_id env raw ≡ some t))
unfolding validate_session_id
validated env raw = elim (Option-cases (stripped env raw)) [
  | inl blank ↦ rw (blank, validate_session_id) (inl (tt, refl))
  | inr (t, given) ↦ elim (Bool-cases (matches_session t)) [
    | inl good ↦
        rw (given, good, validate_session_id) (inr (t, refl, (matches_session_iff t).0 good, refl))
    | inr bad ↦
        rw (given, bad, validate_session_id)
          (inl ((λ shape. false≢true (sym bad ∙ (matches_session_iff t).1 shape)), refl))
  ]
]

-- The session of a process is the first of the declared and the inherited id that has the shape of
-- one, and none exactly if neither has.
pub session_id-IsSource : (env : Environment) → IsSource env (session_id env)
unfolding session_id
session_id-IsSource env = elim (validated env env.security_session_id) [
  | inr (t, given, shape, e) ↦ rw e (declared t given shape)
  | inl (unusable, e) ↦ elim (validated env env.xdg_session_id) [
    | inr (t, given, shape, k) ↦ rw (e, k) (inherited t unusable given shape)
    | inl (other, k) ↦ rw (e, k) (neither unusable other)
  ]
]
