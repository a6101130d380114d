-- ===== src/Base/Dicts.antt =====
-- A Python dict with texts for keys, in insertion order, and the grouping that `defaultdict(list)`
-- makes of a list.
use mathlib.Core.Path.{◌≡◌, refl, ap}
use mathlib.Core.Bool.{Bool, false}
use mathlib.Core.Logic.{inl, inr}
use mathlib.Core.Option.{Option, none, some}
use mathlib.Core.List.{List, [], ◌∷◌, ◌++◌}
use linux_xai_security_assis.Base.Tests.{if◌then◌else◌, Bool-cases}
use linux_xai_security_assis.Base.Texts.{Text, same_text, same_text→eq, same_text_refl}

abbrev pub Keyed {ℓ} : Type ℓ → Type ℓ
Keyed V = List (Text × V)

module _ {ℓ} {V : Type ℓ} where
  unfoldable pub lookup : Text → Keyed V → Option V
  lookup key [] = none
  lookup key (e ∷ dict) = let rest = lookup key dict in if same_text e.0 key then some e.1 else rest

  -- `dict[key] = value`
  unfoldable pub put : Text → V → Keyed V → Keyed V
  put key value [] = (key, value) ∷ []
  put key value (e ∷ dict) =
      let rest = put key value dict in if same_text e.0 key then (e.0, value) ∷ dict else e ∷ rest

  pub lookup-put_self :
      (key : Text) (value : V) (dict : Keyed V) → lookup key (put key value dict) ≡ some value
  unfolding lookup put
  lookup-put_self key value [] = rw (same_text_refl key) refl
  lookup-put_self key value (e ∷ dict) = elim (Bool-cases (same_text e.0 key)) [
    | inl same ↦ rw (same, same) refl
    | inr other ↦ rw (other, other) (lookup-put_self key value dict)
  ]

  pub lookup-put_other :
      (key : Text) (value : V) (asked : Text) (dict : Keyed V)
      → same_text key asked ≡ false
      → lookup asked (put key value dict) ≡ lookup asked dict
  unfolding lookup put
  lookup-put_other key value asked [] h = rw h refl
  lookup-put_other key value asked (e ∷ dict) h = elim (Bool-cases (same_text e.0 key)) [
    | inl same ↦
        let not_asked : same_text e.0 asked ≡ false = rw (same_text→eq e.0 key same) h in
        rw (same, not_asked) refl
    | inr other ↦ rw other (
        ap (λ (o : Option V). if same_text e.0 asked then some e.1 else o)
          (lookup-put_other key value asked dict h))
  ]

-- `groups[key].append(x)`
module _ {ℓ κ} {K : Type ℓ} {A : Type κ} (same : K → K → Bool) where
  unfoldable pub append_to : K → A → List (K × List A) → List (K × List A)
  append_to key x [] = (key, x ∷ []) ∷ []
  append_to key x (group ∷ groups) =
      let rest = append_to key x groups in
      if same group.0 key then (group.0, group.1 ++ x ∷ []) ∷ groups else group ∷ rest

  unfoldable pub grouped_from : (A → K) → List (K × List A) → List A → List (K × List A)
  unfolding append_to
  grouped_from key_of groups [] = groups
  grouped_from key_of groups (x ∷ xs) = grouped_from key_of (append_to (key_of x) x groups) xs
