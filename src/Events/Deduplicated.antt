-- ===== src/Events/Deduplicated.antt =====
-- The deduplication key of an event of pipeline/event_stream.py, whoever normalizes its record.
use linux_xai_security_assis.Base.{
  ◌≡◌, refl, sym, ap, ◌∙◌, inl, inr, Bool, true, false, false≢true, Option, none, some, List, [],
  ◌∷◌, any, All, ◌⊎◌, Bool-cases, Option-cases, Text, codes, same_text, same_text→eq, Keyed, lookup,
  lookup-put_other,
}
use linux_xai_security_assis.Events.{Python, Double, Json, null, Raw, get, or_default, is_true}
use linux_xai_security_assis.Events.Record.{Event, from_raw_json, event_hash}
use linux_xai_security_assis.Events.Normalizer.{
  Environment, host_id, nullable_text, is_null, put_missing, stamp_observation, put_some, ◌>>=◌,
  put_all, coercions, normalize,
}
use linux_xai_security_assis.Events.Observation.{
  materials, Agree, materials-Agree, stamp_observation-other,
}

-- The keys that `normalize` coerces.
abbrev pub is_coerced : Text → Bool
is_coerced key = any (same_text key) (
    codes "timestamp"
    ∷ codes "uid"
    ∷ codes "pid"
    ∷ codes "ppid"
    ∷ codes "gid"
    ∷ codes "parent_comm"
    ∷ codes "ancestry"
    ∷ [])

coerced_keys :
    (py : Python)
    → All (λ (step : Text × (Raw → Option Json)). is_coerced step.0 ≡ true) (coercions py)
unfolding coercions same_text
coerced_keys py = (refl, (refl, (refl, (refl, (refl, (refl, (refl, tt)))))))

abbrev pub dedup_key : (Keyed Json → Text) → Option Event → Option Text
dedup_key hash_of none = none
dedup_key hash_of (some e) = some (event_hash hash_of e)

dedup_key-materials :
    (hash_of : Keyed Json → Text) (o q : Option Event)
    → materials o ≡ materials q
    → dedup_key hash_of o ≡ dedup_key hash_of q
unfolding event_hash
dedup_key-materials hash_of none none e = refl
dedup_key-materials hash_of none (some f) e = cc
dedup_key-materials hash_of (some d) none e = cc
dedup_key-materials hash_of (some d) (some f) e = cc

module _ (key : Text) (raw : Raw) (untouched : is_coerced key ≡ false) where
  not_coerced : (own : Text) → is_coerced own ≡ true → same_text own key ≡ false
  not_coerced own c = elim (Bool-cases (same_text own key)) [
    | inr other ↦ other
    | inl same ↦
        absurd (false≢true (sym untouched ∙ ap is_coerced (sym (same_text→eq own key same)) ∙ c))
  ]

  -- A copy, if there is one, has under the key what the record has.
  Kept : Option Raw → Type 0
  Kept none = Unit
  Kept (some r) = lookup key r ≡ lookup key raw

  put_some-Kept :
      (own : Text) (o : Option Json) (r : Raw)
      → is_coerced own ≡ true
      → lookup key r ≡ lookup key raw
      → Kept (put_some own o r)
  unfolding Kept
  put_some-Kept own none r c h = tt
  put_some-Kept own (some j) r c h = lookup-put_other own j key r (not_coerced own c) ∙ h

  bind-Kept :
      (o : Option Raw) (f : Raw → Option Raw)
      → Kept o
      → ((r : Raw) → lookup key r ≡ lookup key raw → Kept (f r))
      → Kept (o >>= f)
  unfolding Kept
  bind-Kept none f h g = tt
  bind-Kept (some r) f h g = g r h

  put_all-Kept :
      (steps : List (Text × (Raw → Option Json))) (r : Raw)
      → All (λ (step : Text × (Raw → Option Json)). is_coerced step.0 ≡ true) steps
      → lookup key r ≡ lookup key raw
      → Kept (put_all steps r)
  unfolding put_all Kept
  put_all-Kept [] r c h = h
  put_all-Kept (step ∷ steps) r c h =
      bind-Kept (put_some step.0 (step.1 r) r) (put_all steps)
        (put_some-Kept step.0 (step.1 r) r c.0 h) (λ q k. put_all-Kept steps q c.1 k)

  pub coercions-Kept :
      (py : Python) (r : Raw) → put_all (coercions py) raw ≡ some r → lookup key r ≡ lookup key raw
  unfolding Kept
  coercions-Kept py r e =
      let k = put_all-Kept (coercions py) raw (coerced_keys py) refl in rw e at k

host_untouched : is_coerced (codes "host_id") ≡ false
unfolding same_text
host_untouched = refl

module _ (py : Python) (raw : Raw) where
  stamped-Agree :
      (env₁ env₂ : Environment) (clock₁ clock₂ : Double) (r : Raw)
      → put_missing (codes "host_id") (nullable_text (host_id env₁)) r
        ≡ put_missing (codes "host_id") (nullable_text (host_id env₂)) r
      → Agree (stamp_observation env₁ clock₁ r) (stamp_observation env₂ clock₂ r)
  stamped-Agree env₁ env₂ clock₁ clock₂ r e key h =
      stamp_observation-other env₁ clock₁ r key h
      ∙ ap (lookup key) e
      ∙ sym (stamp_observation-other env₂ clock₂ r key h)

  same_host :
      (env₁ env₂ : Environment) (r : Raw)
      → lookup (codes "host_id") r ≡ lookup (codes "host_id") raw
      → (host_id env₁ ≡ host_id env₂) ⊎ (is_null (get (codes "host_id") raw) ≡ false)
      → put_missing (codes "host_id") (nullable_text (host_id env₁)) r
        ≡ put_missing (codes "host_id") (nullable_text (host_id env₂)) r
  unfolding put_missing
  same_host env₁ env₂ r kept (inl e) = ap (λ o. put_missing (codes "host_id") (nullable_text o) r) e
  same_host env₁ env₂ r kept (inr recorded) =
      let there : is_null (get (codes "host_id") r) ≡ false =
        ap (λ o. is_null (or_default null o)) kept ∙ recorded in
      rw there refl

  -- Two agents that normalize one record, on any boot, under any agent and session and at any time,
  -- both skip it or make events with one deduplication key, if the record names its host or they
  -- run on the same host.
  pub event_hash-normalize :
      (hash_of : Keyed Json → Text) (env₁ env₂ : Environment) (clock₁ clock₂ : Double)
      → (host_id env₁ ≡ host_id env₂) ⊎ (is_null (get (codes "host_id") raw) ≡ false)
      → dedup_key hash_of (normalize py env₁ clock₁ raw)
        ≡ dedup_key hash_of (normalize py env₂ clock₂ raw)
  unfolding normalize
  event_hash-normalize hash_of env₁ env₂ clock₁ clock₂ host =
      elim (Bool-cases (is_true (get (codes "event_type") raw))) [
        | inr untyped ↦ rw untyped refl
        | inl typed ↦ elim (Option-cases (put_all (coercions py) raw)) [
          | inl fails ↦ rw (typed, fails) refl
          | inr (r, coerced) ↦
              let kept = coercions-Kept (codes "host_id") raw host_untouched py r coerced in
              let agree =
                stamped-Agree env₁ env₂ clock₁ clock₂ r (same_host env₁ env₂ r kept host) in
              rw (typed, coerced)
                (dedup_key-materials hash_of (from_raw_json (stamp_observation env₁ clock₁ r))
                  (from_raw_json (stamp_observation env₂ clock₂ r))
                  (materials-Agree (stamp_observation env₁ clock₁ r)
                    (stamp_observation env₂ clock₂ r) agree))
        ]
      ]
