-- ===== src/Alerts/Firing.antt =====
-- Which alerts `evaluate` of observability/alerts.py raises, and in which order.
use mathlib.Core.List.Memᴰ
use mathlib.Core.List.{Memᴰ}
use linux_xai_security_assis.Base.{
  ℕ, ◌-◌, ◌*◌, ◌≤◌, ◌<◌, ◌≡◌, ◌≢◌, ◌⊎◌, ◌↔◌, refl, sym, ap, ◌∙◌, Bool, true, false, not, Option,
  none, some, List, [], ◌∷◌, ◌++◌, map, keep, ltb, ◌==◌, Text, inl, inr, Bool-cases, false≢true,
  ltb→lt, lt→ltb, arith,
}
use linux_xai_security_assis.Alerts.{
  Snapshot, Settings, Alert, database_unavailable, disk_space_low_ratio, ingest_queue_saturated,
  database_permissions_insecure, evidence_chain_broken, events_dropped, kernel_events_lost,
  events_quarantined, collector_health_stale, telemetry_stale, disk_space_low, collector_degraded,
  age_of, insecure_files, degraded_sources, broken_tables, when, for_any, for_age, counted,
  disk_alerts, queue_alerts, silence_alerts, raised,
}

-- A time that is there and longer ago than the limit.
abbrev pub IsOlder : (ℕ → Alert) → ℕ → ℕ → Option ℕ → Alert → Type 0
IsOlder alert limit now none a = ⊥
IsOlder alert limit now (some time) a = (limit < now - time) × (a ≡ alert (now - time))

-- The condition of each alert.
abbrev pub Fires : Settings → Option (List (Text × Bool)) → Snapshot → Alert → Type 0
Fires c chain_status s a =
    ((s.database_error ≡ true) × (a ≡ database_unavailable))
    ⊎ (((insecure_files s ≢ []) × (a ≡ database_permissions_insecure (insecure_files s)))
        ⊎ (((broken_tables chain_status ≢ [])
              × (a ≡ evidence_chain_broken (broken_tables chain_status)))
            ⊎ (((0 < s.dropped_event_count) × (a ≡ events_dropped s.dropped_event_count))
                ⊎ (((0 < s.kernel_lost_event_count)
                      × (a ≡ kernel_events_lost s.kernel_lost_event_count))
                    ⊎ (((0 < s.quarantined_event_count)
                          × (a ≡ events_quarantined s.quarantined_event_count))
                        ⊎ (((source : Text) × Memᴰ (source, true) s.sources
                              × (a ≡ collector_degraded source))
                            ⊎ (((0 < c.alert_collector_silence_seconds)
                                  × IsOlder collector_health_stale c.alert_collector_silence_seconds
                                      s.collected_at s.updated_at a)
                                ⊎ (IsOlder telemetry_stale c.stale_after_seconds s.collected_at
                                      s.latest_event_timestamp a
                                    ⊎ (((0 < s.total_bytes)
                                          × (((s.free_bytes < c.alert_min_free_disk_bytes)
                                                × (a ≡ disk_space_low s.free_bytes))
                                              ⊎ ((c.alert_min_free_disk_bytes ≤ s.free_bytes)
                                                  × (s.free_bytes
                                                        * c.alert_min_free_disk_ratio.whole
                                                      < c.alert_min_free_disk_ratio.part
                                                        * s.total_bytes)
                                                  × (a ≡ disk_space_low_ratio))))
                                        ⊎ ((0 < s.queue_capacity)
                                            × (c.alert_max_queue_fill_ratio.part * s.queue_capacity
                                                < s.queue_depth
                                                  * c.alert_max_queue_fill_ratio.whole)
                                            × (a ≡ ingest_queue_saturated)))))))))))

or_iff :
    (P Q : Type 0) (xs ys : List Alert) (a : Alert)
    → Memᴰ a xs ↔ P
    → Memᴰ a ys ↔ Q
    → Memᴰ a (xs ++ ys) ↔ (P ⊎ Q)
or_iff P Q xs ys a p q = (
  (λ m. elim (Memᴰ.append_cases xs m) [ inl left ↦ inl (p.0 left) | inr right ↦ inr (q.0 right) ]),
  λ h. elim h [
    | inl left ↦ Memᴰ.append_left ys (p.1 left)
    | inr right ↦ Memᴰ.append_right xs (q.1 right)
  ],
)

one_iff : (a b : Alert) → Memᴰ a (b ∷ []) ↔ (a ≡ b)
one_iff a b = ((λ m. elim m [ Memᴰ.head e ↦ e | Memᴰ.tail m' ↦ elim m' [ ] ]), λ e. Memᴰ.head e)

when_iff : (test : Bool) (a b : Alert) → Memᴰ a (when test b) ↔ ((test ≡ true) × (a ≡ b))
when_iff true a b = ((λ m. (refl, (one_iff a b).0 m)), λ h. (one_iff a b).1 h.1)
when_iff false a b = ((λ m. elim m [ ]), λ h. cc h.0)

counted_iff :
    (alert : ℕ → Alert) (count : ℕ) (a : Alert)
    → Memᴰ a (counted alert count) ↔ ((0 < count) × (a ≡ alert count))
counted_iff alert count a =
    let shown = when_iff (not (count == 0)) a (alert count) in
    ((λ m. (ground (arith, (shown.0 m).0), (shown.0 m).1)), λ h. shown.1 (ground (arith, h.0), h.1))

for_any_iff :
    (alert : List Text → Alert) (texts : List Text) (a : Alert)
    → Memᴰ a (for_any alert texts) ↔ ((texts ≢ []) × (a ≡ alert texts))
for_any_iff alert [] a = ((λ m. elim m [ ]), λ h. absurd (h.0 refl))
for_any_iff alert (t ∷ texts) a = (
  (λ m. ((λ e. cc e), (one_iff a (alert (t ∷ texts))).0 m)),
  λ h. (one_iff a (alert (t ∷ texts))).1 h.1,
)

for_age_iff :
    (alert : ℕ → Alert) (limit now : ℕ) (time : Option ℕ) (a : Alert)
    → Memᴰ a (for_age alert limit (age_of now time)) ↔ IsOlder alert limit now time a
for_age_iff alert limit now none a = ((λ m. elim m [ ]), λ h. elim h [ ])
for_age_iff alert limit now (some time) a =
    let shown = when_iff (ltb limit (now - time)) a (alert (now - time)) in
    ((λ m. (ground (arith, (shown.0 m).0), (shown.0 m).1)), λ h. shown.1 (ground (arith, h.0), h.1))

degraded_iff :
    (sources : List (Text × Bool)) (a : Alert)
    → Memᴰ a (
        map collector_degraded
          (map (λ (f : Text × Bool). f.0) (keep (λ (f : Text × Bool). f.1) sources)))
      ↔ ((source : Text) × Memᴰ (source, true) sources × (a ≡ collector_degraded source))
degraded_iff [] a = ((λ m. elim m [ ]), λ h. elim h.1 [ ])
degraded_iff ((source, true) ∷ sources) a = (
  (λ m. elim m [
    | Memᴰ.head e ↦ (source, Memᴰ.head refl, e)
    | Memᴰ.tail m' ↦
        let (other, there, e) = (degraded_iff sources a).0 m' in (other, Memᴰ.tail there, e)
  ]),
  λ (other, there, e). elim there [
    | Memᴰ.head same ↦ Memᴰ.head (e ∙ ap (λ (f : Text × Bool). collector_degraded f.0) same)
    | Memᴰ.tail m ↦ Memᴰ.tail ((degraded_iff sources a).1 (other, m, e))
  ],
)
degraded_iff ((source, false) ∷ sources) a = (
  (λ m. let (other, there, e) = (degraded_iff sources a).0 m in (other, Memᴰ.tail there, e)),
  λ (other, there, e). elim there [
    | Memᴰ.head same ↦ absurd (false≢true (sym (ap (λ (f : Text × Bool). f.1) same)))
    | Memᴰ.tail m ↦ (degraded_iff sources a).1 (other, m, e)
  ],
)

disk_iff :
    (c : Settings) (s : Snapshot) (a : Alert)
    → Memᴰ a (disk_alerts c s) ↔ (
        (0 < s.total_bytes)
        × (((s.free_bytes < c.alert_min_free_disk_bytes) × (a ≡ disk_space_low s.free_bytes))
            ⊎ ((c.alert_min_free_disk_bytes ≤ s.free_bytes)
                × (s.free_bytes * c.alert_min_free_disk_ratio.whole
                    < c.alert_min_free_disk_ratio.part * s.total_bytes)
                × (a ≡ disk_space_low_ratio))))
unfolding disk_alerts
disk_iff c s a = elim (Bool-cases (s.total_bytes == 0)) [
  | inl absent ↦ rw absent ((λ m. elim m [ ]), λ h. absurd (ground (arith, h.0, absent)))
  | inr present ↦ elim (Bool-cases (ltb s.free_bytes c.alert_min_free_disk_bytes)) [
    | inl low ↦
        rw (present, low)
          (
            (λ m. (
              ground (arith, present),
              inl (ground (arith, low), (one_iff a (disk_space_low s.free_bytes)).0 m),
            )),
            λ h. elim h.1 [
              | inl (few, e) ↦ (one_iff a (disk_space_low s.free_bytes)).1 e
              | inr (enough, ratio, e) ↦ absurd (ground (arith, enough, low))
            ],
          )
    | inr enough ↦
        let short =
          ltb (s.free_bytes * c.alert_min_free_disk_ratio.whole)
            (c.alert_min_free_disk_ratio.part * s.total_bytes) in
        let shown = when_iff short a disk_space_low_ratio in
        rw (present, enough)
          (
            (λ m. (
              ground (arith, present),
              inr (ground (arith, enough), ltb→lt _ _ (shown.0 m).0, (shown.0 m).1),
            )),
            λ h. elim h.1 [
              | inl (few, e) ↦ absurd (ground (arith, enough, few))
              | inr (_, ratio, e) ↦ shown.1 (lt→ltb _ _ ratio, e)
            ],
          )
  ]
]

queue_iff :
    (c : Settings) (s : Snapshot) (a : Alert)
    → Memᴰ a (queue_alerts c s) ↔ (
        (0 < s.queue_capacity)
        × (c.alert_max_queue_fill_ratio.part * s.queue_capacity
            < s.queue_depth * c.alert_max_queue_fill_ratio.whole)
        × (a ≡ ingest_queue_saturated))
unfolding queue_alerts
queue_iff c s a = elim (Bool-cases (s.queue_capacity == 0)) [
  | inl absent ↦ rw absent ((λ m. elim m [ ]), λ h. absurd (ground (arith, h.0, absent)))
  | inr present ↦
      let full =
        ltb (c.alert_max_queue_fill_ratio.part * s.queue_capacity)
          (s.queue_depth * c.alert_max_queue_fill_ratio.whole) in
      let shown = when_iff full a ingest_queue_saturated in
      rw present (
        (λ m. (ground (arith, present), ltb→lt _ _ (shown.0 m).0, (shown.0 m).1)),
        λ h. shown.1 (lt→ltb _ _ h.1, h.2),
      )
]

silence_iff :
    (c : Settings) (s : Snapshot) (a : Alert)
    → Memᴰ a (silence_alerts c s) ↔ (
        (0 < c.alert_collector_silence_seconds)
        × IsOlder collector_health_stale c.alert_collector_silence_seconds s.collected_at
            s.updated_at a)
unfolding silence_alerts
silence_iff c s a =
    let limit = c.alert_collector_silence_seconds in
    let shown = for_age_iff collector_health_stale limit s.collected_at s.updated_at a in
    elim (Bool-cases (limit == 0)) [
      | inl off ↦ rw off ((λ m. elim m [ ]), λ h. absurd (ground (arith, h.0, off)))
      | inr on ↦ rw on ((λ m. (ground (arith, on), shown.0 m)), λ h. shown.1 h.1)
    ]

pub raised_iff :
    (c : Settings) (chain_status : Option (List (Text × Bool))) (s : Snapshot) (a : Alert)
    → Memᴰ a (raised c chain_status s) ↔ Fires c chain_status s a
unfolding raised
raised_iff c chain_status s a =
    or_iff _ _ (when s.database_error database_unavailable) _ a
      (when_iff s.database_error a database_unavailable)
      (or_iff _ _ (for_any database_permissions_insecure (insecure_files s)) _ a
        (for_any_iff database_permissions_insecure (insecure_files s) a)
        (or_iff _ _ (for_any evidence_chain_broken (broken_tables chain_status)) _ a
          (for_any_iff evidence_chain_broken (broken_tables chain_status) a)
          (or_iff _ _ (counted events_dropped s.dropped_event_count) _ a
            (counted_iff events_dropped s.dropped_event_count a)
            (or_iff _ _ (counted kernel_events_lost s.kernel_lost_event_count) _ a
              (counted_iff kernel_events_lost s.kernel_lost_event_count a)
              (or_iff _ _ (counted events_quarantined s.quarantined_event_count) _ a
                (counted_iff events_quarantined s.quarantined_event_count a)
                (or_iff _ _ (map collector_degraded (degraded_sources s)) _ a
                  (degraded_iff s.sources a)
                  (or_iff _ _ (silence_alerts c s) _ a (silence_iff c s a) (
                    or_iff _ _
                      (for_age telemetry_stale c.stale_after_seconds
                        (age_of s.collected_at s.latest_event_timestamp))
                      _ a
                      (for_age_iff telemetry_stale c.stale_after_seconds s.collected_at
                        s.latest_event_timestamp a)
                      (or_iff _ _ (disk_alerts c s) (queue_alerts c s) a (disk_iff c s a)
                        (queue_iff c s a))))))))))
