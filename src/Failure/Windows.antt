-- ===== src/Failure/Windows.antt =====
-- The windows of a batch in detection/system_failure.py: in ascending order, each with exactly the
-- events whose time lies in it.
use linux_xai_security_assis.Base.{
  ℕ, suc, ◌+◌, ◌*◌, ◌/◌, ◌&&◌, leb, ltb, All, All-Memᴰ, ◌≤◌, ◌<◌, ◌≡◌, ◌≢◌, refl, sym, ap, ◌∙◌, inl,
  inr, Bool, true, false≢true, List, [], ◌∷◌, arith, ltb→lt, ◌==◌, ==_iff, keep, Bool-cases,
  sort_by_iff,
}
use mathlib.Core.List.{Memᴰ}
use native.Mathlib.Nat.{mul-le-mul_right, div-mul-le_self, lt-div-mul-add}
use linux_xai_security_assis.Policy.{one}
use linux_xai_security_assis.Failure.Batch.{
  Event, is_consumed, window_width, window_start_for, by_window, in_order, windows_of, inside,
}
use linux_xai_security_assis.Failure.Buckets.{
  group_at, Distinct, Ascending, group_at-Memᴰ, Memᴰ-group_at, Ascending-sort_by,
  group_at-grouped_from, Distinct-grouped_from, All-grouped_from,
}

window_width-positive : 0 < window_width
unfolding window_width one
window_width-positive = ltb→lt 0 window_width refl

-- A time lies in its window.
abbrev pub IsIn : ℕ → ℕ → Type 0
IsIn window time = (window ≤ time) × (time < window + window_width)

window_start_for-IsIn : (time : ℕ) → IsIn (window_start_for time) time
unfolding window_start_for
window_start_for-IsIn time =
    (div-mul-le_self time window_width, lt-div-mul-add window_width-positive)

-- Windows stand at the multiples of 300 seconds.
abbrev pub IsStart : ℕ → Type 0
IsStart window = (k : ℕ) × (window ≡ k * (300 * one))

-- The time is from the start of the window on, and less than 300 seconds after it.
abbrev pub lies_in : ℕ → ℕ → Bool
lies_in window time = leb window time && ltb time (window + 300 * one)

-- The events of a batch that a window takes, in the order of the batch.
abbrev pub events_in : List Event → ℕ → List Event
events_in events window = keep (λ (e : Event). lies_in window e.timestamp) (keep is_consumed events)

pub record IsSplit (events : List Event) (windows : List (ℕ × List Event)) : Type 0 where
  pub ascending : Ascending windows
  pub exact :
      (window : ℕ) (group : List Event)
      → Memᴰ (window, group) windows
      → IsStart window × (group ≡ events_in events window)
  pub none_dropped :
      (window : ℕ) (group : List Event)
      → Memᴰ (window, group) windows
      → keep (inside window (window + window_width)) group ≡ group
  pub complete :
      (e : Event)
      → Memᴰ e (keep is_consumed events)
      → (window : ℕ) × (lies_in window e.timestamp ≡ true)
        × Memᴰ (window, events_in events window) windows

width_is : window_width ≡ 300 * one
unfolding window_width
width_is = refl

window_start_for-IsStart : (time : ℕ) → IsStart (window_start_for time)
unfolding window_start_for window_width
window_start_for-IsStart time = (time / window_width, refl)

-- Two windows that a time lies in are one.
same_multiple :
    (w time j k : ℕ) → j * w ≤ time → time < j * w + w → k * w ≤ time → time < k * w + w → j ≤ k
same_multiple w time j k a b c d = elim (Bool-cases (leb j k)) [
  | inl le ↦ ground (arith, le)
  | inr gt ↦
      let step : suc k ≤ j = ground (arith, gt) in
      let grown : suc k * w ≤ j * w = mul-le-mul_right w step in
      let next : suc k * w ≡ k * w + w = omega arith in absurd (omega (arith, grown, next))
]

lies_in-window_start_for : (time : ℕ) → lies_in (window_start_for time) time ≡ true
lies_in-window_start_for time =
    let (low, high) = window_start_for-IsIn time in
    let high' : time < window_start_for time + 300 * one = rw width_is at high in
    ground (arith, low, high')

-- Comparing the starts is testing whether the time lies in the window.
start_test :
    (window time : ℕ) → IsStart window → (window_start_for time == window) ≡ lies_in window time
start_test window time (k, is_start) = elim (Bool-cases (lies_in window time)) [
  | inr outside ↦ elim (Bool-cases (window_start_for time == window)) [
    | inr other ↦ other ∙ sym outside
    | inl same ↦
        let start = (==_iff (window_start_for time) window).0 same in
        absurd (false≢true (sym outside ∙ (rw start at (lies_in-window_start_for time))))
  ]
  | inl within ↦
      let (low, high) = window_start_for-IsIn time in
      let (j, own) = window_start_for-IsStart time in
      let high' : time < window_start_for time + 300 * one = rw width_is at high in
      let from : k * (300 * one) ≤ time = ground (arith, within, is_start) in
      let to : time < k * (300 * one) + 300 * one = ground (arith, within, is_start) in
      let own_from : j * (300 * one) ≤ time = (rw own at low) in
      let own_to : time < j * (300 * one) + 300 * one = (rw own at high') in
      let up = same_multiple (300 * one) time j k own_from own_to from to in
      let down = same_multiple (300 * one) time k j from to own_from own_to in
      let equal : j ≡ k = omega (arith, up, down) in
      let starts : window_start_for time ≡ window =
        own ∙ ap (λ (n : ℕ). n * (300 * one)) equal ∙ sym is_start in
      (==_iff (window_start_for time) window).1 starts ∙ sym within
]

keep-same :
    (p q : Event → Bool)
    → ((e : Event) → p e ≡ q e)
    → (events : List Event) → keep p events ≡ keep q events
keep-same p q h [] = refl
keep-same p q h (e ∷ events) = rw (h e, keep-same p q h events) refl

keep-inside :
    (window : ℕ) (events : List Event)
    → keep
        (inside window (window + window_width))
        (keep (λ (e : Event). window_start_for e.timestamp == window) events)
      ≡ keep (λ (e : Event). window_start_for e.timestamp == window) events
keep-inside window [] = refl
keep-inside window (e ∷ events) = elim (Bool-cases (window_start_for e.timestamp == window)) [
  | inr other ↦ rw other (keep-inside window events)
  | inl same ↦
      let (low, high) = window_start_for-IsIn e.timestamp in
      let is_start = (==_iff (window_start_for e.timestamp) window).0 same in
      let taken : inside window (window + window_width) e ≡ true =
        ground (arith, low, high, is_start) in
      rw (same, taken) (ap (λ l. e ∷ l) (keep-inside window events))
]

keep-not_empty :
    (p : Event → Bool) (e : Event) (events : List Event)
    → Memᴰ e events
    → p e ≡ true
    → keep p events ≢ []
keep-not_empty p e [] m h k = elim m [ ]
keep-not_empty p e (f ∷ events) m h k = elim (Bool-cases (p f)) [
  | inl kept ↦ cc (rw kept at k)
  | inr dropped ↦ elim m [
    | Memᴰ.head eq ↦ absurd (false≢true (sym dropped ∙ rw (← eq) h))
    | Memᴰ.tail m' ↦ keep-not_empty p e events m' h (rw dropped at k)
  ]
]

module _ (events : List Event) where
  -- The events that the code's test puts in a window.
  abbrev put_in : ℕ → List Event
  put_in window =
      keep (λ (e : Event). window_start_for e.timestamp == window) (keep is_consumed events)

  put_in-events_in : (window : ℕ) → IsStart window → put_in window ≡ events_in events window
  put_in-events_in window start =
      keep-same (λ (e : Event). window_start_for e.timestamp == window)
        (λ (e : Event). lies_in window e.timestamp) (λ e. start_test window e.timestamp start)
        (keep is_consumed events)

  group_at-by_window : (window : ℕ) → group_at window (by_window [] events) ≡ put_in window
  unfolding by_window
  group_at-by_window window =
      group_at-grouped_from (λ (e : Event). window_start_for e.timestamp) window []
        (keep is_consumed events)

  by_window-Distinct : Distinct (by_window [] events)
  unfolding by_window
  by_window-Distinct =
      Distinct-grouped_from (λ (e : Event). window_start_for e.timestamp) []
        (keep is_consumed events) tt

  by_window-IsStart : All (λ (g : ℕ × List Event). IsStart g.0) (by_window [] events)
  unfolding by_window
  by_window-IsStart =
      All-grouped_from (λ (e : Event). window_start_for e.timestamp) IsStart []
        (keep is_consumed events) (λ e. window_start_for-IsStart e.timestamp) tt

  listed :
      (window : ℕ) (group : List Event)
      → Memᴰ (window, group) (windows_of events)
      → IsStart window × (group ≡ put_in window)
  unfolding windows_of
  listed window group m =
      let there = (sort_by_iff in_order (by_window [] events) (window, group)).0 m in
      (
        All-Memᴰ (λ (g : ℕ × List Event). IsStart g.0) (by_window [] events) (window, group)
            by_window-IsStart there,
        sym (group_at-Memᴰ window group (by_window [] events) by_window-Distinct there)
            ∙ group_at-by_window window,
      )

  windows-exact :
      (window : ℕ) (group : List Event)
      → Memᴰ (window, group) (windows_of events)
      → IsStart window × (group ≡ events_in events window)
  windows-exact window group m =
      let (start, own) = listed window group m in (start, own ∙ put_in-events_in window start)

  windows-complete :
      (e : Event)
      → Memᴰ e (keep is_consumed events)
      → Memᴰ
          (window_start_for e.timestamp, put_in (window_start_for e.timestamp))
          (windows_of events)
  unfolding windows_of
  windows-complete e m =
      let window = window_start_for e.timestamp in
      let is_own = (==_iff window window).1 refl in
      let taken : group_at window (by_window [] events) ≢ [] = rw (group_at-by_window window) (
        keep-not_empty (λ (f : Event). window_start_for f.timestamp == window) e
          (keep is_consumed events) m is_own) in
      let found = Memᴰ-group_at window (by_window [] events) taken in
      let in_table = rw (group_at-by_window window) at found in
      (sort_by_iff in_order (by_window [] events) (window, put_in window)).1 in_table

  -- The windows that a batch is scored in ascend and start at multiples of 300 seconds. Each holds
  -- exactly the health and service events of the batch whose time is from its start on and less
  -- than 300 seconds after it, in the order of the batch, none of which the window drops; and every
  -- such event of the batch lies in one of the windows.
  pub windows_of-IsSplit : IsSplit events (windows_of events)
  unfolding windows_of
  windows_of-IsSplit = record {
    ascending = Ascending-sort_by (by_window [] events) by_window-Distinct;
    exact = windows-exact;
    none_dropped = λ window group m.
        rw ((listed window group m).1) (keep-inside window (keep is_consumed events));
    complete = λ e m.
        let window = window_start_for e.timestamp in
        (
          window,
          lies_in-window_start_for e.timestamp,
          rw (← put_in-events_in window (window_start_for-IsStart e.timestamp))
              (windows-complete e m),
        );
  }
