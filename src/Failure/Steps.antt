-- ===== src/Failure/Steps.antt =====
-- How one window moves a hysteresis counter of detection/system_failure.py, and what the counter
-- knows of the readings before it.
use linux_xai_security_assis.Base.{
  ℕ, Option, none, ◌+◌, ◌≤◌, ◌<◌, ◌≡◌, refl, sym, ◌∙◌, ◌⊎◌, inl, inr, Bool, true, false, not,
  false≢true, some, List, [], ◌∷◌, arith, leb, Bool-cases,
}
use linux_xai_security_assis.Failure.{Counter, is_stale, advance, observe}
use linux_xai_security_assis.Failure.InForce.{leading, InForce, fired, held, feed, history, is_new}

advance-last_window : (b : Bool) (w : ℕ) (c : Counter) → (advance b w c).last_window ≡ some w
advance-last_window true w c = refl
advance-last_window false w c = refl

pub stale-is_new : (window : ℕ) (last : Option ℕ) → is_stale window last ≡ not (is_new last window)
stale-is_new window none = refl
stale-is_new window (some last) = ground arith

pub not-not : (b : Bool) → not (not b) ≡ b
not-not true = refl
not-not false = refl

module _ {V : Type 0} (enter leave : V → Bool) (breach clear : ℕ) where
  InForce-cons :
      (v : V) (h : List V)
      → InForce enter leave breach clear (v ∷ h)
      → (breach ≤ leading enter (v ∷ h))
        ⊎ (InForce enter leave breach clear h × (leading leave (v ∷ h) < clear))
  InForce-cons v h (fired _ k) = inl k
  InForce-cons v h (held _ _ f k) = inr (f, k)

  -- What the counter knows of the history.
  pub record Tracks (c : Counter) (h : List V) : Type 0 where
    pub breach_needed : c.breach_needed ≡ breach
    pub clear_needed : c.clear_needed ≡ clear
    pub counts_clear : c.active ≡ true → c.clear_count ≡ leading leave h
    pub counts_breach : c.active ≡ false → c.breach_count ≡ leading enter h
    pub is_active : c.active ≡ true → InForce enter leave breach clear h
    pub is_quiet : c.active ≡ false → ¬ InForce enter leave breach clear h

module _ {V : Type 0} (enter leave : V → Bool) (breach clear : ℕ) (least : 1 ≤ breach)
    (some_clear : 1 ≤ clear) (apart : (v : V) → enter v ≡ true → leave v ≡ false) where
  pub InForce-nil : ¬ InForce enter leave breach clear []
  InForce-nil (fired _ k) = omega (arith, k, least)

  not_in_force :
      (v : V) (h : List V)
      → leading enter (v ∷ h) < breach
      → (¬ InForce enter leave breach clear h) ⊎ (clear ≤ leading leave (v ∷ h))
      → ¬ InForce enter leave breach clear (v ∷ h)
  not_in_force v h few over f = elim (InForce-cons enter leave breach clear v h f) [
    | inl k ↦ omega (arith, k, few)
    | inr (before, k) ↦ elim over [ inl never ↦ never before | inr done ↦ omega (arith, k, done) ]
  ]

  never_both : (v : V) → leave v ≡ true → enter v ≡ false
  never_both v left = elim (Bool-cases (enter v)) [
    | inl entered ↦ absurd (false≢true (sym (apart v entered) ∙ left))
    | inr e ↦ e
  ]

  stays :
      (v : V) (c : Counter) (w : ℕ) (h : List V)
      → Tracks enter leave breach clear c h
      → c.active ≡ true
      → leave v ≡ false
      → Tracks enter leave breach clear (advance true w c) (v ∷ h)
  stays v c w h t on not_left = rw on (record {
    breach_needed = t.breach_needed;
    clear_needed = t.clear_needed;
    counts_clear = λ e. rw not_left refl;
    counts_breach = λ e. cc;
    is_active = λ e. held v h (t.is_active on) (rw not_left some_clear);
    is_quiet = λ e. cc;
  })

  leaves :
      (v : V) (c : Counter) (w : ℕ) (h : List V)
      → Tracks enter leave breach clear c h
      → c.active ≡ true
      → leave v ≡ true
      → Tracks enter leave breach clear (advance false w c) (v ∷ h)
  leaves v c w h t on left =
      let counted : c.clear_count + 1 ≡ leading leave (v ∷ h) =
        rw left (omega (arith, t.counts_clear on)) in
      let no_run : leading enter (v ∷ h) ≡ 0 = rw (never_both v left) refl in
      elim (Bool-cases (leb c.clear_needed (c.clear_count + 1))) [
        | inl done ↦
            rw (on, done)
              (record {
                breach_needed = t.breach_needed;
                clear_needed = t.clear_needed;
                counts_clear = λ e. counted;
                counts_breach = λ e. sym no_run;
                is_active = λ e. cc;
                is_quiet = λ e.
                    not_in_force v h (omega (arith, no_run, least))
                      (inr (ground (arith, done, counted, t.clear_needed)));
              })
        | inr more ↦
            rw (on, more)
              (record {
                breach_needed = t.breach_needed;
                clear_needed = t.clear_needed;
                counts_clear = λ e. counted;
                counts_breach = λ e. sym no_run;
                is_active =
                    λ e. held v h (t.is_active on) (ground (arith, more, counted, t.clear_needed));
                is_quiet = λ e. cc;
              })
      ]

  pub enters :
      (v : V) (c : Counter) (w : ℕ) (h : List V)
      → Tracks enter leave breach clear c h
      → c.active ≡ false
      → enter v ≡ true
      → Tracks enter leave breach clear (advance true w c) (v ∷ h)
  enters v c w h t off entered =
      let counted : c.breach_count + 1 ≡ leading enter (v ∷ h) =
        rw entered (omega (arith, t.counts_breach off)) in
      let no_run : leading leave (v ∷ h) ≡ 0 = rw (apart v entered) refl in
      elim (Bool-cases (leb c.breach_needed (c.breach_count + 1))) [
        | inl done ↦
            rw (off, done)
              (record {
                breach_needed = t.breach_needed;
                clear_needed = t.clear_needed;
                counts_clear = λ e. sym no_run;
                counts_breach = λ e. counted;
                is_active = λ e. fired (v ∷ h) (ground (arith, done, counted, t.breach_needed));
                is_quiet = λ e. cc;
              })
        | inr more ↦
            rw (off, more)
              (record {
                breach_needed = t.breach_needed;
                clear_needed = t.clear_needed;
                counts_clear = λ e. sym no_run;
                counts_breach = λ e. counted;
                is_active = λ e. cc;
                is_quiet = λ e.
                    not_in_force v h (ground (arith, more, counted, t.breach_needed))
                      (inl (t.is_quiet off));
              })
      ]

  rests :
      (v : V) (c : Counter) (w : ℕ) (h : List V)
      → Tracks enter leave breach clear c h
      → c.active ≡ false
      → enter v ≡ false
      → Tracks enter leave breach clear (advance false w c) (v ∷ h)
  rests v c w h t off not_entered =
      let no_run : leading enter (v ∷ h) ≡ 0 = rw not_entered refl in
      rw off (record {
        breach_needed = t.breach_needed;
        clear_needed = t.clear_needed;
        counts_clear = λ e. cc;
        counts_breach = λ e. sym no_run;
        is_active = λ e. cc;
        is_quiet = λ e. not_in_force v h (omega (arith, no_run, least)) (inl (t.is_quiet off));
      })

  module _ (breaches : Bool → V → Bool) (on_entry : (v : V) → breaches false v ≡ enter v)
      (on_leave : (v : V) → breaches true v ≡ not (leave v)) where
    advance-Tracks :
        (v : V) (c : Counter) (w : ℕ) (h : List V)
        → Tracks enter leave breach clear c h
        → Tracks enter leave breach clear (advance (breaches c.active v) w c) (v ∷ h)
    advance-Tracks v c w h t = elim (Bool-cases c.active) [
      | inl on ↦
          let is_leave : breaches c.active v ≡ not (leave v) = rw on (on_leave v) in
          elim (Bool-cases (leave v)) [
            | inl left ↦ rw (is_leave, left) (leaves v c w h t on left)
            | inr not_left ↦ rw (is_leave, not_left) (stays v c w h t on not_left)
          ]
      | inr off ↦
          let is_entry : breaches c.active v ≡ enter v = rw off (on_entry v) in
          elim (Bool-cases (enter v)) [
            | inl entered ↦ rw (is_entry, entered) (enters v c w h t off entered)
            | inr not_entered ↦ rw (is_entry, not_entered) (rests v c w h t off not_entered)
          ]
    ]

    pub feed-Tracks :
        (c : Counter) (h : List V) (readings : List (V × ℕ))
        → Tracks enter leave breach clear c h
        → Tracks enter leave breach clear
            (feed breaches c readings)
            (history c.last_window h readings)
    unfolding feed observe history
    feed-Tracks c h [] t = t
    feed-Tracks c h (r ∷ readings) t = elim (Bool-cases (is_new c.last_window r.1)) [
      | inr old ↦ rw (stale-is_new r.1 c.last_window, old) (feed-Tracks c h readings t)
      | inl fresh ↦
          let next = breaches c.active r.0 in
          let rest =
            feed-Tracks (advance next r.1 c) (r.0 ∷ h) readings (advance-Tracks r.0 c r.1 h t) in
          let rest' = rw (advance-last_window next r.1 c) at rest in
          rw (stale-is_new r.1 c.last_window, fresh) rest'
    ]
