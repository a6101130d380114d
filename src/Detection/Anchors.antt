-- ===== src/Detection/Anchors.antt =====
-- The anchors of `_assign_correlation` in detection/detector.py: a run of windows without a gap.
use mathlib.Core.List.{Memᴰ}
use linux_xai_security_assis.Base.{
  ℕ, ◌≤◌, ◌<◌, ◌≡◌, ◌⊎◌, refl, ap, none, some, List, [], ◌∷◌, ltb, leb, ◌==◌, inl, inr, Bool-cases,
  arith,
}
use linux_xai_security_assis.Detection.Correlation.{
  Run, anchor_from, end_from, lookup, Placed, walk,
}

module _ {R : Type 0} where
  -- A window of the group crosses the time: it begins before it and does not end before it.
  abbrev pub Crossed : List (Placed R) → ℕ → Type 0
  Crossed group t = (h : Placed R) × Memᴰ h group × (h.1.window_start < t) × (t ≤ h.1.window_end)

  -- The start of the run that a window of a group belongs to.
  pub record IsStart (group : List (Placed R)) (start anchor : ℕ) : Type 0 where
    pub begins : (h : Placed R) × Memᴰ h group × (h.1.window_start ≡ anchor)
    pub before : anchor ≤ start
    pub unbroken : (t : ℕ) → anchor < t → t ≤ start → Crossed group t
    pub gap : ¬ Crossed group anchor

  -- What the walk knows behind the window that starts at `last`, with `rest` to come.
  record Knows (group rest : List (Placed R)) (last : ℕ) (run : Run) : Type 0 where
    is_start : IsStart group last run.anchor
    latest :
        (h : Placed R) × Memᴰ h group × (h.1.window_end ≡ run.prev_end) × (h.1.window_start ≤ last)
    covered : (h : Placed R) → Memᴰ h group → (h.1.window_end ≤ run.prev_end) ⊎ Memᴰ h rest

  -- Sorted, from `least` on.
  abbrev pub IsSorted : ℕ → List (Placed R) → Type 0
  IsSorted least [] = Unit
  IsSorted least (p ∷ group) = (least ≤ p.1.window_start) × IsSorted p.1.window_start group

  sorted_least :
      (least : ℕ) (group : List (Placed R)) (h : Placed R)
      → IsSorted least group
      → Memᴰ h group
      → least ≤ h.1.window_start
  sorted_least least [] h s m = elim m [ ]
  sorted_least least (p ∷ group) h s (Memᴰ.head e) = rw e s.0
  sorted_least least (p ∷ group) h s (Memᴰ.tail m) =
      omega (arith, s.0, sorted_least p.1.window_start group h s.1 m)

  -- The first window of a sorted group starts a run.
  first-Knows :
      (p : Placed R) (rest : List (Placed R))
      → IsSorted p.1.window_start rest
      → Knows
          (p ∷ rest)
          rest
          p.1.window_start
          (record { anchor = p.1.window_start; prev_end = p.1.window_end })
  first-Knows p rest s = record {
    is_start = record {
      begins = (p, Memᴰ.head refl, refl);
      before = omega arith;
      unbroken = λ t after upto. absurd (omega arith);
      gap = λ (h, m, before, upto).
          absurd (
            omega (arith, before, sorted_least p.1.window_start (p ∷ rest) h ((omega arith), s) m));
    };
    latest = (p, Memᴰ.head refl, refl, omega arith);
    covered = λ h m. elim m [ Memᴰ.head e ↦ inl (rw e (omega arith)) | Memᴰ.tail m' ↦ inr m' ];
  }

  abbrev next_run : Run → Placed R → Run
  next_run run p = record {
    anchor = anchor_from (some run) p.1.window_start;
    prev_end = end_from (some run) p.1.window_end;
  }

  -- The next window starts a run behind a gap, or goes on with the one before.
  next-IsStart :
      (group rest : List (Placed R)) (p : Placed R) (last : ℕ) (run : Run)
      → Knows group (p ∷ rest) last run
      → IsSorted last (p ∷ rest)
      → Memᴰ p group
      → IsStart group p.1.window_start (anchor_from (some run) p.1.window_start)
  unfolding anchor_from
  next-IsStart group rest p last run k s m = elim (Bool-cases (ltb run.prev_end p.1.window_start)) [
    | inl apart ↦ rw apart (record {
      begins = (p, m, refl);
      before = omega arith;
      unbroken = λ t after upto. absurd (omega arith);
      gap = λ (h, there, before, upto). elim (k.covered h there) [
        | inl done ↦ absurd (ground (arith, done, upto, apart))
        | inr ahead ↦ absurd (
            omega
              (arith, before, sorted_least p.1.window_start (p ∷ rest) h (omega arith, s.1) ahead))
      ];
    })
    | inr joined ↦ rw joined (record {
      begins = k.is_start.begins;
      before = omega (arith, k.is_start.before, s.0);
      unbroken = λ t after upto. elim (Bool-cases (leb t last)) [
        | inl early ↦ k.is_start.unbroken t after (ground (arith, early))
        | inr late ↦
            let (h, there, ends, starts) = k.latest in
            (h, there, ground (arith, starts, late), ground (arith, ends, joined, upto))
      ];
      gap = k.is_start.gap;
    })
  ]

  next-Knows :
      (group rest : List (Placed R)) (p : Placed R) (last : ℕ) (run : Run)
      → Knows group (p ∷ rest) last run
      → IsSorted last (p ∷ rest)
      → Memᴰ p group
      → Knows group rest p.1.window_start (next_run run p)
  unfolding end_from
  next-Knows group rest p last run k s m = record {
    is_start = next-IsStart group rest p last run k s m;
    latest = elim (Bool-cases (leb run.prev_end p.1.window_end)) [
      | inl later ↦ (p, m, ground (arith, later), omega arith)
      | inr not_later ↦
          let (h, there, ends, starts) = k.latest in
          (h, there, ground (arith, ends, not_later), omega (arith, starts, s.0))
    ];
    covered = λ h there. elim (k.covered h there) [
      | inl done ↦ inl (omega (arith, done))
      | inr (Memᴰ.head e) ↦ inl (rw e (omega arith))
      | inr (Memᴰ.tail m') ↦ inr m'
    ];
  }

  -- The walk sets, at the position of each window to come, the start of a run.
  walk-IsStart :
      (group rest : List (Placed R)) (last : ℕ) (run : Run) (p : Placed R)
      → Knows group rest last run
      → IsSorted last rest
      → ((h : Placed R) → Memᴰ h rest → Memᴰ h group)
      → Memᴰ p rest
      → (a : ℕ) × (q : Placed R) × (lookup p.0 (walk (some run) rest) ≡ some a)
        × Memᴰ q rest
        × (q.0 ≡ p.0)
        × IsStart group q.1.window_start a
  unfolding walk
  walk-IsStart group [] last run p k s sub m = elim m [ ]
  walk-IsStart group (q ∷ rest) last run p k s sub m =
      let next = next-Knows group rest q last run k s (sub q (Memᴰ.head refl)) in
      elim (Bool-cases (q.0 == p.0)) [
        | inl here ↦ (
          anchor_from (some run) q.1.window_start,
          q,
          rw here refl,
          Memᴰ.head refl,
          ground (arith, here),
          next.is_start,
        )
        | inr elsewhere ↦
            let later : Memᴰ p rest = elim m [
              | Memᴰ.head e ↦ absurd (ground (arith, ap (λ (x : Placed R). x.0) e))
              | Memᴰ.tail m' ↦ m'
            ] in
            let (a, r, is, there, same, start) =
              walk-IsStart group rest q.1.window_start (next_run run q) p next s.1
                (λ h there. sub h (Memᴰ.tail there)) later in
            (a, r, rw elsewhere is, Memᴰ.tail there, same, start)
      ]

  -- The walk over a whole sorted group.
  pub walk_group :
      (least : ℕ) (group : List (Placed R)) (p : Placed R)
      → IsSorted least group
      → Memᴰ p group
      → (a : ℕ) × (q : Placed R) × (lookup p.0 (walk none group) ≡ some a)
        × Memᴰ q group
        × (q.0 ≡ p.0)
        × IsStart group q.1.window_start a
  unfolding walk anchor_from end_from
  walk_group least [] p s m = elim m [ ]
  walk_group least (q ∷ rest) p s m =
      let knows = first-Knows q rest s.1 in
      elim (Bool-cases (q.0 == p.0)) [
        | inl here ↦ (
          q.1.window_start,
          q,
          rw here refl,
          Memᴰ.head refl,
          ground (arith, here),
          knows.is_start,
        )
        | inr elsewhere ↦
            let later : Memᴰ p rest = elim m [
              | Memᴰ.head e ↦ absurd (ground (arith, ap (λ (x : Placed R). x.0) e))
              | Memᴰ.tail m' ↦ m'
            ] in
            let (a, r, is, there, same, start) =
              walk-IsStart (q ∷ rest) rest q.1.window_start _ p knows s.1
                (λ h there. Memᴰ.tail there) later in
            (a, r, rw elsewhere is, Memᴰ.tail there, same, start)
      ]
