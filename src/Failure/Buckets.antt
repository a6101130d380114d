-- ===== src/Failure/Buckets.antt =====
-- The grouping by window of detection/system_failure.py: what the groups of a key hold, and their
-- order once they are sorted.
use linux_xai_security_assis.Base.{
  ℕ, ◌<◌, ◌≡◌, ◌≢◌, refl, sym, ap, ◌∙◌, inl, inr, Bool, false≢true, List, [], ◌∷◌, ◌++◌, arith, All,
  All-Memᴰ, All-map, All-insert_by, All-sort_by, ==_iff, leb, ◌==◌, keep, if◌then◌else◌, Bool-cases,
  insert_by, sort_by, append_to, grouped_from,
}
use mathlib.Core.List.{Memᴰ, append-nil, append_assoc}
use native.Mathlib.Nat.{lt_trans}

module _ {A : Type 0} where
  -- The group of a key, empty if there is none.
  abbrev pub group_at : ℕ → List (ℕ × List A) → List A
  group_at k [] = []
  group_at k (g ∷ groups) = let rest = group_at k groups in if g.0 == k then g.1 else rest

  abbrev pub Lacks : ℕ → List (ℕ × List A) → Type 0
  Lacks k groups = All (λ (g : ℕ × List A). g.0 ≢ k) groups

  abbrev pub Distinct : List (ℕ × List A) → Type 0
  Distinct [] = Unit
  Distinct (g ∷ groups) = Lacks g.0 groups × Distinct groups

  -- Each key is below those after it.
  abbrev pub Ascending : List (ℕ × List A) → Type 0
  Ascending [] = Unit
  Ascending (g ∷ groups) = All (λ (h : ℕ × List A). g.0 < h.0) groups × Ascending groups

  group_at-append_to :
      (k key : ℕ) (x : A) (groups : List (ℕ × List A))
      → group_at k (append_to ◌==◌ key x groups)
        ≡ (if key == k then group_at k groups ++ x ∷ [] else group_at k groups)
  unfolding append_to
  group_at-append_to k key x [] = refl
  group_at-append_to k key x (g ∷ groups) = ground (arith, group_at-append_to k key x groups)

  Lacks-append_to :
      (k key : ℕ) (x : A) (groups : List (ℕ × List A))
      → Lacks k groups
      → key ≢ k
      → Lacks k (append_to ◌==◌ key x groups)
  unfolding append_to
  Lacks-append_to k key x [] h n = (n, tt)
  Lacks-append_to k key x (g ∷ groups) h n = ground (arith, Lacks-append_to k key x groups h.1 n)

  Distinct-append_to :
      (key : ℕ) (x : A) (groups : List (ℕ × List A))
      → Distinct groups
      → Distinct (append_to ◌==◌ key x groups)
  unfolding append_to
  Distinct-append_to key x [] d = (tt, tt)
  Distinct-append_to key x (g ∷ groups) d = elim (Bool-cases (g.0 == key)) [
    | inl same ↦ rw same d
    | inr other ↦ rw other (
      Lacks-append_to g.0 key x groups d.0 (ground (arith, other)),
      Distinct-append_to key x groups d.1,
    )
  ]

  pub group_at-Memᴰ :
      (k : ℕ) (group : List A) (groups : List (ℕ × List A))
      → Distinct groups
      → Memᴰ (k, group) groups
      → group_at k groups ≡ group
  group_at-Memᴰ k group [] d m = elim m [ ]
  group_at-Memᴰ k group (g ∷ groups) d m = elim (Bool-cases (g.0 == k)) [
    | inl same ↦ rw same (elim m [
      | Memᴰ.head e ↦ sym (ap (λ (h : ℕ × List A). h.1) e)
      | Memᴰ.tail m' ↦ absurd (
          All-Memᴰ (λ (h : ℕ × List A). h.0 ≢ g.0) groups (k, group) d.0 m'
            (sym ((==_iff g.0 k).0 same)))
    ])
    | inr other ↦ rw other (elim m [
      | Memᴰ.head e ↦
          absurd (false≢true (sym other ∙ (==_iff g.0 k).1 (sym (ap (λ (h : ℕ × List A). h.0) e))))
      | Memᴰ.tail m' ↦ group_at-Memᴰ k group groups d.1 m'
    ])
  ]

  -- A key that has a group stands in the list with it.
  pub Memᴰ-group_at :
      (k : ℕ) (groups : List (ℕ × List A))
      → group_at k groups ≢ []
      → Memᴰ (k, group_at k groups) groups
  Memᴰ-group_at k [] h = absurd (h refl)
  Memᴰ-group_at k (g ∷ groups) h = elim (Bool-cases (g.0 == k)) [
    | inl same ↦ rw same (Memᴰ.head (ap (λ j. (j, g.1)) (sym ((==_iff g.0 k).0 same))))
    | inr other ↦ rw other (Memᴰ.tail (Memᴰ-group_at k groups (rw other at h)))
  ]

  abbrev pub key_leb : ℕ × List A → ℕ × List A → Bool
  key_leb a b = leb a.0 b.0

  -- Sorting by the key makes distinct keys ascend.
  Ascending-insert_by :
      (g : ℕ × List A) (groups : List (ℕ × List A))
      → Lacks g.0 groups
      → Ascending groups
      → Ascending (insert_by key_leb g groups)
  unfolding insert_by
  Ascending-insert_by g [] l a = (tt, tt)
  Ascending-insert_by g (h ∷ groups) l a = elim (Bool-cases (leb g.0 h.0)) [
    | inl first ↦
        let below : g.0 < h.0 = ground (arith, first, l.0) in
        rw first
          ((below, All-map (λ (k : ℕ × List A) (m : h.0 < k.0). lt_trans below m) groups a.0), a)
    | inr later ↦
        let above : h.0 < g.0 = ground (arith, later) in
        rw later (
          All-insert_by key_leb (λ (k : ℕ × List A). h.0 < k.0) g groups above a.0,
          Ascending-insert_by g groups l.1 a.1,
        )
  ]

  pub Ascending-sort_by :
      (groups : List (ℕ × List A)) → Distinct groups → Ascending (sort_by key_leb groups)
  unfolding sort_by
  Ascending-sort_by [] d = tt
  Ascending-sort_by (g ∷ groups) d =
      Ascending-insert_by g (sort_by key_leb groups)
        (All-sort_by key_leb (λ (h : ℕ × List A). h.0 ≢ g.0) groups d.0)
        (Ascending-sort_by groups d.1)

  -- Grouping a list under its keys.
  module _ (key_of : A → ℕ) where
    pub group_at-grouped_from :
        (k : ℕ) (groups : List (ℕ × List A)) (xs : List A)
        → group_at k (grouped_from ◌==◌ key_of groups xs)
          ≡ group_at k groups ++ keep (λ x. key_of x == k) xs
    unfolding grouped_from
    group_at-grouped_from k groups [] = sym (append-nil (group_at k groups))
    group_at-grouped_from k groups (x ∷ xs) =
        group_at-grouped_from k (append_to ◌==◌ (key_of x) x groups) xs
        ∙ elim (Bool-cases (key_of x == k)) [
          | inl same ↦
              rw (group_at-append_to k (key_of x) x groups, same)
                (append_assoc (group_at k groups) (x ∷ []) (keep (λ y. key_of y == k) xs))
          | inr other ↦ rw (group_at-append_to k (key_of x) x groups, other) refl
        ]

    pub Distinct-grouped_from :
        (groups : List (ℕ × List A)) (xs : List A)
        → Distinct groups
        → Distinct (grouped_from ◌==◌ key_of groups xs)
    unfolding grouped_from
    Distinct-grouped_from groups [] d = d
    Distinct-grouped_from groups (x ∷ xs) d =
        Distinct-grouped_from (append_to ◌==◌ (key_of x) x groups) xs
          (Distinct-append_to (key_of x) x groups d)

    -- Every key that a group is under is the key of an element.
    All-append_to :
        (P : ℕ → Type 0) (key : ℕ) (x : A) (groups : List (ℕ × List A))
        → All (λ (g : ℕ × List A). P g.0) groups
        → P key
        → All (λ (g : ℕ × List A). P g.0) (append_to ◌==◌ key x groups)
    unfolding append_to
    All-append_to P key x [] h own = (own, tt)
    All-append_to P key x (g ∷ groups) h own = elim (Bool-cases (g.0 == key)) [
      | inl same ↦ rw same h
      | inr other ↦ rw other (h.0, All-append_to P key x groups h.1 own)
    ]

    pub All-grouped_from :
        (P : ℕ → Type 0) (groups : List (ℕ × List A)) (xs : List A)
        → ((x : A) → P (key_of x))
        → All (λ (g : ℕ × List A). P g.0) groups
        → All (λ (g : ℕ × List A). P g.0) (grouped_from ◌==◌ key_of groups xs)
    unfolding grouped_from
    All-grouped_from P groups [] own h = h
    All-grouped_from P groups (x ∷ xs) own h =
        All-grouped_from P (append_to ◌==◌ (key_of x) x groups) xs own
          (All-append_to P (key_of x) x groups h (own x))
