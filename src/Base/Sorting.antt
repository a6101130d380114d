-- ===== src/Base/Sorting.antt =====
-- Python's stable `sorted`, as an insertion sort by a test on two elements.
use Prim.Native.Nat.{suc}
use mathlib.Core.Path.{◌≡◌, refl, sym, ap, ◌∙◌}
use mathlib.Core.Bool.{Bool, true, false, false≢true}
use native.Mathlib.Omega.{arith}
use mathlib.Core.Logic.{◌↔◌, inl, inr}
use mathlib.Core.List.{List, [], ◌∷◌, Memᴰ}
use linux_xai_security_assis.Base.Lists.{All, All-map, length, keep}
use linux_xai_security_assis.Base.Tests.{if◌then◌else◌, Bool-cases}

module _ {ℓ} {A : Type ℓ} where
  -- A filter keeps exactly the members that pass.
  pub keep_iff :
      (test : A → Bool) (xs : List A) (z : A)
      → Memᴰ z (keep test xs) ↔ (Memᴰ z xs × (test z ≡ true))
  keep_iff test [] z = ((λ m. elim m [ ]), λ m. m.0)
  keep_iff test (x ∷ xs) z = elim (Bool-cases (test x)) [
    | inl kept ↦ rw kept (
      (λ m. elim m [
        | Memᴰ.head e ↦ (Memᴰ.head e, ap test e ∙ kept)
        | Memᴰ.tail m' ↦ (Memᴰ.tail ((keep_iff test xs z).0 m').0, ((keep_iff test xs z).0 m').1)
      ]),
      λ (m, t). elim m [
        | Memᴰ.head e ↦ Memᴰ.head e
        | Memᴰ.tail m' ↦ Memᴰ.tail ((keep_iff test xs z).1 (m', t))
      ],
    )
    | inr left ↦ rw left (
      (λ m. (Memᴰ.tail ((keep_iff test xs z).0 m).0, ((keep_iff test xs z).0 m).1)),
      λ (m, t). elim m [
        | Memᴰ.head e ↦ absurd (false≢true (sym left ∙ ap test (sym e) ∙ t))
        | Memᴰ.tail m' ↦ (keep_iff test xs z).1 (m', t)
      ],
    )
  ]

module _ {ℓ} {A : Type ℓ} (before : A → A → Bool) where
  unfoldable pub insert_by : A → List A → List A
  insert_by x [] = x ∷ []
  insert_by x (y ∷ ys) = let rest = insert_by x ys in if before x y then x ∷ y ∷ ys else y ∷ rest

  unfoldable pub sort_by : List A → List A
  unfolding insert_by
  sort_by [] = []
  sort_by (x ∷ xs) = insert_by x (sort_by xs)

  insert_by_iff : (x : A) (ys : List A) (z : A) → Memᴰ z (insert_by x ys) ↔ Memᴰ z (x ∷ ys)
  unfolding insert_by
  insert_by_iff x [] z = ((λ m. m), λ m. m)
  insert_by_iff x (y ∷ ys) z = elim (Bool-cases (before x y)) [
    | inl first ↦ rw first ((λ m. m), λ m. m)
    | inr later ↦ rw later (
      (λ m. elim m [
        | Memᴰ.head e ↦ Memᴰ.tail (Memᴰ.head e)
        | Memᴰ.tail m' ↦ elim ((insert_by_iff x ys z).0 m') [
          | Memᴰ.head e ↦ Memᴰ.head e
          | Memᴰ.tail m'' ↦ Memᴰ.tail (Memᴰ.tail m'')
        ]
      ]),
      λ m. elim m [
        | Memᴰ.head e ↦ Memᴰ.tail ((insert_by_iff x ys z).1 (Memᴰ.head e))
        | Memᴰ.tail (Memᴰ.head e) ↦ Memᴰ.head e
        | Memᴰ.tail (Memᴰ.tail m') ↦ Memᴰ.tail ((insert_by_iff x ys z).1 (Memᴰ.tail m'))
      ],
    )
  ]

  -- A sort keeps exactly the members.
  pub sort_by_iff : (xs : List A) (z : A) → Memᴰ z (sort_by xs) ↔ Memᴰ z xs
  unfolding sort_by
  sort_by_iff [] z = ((λ m. m), λ m. m)
  sort_by_iff (x ∷ xs) z = (
    (λ m. elim ((insert_by_iff x (sort_by xs) z).0 m) [
      | Memᴰ.head e ↦ Memᴰ.head e
      | Memᴰ.tail m' ↦ Memᴰ.tail ((sort_by_iff xs z).0 m')
    ]),
    λ m.
        (insert_by_iff x (sort_by xs) z).1 (elim m [
          | Memᴰ.head e ↦ Memᴰ.head e
          | Memᴰ.tail m' ↦ Memᴰ.tail ((sort_by_iff xs z).1 m')
        ]),
  )

  pub All-insert_by {κ} :
      (P : A → Type κ) (x : A) (ys : List A) → P x → All P ys → All P (insert_by x ys)
  unfolding insert_by
  All-insert_by P x [] px h = (px, tt)
  All-insert_by P x (y ∷ ys) px h = elim (Bool-cases (before x y)) [
    | inl first ↦ rw first (px, h)
    | inr later ↦ rw later (h.0, All-insert_by P x ys px h.1)
  ]

  pub All-sort_by {κ} : (P : A → Type κ) (xs : List A) → All P xs → All P (sort_by xs)
  unfolding sort_by
  All-sort_by P [] h = tt
  All-sort_by P (x ∷ xs) h = All-insert_by P x (sort_by xs) h.0 (All-sort_by P xs h.1)

  pub length-insert_by : (x : A) (ys : List A) → length (insert_by x ys) ≡ suc (length ys)
  unfolding insert_by
  length-insert_by x [] = refl
  length-insert_by x (y ∷ ys) = ground (arith, length-insert_by x ys)

  pub length-sort_by : (xs : List A) → length (sort_by xs) ≡ length xs
  unfolding sort_by
  length-sort_by [] = refl
  length-sort_by (x ∷ xs) = length-insert_by x (sort_by xs) ∙ ap suc (length-sort_by xs)

  -- Every element comes before all that stand behind it.
  abbrev pub IsSortedBy : List A → Type ℓ
  IsSortedBy [] = Unit
  IsSortedBy (x ∷ xs) = All (λ y. before x y ≡ true) xs × IsSortedBy xs

  module _ (total : (x y : A) → before x y ≡ false → before y x ≡ true)
      (trans : (x y z : A) → before x y ≡ true → before y z ≡ true → before x z ≡ true) where
    insert_by-IsSortedBy : (x : A) (ys : List A) → IsSortedBy ys → IsSortedBy (insert_by x ys)
    unfolding insert_by
    insert_by-IsSortedBy x [] h = (tt, tt)
    insert_by-IsSortedBy x (y ∷ ys) h = elim (Bool-cases (before x y)) [
      | inl first ↦ rw first ((first, All-map (λ z. trans x y z first) ys h.0), h)
      | inr later ↦ rw later (
        All-insert_by (λ z. before y z ≡ true) x ys (total x y later) h.0,
        insert_by-IsSortedBy x ys h.1,
      )
    ]

    pub sort_by-IsSortedBy : (xs : List A) → IsSortedBy (sort_by xs)
    unfolding sort_by
    sort_by-IsSortedBy [] = tt
    sort_by-IsSortedBy (x ∷ xs) = insert_by-IsSortedBy x (sort_by xs) (sort_by-IsSortedBy xs)
