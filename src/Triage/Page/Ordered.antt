-- ===== src/Triage/Page/Ordered.antt =====
-- The ORDER BY of `read_detection_findings_page` in storage/sqlite_store.py, said without SQL.
use linux_xai_security_assis.Base.{
  ℕ, ◌≤◌, ◌≡◌, ◌≢◌, refl, sym, ap, ◌∙◌, ◌⊎◌, inl, inr, Bool, true, false, not, ◌&&◌, Bool-cases,
  List, [], ◌∷◌, leb, leb→le, arith, Text, IsSortedBy, All, All-map, false≢true, subst, ◌||◌,
}
use linux_xai_security_assis.Policy.{text_leb}
use linux_xai_security_assis.Policy.Order.{text_leb_trans, text_leb_total}
use linux_xai_security_assis.Triage.Page.{
  FindingRow, Enriched, Key, number, name, Direction, ascending, descending, sort_key_leb,
  comes_before,
}

sort_key_leb_trans :
    (a b c : Key) → sort_key_leb a b ≡ true → sort_key_leb b c ≡ true → sort_key_leb a c ≡ true
unfolding sort_key_leb
sort_key_leb_trans (number a) (number b) (number c) h k = ground arith
sort_key_leb_trans (number a) (number b) (name t) h k = refl
sort_key_leb_trans (number a) (name s) (number c) h k = cc
sort_key_leb_trans (number a) (name s) (name t) h k = refl
sort_key_leb_trans (name s) (number b) c h k = cc
sort_key_leb_trans (name s) (name t) (number c) h k = cc
sort_key_leb_trans (name s) (name t) (name u) h k = text_leb_trans s t u h k

sort_key_leb_total : (a b : Key) → sort_key_leb a b ≡ false → sort_key_leb b a ≡ true
unfolding sort_key_leb
sort_key_leb_total (number a) (number b) h = ground arith
sort_key_leb_total (number a) (name t) h = cc
sort_key_leb_total (name s) (number b) h = refl
sort_key_leb_total (name s) (name t) h = text_leb_total s t h

text_leb_antisymm : (s t : Text) → text_leb s t ≡ true → text_leb t s ≡ true → s ≡ t
unfolding text_leb
text_leb_antisymm [] [] h k = refl
text_leb_antisymm [] (b ∷ t) h k = cc
text_leb_antisymm (a ∷ s) [] h k = cc
text_leb_antisymm (a ∷ s) (b ∷ t) h k = ground (arith, text_leb_antisymm s t)

sort_key_leb_antisymm : (a b : Key) → sort_key_leb a b ≡ true → sort_key_leb b a ≡ true → a ≡ b
unfolding sort_key_leb
sort_key_leb_antisymm (number a) (number b) h k = ground arith
sort_key_leb_antisymm (number a) (name t) h k = cc
sort_key_leb_antisymm (name s) (number b) h k = cc
sort_key_leb_antisymm (name s) (name t) h k = ap name (text_leb_antisymm s t h k)

-- The key of a row is the smaller one, or in descending order the larger one, or the keys are the
-- same and its `id` is the smaller one.
abbrev pub IsBelow : Direction → Key → Key → Type 0
IsBelow ascending a b = (sort_key_leb a b ≡ true) × (a ≢ b)
IsBelow descending a b = (sort_key_leb b a ≡ true) × (a ≢ b)

abbrev pub Leads : (FindingRow → Key) → Direction → Enriched → Enriched → Type 0
Leads key direction x y =
    IsBelow direction (key x.finding) (key y.finding)
    ⊎ ((key x.finding ≡ key y.finding) × (x.finding.id ≤ y.finding.id))

leb_refl : (a : Key) → sort_key_leb a a ≡ true
leb_refl a = elim (Bool-cases (sort_key_leb a a)) [ inl h ↦ h | inr h ↦ sort_key_leb_total a a h ]

first_of_and : (b c : Bool) → (b && c) ≡ true → b ≡ true
first_of_and true c h = refl
first_of_and false c h = h

second_of_and : (b c : Bool) → (b && c) ≡ true → c ≡ true
second_of_and true c h = h
second_of_and false c h = cc

-- What the test of the order says of two keys, with numbers to settle a tie.
settled :
    (a b : Key) (i j : ℕ)
    → (sort_key_leb a b && (not (sort_key_leb b a) || leb i j)) ≡ true
    → (sort_key_leb a b ≡ true) × (a ≢ b) ⊎ ((a ≡ b) × (i ≤ j))
settled a b i j h =
    let first = first_of_and (sort_key_leb a b) _ h in
    let tie = second_of_and (sort_key_leb a b) _ h in
    elim (Bool-cases (sort_key_leb b a)) [
      | inl back ↦ inr (sort_key_leb_antisymm a b first back, leb→le i j (rw back at tie))
      | inr only ↦
          inl (
            first,
            λ e. false≢true (sym only ∙ subst (λ k. sort_key_leb k a ≡ true) e (leb_refl a)),
          )
    ]

module _ (key : FindingRow → Key) where
  pub before_total :
      (d : Direction) (x y : Enriched)
      → comes_before key d x y ≡ false
      → comes_before key d y x ≡ true
  unfolding comes_before
  before_total ascending x y h = ground (
    arith,
    sort_key_leb_total (key x.finding) (key y.finding),
    sort_key_leb_total (key y.finding) (key x.finding),
  )
  before_total descending x y h = ground (
    arith,
    sort_key_leb_total (key x.finding) (key y.finding),
    sort_key_leb_total (key y.finding) (key x.finding),
  )

  pub before_trans :
      (d : Direction) (x y z : Enriched)
      → comes_before key d x y ≡ true
      → comes_before key d y z ≡ true
      → comes_before key d x z ≡ true
  unfolding comes_before
  before_trans ascending x y z h k = ground (
    arith,
    sort_key_leb_trans (key x.finding) (key y.finding) (key z.finding),
    sort_key_leb_trans (key z.finding) (key x.finding) (key y.finding),
    sort_key_leb_trans (key y.finding) (key z.finding) (key x.finding),
  )
  before_trans descending x y z h k = ground (
    arith,
    sort_key_leb_trans (key z.finding) (key y.finding) (key x.finding),
    sort_key_leb_trans (key y.finding) (key x.finding) (key z.finding),
    sort_key_leb_trans (key x.finding) (key z.finding) (key y.finding),
  )

  comes_before-Leads :
      (d : Direction) (x y : Enriched) → comes_before key d x y ≡ true → Leads key d x y
  unfolding comes_before
  comes_before-Leads ascending x y h =
      settled (key x.finding) (key y.finding) x.finding.id y.finding.id h
  comes_before-Leads descending x y h =
      elim (settled (key y.finding) (key x.finding) x.finding.id y.finding.id h) [
        | inl (below, differ) ↦ inl (below, λ e. differ (sym e))
        | inr (same, le) ↦ inr (sym same, le)
      ]

-- Each row leads every later one.
abbrev pub IsOrdered : (FindingRow → Key) → Direction → List Enriched → Type 0
IsOrdered key d [] = Unit
IsOrdered key d (x ∷ rows) = All (λ (y : Enriched). Leads key d x y) rows × IsOrdered key d rows

pub IsSortedBy-IsOrdered :
    (key : FindingRow → Key) (d : Direction) (rows : List Enriched)
    → IsSortedBy (comes_before key d) rows
    → IsOrdered key d rows
IsSortedBy-IsOrdered key d [] h = tt
IsSortedBy-IsOrdered key d (x ∷ rows) h = (
  All-map (λ (y : Enriched). comes_before-Leads key d x y) rows h.0,
  IsSortedBy-IsOrdered key d rows h.1,
)
