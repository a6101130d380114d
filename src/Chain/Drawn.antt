-- ===== src/Chain/Drawn.antt =====
-- Deleted, repeated and reordered rows, for `verify_chain` of storage/evidence_chain.py: of the
-- rows of a verified chain, only a beginning verifies.
use mathlib.Core.List.{Memᴰ}
use mathlib.Core.List.Memᴰ
use linux_xai_security_assis.Base.{
  ℕ, suc, ◌+◌, ◌≡◌, refl, sym, ap, ◌∙◌, true, some, List, [], ◌∷◌, arith, Text, All, length, take,
  drop, take-append-drop, subst, ◌↔◌,
}
use linux_xai_security_assis.Chain.{Row, genesis_prev_hash, verify_chain}
use linux_xai_security_assis.Chain.Linked.{IsLinked, link, verify_chain_iff, verify_chain-truncated}

module _ (sha256 : Text → Text) (columns : List Text) where
  -- A row of a linked run stands at the position that it stores.
  IsLinked-position :
      (seq : ℕ) (prev : Text) (rows : List Row) (row : Row)
      → IsLinked sha256 columns seq prev rows
      → Memᴰ row rows
      → (k : ℕ) × (row.chain_seq ≡ some (seq + k)) × (drop k rows ≡ row ∷ drop (suc k) rows)
  IsLinked-position seq prev [] row h m = absurd (Memᴰ.not-nil m)
  IsLinked-position seq prev (r ∷ rows) row h (Memᴰ.head e) =
      (0, rw e (let z : seq ≡ seq + 0 = omega arith in h.0 ∙ ap some z), rw e refl)
  IsLinked-position seq prev (r ∷ rows) row h (Memᴰ.tail m) =
      let (k, at, rest) =
        IsLinked-position (seq + 1) (link sha256 columns seq prev r) rows row h.3 m in
      (suc k, at ∙ ap some (let z : seq + 1 + k ≡ seq + suc k = omega arith in z), rest)

  IsLinked-drawn :
      (whole part : List Row) (seq : ℕ) (prev : Text)
      → IsLinked sha256 columns 0 genesis_prev_hash whole
      → IsLinked sha256 columns seq prev part
      → All (λ row. Memᴰ row whole) part
      → part ≡ take (length part) (drop seq whole)
  IsLinked-drawn whole [] seq prev hw hp m = refl
  IsLinked-drawn whole (row ∷ part) seq prev hw hp m =
      let (k, at, here) = IsLinked-position 0 genesis_prev_hash whole row hw m.0 in
      let same : some seq ≡ some (0 + k) = sym hp.0 ∙ at in
      let e : k ≡ seq = ground arith in
      let after : seq + 1 ≡ suc seq = omega arith in
      let rest =
        IsLinked-drawn whole part (seq + 1) (link sha256 columns seq prev row) hw hp.3 m.1 in
      let from : drop seq whole ≡ row ∷ drop (suc seq) whole =
        subst (λ j. drop j whole ≡ row ∷ drop (suc j) whole) e here in
      rw from (ap (λ t. row ∷ t) (subst (λ j. part ≡ take (length part) (drop j whole)) after rest))

  -- Take any rows of a verified chain, in any order and any number: they verify exactly if they are
  -- its first rows in their order. A row lost before another, moved or repeated is noticed; rows
  -- lost at the end are not.
  pub verify_chain-drawn :
      (whole part : List Row)
      → (verify_chain sha256 columns whole).ok ≡ true
      → All (λ row. Memᴰ row whole) part
      → ((verify_chain sha256 columns part).ok ≡ true) ↔ (part ≡ take (length part) whole)
  verify_chain-drawn whole part v m = (
    λ h.
        IsLinked-drawn whole part 0 genesis_prev_hash ((verify_chain_iff sha256 columns whole).0 v)
          ((verify_chain_iff sha256 columns part).0 h) m,
    λ e. rw e (
        verify_chain-truncated sha256 columns (take (length part) whole) (drop (length part) whole)
          (rw take-append-drop v)),
  )
