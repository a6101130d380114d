-- ===== src/Chain/Linked.antt =====
-- What `verify_chain` of storage/evidence_chain.py accepts, said without its loop: each row stores
-- its position, the hash of the row before it, and the hash of its own link.
use linux_xai_security_assis.Base.{
  ℕ, suc, ◌+◌, ◌≡◌, ap, ◌∙◌, ◌↔◌, true, Option, none, some, List, [], ◌∷◌, ◌++◌, arith, Text,
  same_text→eq, same_text_refl, length,
}
use linux_xai_security_assis.Chain.{
  Row, Verification, genesis_prev_hash, serialize_core, seq_is, text_is, link_hash, verify_from,
  verify_chain,
}

pub seq_is→eq : (o : Option ℕ) (n : ℕ) → seq_is o n ≡ true → o ≡ some n
unfolding seq_is
seq_is→eq none n h = cc
seq_is→eq (some m) n h = ground arith

pub seq_is_of_eq : (o : Option ℕ) (n : ℕ) → o ≡ some n → seq_is o n ≡ true
unfolding seq_is
seq_is_of_eq none n h = cc
seq_is_of_eq (some m) n h = ground arith

pub text_is→eq : (o : Option Text) (t : Text) → text_is o t ≡ true → o ≡ some t
unfolding text_is
text_is→eq none t h = cc
text_is→eq (some s) t h = ap some (same_text→eq s t h)

pub text_is_of_eq : (o : Option Text) (t : Text) → o ≡ some t → text_is o t ≡ true
unfolding text_is
text_is_of_eq none t h = cc
text_is_of_eq (some s) t h = let e : s ≡ t = cc in rw e (same_text_refl t)

module _ (sha256 : Text → Text) (columns : List Text) where
  -- The hash of the link of `row` at position `seq` after the hash `prev`.
  abbrev pub link : ℕ → Text → Row → Text
  link seq prev row = link_hash sha256 seq prev (serialize_core columns row)

  abbrev pub IsLinked : ℕ → Text → List Row → Type 0
  IsLinked seq prev [] = Unit
  IsLinked seq prev (row ∷ rows) =
      (row.chain_seq ≡ some seq)
      × (row.chain_prev_hash ≡ some prev)
      × (row.chain_hash ≡ some (link seq prev row))
      × IsLinked (seq + 1) (link seq prev row) rows

  -- The hash of the last link, which the next row has to continue.
  abbrev pub end_hash : ℕ → Text → List Row → Text
  end_hash seq prev [] = prev
  end_hash seq prev (row ∷ rows) = end_hash (seq + 1) (link seq prev row) rows

  pub verify_from→IsLinked :
      (seq : ℕ) (prev : Text) (checked : ℕ) (rows : List Row)
      → (verify_from sha256 columns seq prev checked rows).ok ≡ true
      → IsLinked seq prev rows
  unfolding verify_from
  verify_from→IsLinked seq prev checked [] h = tt
  verify_from→IsLinked seq prev checked (row ∷ rows) h = ground (
    arith,
    seq_is→eq row.chain_seq seq,
    text_is→eq row.chain_prev_hash prev,
    text_is→eq row.chain_hash (link seq prev row),
    verify_from→IsLinked (seq + 1) (link seq prev row) (checked + 1) rows,
  )

  pub IsLinked→verify_from :
      (seq : ℕ) (prev : Text) (checked : ℕ) (rows : List Row)
      → IsLinked seq prev rows
      → verify_from sha256 columns seq prev checked rows
        ≡ record { ok = true; checked = checked + length rows; break_seq = none; reason = none }
  unfolding verify_from
  IsLinked→verify_from seq prev checked [] h = ground arith
  IsLinked→verify_from seq prev checked (row ∷ rows) h =
      rw
        (
          seq_is_of_eq row.chain_seq seq h.0,
          text_is_of_eq row.chain_prev_hash prev h.1,
          text_is_of_eq row.chain_hash (link seq prev row) h.2,
        )
        (IsLinked→verify_from (seq + 1) (link seq prev row) (checked + 1) rows h.3 ∙ ground arith)

  -- `verify_chain` accepts exactly the linked chains.
  pub verify_chain_iff :
      (rows : List Row)
      → ((verify_chain sha256 columns rows).ok ≡ true) ↔ IsLinked 0 genesis_prev_hash rows
  unfolding verify_chain
  verify_chain_iff rows = (
    verify_from→IsLinked 0 genesis_prev_hash 0 rows,
    λ h. ap (λ (v : Verification). v.ok) (IsLinked→verify_from 0 genesis_prev_hash 0 rows h),
  )

  pub IsLinked-append :
      (seq : ℕ) (prev : Text) (xs ys : List Row)
      → IsLinked seq prev xs
      → IsLinked (seq + length xs) (end_hash seq prev xs) ys
      → IsLinked seq prev (xs ++ ys)
  IsLinked-append seq prev [] ys h k = let e : seq + 0 ≡ seq = omega arith in rw e at k
  IsLinked-append seq prev (x ∷ xs) ys h k =
      let e : seq + suc (length xs) ≡ seq + 1 + length xs = omega arith in
      (h.0, h.1, h.2, IsLinked-append (seq + 1) (link seq prev x) xs ys h.3 (rw e at k))

  pub IsLinked-of_append :
      (seq : ℕ) (prev : Text) (xs ys : List Row)
      → IsLinked seq prev (xs ++ ys)
      → IsLinked seq prev xs × IsLinked (seq + length xs) (end_hash seq prev xs) ys
  IsLinked-of_append seq prev [] ys h = let e : seq + 0 ≡ seq = omega arith in (tt, rw e h)
  IsLinked-of_append seq prev (x ∷ xs) ys h =
      let e : seq + suc (length xs) ≡ seq + 1 + length xs = omega arith in
      let (front, back) = IsLinked-of_append (seq + 1) (link seq prev x) xs ys h.3 in
      ((h.0, h.1, h.2, front), rw e back)

  -- A part of a verified chain from its start is verified too: rows lost at the end go unnoticed.
  pub verify_chain-truncated :
      (xs ys : List Row)
      → (verify_chain sha256 columns (xs ++ ys)).ok ≡ true
      → (verify_chain sha256 columns xs).ok ≡ true
  verify_chain-truncated xs ys h =
      (verify_chain_iff xs).1
        (IsLinked-of_append 0 genesis_prev_hash xs ys ((verify_chain_iff (xs ++ ys)).0 h)).0
