-- ===== src/Chain/Tamper.antt =====
-- What a verified chain of storage/evidence_chain.py commits to: a stored hash fixes the values of the
-- rows before it, unless two texts with the same SHA-256 digest are at hand.
use linux_xai_security_assis.Base.{
  ℕ, ◌+◌, ◌≡◌, ◌≢◌, ◌⊎◌, inl, inr, refl, sym, ◌∙◌, true, some, List, [], ◌∷◌, ◌++◌, map, arith,
  Text, Text-discrete, decimal, decimal-injective, decimal-IsDigit, All, All-map, length,
}
use mathlib.Core.List.{map-append}
use linux_xai_security_assis.Chain.{Row, genesis_prev_hash, serialize_core, link_hash, verify_chain}
use linux_xai_security_assis.Chain.Readable.{HoldsStorable, values, serialize_core-injective}
use linux_xai_security_assis.Chain.Linked.{IsLinked-of_append, end_hash, link, verify_chain_iff}
use linux_xai_security_assis.Chain.Writer.{IsHexDigit, IsHexDigest}

-- Two different texts with one digest.
pub record Collision (sha256 : Text → Text) : Type 0 where
  pub first : Text
  pub second : Text
  pub differ : first ≢ second
  pub agree : sha256 first ≡ sha256 second

abbrev NotNewline : ℕ → Type 0
NotNewline c = c ≢ 10

-- What stands before the first newline is determined by the whole text.
split_at_newline :
    (p q s t : Text)
    → All NotNewline p
    → All NotNewline q
    → p ++ (10 ∷ s) ≡ q ++ (10 ∷ t)
    → (p ≡ q) × (s ≡ t)
split_at_newline [] [] s t hp hq e = (refl, cc)
split_at_newline [] (d ∷ q) s t hp hq e = absurd (hq.0 (cc))
split_at_newline (c ∷ p) [] s t hp hq e = absurd (hp.0 (cc))
split_at_newline (c ∷ p) (d ∷ q) s t hp hq e =
    let tails : p ++ (10 ∷ s) ≡ q ++ (10 ∷ t) = cc in
    let heads : c ≡ d = cc in
    let (same, rest) = split_at_newline p q s t hp.1 hq.1 tails in (cc, rest)

decimal-NotNewline : (n : ℕ) → All NotNewline (decimal n)
decimal-NotNewline n = All-map (λ c h. omega arith) (decimal n) (decimal-IsDigit n)

zeros-NotNewline : All NotNewline genesis_prev_hash
unfolding genesis_prev_hash
zeros-NotNewline = omega arith

-- `serialize_core` of every row: the content that the chain covers.
abbrev contents : List Text → List Row → List Text
contents columns rows = map (serialize_core columns) rows

module _ (sha256 : Text → Text) (digest : IsHexDigest sha256) (columns : List Text) where
  digest-NotNewline : (t : Text) → All NotNewline (sha256 t)
  digest-NotNewline t = All-map {P = IsHexDigit} (λ c h. omega arith) (sha256 t) (digest.digits t)

  -- Equal link hashes come from equal sequence numbers, predecessors and contents, or collide.
  link_hash-injective :
      (m n : ℕ) (p q s t : Text)
      → All NotNewline p
      → All NotNewline q
      → link_hash sha256 m p s ≡ link_hash sha256 n q t
      → ((m ≡ n) × (p ≡ q) × (s ≡ t)) ⊎ Collision sha256
  unfolding link_hash
  link_hash-injective m n p q s t hp hq e =
      elim (Text-discrete (decimal m ++ (10 ∷ (p ++ (10 ∷ s))))
        (decimal n ++ (10 ∷ (q ++ (10 ∷ t))))) [
          | yes same ↦
              let (seqs, rest) =
                split_at_newline (decimal m) (decimal n) (p ++ (10 ∷ s)) (q ++ (10 ∷ t))
                  (decimal-NotNewline m) (decimal-NotNewline n) same in
              let (prevs, contents) = split_at_newline p q s t hp hq rest in
              inl (decimal-injective m n seqs, prevs, contents)
          | no differ ↦ inr (record { first = _; second = _; differ = differ; agree = e })
        ]

  end_hash-NotNewline :
      (seq : ℕ) (prev : Text) (rows : List Row)
      → All NotNewline prev
      → All NotNewline (end_hash sha256 columns seq prev rows)
  unfolding link_hash
  end_hash-NotNewline seq prev [] h = h
  end_hash-NotNewline seq prev (row ∷ rows) h =
      end_hash-NotNewline (seq + 1) (link sha256 columns seq prev row) rows (digest-NotNewline _)

  -- Two runs of links of one length that end in the same hash are the same run.
  end_hash-injective :
      (seq : ℕ) (p q : Text) (xs ys : List Row)
      → All NotNewline p
      → All NotNewline q
      → length xs ≡ length ys
      → end_hash sha256 columns seq p xs ≡ end_hash sha256 columns seq q ys
      → ((p ≡ q) × (contents columns xs ≡ contents columns ys)) ⊎ Collision sha256
  unfolding link_hash
  end_hash-injective seq p q [] [] hp hq l e = inl (e, refl)
  end_hash-injective seq p q [] (b ∷ ys) hp hq l e = absurd (omega arith)
  end_hash-injective seq p q (a ∷ xs) [] hp hq l e = absurd (omega arith)
  end_hash-injective seq p q (a ∷ xs) (b ∷ ys) hp hq l e =
      elim (end_hash-injective (seq + 1) (link sha256 columns seq p a) (link sha256 columns seq q b)
        xs ys (digest-NotNewline _) (digest-NotNewline _) (omega arith) e) [
          | inr collision ↦ inr collision
          | inl (links, rest) ↦
              elim (link_hash-injective seq seq p q (serialize_core columns a)
                (serialize_core columns b) hp hq links) [
                  | inr collision ↦ inr collision
                  | inl (_, prevs, content) ↦ inl (prevs, cc)
                ]
        ]

  -- The last row of a verified chain stores the hash of the whole run.
  last_link :
      (xs : List Row) (a : Row)
      → (verify_chain sha256 columns (xs ++ a ∷ [])).ok ≡ true
      → a.chain_hash
        ≡ some
            (link sha256 columns (0 + length xs) (end_hash sha256 columns 0 genesis_prev_hash xs) a)
  last_link xs a v =
      (IsLinked-of_append sha256 columns 0 genesis_prev_hash xs (a ∷ [])
        ((verify_chain_iff sha256 columns (xs ++ a ∷ [])).0 v)).1.2

  abbrev run_hash : List Row → Text
  run_hash xs = end_hash sha256 columns 0 genesis_prev_hash xs

  run_hash-NotNewline : (xs : List Row) → All NotNewline (run_hash xs)
  run_hash-NotNewline xs = end_hash-NotNewline 0 genesis_prev_hash xs zeros-NotNewline

  same_run :
      (xs ys : List Row)
      → length xs ≡ length ys
      → run_hash xs ≡ run_hash ys
      → (contents columns xs ≡ contents columns ys) ⊎ Collision sha256
  same_run xs ys l e =
      elim (end_hash-injective 0 genesis_prev_hash genesis_prev_hash xs ys zeros-NotNewline
        zeros-NotNewline l e) [ inr collision ↦ inr collision | inl (_, rest) ↦ inl rest ]

  contents-snoc :
      (xs ys : List Row) (a b : Row)
      → contents columns xs ≡ contents columns ys
      → serialize_core columns a ≡ serialize_core columns b
      → contents columns (xs ++ a ∷ []) ≡ contents columns (ys ++ b ∷ [])
  contents-snoc xs ys a b rest content =
      map-append (serialize_core columns) xs (a ∷ [])
      ∙ (cc (rest, content))
      ∙ sym (map-append (serialize_core columns) ys (b ∷ []))

  values-same :
      (xs ys : List Row)
      → All (HoldsStorable columns) xs
      → All (HoldsStorable columns) ys
      → contents columns xs ≡ contents columns ys
      → map (values columns) xs ≡ map (values columns) ys
  values-same [] [] hx hy e = refl
  values-same [] (b ∷ ys) hx hy e = cc e
  values-same (a ∷ xs) [] hx hy e = cc e
  values-same (a ∷ xs) (b ∷ ys) hx hy e =
      let here : serialize_core columns a ≡ serialize_core columns b = cc e in
      let rest : contents columns xs ≡ contents columns ys = cc e in
      let same = serialize_core-injective columns a b hx.0 hy.0 here in
      let more = values-same xs ys hx.1 hy.1 rest in cc (same, more)

  -- Two chains that verify, whose last rows store the same `chain_hash`, and whose covered columns
  -- hold NULL, numbers and texts of Unicode characters, as SQLite stores them, have the same number
  -- of rows, and each row of the one has in every covered column the value that the row in its place
  -- in the other has; or a collision of SHA-256 is exhibited.
  pub same_head-same_history :
      (xs ys : List Row) (a b : Row)
      → All (HoldsStorable columns) (xs ++ a ∷ [])
      → All (HoldsStorable columns) (ys ++ b ∷ [])
      → (verify_chain sha256 columns (xs ++ a ∷ [])).ok ≡ true
      → (verify_chain sha256 columns (ys ++ b ∷ [])).ok ≡ true
      → a.chain_hash ≡ b.chain_hash
      → (map (values columns) (xs ++ a ∷ []) ≡ map (values columns) (ys ++ b ∷ []))
        ⊎ Collision sha256
  same_head-same_history xs ys a b stored stored' va vb e =
      let links : link sha256 columns (0 + length xs) (run_hash xs) a
          ≡ link sha256 columns (0 + length ys) (run_hash ys) b =
        cc (last_link xs a va, e, last_link ys b vb) in
      elim (link_hash-injective (0 + length xs) (0 + length ys) (run_hash xs) (run_hash ys)
        (serialize_core columns a) (serialize_core columns b) (run_hash-NotNewline xs)
        (run_hash-NotNewline ys) links) [
          | inr collision ↦ inr collision
          | inl (seqs, prevs, content) ↦ elim (same_run xs ys (omega arith) prevs) [
            | inr collision ↦ inr collision
            | inl rest ↦ inl (
                values-same (xs ++ a ∷ []) (ys ++ b ∷ []) stored stored'
                  (contents-snoc xs ys a b rest content))
          ]
        ]
