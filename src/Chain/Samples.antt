-- ===== src/Chain/Samples.antt =====
-- Runs of the chain of storage/evidence_chain.py, and its theorems at a table of triage annotations.
use mathlib.Core.List.{Memᴰ}
use linux_xai_security_assis.Base.{
  ◌≡◌, ◌↔◌, ◌⊎◌, refl, true, false, none, some, List, [], ◌∷◌, Bool, all, ltb, All, inl, ap, length,
  arith, map, Text, codes, same_text,
}
use linux_xai_security_assis.Chain.Toy.{toy_sha256, toy-IsHexDigest}
use linux_xai_security_assis.Chain.Json.{Value, number, text}
use linux_xai_security_assis.Chain.Columns.{triage_chain_columns}
use linux_xai_security_assis.Chain.{
  Row, get, serialize_core, next_link, verify_chain, verify_table, extended, write_all,
}
use linux_xai_security_assis.Chain.Writer.{write_all-verifies}
use linux_xai_security_assis.Chain.Readable.{IsScalar, IsStorable, HoldsStorable, values}
use linux_xai_security_assis.Chain.Tamper.{Collision, same_head-same_history}
use linux_xai_security_assis.Chain.Drawn.{verify_chain-drawn}

abbrev acknowledged : List (Text × Value)
acknowledged =
    (codes "finding_id", number (codes "4")) ∷ (codes "action", text (codes "acknowledge")) ∷ []

abbrev disposed : List (Text × Value)
disposed =
    (codes "finding_id", number (codes "4"))
    ∷ (codes "action", text (codes "disposition"))
    ∷ (codes "disposition", text (codes "benign"))
    ∷ []

abbrev first : Row
first = extended toy_sha256 triage_chain_columns none acknowledged

abbrev second : Row
second = extended toy_sha256 triage_chain_columns (some first) disposed

abbrev table : List Row
table = first ∷ second ∷ []

serialized :
    serialize_core triage_chain_columns first
    ≡ codes
        "[[\"finding_id\",4],[\"action\",\"acknowledge\"],[\"disposition\",null],[\"note\",null],[\"actor\",null],[\"created_at\",null]]"
unfolding serialize_core
serialized = refl

table-verifies : (verify_chain toy_sha256 triage_chain_columns (first ∷ second ∷ [])).ok ≡ true
unfolding verify_chain next_link toy_sha256
table-verifies = refl

edited_fails :
    (verify_chain toy_sha256 triage_chain_columns
      (record first { fields = disposed } ∷ second ∷ [])).ok
    ≡ false
unfolding verify_chain next_link toy_sha256
edited_fails = refl

write_all-verifies_example :
    verify_table toy_sha256 triage_chain_columns
      (write_all toy_sha256 triage_chain_columns [] (acknowledged ∷ disposed ∷ []))
    ≡ record { ok = true; checked = 2; break_seq = none; reason = none }
write_all-verifies_example =
    write_all-verifies toy_sha256 toy-IsHexDigest triage_chain_columns
      (acknowledged ∷ disposed ∷ [])

-- The same chain in another table, whose rows have a key of their own that no hash covers.
abbrev copied : Row
copied = record first { fields = (codes "id", number (codes "9")) ∷ acknowledged }

copy-verifies : (verify_chain toy_sha256 triage_chain_columns (copied ∷ second ∷ [])).ok ≡ true
unfolding verify_chain next_link toy_sha256
copy-verifies = refl

is_ascii : Text → Bool
is_ascii t = all (λ c. ltb c 128) t

is_ascii-IsScalar : (t : Text) → is_ascii t ≡ true → All IsScalar t
unfolding is_ascii
is_ascii-IsScalar [] h = tt
is_ascii-IsScalar (c ∷ t) h =
    ((inl (ground (arith, h)), ground (arith, h)), is_ascii-IsScalar t (ground (arith, h)))

four-IsStorable : IsStorable (number (codes "4"))
four-IsStorable = (
  (λ e. absurd (omega (arith, ap length e))),
  (((λ e. absurd (omega (arith, e))), λ e. absurd (omega (arith, e))), tt),
)

first-HoldsStorable : HoldsStorable triage_chain_columns first
unfolding get same_text is_ascii
first-HoldsStorable =
    (four-IsStorable, (is_ascii-IsScalar (codes "acknowledge") refl, (tt, (tt, (tt, (tt, tt))))))

second-HoldsStorable : HoldsStorable triage_chain_columns second
unfolding get same_text is_ascii
second-HoldsStorable = (
  four-IsStorable,
  (
    is_ascii-IsScalar (codes "disposition") refl,
    (is_ascii-IsScalar (codes "benign") refl, (tt, (tt, (tt, tt)))),
  ),
)

copied-HoldsStorable : HoldsStorable triage_chain_columns copied
unfolding get same_text is_ascii
copied-HoldsStorable =
    (four-IsStorable, (is_ascii-IsScalar (codes "acknowledge") refl, (tt, (tt, (tt, (tt, tt))))))

same_head-same_history_example :
    (map (values triage_chain_columns) (copied ∷ second ∷ [])
      ≡ map (values triage_chain_columns) (first ∷ second ∷ []))
    ⊎ Collision toy_sha256
same_head-same_history_example =
    same_head-same_history toy_sha256 toy-IsHexDigest triage_chain_columns (copied ∷ [])
      (first ∷ []) second second (copied-HoldsStorable, (second-HoldsStorable, tt))
      (first-HoldsStorable, (second-HoldsStorable, tt)) copy-verifies table-verifies refl

verify_chain-drawn_example :
    ((verify_chain toy_sha256 triage_chain_columns (second ∷ first ∷ [])).ok ≡ true)
    ↔ (second ∷ first ∷ [] ≡ table)
verify_chain-drawn_example =
    verify_chain-drawn toy_sha256 triage_chain_columns table (second ∷ first ∷ []) table-verifies
      (Memᴰ.tail (Memᴰ.head refl), (Memᴰ.head refl, tt))
