-- ===== src/Policy/Trail/Recorded.antt =====
-- What `evaluate_all` of policy/engine.py leaves in the policy chain.
use linux_xai_security_assis.Base.{
  ℕ, suc, ◌+◌, ◌≡◌, refl, sym, ◌∙◌, ◌⊎◌, inl, inr, Bool, true, false, Bool-cases, Option-cases,
  Option, none, some, List, [], ◌∷◌, ◌++◌, map, Text, arith, length,
}
use mathlib.Core.List.{append-nil, append_assoc}
use linux_xai_security_assis.Chain.Json.{Value}
use linux_xai_security_assis.Chain.Columns.{policy_chain_columns}
use linux_xai_security_assis.Chain.{
  Row, verify_chain, extend_chain, extended, chain_head, write_all,
}
use linux_xai_security_assis.Chain.Linked.{verify_chain_iff}
use linux_xai_security_assis.Chain.Writer.{IsHexDigest, write_all-IsLinked}
use linux_xai_security_assis.Policy.{Number, PolicyRule, Finding, AssistantResponse}
use linux_xai_security_assis.Policy.Evaluate.{Decision, evaluate}
use linux_xai_security_assis.Policy.Trail.{
  Writing, Result, Outcome, then_rest, decision_fields, write_policy_decision, evaluate_recorded,
  evaluate_all,
}

abbrev pub fields_of : List Row → List (List (Text × Value))
fields_of rows = map (λ (r : Row). r.fields) rows

module _ (w : Writing) (upper lower : Text → Text) (now : ℕ → Number) (refuses : ℕ → Bool)
    (policies : List PolicyRule) (dry : Bool)
    (responses : Option ℕ → Option AssistantResponse) where
  abbrev pub evaluated : Finding → Option Decision
  evaluated finding = evaluate upper lower policies dry finding (responses finding.id) none

  -- The columns of the decisions about findings, the first of them that of call `n`.
  abbrev pub recorded : ℕ → List Finding → List Decision → List (List (Text × Value))
  recorded n [] decisions = []
  recorded n (finding ∷ findings) [] = []
  recorded n (finding ∷ findings) (decision ∷ decisions) =
      decision_fields w (record { finding = finding; made = decision; timestamp = now n })
      ∷ recorded (suc n) findings decisions

  -- The batch is finished, or stands at a finding from which an exception leaves, or whose
  -- decision SQLite refuses.
  abbrev pub Ended : ℕ → List Finding → List Decision → Option (List Decision) → Type 0
  Ended n [] decisions returned = returned ≡ some decisions
  Ended n (finding ∷ findings) decisions returned =
      (returned ≡ none) × ((evaluated finding ≡ none) ⊎ (refuses n ≡ true))

  -- The findings up to the end are decided, each decision is a row, in order, and no row else.
  pub record IsTrail (n : ℕ) (findings : List Finding) (table : List Row) (o : Outcome)
      : Type 0 where
    pub handled : List Finding
    pub rest : List Finding
    pub decisions : List Decision
    pub rows : List Row
    pub split : findings ≡ handled ++ rest
    pub decided : map evaluated handled ≡ map some decisions
    pub appended : o.table ≡ table ++ rows
    pub stored : fields_of rows ≡ recorded n handled decisions
    pub written :
        o.table ≡ write_all w.sha256 policy_chain_columns table (recorded n handled decisions)
    pub ended : Ended (n + length handled) rest decisions o.returned

  nothing :
      (n : ℕ) (findings : List Finding) (table : List Row) (o : Outcome)
      → o.table ≡ table
      → Ended n findings [] o.returned
      → IsTrail n findings table o
  unfolding write_all
  nothing n findings table o same ended = record {
    handled = [];
    rest = findings;
    decisions = [];
    rows = [];
    split = refl;
    decided = refl;
    appended = same ∙ sym (append-nil table);
    stored = refl;
    written = same;
    ended = let e : n + 0 ≡ n = omega arith in rw e ended;
  }

  -- What a later call decides comes after the row of this one.
  Ended-then :
      (n : ℕ) (rest : List Finding) (decisions : List Decision) (decision : Decision)
      (table : List Row) (r : Outcome)
      → Ended n rest decisions r.returned
      → Ended n rest
          (decision ∷ decisions)
          (then_rest table (some (decision, table)) (λ (t : List Row). r)).returned
  Ended-then n [] decisions decision table r h = rw h refl
  Ended-then n (f ∷ rest) decisions decision table r h = (rw h.0 refl, h.1)

  call : ℕ → Finding → List Row → Option (Decision × List Row)
  call = evaluate_recorded w upper lower now refuses policies dry responses

  result : ℕ → Finding → Decision → Result
  result n finding decision = record { finding = finding; made = decision; timestamp = now n }

  next_table : ℕ → Finding → Decision → List Row → List Row
  unfolding result
  next_table n finding decision table =
      extend_chain w.sha256 policy_chain_columns table
        (decision_fields w (result n finding decision))

  call_escapes :
      (n : ℕ) (finding : Finding) (table : List Row)
      → evaluated finding ≡ none
      → call n finding table ≡ none
  unfolding call evaluate_recorded
  call_escapes n finding table e = rw (e, evaluate_recorded) refl

  call_refused :
      (n : ℕ) (finding : Finding) (table : List Row) (decision : Decision)
      → evaluated finding ≡ some decision
      → refuses n ≡ true
      → call n finding table ≡ none
  unfolding call evaluate_recorded write_policy_decision
  call_refused n finding table decision e refused = rw (e, refused, evaluate_recorded) refl

  call_written :
      (n : ℕ) (finding : Finding) (table : List Row) (decision : Decision)
      → evaluated finding ≡ some decision
      → refuses n ≡ false
      → call n finding table ≡ some (decision, next_table n finding decision table)
  unfolding call evaluate_recorded write_policy_decision next_table
  call_written n finding table decision e written = rw (e, written, evaluate_recorded) refl

  -- One call, and the trail of the calls after it.
  then_trail :
      (n : ℕ) (finding : Finding) (findings : List Finding) (table : List Row) (decision : Decision)
      (r : Outcome)
      → evaluated finding ≡ some decision
      → IsTrail (suc n) findings (next_table n finding decision table) r
      → IsTrail n (finding ∷ findings) table (
          then_rest table
            (some (decision, next_table n finding decision table))
            (λ (t : List Row). r))
  unfolding next_table result extend_chain write_all
  then_trail n finding findings table decision r made later =
      let row : Row =
        extended w.sha256 policy_chain_columns (chain_head table)
          (decision_fields w (result n finding decision)) in
      let e : n + suc (length later.handled) ≡ suc n + length later.handled = omega arith in
      record {
        handled = finding ∷ later.handled;
        rest = later.rest;
        decisions = decision ∷ later.decisions;
        rows = row ∷ later.rows;
        split = rw later.split refl;
        decided = rw (made, later.decided) refl;
        appended = later.appended ∙ append_assoc table (row ∷ []) later.rows;
        stored = rw later.stored refl;
        written = later.written;
        ended = rw e (
            Ended-then (suc n + length later.handled) later.rest later.decisions decision table r
              later.ended);
      }

  stopped :
      (n : ℕ) (finding : Finding) (findings : List Finding) (table : List Row)
      → call n finding table ≡ none
      → ((evaluated finding ≡ none) ⊎ (refuses n ≡ true))
      → IsTrail n (finding ∷ findings) table (
          evaluate_all w upper lower now refuses policies dry responses n
            (finding ∷ findings)
            table)
  unfolding evaluate_all call
  stopped n finding findings table raised why =
      nothing n (finding ∷ findings) table _ (rw raised refl) (rw raised refl, why)

  pub evaluate_all_lem :
      (n : ℕ) (findings : List Finding) (table : List Row)
      → IsTrail n findings table
          (evaluate_all w upper lower now refuses policies dry responses n findings table)
  unfolding evaluate_all call
  evaluate_all_lem n [] table = nothing n [] table _ refl refl
  evaluate_all_lem n (finding ∷ findings) table = elim (Option-cases (evaluated finding)) [
    | inl escapes ↦
        stopped n finding findings table (call_escapes n finding table escapes) (inl escapes)
    | inr (decision, made) ↦ elim (Bool-cases (refuses n)) [
      | inl refused ↦
          stopped n finding findings table (call_refused n finding table decision made refused)
            (inr refused)
      | inr written ↦ rw (call_written n finding table decision made written) (
          then_trail n finding findings table decision
            (evaluate_all w upper lower now refuses policies dry responses (suc n) findings
              (next_table n finding decision table))
            made (evaluate_all_lem (suc n) findings (next_table n finding decision table)))
    ]
  ]

  -- With a digest function of the form of SHA-256, a policy chain that verifies, and any batch of
  -- findings: the findings are decided one by one from the first on, until the batch ends or an
  -- exception leaves `evaluate` or SQLite refuses a write. The table gains exactly the rows of the
  -- decisions made so far, in order, and verifies; the call returns these decisions if the batch
  -- has ended, and raises otherwise.
  pub evaluate_all-IsTrail :
      IsHexDigest w.sha256
      → (findings : List Finding) (table : List Row)
      → (verify_chain w.sha256 policy_chain_columns table).ok ≡ true
      → let o = evaluate_all w upper lower now refuses policies dry responses 0 findings table in
        IsTrail 0 findings table o
        × ((verify_chain w.sha256 policy_chain_columns o.table).ok ≡ true)
  evaluate_all-IsTrail digest findings table ok =
      let trail = evaluate_all_lem 0 findings table in
      let linked = (verify_chain_iff w.sha256 policy_chain_columns table).0 ok in
      let rows = recorded 0 trail.handled trail.decisions in
      (
        trail,
        (verify_chain_iff w.sha256 policy_chain_columns _).1 (
            rw trail.written
              (write_all-IsLinked w.sha256 digest policy_chain_columns table rows linked)),
      )
