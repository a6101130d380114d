-- ===== src/Policy/Trail.antt =====
-- `PolicyEngine.evaluate` with `persist`, and `evaluate_all`, of policy/engine.py, and
-- `write_policy_decision` of storage/sqlite_store.py: decisions as rows of the policy chain. How a
-- number is written and the name of what `float` raised are parameters, as are the clock and
-- whether SQLite refuses a write; the key that a write returns is used by no caller.
pub mod Recorded
mod Samples
use linux_xai_security_assis.Base.{
  ℕ, suc, Bool, true, false, Option, none, some, List, [], ◌∷◌, ◌++◌, map, if◌then◌else◌, Text,
  codes, decimal,
}
use linux_xai_security_assis.Chain.Json.{Value, null, number, text, dumps_texts}
use linux_xai_security_assis.Chain.Columns.{policy_chain_columns}
use linux_xai_security_assis.Chain.{Row, extend_chain}
use linux_xai_security_assis.Policy.{
  PolicyDecision, allow, log, review_required, dry_run, action_pending_approval, denied, Number,
  PolicyRule, Finding, AssistantResponse, Error, missing_fields, bad_number, score_out_of_range,
  bad_evidence, rules_not_iterable,
}
use linux_xai_security_assis.Policy.Evaluate.{
  Decision, Sentence, no_policy_matched, dry_run_only, matched, advisory, failed_closed, Rejection,
  recommendation_not_text, destructive, out_of_scope, PolicyId, fail_closed, policy, Action,
  review_finding, review_input, proposed, Advisory, accepted, failed, rejected, Limitation, stated,
  not_established, malformed_input, evaluate,
}

-- `sha256`, the literal of a number in JSON and SQLite, `f"{x:.4f}"`, and the name of the type that
-- `float` raised when a finding was evaluated.
pub record Writing : Type 0 where
  pub sha256 : Text → Text
  pub repr : Number → Text
  pub fixed_4 : Number → Text
  pub float_error : Finding → Text

-- A decision with the finding that it is about and the time at which it was made.
pub record Result : Type 0 where
  pub finding : Finding
  pub made : Decision
  pub timestamp : Number

abbrev pub decision_value : PolicyDecision → Text
decision_value allow = codes "ALLOW"
decision_value log = codes "LOG"
decision_value review_required = codes "REVIEW_REQUIRED"
decision_value dry_run = codes "DRY_RUN"
decision_value action_pending_approval = codes "ACTION_PENDING_APPROVAL"
decision_value denied = codes "DENIED"

rejection_text : Rejection → Text
rejection_text recommendation_not_text =
    codes "AI recommendation rejected: recommendation is not text."
rejection_text destructive =
    codes "AI recommendation rejected: executing or destructive actions are not permitted."
rejection_text out_of_scope =
    codes "AI recommendation rejected: it does not match this policy's allowed advisory scope."

limitation_text : Limitation → Text
limitation_text (stated t) = t
limitation_text not_established =
    codes
      "TCP/network, file, and audit/auth telemetry availability is not established by this finding."
limitation_text malformed_input = codes "Policy evaluation input was malformed or incomplete."

policy_id_text : PolicyId → Text
policy_id_text fail_closed = codes "policy.fail_closed"
policy_id_text (policy id) = id

action_text : Action → Text
action_text review_finding = codes "Review the finding and policy configuration."
action_text review_input = codes "Review the malformed finding or policy input."
action_text (proposed t) = t

advisory_value : Advisory → Value
unfolding rejection_text
advisory_value accepted = null
advisory_value failed = text (codes "Policy evaluation failed closed.")
advisory_value (rejected rejection) = text (rejection_text rejection)

-- `int(bool(…))`
abbrev flag : Bool → Value
flag true = number (codes "1")
flag false = number (codes "0")

abbrev id_value : Option ℕ → Value
id_value none = null
id_value (some id) = number (decimal id)

abbrev severity_value : Option Text → Value
severity_value none = null
severity_value (some severity) = text severity

-- What a call of `evaluate_all` leaves: the list that it returns, or an exception, and the table.
pub record Outcome : Type 0 where
  pub returned : Option (List Decision)
  pub table : List Row

abbrev pub then_rest : List Row → Option (Decision × List Row) → (List Row → Outcome) → Outcome
then_rest table none rest = record { returned = none; table = table }
then_rest table (some (decision, next)) rest =
    let r = rest next in
    record {
      returned = elim r.returned [ none ↦ none | some decisions ↦ some (decision ∷ decisions) ];
      table = r.table;
    }

module _ (w : Writing) where
  error_name : Finding → Error → Text
  error_name finding missing_fields = codes "PolicyConfigurationError"
  error_name finding bad_number = w.float_error finding
  error_name finding score_out_of_range = codes "PolicyConfigurationError"
  error_name finding bad_evidence = codes "PolicyConfigurationError"
  error_name finding rules_not_iterable = codes "TypeError"

  sentence_text : Finding → Sentence → Text
  unfolding rejection_text error_name
  sentence_text finding no_policy_matched =
      codes "No policy matched the authoritative finding; human review is required."
  sentence_text finding dry_run_only = codes "No action is executed; this is a dry-run decision."
  sentence_text finding (matched id severity score) =
      codes "Policy "
      ++ (id
          ++ (codes " matched severity="
              ++ (severity ++ (codes " risk_score=" ++ (w.fixed_4 score ++ codes ".")))))
  sentence_text finding (advisory rejection) = rejection_text rejection
  sentence_text finding (failed_closed error) =
      codes "Policy evaluation failed closed: " ++ (error_name finding error ++ codes ".")

  -- The sentences, with a space between two of them.
  reason_text : Finding → List Sentence → Text
  unfolding sentence_text
  reason_text finding [] = []
  reason_text finding (s ∷ []) = sentence_text finding s
  reason_text finding (s ∷ t ∷ more) =
      sentence_text finding s ++ (32 ∷ reason_text finding (t ∷ more))

  -- The inserted columns.
  unfoldable pub decision_fields : Result → List (Text × Value)
  unfolding reason_text advisory_value limitation_text policy_id_text action_text dumps_texts
      decimal
  decision_fields r =
      (codes "finding_id", id_value r.made.finding_id)
      ∷ (codes "policy_id", text (policy_id_text r.made.policy_id))
      ∷ (codes "decision", text (decision_value r.made.decision))
      ∷ (codes "reason", text (reason_text r.finding r.made.reason))
      ∷ (codes "risk_score", number (w.repr r.made.risk_score))
      ∷ (codes "severity", severity_value r.made.severity)
      ∷ (codes "required_approval", flag r.made.required_approval)
      ∷ (codes "proposed_action", text (action_text r.made.proposed_action))
      ∷ (codes "limitations_json", text (dumps_texts (map limitation_text r.made.limitations)))
      ∷ (codes "timestamp", number (w.repr r.timestamp))
      ∷ (codes "dry_run", flag r.made.is_dry_run)
      ∷ (codes "advisory_rejection", advisory_value r.made.advisory_rejection)
      ∷ []

  -- The insert and `_extend_chain` are one transaction: `none` where SQLite refuses it.
  unfoldable pub write_policy_decision : Bool → Result → List Row → Option (List Row)
  unfolding extend_chain
  write_policy_decision refused r table =
      if refused
      then none
      else some (extend_chain w.sha256 policy_chain_columns table (decision_fields r))

  module _ (upper lower : Text → Text) (now : ℕ → Number) (refuses : ℕ → Bool)
      (policies : List PolicyRule) (dry : Bool)
      (responses : Option ℕ → Option AssistantResponse) where
    -- `evaluate(finding, response)`, the call with number `n`: its decision and the table after it,
    -- or `none` where an exception leaves it.
    unfoldable pub evaluate_recorded : ℕ → Finding → List Row → Option (Decision × List Row)
    unfolding evaluate write_policy_decision
    evaluate_recorded n finding table =
        elim (evaluate upper lower policies dry finding (responses finding.id) none) [
          | none ↦ none
          | some decision ↦
              elim (write_policy_decision (refuses n)
                (record { finding = finding; made = decision; timestamp = now n }) table) [
                  | none ↦ none
                  | some next ↦ some (decision, next)
                ]
        ]

    unfoldable pub evaluate_all : ℕ → List Finding → List Row → Outcome
    unfolding evaluate_recorded
    evaluate_all n [] table = record { returned = some []; table = table }
    evaluate_all n (finding ∷ findings) table =
        then_rest table (evaluate_recorded n finding table)
          (λ (t : List Row). evaluate_all (suc n) findings t)
