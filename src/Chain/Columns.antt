-- ===== src/Chain/Columns.antt =====
-- The covered columns of storage/evidence_chain.py, in their frozen order.
use linux_xai_security_assis.Base.{List, [], ◌∷◌, Text, codes}

abbrev pub finding_chain_columns : List Text
finding_chain_columns =
    codes "source_risk_id"
    ∷ codes "window_start"
    ∷ codes "window_end"
    ∷ codes "entity_type"
    ∷ codes "entity_key"
    ∷ codes "risk_score"
    ∷ codes "severity"
    ∷ codes "behavior_score"
    ∷ codes "rule_score"
    ∷ codes "context_score"
    ∷ codes "evidence_json"
    ∷ codes "explanation"
    ∷ codes "mode"
    ∷ codes "provenance_hash"
    ∷ codes "detector_version"
    ∷ codes "correlation_id"
    ∷ codes "suppressed"
    ∷ codes "suppression_reason"
    ∷ codes "created_at"
    ∷ []

abbrev pub policy_chain_columns : List Text
policy_chain_columns =
    codes "finding_id"
    ∷ codes "policy_id"
    ∷ codes "decision"
    ∷ codes "reason"
    ∷ codes "risk_score"
    ∷ codes "severity"
    ∷ codes "required_approval"
    ∷ codes "proposed_action"
    ∷ codes "limitations_json"
    ∷ codes "timestamp"
    ∷ codes "dry_run"
    ∷ codes "advisory_rejection"
    ∷ []

abbrev pub triage_chain_columns : List Text
triage_chain_columns =
    codes "finding_id"
    ∷ codes "action"
    ∷ codes "disposition"
    ∷ codes "note"
    ∷ codes "actor"
    ∷ codes "created_at"
    ∷ []

abbrev pub ml_lifecycle_chain_columns : List Text
ml_lifecycle_chain_columns =
    codes "model_id"
    ∷ codes "from_state"
    ∷ codes "to_state"
    ∷ codes "reason"
    ∷ codes "evidence_json"
    ∷ codes "activation_eligible"
    ∷ codes "actor"
    ∷ codes "created_at"
    ∷ []

abbrev pub ml_drift_core_columns : List Text
ml_drift_core_columns =
    codes "model_id"
    ∷ codes "comparison_dataset_id"
    ∷ codes "status"
    ∷ codes "method"
    ∷ codes "alpha"
    ∷ codes "reference_window_count"
    ∷ codes "comparison_window_count"
    ∷ codes "drifted_feature_count"
    ∷ codes "out_of_range_rate"
    ∷ codes "features_json"
    ∷ codes "reasons_json"
    ∷ codes "actor"
    ∷ codes "created_at"
    ∷ []
