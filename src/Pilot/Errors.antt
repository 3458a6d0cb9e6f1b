-- ===== src/Pilot/Errors.antt =====
-- What the replay of a block refuses, by the message that it throws (src/pilot/state-machine.ts,
-- src/pilot/event-store.ts).
pub data PilotError : Type 0 where
  manifest_mismatch unknown_block arm_mismatch block_identity_mismatch : PilotError
  capability_mismatch binding_mismatch invalid_occurred_at planned_block_hash_mismatch : PilotError
  assignment_mismatch isolation_invalid attempt_ceiling_or_order completion_order_invalid :
      PilotError
  execution_duration_invalid tree_reproduction_invalid review_order_invalid : PilotError
  reviewer_independence_invalid review_proof_invalid unresolved_acceptance : PilotError
  empty_rejection escalation_invalid invalidation_not_projected conflicting_terminal : PilotError
  illegal_event_state_pair orphan_evidence : PilotError
  incompatible_sequence_gap regressive_occurred_at workspace_contaminated : PilotError
  attempt_id_or_ceiling_invalid input_revision_chain_invalid executor_session_reused : PilotError
  escalation_target_binding_mismatch completion_attempt_mismatch : PilotError
  completion_ownership_mismatch missing_entry orphan_or_misordered_validation : PilotError
  validation_surface_invalid validation_test_counts_inconsistent : PilotError
  review_attempt_reference_invalid review_session_or_id_invalid : PilotError
  review_completion_owner_invalid review_completion_ownership_mismatch orphan_review : PilotError
  review_boundary_chain_invalid validation_evidence_mismatch : PilotError
  material_finding_flag_invalid orphan_finding_resolution : PilotError
  non_material_finding_flag_invalid unresolved_finding_retention_invalid : PilotError
  orchestrator_operation_id_reused orchestrator_operation_binding_invalid : PilotError
  usage_policy_invalid orphan_or_misordered_usage_operation : PilotError
  orchestrator_usage_ownership_mismatch orchestrator_usage_owner_invalid : PilotError
  orphan_or_misordered_usage_attempt attempt_usage_ownership_mismatch : PilotError
  orphan_or_misordered_usage_review review_usage_ownership_mismatch : PilotError
  orphan_or_misordered_rework escalation_review_reference_invalid : PilotError
  accepted_revision_tree_invalid defect_acceptance_reference_invalid invalid_transition : PilotError
  empty_history empty_active_history empty_reduction workspace_reused_across_blocks : PilotError
  unsafe_event duplicate_event_id sequence_not_contiguous unknown_superseded_event : PilotError
  superseded_hash_mismatch unknown_invalidated_event invalidated_hash_mismatch : PilotError
  event_id_with_different_content : PilotError
