-- ===== src/Pilot/Manifest.antt =====
-- The pilot's manifest, as far as the replay of a block reads it (src/pilot/contracts.ts).
use agent_orchestration_star.Base.{String, Bool, List}
use agent_orchestration_star.Pilot.Vocabulary.{PilotArm, Capability}

pub record Binding : Type 0 where
  pub binding_ref : String
  pub capability_class : Capability
  pub profile_hash : String

pub record ManifestBlock : Type 0 where
  pub block_id : String
  pub task_id : String
  pub matching_stratum : String
  pub pair_or_triplet_id : String
  pub case_fingerprint : String
  pub contract_hash : String
  pub base_revision : String
  pub clean_tree_hash : String
  pub validation_surface : List String
  pub comparative_eligible : Bool
  pub selected_executor_capability_initial : Capability
  pub selected_executor_capability_final_expected : Capability

pub record ArmAssignment : Type 0 where
  pub block_id : String
  pub pilot_arm : PilotArm

pub record PricingSnapshot : Type 0 where
  pub pricing_snapshot_id : String
  pub currency : String

-- The thresholds, the window, the seeds and the other versions are not read here.
pub record Manifest : Type 0 where
  pub pilot_id : String
  pub manifest_hash : String
  pub blocks : List ManifestBlock
  pub assignment_algorithm_version : String
  pub arm_assignments : List ArmAssignment
  pub binding_registry : List Binding
  pub routing_reviewer_binding_ref : String
  pub routing_policy_version : String
  pub isolation_policy_version : String
  pub canonical_tree_algorithm_version : String
  pub volatile_paths_policy_hash : String
  pub pricing_snapshot : PricingSnapshot
