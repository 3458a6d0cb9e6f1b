-- ===== src/Contracts/Task.antt =====
-- Task requests and work contracts (src/runtime/contracts.ts).
use agent_orchestration_star.Base.{
  ℕ, String, Bool, Option, List, ◌≡◌, refl, zero, suc, Comparable, nat_beq, tag_eq_iff, ◌↔◌, true,
}

pub data SourceSensitivity : Type 0 where
  public private : SourceSensitivity

pub data DataScope : Type 0 where
  source_code_only : DataScope

pub data RequestedRoute : Type 0 where
  auto economy frontier : RequestedRoute

pub data EffectiveRoute : Type 0 where
  economy frontier : EffectiveRoute

pub data ChangeOperation : Type 0 where
  create modify delete : ChangeOperation

pub data TaskTrait : Type 0 where
  mechanical localized semantic_debugging cross_file_reasoning multimodal long_horizon : TaskTrait
  architecture security_sensitive migration : TaskTrait

pub data ExecutionLane : Type 0 where
  mechanical_economy reasoning_economy frontier_execution : ExecutionLane

pub data RepairBase : Type 0 where
  last_accepted_tree failed_candidate_tree : RepairBase

pub data ExecutorRole : Type 0 where
  executor reasoning_executor frontier_executor : ExecutorRole

abbrev trait_tag : TaskTrait → ℕ
trait_tag mechanical = 0
trait_tag localized = 1
trait_tag semantic_debugging = 2
trait_tag cross_file_reasoning = 3
trait_tag multimodal = 4
trait_tag long_horizon = 5
trait_tag architecture = 6
trait_tag security_sensitive = 7
trait_tag migration = 8

abbrev trait_of_tag : ℕ → TaskTrait
trait_of_tag zero = mechanical
trait_of_tag (suc zero) = localized
trait_of_tag (suc (suc zero)) = semantic_debugging
trait_of_tag (suc (suc (suc zero))) = cross_file_reasoning
trait_of_tag (suc (suc (suc (suc zero)))) = multimodal
trait_of_tag (suc (suc (suc (suc (suc zero))))) = long_horizon
trait_of_tag (suc (suc (suc (suc (suc (suc zero)))))) = architecture
trait_of_tag (suc (suc (suc (suc (suc (suc (suc zero))))))) = security_sensitive
trait_of_tag (suc (suc (suc (suc (suc (suc (suc (suc _)))))))) = migration

trait_tag_back : (t : TaskTrait) → trait_of_tag (trait_tag t) ≡ t
trait_tag_back mechanical = refl
trait_tag_back localized = refl
trait_tag_back semantic_debugging = refl
trait_tag_back cross_file_reasoning = refl
trait_tag_back multimodal = refl
trait_tag_back long_horizon = refl
trait_tag_back architecture = refl
trait_tag_back security_sensitive = refl
trait_tag_back migration = refl

abbrev pub trait_beq : TaskTrait → TaskTrait → Bool
trait_beq a b = nat_beq (trait_tag a) (trait_tag b)

pub trait_beq_iff : (a b : TaskTrait) → (trait_beq a b ≡ true) ↔ (a ≡ b)
trait_beq_iff = tag_eq_iff trait_tag trait_of_tag trait_tag_back

instance abbrev pub trait_eq : Comparable TaskTrait
trait_eq = record { equal = trait_beq; equal_iff = trait_beq_iff }

pub record AllowedChange : Type 0 where
  pub path : String
  pub operations : List ChangeOperation

pub record ExecutionRequirements : Type 0 where
  pub task_traits : List TaskTrait
  pub context_bytes : ℕ
  pub acceptance_criteria_count : ℕ

pub record ExecutionPolicy : Type 0 where
  pub lane : ExecutionLane
  pub executor_role : ExecutorRole
  pub task_traits : List TaskTrait
  pub max_steps : ℕ
  pub max_tool_uses : ℕ
  pub max_no_mutation_steps : ℕ
  pub timeout_seconds : ℕ
  pub max_attempts : ℕ
  pub repair_base : RepairBase
  pub reasons : List String
  pub health_evidence_hashes : Option (List String)
  pub policy_hash : String

-- `schema_version` and `result_schema_version` are the literal 4.
pub record TaskRequest : Type 0 where
  pub task_id : String
  pub request_id : String
  pub repository_id : String
  pub objective : String
  pub task_class : String
  pub requested_risk_class : String
  pub requested_route : RequestedRoute
  pub execution_requirements : Option ExecutionRequirements
  pub allowed_changes : List AllowedChange
  pub acceptance_tests : List String
  pub implementation_targets : List AllowedChange
  pub allowed_validation_ids : List String
  pub inputs : List String
  pub constraints : List String
  pub success_criteria : List String
  pub max_files_changed : ℕ
  pub max_changed_lines : ℕ
  pub max_attempts : ℕ
  pub prohibited_actions : List String

-- `extends RuntimeTaskRequestV4`: the request's fields are read through it.
pub record WorkContract : Type 0 where
  pub request : TaskRequest
  pub open request use *
  pub run_id : String
  pub repository_root_hash : String
  pub base_sha : String
  pub effective_risk_class : String
  pub effective_route : EffectiveRoute
  pub route_decision_reasons : List String
  pub route_decision_hash : String
  pub execution_policy : Option ExecutionPolicy
  pub effective_data_scope : DataScope
  pub effective_source_sensitivity : SourceSensitivity
  pub sandbox_profile_hashes : List (String × String)
  pub policy_hash : String
  pub profile_hash : String
  pub contract_hash : String
