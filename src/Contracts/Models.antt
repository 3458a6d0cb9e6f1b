-- ===== src/Contracts/Models.antt =====
-- Model bindings, profiles and the repository's policy (src/runtime/contracts.ts).
use agent_orchestration_star.Base.{ℕ, String, Bool, Option, List}
use agent_orchestration_star.Contracts.Task.{SourceSensitivity, DataScope, TaskTrait}

pub data Tier : Type 0 where
  frontier economy : Tier

pub data Permissions : Type 0 where
  read_only contract_write : Permissions

pub record BindingExecution : Type 0 where
  pub supported_task_traits : List TaskTrait
  pub max_steps : ℕ
  pub max_tool_uses : ℕ
  pub max_no_mutation_steps : ℕ
  pub timeout_seconds : ℕ
  pub supports_failed_candidate_repair : Bool

-- `authentication` and `guidance` are read by the runners alone, and left out.
pub record Binding : Type 0 where
  pub harness : String
  pub provider : String
  pub model : String
  pub tier : Tier
  pub capability : String
  pub allowed_data_scopes : List DataScope
  pub allowed_source_sensitivity : List SourceSensitivity
  pub permissions : Permissions
  pub execution : Option BindingExecution

pub record Bindings : Type 0 where
  pub orchestrator : Binding
  pub executor : Binding
  pub reasoning_executor : Option Binding
  pub escalation_executor : Binding
  pub frontier_executor : Binding
  pub reviewer : Binding

pub record Profile : Type 0 where
  pub id : String
  pub bindings : Bindings
  pub max_economy_parallel_requests : ℕ
  pub max_concurrent_runs_per_repository : ℕ
