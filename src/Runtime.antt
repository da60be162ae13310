-- ===== src/Runtime.antt =====
-- internal/runtime/runtime.go: the contract between the orchestrator and a container engine, as a
-- record of operations over the engine's own state.
pub mod Fake
use oikos.Common.{ℕ, String, Bool, List, Option}
use oikos.Common.Int.{ℤ}
use oikos.Common.Exec.{Exec}

-- The fields that a caller of this repository fills in.
pub record ContainerSpec : Type 0 where
  pub server_id : String
  pub image : String
  pub command : List String
  pub env : List (String × String)
  pub cpu_limit : ℤ
  pub memory_limit : ℤ
  pub pid_limit : ℤ
  pub mount_source : String

pub data ContainerStatus : Type 0 where
  running stopped crashed : ContainerStatus

pub record Runtime : Type 1 where
  pub State : Type 0
  pub create : ContainerSpec → Exec State String String
  pub start : String → Exec State String Unit
  pub stop : String → ℕ → Exec State String Unit
  pub restart : String → Exec State String Unit
  pub delete : String → Bool → Exec State String Unit
  pub status : String → Exec State String ContainerStatus
