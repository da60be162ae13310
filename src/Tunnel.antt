-- ===== src/Tunnel.antt =====
-- internal/tunnel/manager.go: port mappings, assignments, and the contract of a tunnel manager. A
-- manager works on its own state and on what it shares with the orchestrator: the database, and
-- the event bus that its publish callback reaches.
pub mod Contract
pub mod Config
pub mod Allocator
pub mod Process
pub mod Backoff
pub mod Frp
pub mod Mesh
pub mod Selfheal
use oikos.Common.{String, List}
use oikos.Common.Int.{ℤ}
use oikos.Common.Exec.{Exec}
use oikos.Orchestrator.EventBus.{EventBus}
use oikos.Store.{Db, StoreError}

pub record PortMapping : Type 0 where
  pub tunnel_id : String
  pub server_id : String
  pub local_port : ℤ
  pub remote_port : ℤ
  pub protocol : String

abbrev pub TunnelStatus : Type 0
TunnelStatus = String

pub record Assignment : Type 0 where
  pub tunnel_id : String
  pub remote_port : ℤ
  pub status : TunnelStatus

pub record Shared : Type 0 where
  pub db : Db
  pub bus : EventBus

-- What the operations of a manager return as errors.
pub data TunnelError : Type 0 where
  store_error : StoreError → TunnelError
  invalid_mapping invalid_assignment invalid_config : TunnelError
  panel_error : String → TunnelError
  marshal_error : String → TunnelError
  file_error : TunnelError
  process_error : String → TunnelError

pub record Manager : Type 1 where
  pub State : Type 0
  pub register_port : PortMapping → Exec (Shared × State) TunnelError Assignment
  pub release_port : String → ℤ → Exec (Shared × State) TunnelError Unit
  pub release_server : String → Exec (Shared × State) TunnelError Unit
