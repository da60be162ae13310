-- ===== src/Orchestrator/Lifecycle/Start.antt =====
-- `StartServer` of internal/orchestrator/lifecycle.go.
use oikos.Common.{String, false, ◌||◌, Option, none, some, List, ◌=?◌, if◌then◌else◌}
use oikos.Common.Exec.{Result, ok, err, pure, raise, ◌>>=◌, ◌>>◌}
use oikos.Orchestrator.Lifecycle.{
  decode_error, Parts, Step, try_store, on_store, on_runtime, on_host, announce, set_manual,
}
use Prim.Native.String.{◌++◌ as join}
use oikos.Common.Int.{ℤ, pos, ltb_ℤ, mul64}
use oikos.Common.Fields.{fields}
use oikos.Runtime.{ContainerSpec}
use oikos.Store.{Environment, encoded, malformed, Server, ResourceLimits, StoreError}
use oikos.Store.Servers.{get_server, update_server_status, set_server_container}
use oikos.Store.Limits.{get_resource_limits}

module _ (p : Parts) where
  -- limErr == nil && (…): the limits, if there are any to enforce.
  unfoldable pub limits_of : Result StoreError ResourceLimits → Option ResourceLimits
  limits_of (err e) = none
  limits_of (ok lim) =
      if ltb_ℤ (pos 0) lim.cpu_limit
        || ltb_ℤ (pos 0) lim.memory_limit_mb
        || ltb_ℤ (pos 0) lim.pid_limit
      then some lim
      else none

  unfoldable pub memory_bytes : ResourceLimits → ℤ
  memory_bytes lim = mul64 (mul64 lim.memory_limit_mb (pos 1024)) (pos 1024)

  with_limits : Option ResourceLimits → ContainerSpec → ContainerSpec
  unfolding memory_bytes
  with_limits none spec = spec
  with_limits (some lim) spec = record spec {
    cpu_limit = lim.cpu_limit;
    memory_limit = memory_bytes lim;
    pid_limit = lim.pid_limit;
  }

  unfoldable pub container_spec :
      Server → List (String × String) → Option ResourceLimits → ContainerSpec
  unfolding with_limits
  container_spec s env lim = with_limits lim (record {
    server_id = s.id;
    image = join "oikos/" s.egg_id;
    command = fields s.startup_command;
    env = env;
    cpu_limit = pos 0;
    memory_limit = pos 0;
    pid_limit = pos 0;
    mount_source = "";
  })

  make_container : String → Server → Option ResourceLimits → Environment → Step p String
  unfolding container_spec
  make_container id s lim (malformed text) = raise (decode_error text)
  make_container id s lim (encoded env) = do
    container ← on_runtime p (p.rt.create (container_spec s env lim))
    on_store p (set_server_container id container)
    pure container

  -- The container of the server; one is created where there is none yet.
  ensure_container : String → Server → Option ResourceLimits → Step p String
  unfolding make_container
  ensure_container id s lim =
      if s.container_id =? "" then make_container id s lim s.environment else pure s.container_id

  enforce_at : Option String → ResourceLimits → Step p Unit
  unfolding memory_bytes
  enforce_at none lim = pure tt
  enforce_at (some cgroup) lim = on_host p (
      p.apply_limits cgroup (record {
        cpu_millicores = lim.cpu_limit;
        memory_bytes = memory_bytes lim;
        pid_max = lim.pid_limit;
      }))

  enforce : String → Option ResourceLimits → Step p Unit
  unfolding enforce_at
  enforce container none = pure tt
  enforce container (some lim) =
      if p.cgroup_version =? "v2" then enforce_at (p.find_cgroup container) lim else pure tt

  unfoldable pub start : String → Step p Unit
  unfolding ensure_container enforce limits_of
  start id = do
    set_manual p id false
    s ← on_store p (get_server id)
    lim ← try_store p (get_resource_limits id)
    container ← ensure_container id s (limits_of lim)
    on_runtime p (p.rt.start container)
    on_store p (update_server_status id "running")
    enforce container (limits_of lim)
    announce p "server.started" id
