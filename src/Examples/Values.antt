-- ===== src/Examples/Values.antt =====
-- A node with the engine in memory and a frp manager over a Panel that assigns port 25565.
use oikos.Common.{true, false, Option, none, some, [], ◌∷◌}
use oikos.Common.Int.{pos}
use oikos.Common.Exec.{ok}
use oikos.Orchestrator.EventBus.{new_event_bus}
use oikos.Orchestrator.Lifecycle.{Parts, World}
use oikos.Runtime.{running}
use oikos.Runtime.Fake.{fake}
use oikos.Store.{Server, encoded, empty_db}
use oikos.Tunnel.{PortMapping}
use oikos.Tunnel.Allocator.{TunnelClient, new_panel_allocator}
use oikos.Tunnel.Config.{FrpFile}
use oikos.Tunnel.Process.{os_process}
use oikos.Tunnel.Frp.{Setup, Frp, new_manager}

abbrev pub client : TunnelClient
client = record {
  State = Unit;
  register_tunnel =
      λ r s. (ok (record { tunnel_id = "t1"; remote_port = pos 25565; status = "" }), s);
  release_tunnel = λ r s. (ok tt, s);
}

-- The encoder of the example keeps the file as it is.
abbrev pub setup : Setup
setup = record {
  Content = Option FrpFile;
  blank = none;
  cfg = record {
    server_addr = "panel";
    server_port = pos 7000;
    token = "s";
    config_path = "/etc/frpc.toml";
  };
  allocator = new_panel_allocator client "node";
  process = os_process;
  has_bus = true;
  marshal = λ file. ok (some file);
  temporary = "/etc/.frpc-1";
}

abbrev pub port : PortMapping
port = record {
  tunnel_id = "";
  server_id = "s1";
  local_port = pos 25565;
  remote_port = pos 0;
  protocol = "tcp";
}

abbrev pub frp : Frp setup
frp = record {
  mappings = [];
  panel = tt;
  process = record { child = none; faults = [] };
  disk = record { files = []; faults = [] };
}

abbrev pub parts : Parts
parts = record {
  rt = fake (λ n. "1");
  tunnels = new_manager setup;
  has_tunnels = true;
  has_ports = true;
  ports = λ egg. ok (port ∷ []);
  Host = Unit;
  cgroup_version = "v2";
  find_cgroup = λ id. none;
  apply_limits = λ path limits h. (ok tt, h);
}

abbrev pub fresh_world : World parts
fresh_world = record {
  db = empty_db;
  bus = new_event_bus;
  rt = record { containers = []; seq = 0 };
  tunnels = frp;
  host = tt;
  manual_stops = λ id. false;
}

-- A server that runs in a container.
abbrev pub row : Server
row = record {
  id = "s1";
  name = "one";
  egg_id = "egg";
  container_id = "c1";
  status = "running";
  startup_command = "run";
  environment = encoded [];
  restart_count = 1;
  last_crash_at = none;
}

abbrev pub busy_world : World parts
busy_world = record fresh_world {
  db = record empty_db { servers = row ∷ [] };
  rt = record { containers = ("c1", running) ∷ []; seq = 1 };
}
