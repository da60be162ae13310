-- ===== src/Examples/Tunnels.antt =====
-- The tunnel manager and the backoffs on concrete inputs.
use oikos.Common.{
  ◌≤◌, String, ◌≡◌, ◌≢◌, refl, true, false, some, [], ◌∷◌, arith, min, ◌^◌, ◌*◌, ◌=?◌, eq_iff,
  lookup,
}
use oikos.Common.Int.{pos_part, pos, negsuc}
use oikos.Common.Exec.{ok}
use oikos.Common.Disk.{Disk, content}
use oikos.Orchestrator.RestartPolicy.{default_restart_policy, next_backoff}
use oikos.Orchestrator.RestartPolicy.Bounds.{next_backoff-exponential}
use oikos.Agent.Backoff.{compute_backoff, compute_backoff-capped}
use oikos.Tunnel.Backoff.{backoff, backoff_bounded}
use oikos.Tunnel.Allocator.{register}
use oikos.Tunnel.Allocator.Validity.{IsAssigned, refused, register-IsAssigned}
use oikos.Tunnel.Config.{write_config_atomic}
use oikos.Tunnel.Config.Laws.{write_config_atomic-content, write_config_atomic-calm, written}
use oikos.Tunnel.Frp.{register_port}
use oikos.Tunnel.Frp.Again.{register_port-again}
use oikos.Examples.Values.{client, port, setup, frp}
use oikos.Tunnel.{Assignment, Shared}
use oikos.Store.{empty_db}
use oikos.Orchestrator.EventBus.{new_event_bus}

-- Two texts that differ.
pub differ : {s t : String} → (s =? t) ≡ false → s ≢ t
differ {s} {t} h e = absurd (ground (arith, eq_iff s t, h, e))

abbrev files : Disk String
files = record { files = ("frpc.toml", "old") ∷ []; faults = [] }

-- The second system call, the creation of the temporary file, fails.
abbrev failing : Disk String
failing = record { files = ("frpc.toml", "old") ∷ []; faults = false ∷ true ∷ [] }

write_config_atomic-content_example :
    content (write_config_atomic "" "tmp" "frpc.toml" "new" failing).1 "frpc.toml"
    ≡ written
        (write_config_atomic "" "tmp" "frpc.toml" "new" failing).0
        "frpc.toml"
        "new"
        "frpc.toml"
        (some "old")
unfolding lookup
write_config_atomic-content_example =
    write_config_atomic-content "" "new" "tmp" "frpc.toml" "frpc.toml" failing (differ refl)

write_config_atomic-calm_example :
    ((write_config_atomic "" "tmp" "frpc.toml" "new" files).0 ≡ ok tt)
    × (content (write_config_atomic "" "tmp" "frpc.toml" "new" files).1 "frpc.toml" ≡ some "new")
write_config_atomic-calm_example =
    write_config_atomic-calm "" "new" "tmp" "frpc.toml" files refl (differ refl) (differ refl)

abbrev shared : Shared
shared = record { db = record empty_db { foreign_keys = false }; bus = new_event_bus }

abbrev given : Assignment
given = record { tunnel_id = "t1"; remote_port = pos 25565; status = "pending" }

first_answer : (register_port setup port (shared, frp)).0 ≡ ok given
unfolding register_port oikos.Common.Exec.◌>>=◌ oikos.Store.Tunnels.get_tunnel_by_mapping
    oikos.Store.statement oikos.Store.Tunnels.find_mapping register oikos.Store.Tunnels.save_tunnel
    oikos.Store.Tunnels.clashes oikos.Tunnel.Frp.rebuild oikos.Tunnel.Config.generate_config
    oikos.Tunnel.Config.to_proxies oikos.Tunnel.Config.sort_by_id oikos.Common.put
    oikos.Tunnel.Config.insert_by_id oikos.Common.delete oikos.Tunnel.Config.is_bad_mapping
    write_config_atomic oikos.Common.Disk.call oikos.Common.Disk.then_remove lookup
    oikos.Tunnel.Frp.emit oikos.Tunnel.Frp.row_of oikos.Tunnel.Allocator.to_assignment
    oikos.Tunnel.Process.start
first_answer = refl

register_port-again_example :
    register_port setup port (register_port setup port (shared, frp)).1
    ≡ (ok given, (register_port setup port (shared, frp)).1)
register_port-again_example =
    register_port-again setup port given (shared, frp) refl first_answer refl

accepted :
    (register client "node" port tt).0
    ≡ ok (record { tunnel_id = "t1"; remote_port = pos 25565; status = "pending" })
unfolding register
accepted = refl

register-IsAssigned_example :
    (refused port ≡ false)
    × IsAssigned (record { tunnel_id = "t1"; remote_port = pos 25565; status = "pending" })
register-IsAssigned_example = register-IsAssigned client "node" port tt accepted

next_backoff-exponential_example :
    (next_backoff default_restart_policy (pos 3) ≡ pos (min 300000000000 (5000000000 * 2 ^ 3)))
    × (next_backoff default_restart_policy (negsuc 3) ≡ pos (min 300000000000 5000000000))
next_backoff-exponential_example =
    next_backoff-exponential default_restart_policy 5000000000 300000000000 3 refl refl
      (omega arith)

compute_backoff-capped_example : compute_backoff 70 ≡ pos (min 30000000000 (1000000000 * 2 ^ 70))
compute_backoff-capped_example = compute_backoff-capped 70

backoff_bounded_example :
    (1000000000 ≤ pos_part (backoff (pos 9))) × (pos_part (backoff (pos 9)) ≤ 16000000000)
backoff_bounded_example = backoff_bounded (pos 9)
