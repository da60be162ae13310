-- ===== src/Store/Tunnels.antt =====
-- The statements of internal/store/sqlite.go on the table `tunnels`.
use oikos.Common.{
  ◌+◌, String, Bool, false, not, ◌&&◌, ◌||◌, List, [], ◌∷◌, ◌++◌, Option, none, some, ◌=?◌, ◌==◌,
  if◌then◌else◌,
}
use oikos.Common.Int.{ℤ, pos, pos_part, neg_part, ltb_ℤ}
use oikos.Common.Exec.{Result, ok, err, Exec}
use oikos.Common.Sort.{sort_by}
use oikos.Store.{Tunnel, Db, StoreError, no_rows, constraint, statement}
use oikos.Store.Servers.{find_server, is_some}

abbrev pub eqb_ℤ : ℤ → ℤ → Bool
eqb_ℤ a b = pos_part a + neg_part b == pos_part b + neg_part a

-- server_id=? AND local_port=? AND protocol=?
unfoldable pub is_mapping : String → ℤ → String → Tunnel → Bool
is_mapping server port protocol t =
    t.server_id =? server && eqb_ℤ t.local_port port && t.protocol =? protocol

unfoldable pub find_mapping : String → ℤ → String → List Tunnel → Option Tunnel
find_mapping server port protocol [] = none
find_mapping server port protocol (t ∷ rows) =
    if is_mapping server port protocol t then some t else find_mapping server port protocol rows

-- Another row holds the primary key or the remote port of `t`. A remote port of 0 is NULL, which
-- is equal to nothing.
unfoldable pub clashes : Tunnel → List Tunnel → Bool
clashes t [] = false
clashes t (u ∷ rows) =
    not (is_mapping t.server_id t.local_port t.protocol u)
      && (u.id =? t.id || not (eqb_ℤ t.remote_port (pos 0)) && eqb_ℤ u.remote_port t.remote_port)
    || clashes t rows

unfoldable pub update_mapping : Tunnel → List Tunnel → List Tunnel
update_mapping t [] = []
update_mapping t (u ∷ rows) =
    (if is_mapping t.server_id t.local_port t.protocol u
      then record u { id = t.id; remote_port = t.remote_port; status = t.status }
      else u)
    ∷ update_mapping t rows

-- INSERT … ON CONFLICT(server_id,local_port,protocol) DO UPDATE SET id, remote_port, status
unfoldable pub save_tunnel : Tunnel → Exec Db StoreError Unit
save_tunnel t = statement λ db.
    if clashes t db.tunnels || db.foreign_keys && not (is_some (find_server t.server_id db.servers))
    then (err constraint, db)
    else if is_some (find_mapping t.server_id t.local_port t.protocol db.tunnels)
    then (ok tt, record db { tunnels = update_mapping t db.tunnels })
    else (ok tt, record db { tunnels = db.tunnels ++ t ∷ [] })

unfoldable pub or_no_rows : Option Tunnel → Result StoreError Tunnel
or_no_rows none = err no_rows
or_no_rows (some t) = ok t

unfoldable pub get_tunnel_by_mapping : String → ℤ → String → Exec Db StoreError Tunnel
unfolding or_no_rows
get_tunnel_by_mapping server port protocol =
    statement λ db. (or_no_rows (find_mapping server port protocol db.tunnels), db)

-- ORDER BY local_port
unfoldable pub insert_by_port : Tunnel → List Tunnel → List Tunnel
insert_by_port t [] = t ∷ []
insert_by_port t (u ∷ rows) =
    if ltb_ℤ u.local_port t.local_port then u ∷ insert_by_port t rows else t ∷ u ∷ rows

unfoldable pub of_server : String → List Tunnel → List Tunnel
of_server server [] = []
of_server server (t ∷ rows) =
    let rest = of_server server rows in
    if t.server_id =? server then insert_by_port t rest else rest

unfoldable pub list_tunnels : String → Exec Db StoreError (List Tunnel)
list_tunnels server = statement λ db. (ok (of_server server db.tunnels), db)

unfoldable pub mappings_but : String → ℤ → String → List Tunnel → List Tunnel
mappings_but server port protocol [] = []
mappings_but server port protocol (t ∷ rows) =
    let rest = mappings_but server port protocol rows in
    if is_mapping server port protocol t then rest else t ∷ rest

unfoldable pub delete_tunnel_by_mapping : String → ℤ → String → Exec Db StoreError Unit
delete_tunnel_by_mapping server port protocol =
    statement λ db. (ok tt, record db { tunnels = mappings_but server port protocol db.tunnels })

unfoldable pub set_status : String → String → List Tunnel → List Tunnel
set_status id status [] = []
set_status id status (t ∷ rows) =
    (if t.id =? id then record t { status = status } else t) ∷ set_status id status rows

-- The column last_connected, which this also sets, is read nowhere and is left out.
unfoldable pub update_tunnel_status : String → String → Exec Db StoreError Unit
update_tunnel_status id status =
    statement λ db. (ok tt, record db { tunnels = set_status id status db.tunnels })

pub record MetricTunnel : Type 0 where
  pub server_id : String
  pub status : String

abbrev metric_rows : List Tunnel → List MetricTunnel
metric_rows [] = []
metric_rows (t ∷ rows) = record { server_id = t.server_id; status = t.status } ∷ metric_rows rows

-- ORDER BY server_id
unfoldable pub list_tunnels_for_metrics : Exec Db StoreError (List MetricTunnel)
list_tunnels_for_metrics =
    statement λ db. (ok (metric_rows (sort_by (λ t. t.server_id) db.tunnels)), db)
