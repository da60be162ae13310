-- ===== src/Tunnel/Config.antt =====
-- internal/tunnel/config.go: the configuration file of frpc, built from the mappings and replaced
-- atomically.
pub mod Laws
use text.Mathlib.Text.{is_lt}
use Prim.Native.String.{compare, ◌++◌ as join}
use oikos.Common.{
  ℕ, String, ◌≡◌, Bool, true, false, not, ◌&&◌, ◌||◌, List, [], ◌∷◌, ◌=?◌, if◌then◌else◌,
}
use oikos.Common.Int.{ℤ, pos, ltb_ℤ}
use oikos.Common.Exec.{Result, ok, err, Exec, raise, ◌>>=◌, ◌>>◌}
use oikos.Common.Disk.{Disk, call, write_file, rename_file, then_remove}
use oikos.Tunnel.{PortMapping, TunnelError, invalid_config, file_error}

pub record FrpConfig : Type 0 where
  pub server_addr : String
  pub server_port : ℤ
  pub token : String
  pub config_path : String

pub record FrpProxy : Type 0 where
  pub name : String
  pub protocol : String  -- the field Type
  pub local_ip : String
  pub local_port : ℤ
  pub remote_port : ℤ

pub record FrpFile : Type 0 where
  pub server_addr : String
  pub server_port : ℤ
  pub auth_method : String
  pub auth_token : String
  pub proxies : List FrpProxy

-- port < 1 || port > 65535
abbrev pub out_of_range : ℤ → Bool
out_of_range port = ltb_ℤ port (pos 1) || ltb_ℤ (pos 65535) port

abbrev pub unsupported : String → Bool
unsupported protocol = not (protocol =? "tcp") && not (protocol =? "udp")

-- sort.Slice by TunnelID
unfoldable pub insert_by_id : PortMapping → List PortMapping → List PortMapping
insert_by_id m [] = m ∷ []
insert_by_id m (n ∷ ms) =
    if is_lt (compare n.tunnel_id m.tunnel_id) then n ∷ insert_by_id m ms else m ∷ n ∷ ms

unfoldable pub sort_by_id : List PortMapping → List PortMapping
sort_by_id [] = []
sort_by_id (m ∷ ms) = insert_by_id m (sort_by_id ms)

unfoldable pub proxy_name : PortMapping → String
proxy_name m = join "oikos-" (join m.server_id (join "-" m.tunnel_id))

unfoldable pub to_proxy : PortMapping → FrpProxy
to_proxy m = record {
  name = proxy_name m;
  protocol = m.protocol;
  local_ip = "127.0.0.1";
  local_port = m.local_port;
  remote_port = m.remote_port;
}

unfoldable pub is_bad_mapping : PortMapping → Bool
is_bad_mapping m =
    m.tunnel_id =? ""
    || m.server_id =? ""
    || unsupported m.protocol
    || out_of_range m.local_port
    || out_of_range m.remote_port

abbrev pub add_proxy :
    FrpProxy → Result TunnelError (List FrpProxy) → Result TunnelError (List FrpProxy)
add_proxy p (ok ps) = ok (p ∷ ps)
add_proxy p (err e) = err e

-- The loop over the sorted mappings; the first bad mapping ends it.
unfoldable pub to_proxies : List PortMapping → Result TunnelError (List FrpProxy)
to_proxies [] = ok []
to_proxies (m ∷ ms) =
    if is_bad_mapping m then err invalid_config else add_proxy (to_proxy m) (to_proxies ms)

abbrev file_of : FrpConfig → Result TunnelError (List FrpProxy) → Result TunnelError FrpFile
file_of cfg (ok ps) = ok (record {
  server_addr = cfg.server_addr;
  server_port = cfg.server_port;
  auth_method = "token";
  auth_token = cfg.token;
  proxies = ps;
})
file_of cfg (err e) = err e

-- GenerateConfig up to its call of toml.Marshal.
unfoldable pub generate_config : FrpConfig → List PortMapping → Result TunnelError FrpFile
generate_config cfg mappings =
    if cfg.server_addr =? "" || out_of_range cfg.server_port
    then err invalid_config
    else file_of cfg (to_proxies (sort_by_id mappings))

-- WriteConfigAtomic: a temporary file beside the target is filled and renamed over it. `tmp` is
-- the name that os.CreateTemp chooses.
module _ {D : Type 0} (blank : D) (tmp : String) where
  fill : String → D → Exec (Disk D) TunnelError Unit
  fill path bytes = do
    call file_error (λ d. d)  -- Chmod
    call file_error (write_file tmp bytes)
    call file_error (λ d. d)  -- Sync
    call file_error (λ d. d)  -- Close
    call file_error (rename_file tmp path)

  unfoldable pub write_config_atomic : String → D → Exec (Disk D) TunnelError Unit
  unfolding fill
  write_config_atomic path bytes = if path =? "" then raise file_error else do
    call file_error (λ d. d)  -- MkdirAll
    call file_error (write_file tmp blank)  -- CreateTemp
    then_remove file_error tmp (fill path bytes)
