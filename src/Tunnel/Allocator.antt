-- ===== src/Tunnel/Allocator.antt =====
-- internal/tunnel/allocator.go: remote ports are assigned by the Panel, and both the request and its
-- answer are checked. The gRPC client is a parameter.
pub mod Validity
use oikos.Common.{String, ◌||◌, ◌=?◌, if◌then◌else◌}
use oikos.Common.Int.{ℤ}
use oikos.Common.Exec.{Result, ok, err, Exec}
use oikos.Tunnel.{
  PortMapping, Assignment, TunnelError, invalid_mapping, invalid_assignment, panel_error,
}
use oikos.Tunnel.Config.{out_of_range, unsupported}

pub record PanelAllocator : Type 1 where
  pub State : Type 0
  pub register : PortMapping → Exec State TunnelError Assignment
  pub release : PortMapping → Exec State TunnelError Unit

pub record TunnelRequest : Type 0 where
  pub node_id : String
  pub server_id : String
  pub local_port : ℤ  -- int32
  pub protocol : String

pub record TunnelResponse : Type 0 where
  pub tunnel_id : String
  pub remote_port : ℤ  -- int32
  pub status : String

-- tunnelpb.TunnelServiceClient
pub record TunnelClient : Type 1 where
  pub State : Type 0
  pub register_tunnel : TunnelRequest → Exec State String TunnelResponse
  pub release_tunnel : TunnelRequest → Exec State String Unit

unfoldable pub to_assignment : TunnelResponse → Result TunnelError Assignment
to_assignment r =
    if r.tunnel_id =? "" || out_of_range r.remote_port
    then err invalid_assignment
    else ok (record {
      tunnel_id = r.tunnel_id;
      remote_port = r.remote_port;
      status = if r.status =? "" then "pending" else r.status;
    })

-- A port that passed the range check fits an int32, so the narrowing of protoPort is the identity.
unfoldable pub to_request : String → PortMapping → TunnelRequest
to_request node m = record {
  node_id = node;
  server_id = m.server_id;
  local_port = m.local_port;
  protocol = m.protocol;
}

abbrev on_reply :
    {S : Type 0} → Result String TunnelResponse × S → Result TunnelError Assignment × S
on_reply (ok r, s) = (to_assignment r, s)
on_reply (err e, s) = (err (panel_error e), s)

abbrev on_released : {S : Type 0} → Result String Unit × S → Result TunnelError Unit × S
on_released (ok a, s) = (ok tt, s)
on_released (err e, s) = (err (panel_error e), s)

module _ (client : TunnelClient) (node : String) where
  unfoldable pub register : PortMapping → Exec client.State TunnelError Assignment
  unfolding to_request to_assignment
  register m s =
      if m.server_id =? "" || out_of_range m.local_port
      then (err invalid_mapping, s)
      else if unsupported m.protocol
      then (err invalid_mapping, s)
      else on_reply (client.register_tunnel (to_request node m) s)

  unfoldable pub release : PortMapping → Exec client.State TunnelError Unit
  unfolding to_request
  release m s =
      if out_of_range m.local_port
      then (err invalid_mapping, s)
      else on_released (client.release_tunnel (to_request node m) s)

abbrev pub new_panel_allocator : TunnelClient → String → PanelAllocator
new_panel_allocator client node = record {
  State = client.State;
  register = register client node;
  release = release client node;
}
