-- ===== src/Tunnel/Allocator/Validity.antt =====
-- What an accepted registration guarantees.
use oikos.Common.{
  String, ◌≡◌, ◌≢◌, Bool, true, false, ◌||◌, sym, ap, ◌∙◌, inl, inr, Bool-cases, arith, ◌=?◌,
  eq_iff,
}
use oikos.Common.Exec.{Result, ok, err}
use oikos.Tunnel.{PortMapping, Assignment, TunnelError, invalid_mapping}
use oikos.Tunnel.Config.{out_of_range, unsupported}
use oikos.Tunnel.Allocator.{
  TunnelClient, TunnelResponse, register, to_request, to_assignment, on_reply,
}

-- The mapping may be asked for.
abbrev pub refused : PortMapping → Bool
refused m = m.server_id =? "" || out_of_range m.local_port || unsupported m.protocol

pub record IsAssigned (a : Assignment) : Type 0 where
  pub has_id : a.tunnel_id ≢ ""
  pub in_range : out_of_range a.remote_port ≡ false
  pub has_status : a.status ≢ ""

-- The assignment is good, if there is one.
abbrev Answer : Result TunnelError Assignment → Type 0
Answer (ok a) = IsAssigned a
Answer (err e) = Unit

answered : (r : Result TunnelError Assignment) {a : Assignment} → Answer r → r ≡ ok a → IsAssigned a
answered (ok b) {a} good h = let e : a ≡ b = cc in rw e good
answered (err e) {a} good h = cc

to_assignment-Answer : (r : TunnelResponse) → Answer (to_assignment r)
unfolding to_assignment
to_assignment-Answer r = elim (Bool-cases (r.tunnel_id =? "" || out_of_range r.remote_port)) [
  | inl bad ↦ rw bad tt
  | inr good ↦ rw good (record {
    has_id = ground (arith, eq_iff r.tunnel_id "");
    in_range = ground arith;
    has_status = elim (Bool-cases (r.status =? "")) [
      | inl blank ↦ rw blank (λ h. absurd (ground (arith, eq_iff "pending" "", h)))
      | inr named ↦ rw named (λ h. absurd (ground (arith, eq_iff r.status "", h, named)))
    ];
  })
]

on_reply-Answer :
    {S : Type 0} (r : Result String TunnelResponse) (s : S) → Answer (on_reply (r, s)).0
on_reply-Answer (ok r) s = to_assignment-Answer r
on_reply-Answer (err e) s = tt

-- A refused mapping is an error, and the Panel is not asked.
pub register-refused :
    (client : TunnelClient) (node : String) (m : PortMapping) (s : client.State)
    → refused m ≡ true
    → register client node m s ≡ (err invalid_mapping, s)
unfolding register
register-refused client node m s h = ground arith

asked :
    (client : TunnelClient) (node : String) (m : PortMapping) (s : client.State)
    → refused m ≡ false
    → register client node m s ≡ on_reply (client.register_tunnel (to_request node m) s)
unfolding register
asked client node m s h = ground arith

-- An accepted registration was of a mapping that names a server, a port of 1 to 65535 and tcp or udp,
-- and its assignment has a tunnel id, a remote port of 1 to 65535 and a status, whatever the Panel
-- answered.
pub register-IsAssigned :
    (client : TunnelClient) (node : String) (m : PortMapping) (s : client.State) {a : Assignment}
    → (register client node m s).0 ≡ ok a
    → (refused m ≡ false) × IsAssigned a
register-IsAssigned client node m s {a} h = elim (Bool-cases (refused m)) [
  | inl bad ↦
      let e : err invalid_mapping ≡ ok a =
        sym (ap (λ x. x.0) (register-refused client node m s bad)) ∙ h in
      cc
  | inr good ↦ (
    good,
    answered (on_reply (client.register_tunnel (to_request node m) s)).0
        (on_reply-Answer (client.register_tunnel (to_request node m) s).0
          (client.register_tunnel (to_request node m) s).1)
        (sym (ap (λ x. x.0) (asked client node m s good)) ∙ h),
  )
]
