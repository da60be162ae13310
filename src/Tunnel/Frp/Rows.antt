-- ===== src/Tunnel/Frp/Rows.antt =====
-- internal/tunnel/frp.go: the row that RegisterPort saves for an assignment.
use oikos.Common.{
  true, false, not, ◌&&◌, ◌||◌, ◌≡◌, refl, Option, none, some, List, [], ◌∷◌, ◌++◌, arith, =?_refl,
  if◌then◌else◌, Bool-cases, inl, inr,
}
use oikos.Common.Triples.{Triple}
use oikos.Store.{Tunnel, Db}
use oikos.Store.Servers.{find_server, is_some}
use oikos.Store.Servers.Triples.{statement-calm}
use oikos.Store.Tunnels.{is_mapping, find_mapping, clashes, update_mapping, save_tunnel}
use oikos.Tunnel.{PortMapping, Assignment}
use oikos.Tunnel.Frp.{Setup, row_of}

-- What RegisterPort answers for a stored row.
abbrev pub assignment_of : Tunnel → Assignment
assignment_of t = record { tunnel_id = t.id; remote_port = t.remote_port; status = t.status }

module _ (w : Setup) (m : PortMapping) where
  abbrev pub found : Db → Option Tunnel
  found db = find_mapping m.server_id m.local_port m.protocol db.tunnels

  -- The table holds the assignment at the mapping.
  abbrev pub Holds : Assignment → Option Tunnel → Type 0
  Holds a none = ⊥
  Holds a (some t) = assignment_of t ≡ a

  abbrev pub Calm : Db → Type 0
  Calm db = db.faults ≡ []

  abbrev pub Stored : Assignment → Db → Type 0
  Stored a db = Calm db × Holds a (found db)

  updated :
      (a : Assignment) (rows : List Tunnel)
      → is_some (find_mapping m.server_id m.local_port m.protocol rows) ≡ true
      → Holds a
          (find_mapping m.server_id m.local_port m.protocol (update_mapping (row_of w m a) rows))
  unfolding find_mapping update_mapping row_of
  updated a [] h = absurd (ground (arith, h))
  updated a (u ∷ rows) h = elim (Bool-cases (is_mapping m.server_id m.local_port m.protocol u)) [
    | inl here ↦ rw here (rw (still here) refl)
    | inr there ↦ rw there (rw there (updated a rows (below there h)))
  ]
    where
      still :
          is_mapping m.server_id m.local_port m.protocol u ≡ true
          → is_mapping m.server_id m.local_port m.protocol
              (record u { id = a.tunnel_id; remote_port = a.remote_port; status = a.status })
            ≡ true
      still e = unfold is_mapping in e

      below :
          is_mapping m.server_id m.local_port m.protocol u ≡ false
          → is_some (
              if is_mapping m.server_id m.local_port m.protocol u
              then some u
              else find_mapping m.server_id m.local_port m.protocol rows)
            ≡ true
          → is_some (find_mapping m.server_id m.local_port m.protocol rows) ≡ true
      below e k = ground (arith, e, k)

  own_mapping :
      (a : Assignment) → is_mapping m.server_id m.local_port m.protocol (row_of w m a) ≡ true
  unfolding is_mapping row_of
  own_mapping a = ground (arith, =?_refl m.server_id, =?_refl m.protocol)

  appended :
      (a : Assignment) (rows : List Tunnel)
      → is_some (find_mapping m.server_id m.local_port m.protocol rows) ≡ false
      → Holds a (find_mapping m.server_id m.local_port m.protocol (rows ++ row_of w m a ∷ []))
  unfolding find_mapping
  appended a [] h = rw (own_mapping a) (unfold row_of in refl)
  appended a (u ∷ rows) h = elim (Bool-cases (is_mapping m.server_id m.local_port m.protocol u)) [
    | inl here ↦ absurd (ground (arith, h, here))
    | inr there ↦ rw there (appended a rows (ground (arith, h, there)))
  ]

  pub save_tunnel-Stored :
      (a : Assignment) → Triple Calm (λ u. Stored a) (λ e db. Unit {0}) (save_tunnel (row_of w m a))
  unfolding save_tunnel row_of
  save_tunnel-Stored a = record {
    at = λ db calm.
        rw (statement-calm _ db calm)
          (elim (Bool-cases (
            clashes (row_of w m a) db.tunnels
            || db.foreign_keys
              && not (is_some (find_server (row_of w m a).server_id db.servers)))) [
                | inl refused ↦ rw refused tt
                | inr allowed ↦ rw allowed (elim (Bool-cases (is_some (found db))) [
                  | inl old ↦ rw old (calm, updated a db.tunnels old)
                  | inr new ↦ rw new (calm, appended a db.tunnels new)
                ])
              ]);
  }
