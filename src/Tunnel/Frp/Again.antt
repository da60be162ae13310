-- ===== src/Tunnel/Frp/Again.antt =====
-- internal/tunnel/frp.go: registering a port that is registered.
use oikos.Common.{
  ℕ, String, Bool, true, false, ◌≡◌, refl, ap, ◌∙◌, Option, none, some, [], length, arith, put,
  if◌then◌else◌,
}
use oikos.Common.Int.{pos, ltb_ℤ}
use mathlib.Core.Path.{subst}
use oikos.Common.Exec.{wrap, Result, ok, err, Exec, ◌>>=◌, ◌>>◌}
use oikos.Common.Triples.{Outcome, Triple, Triple-bind, Triple-pure, Triple-if}
use oikos.Common.Keeps.{Keeps, Keeps-bind, Keeps→Triple}
use oikos.Common.Disk.{Disk}
use oikos.Store.{Tunnel, Db, StoreError}
use oikos.Store.Servers.Triples.{statement-calm}
use oikos.Store.Tunnels.{save_tunnel, get_tunnel_by_mapping, or_no_rows}
use oikos.Tunnel.{PortMapping, Assignment, Shared, TunnelError, store_error}
use oikos.Tunnel.Frp.Rows.{assignment_of, found, Holds, Stored, save_tunnel-Stored}
use oikos.Tunnel.Frp.{
  Setup, Frp, Step, on_store, on_panel, on_disk, change_mappings, emit, configuration,
  restart_process, rebuild, row_of, or_mark, try, allocate, reuse, register_port,
}

injected : (b a : Assignment) → ◌≡◌ {A = Result TunnelError Assignment} (ok b) (ok a) → b ≡ a
injected b a e = cc

module _ (w : Setup) (P : Db → Type 0) where
  abbrev On : Shared × Frp w → Type 0
  On st = P st.0.db

  On-on_disk : {A : Type 0} (m : Exec (Disk w.Content) TunnelError A) → Keeps On (on_disk w m)
  On-on_disk m = record { at = λ st h. h }

  On-configuration : Keeps On (configuration w)
  unfolding configuration
  On-configuration = record { at = λ st h. h }

  On-restart_process : (count : ℕ) → Keeps On (restart_process w count)
  unfolding restart_process
  On-restart_process count = record { at = λ st h. ground (arith, h) }

  On-rebuild : Keeps On (rebuild w)
  unfolding rebuild
  On-rebuild = record {
    at = λ st h.
        (Keeps-bind (configuration w) _ On-configuration λ bytes.
            Keeps-bind (on_disk w _) _ (On-on_disk _)
              λ _. On-restart_process (length st.1.mappings)).at
          st h;
  }

  if-db : (b : Bool) (sh sh' : Shared) → P sh.db → P sh'.db → P (if b then sh' else sh).db
  if-db true sh sh' h k = k
  if-db false sh sh' h k = h

  On-emit : (kind server : String) → Keeps On (emit w kind server)
  unfolding emit
  On-emit kind server = record { at = λ st h. if-db w.has_bus _ _ h h }

module _ (w : Setup) (m : PortMapping) where
  abbrev Ready : Shared × Frp w → Type 0
  Ready st = st.0.db.faults ≡ []

  -- Steps that give an assignment which the table holds.
  abbrev Registers : (Shared × Frp w → Type 0) → Step w Assignment → Type 0
  Registers P step = Triple P (λ a st. Stored w m a st.0.db) (λ e st. Unit {0}) step

  Registers-or_mark :
      (a : Assignment) (r : Result TunnelError Unit)
      → Registers (λ st. Stored w m a st.0.db) (or_mark w a m r)
  unfolding or_mark emit
  Registers-or_mark a (ok done) =
      Triple-bind (λ st. Stored w m a st.0.db) (λ x st. Stored w m a st.0.db) _ _ _ _
        (Keeps→Triple _ _ _ _ (On-emit w (Stored w m a) "tunnel.connected" m.server_id)
          (λ x st h. h) (λ e st h. tt))
        (λ x. Triple-pure _ _ _ a (λ st h. h))
  Registers-or_mark a (err e) = unfold ◌>>=◌ in record { at = λ st h. tt }

  saving :
      (a : Assignment)
      → Registers Ready (do
        on_store w (save_tunnel (row_of w m a))
        change_mappings w
            (put a.tunnel_id (record m { tunnel_id = a.tunnel_id; remote_port = a.remote_port }))
        rebuilt ← try w (rebuild w)
        or_mark w a m rebuilt)
  saving a =
      Triple-bind Ready (λ x st. Stored w m a st.0.db) _ _ _ _ on_row
        λ x.
          Triple-bind _ (λ y st. Stored w m a st.0.db) _ _ _ _ (record { at = λ st h. h })
            λ y.
              Triple-bind _ (λ r st. Stored w m a st.0.db) _ _ _ _ tried λ r. Registers-or_mark a r
    where
      on_row :
          Triple Ready
            (λ x st. Stored w m a st.0.db)
            (λ e st. Unit {0})
            (on_store w (save_tunnel (row_of w m a)))
      on_row = record {
        at = λ st h.
            wrapped (save_tunnel (row_of w m a) st.0.db) ((save_tunnel-Stored w m a).at st.0.db h)
              st;
      }
        where
          wrapped :
              (r : Result StoreError Unit × Db)
              → Outcome {A = Unit {0}} (λ x. Stored w m a) (λ e db. Unit {0}) r.0 r.1
              → (st : Shared × Frp w)
              → Outcome {A = Unit {0}}
                  (λ x (st' : Shared × Frp w). Stored w m a st'.0.db)
                  (λ e st'. Unit {0})
                  (wrap store_error r.0)
                  (record st.0 { db = r.1 }, st.1)
          wrapped (ok x, db) h st = h
          wrapped (err e, db) h st = tt

      tried :
          Triple
            (λ st. Stored w m a st.0.db)
            (λ r st. Stored w m a st.0.db)
            (λ e st. Unit {0})
            (try w (rebuild w))
      tried = unfold try in record { at = (On-rebuild w (Stored w m a)).at }

  Registers-allocate : Registers Ready (allocate w m)
  unfolding allocate
  Registers-allocate = Triple-bind Ready (λ a. Ready) _ _ _ _ (kept) λ a. saving a
    where
      kept : Triple Ready (λ a. Ready) (λ e st. Unit {0}) (on_panel w (w.allocator.register m))
      kept = Keeps→Triple Ready _ _ _ (record { at = λ st h. h }) (λ a st h. h) (λ e st h. tt)

  Seen : Result StoreError Tunnel → Shared × Frp w → Type 0
  Seen (ok t) st = Ready st × (found w m st.0.db ≡ some t)
  Seen (err e) st = Ready st

  Registers-reuse : (r : Result StoreError Tunnel) → Registers (Seen r) (reuse w m r)
  unfolding reuse Seen
  Registers-reuse (ok old) =
      Triple-if _ _ _ (ltb_ℤ (pos 0) old.remote_port) _ _
        (λ there. Triple-pure _ _ _ (assignment_of old) (λ st h. (h.0, rw h.1 refl)))
        (λ absent. record { at = λ st h. Registers-allocate.at st h.0 })
  Registers-reuse (err e) = Registers-allocate

  looked :
      (st : Shared × Frp w)
      → Ready st
      → get_tunnel_by_mapping m.server_id m.local_port m.protocol st.0.db
        ≡ (or_no_rows (found w m st.0.db), st.0.db)
  unfolding get_tunnel_by_mapping
  looked st calm = statement-calm _ st.0.db calm

  Registers-register_port : Registers Ready (register_port w m)
  unfolding register_port
  Registers-register_port =
      Triple-bind Ready Seen _ _ _ _
        (record { at = λ st h. rw (looked st h) (seen (found w m st.0.db) st h refl) })
        Registers-reuse
    where
      seen :
          (o : Option Tunnel) (st : Shared × Frp w)
          → Ready st
          → found w m st.0.db ≡ o
          → Seen (or_no_rows o) st
      seen none st h e = unfold Seen or_no_rows in h
      seen (some t) st h e = unfold Seen or_no_rows in (h, e)

  again :
      (a : Assignment) (st : Shared × Frp w)
      → Stored w m a st.0.db
      → ltb_ℤ (pos 0) a.remote_port ≡ true
      → register_port w m st ≡ (ok a, st)
  unfolding register_port ◌>>=◌
  again a st h open_port = rw (looked st h.0) (reused (found w m st.0.db) h.1)
    where
      reused : (o : Option Tunnel) → Holds w m a o → reuse w m (or_no_rows o) st ≡ (ok a, st)
      reused none k = absurd k
      reused (some t) k =
          unfold reuse or_no_rows in
          rw (ap (λ (x : Assignment). ltb_ℤ (pos 0) x.remote_port) k ∙ open_port)
            (ap (λ x. (ok x, st)) k)

  -- Once RegisterPort has returned an assignment with a remote port, and no statement of the
  -- database fails, registering the same mapping again returns the same assignment and changes
  -- nothing: no row, no event, no file, no process, and the Panel is not asked. This holds for every
  -- allocator, process controller and encoder.
  pub register_port-again :
      (a : Assignment) (st : Shared × Frp w)
      → st.0.db.faults ≡ []
      → (register_port w m st).0 ≡ ok a
      → ltb_ℤ (pos 0) a.remote_port ≡ true
      → register_port w m (register_port w m st).1 ≡ (ok a, (register_port w m st).1)
  register_port-again a st calm done open_port =
      again a (register_port w m st).1
        (known (register_port w m st).0 done (Registers-register_port.at st calm)) open_port
    where
      known :
          (r : Result TunnelError Assignment)
          → r ≡ ok a
          → Outcome (λ b st'. Stored w m b st'.0.db) (λ e st'. Unit {0}) r (register_port w m st).1
          → Stored w m a (register_port w m st).1.0.db
      known (ok b) e h = subst (λ c. Stored w m c (register_port w m st).1.0.db) (injected b a e) h
      known (err x) e h = absurd (ground (arith, e))
