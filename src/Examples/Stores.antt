-- ===== src/Examples/Stores.antt =====
-- Stored plugins, members of a network and recorded events.
use oikos.Common.{
  List, ℕ, ◌+◌, ◌||◌, String, Bool, true, false, ◌≡◌, refl, [], ◌∷◌, ◌++◌, ◌=?◌, map, All, arith,
  if◌then◌else◌,
}
use oikos.Common.Int.{pos}
use oikos.Common.Exec.{ok, err, ◌>>=◌}
use oikos.Common.Triples.{Outcome}
use oikos.Orchestrator.EventBus.{Event}
use oikos.Orchestrator.EventRecorder.{start}
use oikos.Orchestrator.EventRecorder.Loss.{start-pruned}
use oikos.Orchestrator.EventRecorder.Collisions.{restart-loses}
use oikos.Store.{Plugin, Node, Db, empty_db}
use oikos.Store.Events.{events_from, dangling}
use oikos.Store.Networks.{members_but}
use oikos.Store.Plugins.{find_plugin, row_of, save_plugin, get_plugin}
use oikos.Store.Plugins.Refinement.{
  PluginOp, save, enable, get, answers, meanings, answers-meanings,
}
use oikos.Store.Plugins.RoundTrip.{save_plugin-get_plugin}
use oikos.Tunnel.Mesh.{NetworkGroupAssignment, stored_member, assign}
use oikos.Tunnel.Mesh.Replacement.{IsMember, assign-members}
use oikos.Tunnel.Selfheal.{Surroundings, TunnelSelfHealer}
use oikos.Tunnel.Selfheal as Selfheal
use oikos.Tunnel.Selfheal.Attempts.{EndsFor, start-ends}

abbrev valid : String → Bool
valid text = text =? "[]" || text =? "{}"

abbrev plugin : Plugin
plugin = record {
  id = "p";
  name = "P";
  version = "1";
  binary_path = "/p";
  config_path = "";
  sha256 = "0";
  enabled = true;
  subscribed_events = "[]";
  allowed_routes = "";
  installed_at = record { seconds = pos 5; nanoseconds = 700; zone = pos 7200 };
}

save_plugin-get_plugin_example :
    ((save_plugin valid plugin >>= λ done. get_plugin "p") empty_db).0
    ≡ (if "p" =? "p" then ok (row_of plugin) else (get_plugin "p" empty_db).0)
save_plugin-get_plugin_example = save_plugin-get_plugin valid plugin empty_db refl refl refl "p"

abbrev node : Node
node = record {
  id = "n1";
  name = "one";
  panel_url = "https://panel";
  cert_path = "/cert";
  key_path = "/key";
  paired_at = 1;
}

abbrev assignment : NetworkGroupAssignment
assignment = record {
  group_id = "g";
  name = "G";
  relay_addr = "relay";
  relay_port = pos 7000;
  private_ip = "10.0.0.1";
  members = record { node_id = "n1"; private_ip = "10.0.0.2" } ∷ [];
}

abbrev paired : Db
paired = record empty_db { nodes = node ∷ [] }

abbrev is_addr : String → Bool
is_addr text = text =? "10.0.0.1" || text =? "10.0.0.2"

assign-members_example :
    Outcome
      (λ x after.
        (after.members
          ≡ members_but "g" paired.members ++ map (stored_member "g") assignment.members)
        × All (IsMember is_addr) assignment.members)
      (λ e after. after.members ≡ paired.members)
      (assign is_addr assignment paired).0
      (assign is_addr assignment paired).1
assign-members_example = assign-members is_addr assignment paired

-- A manager whose reload fails, under a context that lives.
abbrev failing : Surroundings
failing = record {
  State = ℕ;
  reload = λ n. (err "down", n + 1);
  is_done = λ n. (false, n);
  wait = λ d n. (false, n);
  policy = λ n. pos 1;
}

abbrev healer : TunnelSelfHealer
healer = record { attempt = 0; failed = false }

start-ends_example : EndsFor failing healer (Selfheal.start failing 6 (healer, 0))
start-ends_example = start-ends failing healer 0

abbrev started : Event
started = record { kind = "server.started"; server_id = "" }

start-pruned_example :
    events_from 9 (start valid (started ∷ []) (0, empty_db)).1.events ≡ events_from 9 []
start-pruned_example = start-pruned valid (started ∷ []) 0 9 empty_db (omega arith)

unreferenced : dangling "" empty_db ≡ false
unfolding dangling
unreferenced = refl

restart-loses_example :
    (start valid (started ∷ []) (0, (start valid (started ∷ []) (0, empty_db)).1)).1
    ≡ (start valid (started ∷ []) (0, empty_db)).1
restart-loses_example =
    restart-loses valid refl (started ∷ []) (started ∷ []) empty_db refl ((refl, unreferenced), tt)
      ((refl, unreferenced), tt) (omega arith)

abbrev plugin_ops : List PluginOp
plugin_ops = save plugin ∷ enable "p" false ∷ get "p" ∷ get "q" ∷ []

answers-meanings_example :
    answers valid plugin_ops empty_db ≡ meanings valid plugin_ops (λ id. find_plugin id [])
answers-meanings_example = answers-meanings valid plugin_ops empty_db refl
