-- ===== src/Store.antt =====
-- internal/store/models.go, and the state of the database that internal/store/sqlite.go works on:
-- the rows of its tables, and how the coming statements fare. SQLite itself is not modelled: a
-- statement fails if `faults` says so (a full disk, a locked file), in which case it changes
-- nothing, and otherwise does what its text says.
pub mod Servers
pub mod Limits
pub mod Tunnels
pub mod Plugins
pub mod Events
pub mod Transactions
pub mod Statements
pub mod Nodes
pub mod Networks
pub mod Backups
pub mod Credentials
use oikos.Common.{ℕ, String, Bool, true, false, List, [], ◌∷◌, Option}
use oikos.Common.Int.{ℤ}
use oikos.Common.Exec.{Result, ok, err, Exec}

-- The column `environment`: the JSON that the program wrote, or a text that is none.
pub data Environment : Type 0 where
  encoded : List (String × String) → Environment
  malformed : String → Environment

-- A NULL container_id and an empty one are read alike, so both are "".
pub record Server : Type 0 where
  pub id : String
  pub name : String
  pub egg_id : String
  pub container_id : String
  pub status : String
  pub startup_command : String
  pub environment : Environment
  pub restart_count : ℕ
  pub last_crash_at : Option ℕ

pub record Egg : Type 0 where
  pub id : String
  pub name : String
  pub dockerfile_path : String
  pub metadata_path : String

pub record ResourceLimits : Type 0 where
  pub server_id : String
  pub cpu_limit : ℤ
  pub memory_limit_mb : ℤ
  pub disk_limit_mb : ℤ
  pub pid_limit : ℤ
  pub bandwidth_kbps : ℤ

-- A NULL remote_port is read as 0.
pub record Tunnel : Type 0 where
  pub id : String
  pub server_id : String
  pub local_port : ℤ
  pub remote_port : ℤ
  pub protocol : String
  pub status : String

-- time.Time: the seconds and nanoseconds in UTC, and the offset of its zone. The years of RFC 3339
-- are 0 to 9999.
pub record Time : Type 0 where
  pub seconds : ℤ
  pub nanoseconds : ℕ
  pub zone : ℤ

pub record Plugin : Type 0 where
  pub id : String
  pub name : String
  pub version : String
  pub binary_path : String
  pub config_path : String
  pub sha256 : String
  pub enabled : Bool
  pub subscribed_events : String
  pub allowed_routes : String
  pub installed_at : Time

pub record Node : Type 0 where
  pub id : String
  pub name : String
  pub panel_url : String
  pub cert_path : String
  pub key_path : String
  pub paired_at : ℕ

pub record NetworkGroup : Type 0 where
  pub id : String
  pub name : String

pub record NetworkGroupMember : Type 0 where
  pub group_id : String
  pub node_id : String
  pub private_ip : String

-- A zero completed_at is NULL.
pub record Backup : Type 0 where
  pub id : String
  pub server_id : String
  pub file_path : String
  pub size_bytes : ℤ
  pub checksum_sha : String
  pub status : String
  pub created_at : ℕ
  pub completed_at : Option ℕ

pub record SftpCredential : Type 0 where
  pub id : String
  pub server_id : String
  pub username : String
  pub public_key : String
  pub password_hash : String

pub record StoredEvent : Type 0 where
  pub id : String
  pub kind : String
  pub server_id : String
  pub severity : String
  pub message : String
  pub metadata : String
  pub created_at : ℕ

pub data StoreError : Type 0 where
  no_rows : StoreError  -- sql.ErrNoRows
  constraint : StoreError  -- a key is taken, or a reference points nowhere
  io : StoreError
  null_column : StoreError  -- NULL in a column that is scanned into a string
  invalid : StoreError  -- refused by the Go code before the statement

-- A database/sql pool may run a statement on a connection that has not seen the PRAGMA of `Open`:
-- `foreign_keys` says whether references are enforced.
pub record Db : Type 0 where
  pub servers : List Server
  pub eggs : List Egg
  pub limits : List ResourceLimits
  pub tunnels : List Tunnel
  pub plugins : List Plugin
  pub events : List StoredEvent
  pub nodes : List Node
  pub groups : List NetworkGroup
  pub members : List NetworkGroupMember
  pub backups : List Backup
  pub credentials : List SftpCredential
  pub foreign_keys : Bool
  pub faults : List Bool

attempt : {A : Type 0} → List Bool → Exec Db StoreError A → Exec Db StoreError A
attempt [] body db = body db
attempt (true ∷ fs) body db = (err io, record db { faults = fs })
attempt (false ∷ fs) body db = body (record db { faults = fs })

-- One SQL statement.
unfoldable pub statement : {A : Type 0} → Exec Db StoreError A → Exec Db StoreError A
unfolding attempt
statement body db = attempt db.faults body db

abbrev pub empty_db : Db
empty_db = record {
  servers = [];
  eggs = [];
  limits = [];
  tunnels = [];
  plugins = [];
  events = [];
  nodes = [];
  groups = [];
  members = [];
  backups = [];
  credentials = [];
  foreign_keys = true;
  faults = [];
}
