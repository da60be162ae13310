-- ===== src/Runtime/Fake.antt =====
-- internal/runtime/fake.go: the engine in memory, an implementation of the contract.
use Prim.Native.String.{◌++◌}
use oikos.Common.{
  ℕ, ◌+◌, String, Bool, Option, none, some, List, [], lookup, put, delete as delete_key,
}
use oikos.Common.Exec.{Result, ok, err, Exec}
use oikos.Runtime.{ContainerSpec, ContainerStatus, stopped, running, Runtime}

pub record Fake : Type 0 where
  pub containers : List (String × ContainerStatus)
  pub seq : ℕ

-- `fmt.Sprintf("fake-%d", f.seq)`; the decimal digits of the number are a parameter.
module _ (decimal : ℕ → String) where
  unfoldable pub create : ContainerSpec → Exec Fake String String
  create spec f =
      let id = "fake-" ++ decimal (f.seq + 1) in
      (ok id, record { containers = put id stopped f.containers; seq = f.seq + 1 })

not_found : String
not_found = "container tidak ditemukan"

write : String → ContainerStatus → Fake → Option ContainerStatus → Result String Unit × Fake
unfolding not_found
write id st f none = (err not_found, f)
write id st f (some old) = (ok tt, record f { containers = put id st f.containers })

unfoldable pub set : String → ContainerStatus → Exec Fake String Unit
unfolding write
set id st f = write id st f (lookup id f.containers)

unfoldable pub start : String → Exec Fake String Unit
unfolding set
start id = set id running

unfoldable pub stop : String → ℕ → Exec Fake String Unit
unfolding set
stop id timeout = set id stopped

unfoldable pub restart : String → Exec Fake String Unit
unfolding set
restart id = set id running

unfoldable pub delete : String → Bool → Exec Fake String Unit
delete id force f = (ok tt, record f { containers = delete_key id f.containers })

read_status : Option ContainerStatus → Result String ContainerStatus
unfolding not_found
read_status none = err not_found
read_status (some st) = ok st

unfoldable pub status : String → Exec Fake String ContainerStatus
unfolding read_status
status id f = (read_status (lookup id f.containers), f)

abbrev pub fake : (ℕ → String) → Runtime
fake decimal = record {
  State = Fake;
  create = create decimal;
  start = start;
  stop = stop;
  restart = restart;
  delete = delete;
  status = status;
}

abbrev pub new_fake : Fake
new_fake = record { containers = []; seq = 0 }
