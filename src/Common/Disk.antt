-- ===== src/Common/Disk.antt =====
-- Files by path, and system calls that may fail. A failing call has no effect on the files that the
-- program goes on to read; which calls fail is given from outside, so every error path can be taken.
pub mod Triples
use mathlib.Core.Path.{◌≡◌, refl}
use mathlib.Core.Bool.{Bool, true, false}
use mathlib.Core.List.{List, [], ◌∷◌}
use mathlib.Core.Option.{Option, none, some}
use Prim.Native.String.{String}
use oikos.Common.Text.{lookup, put, delete}
use oikos.Common.Exec.{Result, ok, err, Exec}

pub record Disk (D : Type 0) : Type 0 where
  pub files : List (String × D)
  pub faults : List Bool

module _ {D : Type 0} where
  abbrev pub content : Disk D → String → Option D
  content d path = lookup path d.files

  abbrev pub write_file : String → D → Disk D → Disk D
  write_file path bytes d = record d { files = put path bytes d.files }

  abbrev pub remove_file : String → Disk D → Disk D
  remove_file path d = record d { files = delete path d.files }

  abbrev pub move : Option D → String → String → Disk D → Disk D
  move none from to d = d
  move (some bytes) from to d = record d { files = put to bytes (delete from d.files) }

  abbrev pub rename_file : String → String → Disk D → Disk D
  rename_file from to d = move (lookup from d.files) from to d

module _ {D E : Type 0} where
  perform : List Bool → E → (Disk D → Disk D) → Exec (Disk D) E Unit
  perform [] e effect d = (ok tt, effect d)
  perform (true ∷ fs) e effect d = (err e, record d { faults = fs })
  perform (false ∷ fs) e effect d = (ok tt, effect (record d { faults = fs }))

  -- One system call with the effect `effect`, or the error `e` and no effect.
  unfoldable pub call : E → (Disk D → Disk D) → Exec (Disk D) E Unit
  unfolding perform
  call e effect d = perform d.faults e effect d

module _ {D E A : Type 0} where
  -- `defer os.Remove(path)`: run last, its own error ignored.
  unfoldable pub then_remove : E → String → Exec (Disk D) E A → Exec (Disk D) E A
  then_remove e path m d =
      let (r, d') = m d in let (_, d'') = call e (remove_file path) d' in (r, d'')
