-- ===== src/Tunnel/Config/Laws.antt =====
-- `WriteConfigAtomic` of internal/tunnel/config.go: the files after it, whichever call fails.
use oikos.Common.{
  String, ◌≡◌, ◌≢◌, refl, [], ◌∙◌, Option, some, arith, ◌=?◌, =?_refl, ne→=?_false, eq_iff, lookup,
  delete, lookup-put, lookup-delete, if◌then◌else◌, Bool-cases, inl, inr,
}
use oikos.Common.Exec.{Result, ok, err, ◌>>=◌}
use oikos.Common.Disk.{Disk, content, call, then_remove, write_file, rename_file}
use oikos.Common.Triples.{Outcome}
use oikos.Common.Disk.Triples.{Files, OnFiles, OnFiles-call, OnFiles-bind, OnFiles-then_remove}
use oikos.Tunnel.{file_error}
use oikos.Tunnel.Config.{fill, write_config_atomic}

-- What the file `j` holds after an attempt to write `bytes` to `path`.
abbrev pub written : {D E A : Type 0} → Result E A → String → D → String → Option D → Option D
written (ok a) path bytes j old = if path =? j then some bytes else old
written (err e) path bytes j old = old

module _ {D : Type 0} (blank bytes : D) (tmp path j : String) (old : Option D)
    (apart : j ≢ tmp) where
  abbrev Before : Files D → Type 0
  Before fs = lookup j fs ≡ old

  abbrev Filled : Files D → Type 0
  Filled fs = (lookup j fs ≡ old) × (lookup tmp fs ≡ some bytes)

  abbrev After : Files D → Type 0
  After fs = lookup j fs ≡ (if path =? j then some bytes else old)

  idle : (P : Files D → Type 0) → OnFiles P P P (call {D = D} file_error (λ d. d))
  idle P = OnFiles-call P P P file_error (λ d. d) (λ d p. p) (λ fs p. p)

  fill-write : OnFiles Before Filled Before (call {D = D} file_error (write_file tmp bytes))
  fill-write =
      OnFiles-call Before Filled Before file_error (write_file tmp bytes)
        (λ d p. (
          ground (arith, p, lookup-put tmp j bytes d.files, eq_iff tmp j),
          ground (arith, lookup-put tmp tmp bytes d.files, eq_iff tmp tmp),
        ))
        (λ fs p. p)

  idle-Filled : OnFiles Filled Filled Before (call {D = D} file_error (λ d. d))
  idle-Filled = OnFiles-call Filled Filled Before file_error (λ d. d) (λ d p. p) (λ fs p. p.0)

  fill-rename : OnFiles Filled After Before (call {D = D} file_error (rename_file tmp path))
  fill-rename =
      OnFiles-call Filled After Before file_error (rename_file tmp path)
        (λ d p. ground (
          arith,
          p.0,
          p.1,
          lookup-put path j bytes (delete tmp d.files),
          lookup-delete tmp j d.files,
          eq_iff tmp j,
          eq_iff path j,
        ))
        (λ fs p. p.0)

  fill-Triple : OnFiles Before After Before (fill blank tmp path bytes)
  unfolding fill
  fill-Triple = OnFiles-bind Before Before After Before _ _ (idle Before) λ _.
      OnFiles-bind Before Filled After Before _ _ fill-write λ _.
        OnFiles-bind Filled Filled After Before _ _ idle-Filled
          λ _. OnFiles-bind Filled Filled After Before _ _ idle-Filled λ _. fill-rename

  lookup-delete_tmp : (d : Disk D) → lookup j (delete tmp d.files) ≡ lookup j d.files
  lookup-delete_tmp d = ground (arith, lookup-delete tmp j d.files, eq_iff tmp j)

  temporary-Triple : OnFiles Before Before Before (call {D = D} file_error (write_file tmp blank))
  temporary-Triple =
      OnFiles-call Before Before Before file_error (write_file tmp blank)
        (λ d p. ground (arith, p, lookup-put tmp j blank d.files, eq_iff tmp j)) (λ fs p. p)

  write-Triple : OnFiles Before After Before (write_config_atomic blank tmp path bytes)
  unfolding write_config_atomic
  write-Triple = elim (Bool-cases (path =? "")) [
    | inl empty ↦ rw empty (record { at = λ d p. p })
    | inr named ↦ rw named (
        OnFiles-bind Before Before After Before _ _ (idle Before) λ _.
          OnFiles-bind Before Before After Before _ _ temporary-Triple λ _.
            OnFiles-then_remove Before After Before file_error tmp _ fill-Triple
              (λ d p. lookup-delete_tmp d ∙ p) (λ d p. lookup-delete_tmp d ∙ p))
  ]

Outcome-written :
    {D E A : Type 0} (r : Result E A) (d : Disk D) (path j : String) (bytes : D) (old : Option D)
    → Outcome
        (λ a d. content d j ≡ (if path =? j then some bytes else old))
        (λ e d. content d j ≡ old)
        r
        d
    → content d j ≡ written r path bytes j old
Outcome-written (ok a) d path j bytes old h = h
Outcome-written (err e) d path j bytes old h = h

write-calm :
    {D : Type 0} (blank bytes : D) (tmp path : String) (d : Disk D)
    → d.faults ≡ []
    → path ≢ ""
    → (write_config_atomic blank tmp path bytes d).0 ≡ ok tt
unfolding write_config_atomic ◌>>=◌ call then_remove
write-calm blank bytes tmp path d calm named = rw (ne→=?_false path "" named, calm) refl

-- Whichever system calls fail, every file but the temporary one is afterwards what it was, except
-- that the target holds exactly the new contents if, and only if, the write reports success.
pub write_config_atomic-content :
    {D : Type 0} (blank bytes : D) (tmp path j : String) (d : Disk D)
    → j ≢ tmp
    → content (write_config_atomic blank tmp path bytes d).1 j
      ≡ written (write_config_atomic blank tmp path bytes d).0 path bytes j (content d j)
write_config_atomic-content blank bytes tmp path j d apart =
    Outcome-written (write_config_atomic blank tmp path bytes d).0
      (write_config_atomic blank tmp path bytes d).1 path j bytes (content d j)
      ((write-Triple blank bytes tmp path j (content d j) apart).at d refl)

-- A write to a path that is neither empty nor the temporary one reports success if no system call
-- fails, and the file then holds the new contents.
pub write_config_atomic-calm :
    {D : Type 0} (blank bytes : D) (tmp path : String) (d : Disk D)
    → d.faults ≡ []
    → path ≢ ""
    → path ≢ tmp
    → ((write_config_atomic blank tmp path bytes d).0 ≡ ok tt)
      × (content (write_config_atomic blank tmp path bytes d).1 path ≡ some bytes)
write_config_atomic-calm blank bytes tmp path d calm named apart =
    let done = write-calm blank bytes tmp path d calm named in
    (
      done,
      write_config_atomic-content blank bytes tmp path path d apart ∙ rw (done, =?_refl path) refl,
    )
