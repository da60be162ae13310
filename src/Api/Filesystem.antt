-- ===== src/Api/Filesystem.antt =====
-- internal/api/filesystem.go: the file service over the file manager. `Upload` gives what it
-- receives through an io.Pipe to a goroutine that runs `Write`. A pipe has no buffer: what is sent on
-- it waits for reads that take all of it, so the handler and the goroutine meet at each read, and
-- are modelled by the sequence of these. The number of bytes stays below 2^63.
pub mod Uploads
pub mod Answered
use oikos.Common.{
  ℕ, ◌+◌, String, Bool, true, false, ◌&&◌, ◌||◌, Option, none, some, List, [], ◌∷◌, ◌++◌, ◌=?◌,
  if◌then◌else◌,
}
use oikos.Common.Int.{ℤ, pos, ltb_ℤ}
use oikos.Common.Exec.{Result, ok, err, Exec, wrap, raise}
use oikos.Common.Paths.{FilePath}
use oikos.Common.Tree.{Tree, OsError, write_to}
use oikos.Filesystem as Files
use oikos.Filesystem.{
  FsError, path_outside_root, not_found, permission, server_not_found, quota_exceeded, cancelled,
  read_failed, os_error, FileInfo, Step, upload_name, prepare, then_remove, publish,
}

-- google.golang.org/grpc/codes, and the error of a stream, which is passed on.
pub data Status : Type 0 where
  permission_denied not_found_code resource_exhausted invalid_argument internal : Status
  stream_error : Status

unfoldable pub map_filesystem_error : FsError → Status
map_filesystem_error path_outside_root = permission_denied
map_filesystem_error permission = permission_denied
map_filesystem_error not_found = not_found_code
map_filesystem_error server_not_found = not_found_code
map_filesystem_error quota_exceeded = resource_exhausted
map_filesystem_error cancelled = internal
map_filesystem_error read_failed = internal
map_filesystem_error (os_error e) = internal

pub record UploadChunk (D : Type 0) : Type 0 where
  pub server_id : String
  pub path : String
  pub content : D
  pub last : Bool

-- The calls with one request and one response. A deletion is not recursive.
module _ (D : Type 0) (root : FilePath) (blank : D) (temporary : String) where
  abbrev pub Call : Type 0 → Type 0
  Call A = Exec (Tree D) Status A

  abbrev mapped : {A : Type 0} → Exec (Tree D) FsError A → Call A
  mapped m t = let (r, t') = m t in (wrap map_filesystem_error r, t')

  unfoldable pub list : String → String → Call (List FileInfo)
  list server path = mapped (Files.list D root server path)

  unfoldable pub delete : String → String → Call Unit
  delete server path = mapped (Files.delete D root server path false)

  unfoldable pub rename : String → String → String → Call Unit
  rename server old new = mapped (Files.move D root server old new)

  unfoldable pub copy : String → String → String → Call Unit
  copy server old new = mapped (Files.copy D blank temporary root server old new)

  unfoldable pub create_dir : String → String → Call Unit
  create_dir server path = mapped (Files.create_dir D root server path)

-- What `Recv` gives, in order; after the list, io.EOF.
pub data Received (D : Type 0) : Type 0 where
  chunk : UploadChunk D → Received D
  broken : Received D

-- The service: the root of the manager, the limit of an upload, and the name of its temporary file.
-- `pieces` is what the reads of io.Copy take of a chunk, one after the other: one at least, as an
-- empty send waits for a read too. `concat` is the content of a file after these writes.
pub record Service (D : Type 0) : Type 0 where
  pub root : FilePath
  pub max_upload : ℤ
  pub blank : D
  pub temporary : String
  pub size : D → ℕ
  pub pieces : D → D × List D
  pub concat : List D → D

-- How a call ends: with an answer, or never.
abbrev pub Answer : Type 0 → Type 0
Answer D = Option (Result Status ℕ) × Tree D

-- The goroutine that runs `Write`: it reads from the pipe, and has written some pieces to the
-- temporary file of the target; or `Write` has returned, and its result waits in `errCh`.
pub data Writer (D : Type 0) : Type 0 where
  reading : FilePath → List D → Writer D
  returned : Result FsError Unit → Writer D

module _ {D : Type 0} (s : Service D) where
  abbrev pub over_limit : ℕ → Bool
  over_limit total = ltb_ℤ (pos 0) s.max_upload && ltb_ℤ s.max_upload (pos total)

  abbrev pub name_for : FilePath → FilePath
  name_for target = upload_name D s.blank s.temporary target

  -- `Write` up to its first read.
  abbrev pub first_read : Result FsError FilePath × Tree D → Writer D × Tree D
  first_read (ok target, t) = (reading target [], t)
  first_read (err e, t) = (returned (err e), t)

  -- The rest of `Write` after its copy, with the deferred removal.
  abbrev pub leave : FilePath → Step D Unit → Tree D → Result FsError Unit × Tree D
  leave target rest t = then_remove D (name_for target) rest t

  abbrev pub returning : Result FsError Unit × Tree D → Writer D × Tree D
  returning (r, t) = (returned r, t)

  -- A piece that was read is written to the temporary file; if that fails, `Write` returns, and
  -- leaves the pipe open.
  abbrev pub wrote : FilePath → List D → Result OsError Unit × Tree D → Writer D × Tree D
  wrote target parts (ok done, t) = (reading target parts, t)
  wrote target parts (err e, t) = returning (leave target (raise (os_error e)) t)

  -- A read of the goroutine; none if it reads no more.
  unfoldable pub take_piece : D → Writer D × Tree D → Option (Writer D × Tree D)
  take_piece d (returned r, t) = none
  take_piece d (reading target parts, t) =
      some
        (wrote target (parts ++ d ∷ []) (write_to (name_for target) (s.concat (parts ++ d ∷ [])) t))

  abbrev pub then_pieces :
      (Writer D × Tree D → Option (Writer D × Tree D))
      → Option (Writer D × Tree D)
      → Option (Writer D × Tree D)
  then_pieces rest none = none
  then_pieces rest (some w) = rest w

  -- The pieces of a chunk, taken one after the other.
  unfoldable pub take_pieces : List D → Writer D × Tree D → Option (Writer D × Tree D)
  take_pieces [] w = some w
  take_pieces (d ∷ ds) w = then_pieces (take_pieces ds) (take_piece d w)

  -- `writer.Write` returns when the chunk is taken, if it ever is. Its error is that of a closed
  -- reader, and only the handler closes the reader.
  unfoldable pub send : D → Writer D × Tree D → Option (Writer D × Tree D)
  send d w = take_pieces ((s.pieces d).0 ∷ (s.pieces d).1) w

  -- The result of `Write`, once the pipe is closed by the handler.
  unfoldable pub result : Writer D × Tree D → Result FsError Unit × Tree D
  result (returned r, t) = (r, t)
  result (reading target parts, t) = leave target (publish D (name_for target) target) t

  abbrev pub answer : ℕ → Result FsError Unit × Tree D → Answer D
  answer total (ok done, t) = (some (ok total), t)
  answer total (err e, t) = (some (err (map_filesystem_error e)), t)

  -- The reader is closed with an error, on which a copy ends.
  unfoldable pub refuse : Writer D × Tree D → Answer D
  refuse (returned r, t) = (some (err resource_exhausted), t)
  refuse (reading target parts, t) =
      (some (err resource_exhausted), (leave target (raise quota_exceeded) t).1)

  -- After `writer.Write`: without it there is no answer.
  abbrev pub sent_on :
      (Writer D × Tree D → Answer D) → Tree D → Option (Writer D × Tree D) → Answer D
  sent_on next t none = (none, t)
  sent_on next t (some w) = next w

  -- The loop from `total` on, with the bytes so far. If the stream breaks, the pipe is left open,
  -- and `Write` waits with its temporary file.
  unfoldable pub receive : ℕ → List (Received D) → Writer D × Tree D → Answer D
  receive total [] w = answer total (result w)
  receive total (broken ∷ rs) w = (some (err stream_error), w.1)
  receive total (chunk c ∷ rs) w =
      let total' = total + s.size c.content in
      let rest = receive total' rs in
      if over_limit total'
      then refuse w
      else sent_on (λ w'. if c.last then answer total' (result w') else rest w') w.1
          (send c.content w)

  unfoldable pub upload : List (Received D) → Tree D → Answer D
  upload [] t = (some (err invalid_argument), t)
  upload (broken ∷ rs) t = (some (err stream_error), t)
  upload (chunk c ∷ rs) t =
      if c.server_id =? "" || c.path =? ""
      then (some (err invalid_argument), t)
      else receive 0 (chunk c ∷ rs)
          (first_read (prepare D s.blank s.temporary s.root c.server_id c.path t))
