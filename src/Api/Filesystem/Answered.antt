-- ===== src/Api/Filesystem/Answered.antt =====
-- Which uploads of internal/api/filesystem.go are answered.
use mathlib.Core.Path.{subst}
use oikos.Common.{
  ℕ, ◌+◌, Bool, true, false, ◌||◌, ◌≡◌, refl, Option, none, some, List, [], ◌∷◌, ◌++◌, ◌=?◌, arith,
  Bool-cases, inl, inr,
}
use oikos.Common.Exec.{Result, ok, err}
use oikos.Common.Paths.{FilePath}
use oikos.Common.Tree.{Tree}
use oikos.Common.Tree.Lookups.{write_to-calm}
use oikos.Store.Servers.{is_some}
use oikos.Filesystem.{FsError, prepare}
use oikos.Api.Filesystem.{
  UploadChunk, Received, chunk, broken, Service, Answer, Writer, reading, returned, over_limit,
  answer, result, refuse, take_piece, take_pieces, then_pieces, send, sent_on, name_for, first_read,
  receive, upload,
}

abbrev pub is_ok : {E A : Type 0} → Result E A → Bool
is_ok (ok a) = true
is_ok (err e) = false

module _ {D : Type 0} (s : Service D) where
  -- `Write` still reads, and no system call is to fail.
  abbrev Reads : Writer D × Tree D → Type 0
  Reads (reading target parts, t) = t.faults ≡ []
  Reads (returned r, t) = ⊥

  abbrev Taken : Option (Writer D × Tree D) → Type 0
  Taken none = ⊥
  Taken (some w) = Reads w

  Taken-take_piece : (d : D) (w : Writer D × Tree D) → Reads w → Taken (take_piece s d w)
  unfolding take_piece
  Taken-take_piece d (reading target parts, t) calm =
      rw (write_to-calm (name_for s target) (s.concat (parts ++ d ∷ [])) t calm) calm
  Taken-take_piece d (returned r, t) h = absurd h

  Taken-then_pieces :
      (rest : Writer D × Tree D → Option (Writer D × Tree D)) (taken : Option (Writer D × Tree D))
      → ((w : Writer D × Tree D) → Reads w → Taken (rest w))
      → Taken taken
      → Taken (then_pieces s rest taken)
  Taken-then_pieces rest none h k = absurd k
  Taken-then_pieces rest (some w) h k = h w k

  Taken-take_pieces : (ds : List D) (w : Writer D × Tree D) → Reads w → Taken (take_pieces s ds w)
  unfolding take_pieces
  Taken-take_pieces [] w h = h
  Taken-take_pieces (d ∷ ds) w h =
      Taken-then_pieces (take_pieces s ds) (take_piece s d w) (Taken-take_pieces ds)
        (Taken-take_piece d w h)

  Taken-send : (d : D) (w : Writer D × Tree D) → Reads w → Taken (send s d w)
  unfolding send
  Taken-send d w h = Taken-take_pieces ((s.pieces d).0 ∷ (s.pieces d).1) w h

  answered : (total : ℕ) (r : Result FsError Unit × Tree D) → is_some (answer s total r).0 ≡ true
  answered total (ok done, t) = refl
  answered total (err e, t) = refl

  refused : (w : Writer D × Tree D) → is_some (refuse s w).0 ≡ true
  unfolding refuse
  refused (reading target parts, t) = refl
  refused (returned r, t) = refl

  goes_on :
      (next : Writer D × Tree D → Answer D) (t : Tree D) (taken : Option (Writer D × Tree D))
      → ((w : Writer D × Tree D) → Reads w → is_some (next w).0 ≡ true)
      → Taken taken
      → is_some (sent_on s next t taken).0 ≡ true
  goes_on next t none h k = absurd k
  goes_on next t (some w) h k = h w k

  receive-answered :
      (rs : List (Received D)) (total : ℕ) (w : Writer D × Tree D)
      → Reads w
      → is_some (receive s total rs w).0 ≡ true
  unfolding receive
  receive-answered [] total w h = answered total (result s w)
  receive-answered (broken ∷ rs) total w h = refl
  receive-answered (chunk c ∷ rs) total w h =
      let total' = total + s.size c.content in
      let rest = receive-answered rs total' in
      elim (Bool-cases (over_limit s total')) [
        | inl over ↦ rw over (refused w)
        | inr within ↦ rw within (
            goes_on _ w.1 (send s c.content w)
              (λ w' k. elim (Bool-cases c.last) [
                | inl last ↦ rw last (answered total' (result s w'))
                | inr more ↦ rw more (rest w' k)
              ])
              (Taken-send c.content w h))
      ]

  -- A chunk within the limit is sent to a goroutine that reads no more.
  receive-unread :
      (c : UploadChunk D) (rs : List (Received D)) (r : Result FsError Unit) (t : Tree D)
      → over_limit s (s.size c.content) ≡ false
      → (receive s 0 (chunk c ∷ rs) (returned r, t)).0 ≡ none
  unfolding receive send take_pieces take_piece
  receive-unread c rs r t within =
      let total : over_limit s (0 + s.size c.content) ≡ false =
        subst (λ n. over_limit s n ≡ false) (omega arith) within in
      rw total refl

  -- An upload whose first chunk names a server and a path and is within the limit, and that meets no
  -- failing system call once the manager has refused the path or made the temporary file, is
  -- answered, whatever is sent after that chunk, exactly if the manager made that file: otherwise the
  -- handler waits forever for its chunk to be read.
  pub upload-answered :
      (c : UploadChunk D) (rs : List (Received D)) (t : Tree D)
      → (c.server_id =? "" || c.path =? "") ≡ false
      → over_limit s (s.size c.content) ≡ false
      → (prepare D s.blank s.temporary s.root c.server_id c.path t).1.faults ≡ []
      → is_some (upload s (chunk c ∷ rs) t).0
        ≡ is_ok (prepare D s.blank s.temporary s.root c.server_id c.path t).0
  unfolding upload
  upload-answered c rs t named within calm =
      rw named (begun (prepare D s.blank s.temporary s.root c.server_id c.path t) calm)
    where
      begun :
          (r : Result FsError FilePath × Tree D)
          → r.1.faults ≡ []
          → is_some (receive s 0 (chunk c ∷ rs) (first_read s r)).0 ≡ is_ok r.0
      begun (ok target, t') h = receive-answered (chunk c ∷ rs) 0 (reading target [], t') h
      begun (err e, t') h = rw (receive-unread c rs (err e) t' within) refl
