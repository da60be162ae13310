-- ===== src/Api/Filesystem/Uploads.antt =====
-- What the size in the answer to an upload says, in internal/api/filesystem.go.
use mathlib.Core.Path.{subst}
use oikos.Common.{
  ℕ, ◌+◌, false, ◌||◌, ◌≡◌, refl, arith, Option, none, some, List, [], ◌∷◌, ◌=?◌, Bool-cases, inl,
  inr, if◌then◌else◌,
}
use oikos.Common.Exec.{Result, ok, err}
use oikos.Common.Tree.{Tree}
use oikos.Filesystem.{FsError, prepare}
use oikos.Api.Filesystem.{
  Status, Received, chunk, broken, Service, Answer, Writer, reading, returned, over_limit, answer,
  result, refuse, send, sent_on, first_read, receive, upload,
}

module _ {D : Type 0} (s : Service D) where
  -- The bytes of the chunks up to the last one.
  abbrev pub sent : List (Received D) → ℕ
  sent [] = 0
  sent (broken ∷ rs) = 0
  sent (chunk c ∷ rs) = let rest = sent rs in s.size c.content + (if c.last then 0 else rest)

  -- An answer with a size says the size that was sent, within the limit.
  abbrev pub Accepts : ℕ → Option (Result Status ℕ) → Type 0
  Accepts total none = Unit
  Accepts total (some (err e)) = Unit
  Accepts total (some (ok n)) = (n ≡ total) × (over_limit s n ≡ false)

  Accepts-answer :
      (total : ℕ) (r : Result FsError Unit × Tree D)
      → over_limit s total ≡ false
      → Accepts total (answer s total r).0
  Accepts-answer total (ok done, t) h = (refl, h)
  Accepts-answer total (err e, t) h = tt

  Accepts-sent_on :
      (total : ℕ) (next : Writer D × Tree D → Answer D) (t : Tree D)
      (taken : Option (Writer D × Tree D))
      → ((w : Writer D × Tree D) → Accepts total (next w).0)
      → Accepts total (sent_on s next t taken).0
  Accepts-sent_on total next t none h = tt
  Accepts-sent_on total next t (some w) h = h w

  Accepts-refuse : (total : ℕ) (w : Writer D × Tree D) → Accepts total (refuse s w).0
  unfolding refuse
  Accepts-refuse total (reading target parts, t) = tt
  Accepts-refuse total (returned r, t) = tt

  Accepts-receive :
      (total : ℕ) (rs : List (Received D)) (w : Writer D × Tree D)
      → over_limit s total ≡ false
      → Accepts (total + sent rs) (receive s total rs w).0
  unfolding receive
  Accepts-receive total [] w h =
      subst (λ n. Accepts n (answer s total (result s w)).0) (omega arith)
        (Accepts-answer total (result s w) h)
  Accepts-receive total (broken ∷ rs) w h = tt
  Accepts-receive total (chunk c ∷ rs) w h =
      let total' = total + s.size c.content in
      let rest = Accepts-receive total' rs in
      elim (Bool-cases (over_limit s total')) [
        | inl over ↦ rw over (Accepts-refuse _ w)
        | inr within ↦ rw within (elim (Bool-cases c.last) [
          | inl last ↦ rw last (
              Accepts-sent_on _ _ w.1 (send s c.content w) λ w'.
                subst (λ n. Accepts n (answer s total' (result s w')).0) (omega arith)
                  (Accepts-answer total' (result s w') within))
          | inr more ↦ rw more (
              Accepts-sent_on _ _ w.1 (send s c.content w) λ w'.
                subst (λ n. Accepts n (receive s total' rs w').0) (omega arith) (rest w' within))
        ])
      ]

  within_zero : over_limit s 0 ≡ false
  within_zero = ground arith

  -- An upload that is answered with a size was of exactly as many bytes, up to the last chunk, and
  -- within the limit, where there is one.
  pub upload-Accepts : (rs : List (Received D)) (t : Tree D) → Accepts (sent rs) (upload s rs t).0
  unfolding upload
  upload-Accepts [] t = tt
  upload-Accepts (broken ∷ rs) t = tt
  upload-Accepts (chunk c ∷ rs) t = elim (Bool-cases (c.server_id =? "" || c.path =? "")) [
    | inl missing ↦ rw missing tt
    | inr named ↦ rw named (
        let w = first_read s (prepare D s.blank s.temporary s.root c.server_id c.path t) in
        subst (λ n. Accepts n (receive s 0 (chunk c ∷ rs) w).0) (omega arith)
          (Accepts-receive 0 (chunk c ∷ rs) w within_zero))
  ]
