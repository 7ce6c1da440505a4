-- ===== src/Broker/Frames/RoundTrip.antt =====
-- What one side of the pipe of crates/servicemanager-broker/src/pipe.rs writes as a frame, the other side reads.
use mathlib.Core.List.{append_assoc}
use ngsm.Prelude.{
  ℕ, ◌^◌, ◌≤◌, ◌<◌, ◌≡◌, refl, ◌∙◌, inl, inr, false, some, List, [], ◌∷◌, ◌++◌, arith, ltb, ◌==◌,
  Bool-cases, length,
}
use ngsm.Result.{Result, ok, err}
use ngsm.Action.{continue, ◌>>=◌}
use ngsm.Broker.Frames.{
  IoError, PipeIo, max_frame_bytes, u32_be_bytes, from_be_at, from_be_bytes, read_body, read_frame,
  write_frame,
}

-- What is relied on: `read_exact` takes the next bytes when that many have arrived, and `write_all` that returns has
-- appended its bytes.
pub record PipeLaws (io : PipeIo) : Type 0 where
  pub unread : io.World → List ℕ
  pub written : io.World → List ℕ
  pub read_exact-arrived :
      (bytes rest : List ℕ) (w : io.World)
      → unread w ≡ bytes ++ rest
      → ((io.read_exact (length bytes) w).0 ≡ ok bytes)
        × (unread (io.read_exact (length bytes) w).1 ≡ rest)
  pub write_all-written :
      (bytes : List ℕ) (w : io.World)
      → (io.write_all bytes w).0 ≡ ok tt
      → written (io.write_all bytes w).1 ≡ written w ++ bytes

from_be_bytes-u32_be_bytes : (v : ℕ) → v < 2 ^ 32 → from_be_bytes (u32_be_bytes v) ≡ v
unfolding from_be_at u32_be_bytes
from_be_bytes-u32_be_bytes v h = omega arith

module _ (io : PipeIo) (laws : PipeLaws io) where
  second-written :
      (head body : List ℕ) (before : List ℕ) (r : Result IoError (Unit {0})) (w : io.World)
      → (r ≡ ok tt → laws.written w ≡ before ++ head)
      → (continue (λ _. io.write_all body) r w).0 ≡ ok tt
      → laws.written (continue (λ _. io.write_all body) r w).1 ≡ before ++ (head ++ body)
  unfolding continue
  second-written head body before (ok u) w first h =
      laws.write_all-written body w h ∙ (rw (first refl) (append_assoc before head body))
  second-written head body before (err e) w first h = cc

  write_frame-written :
      (body : List ℕ) (w : io.World)
      → (write_frame io body w).0 ≡ ok tt
      → laws.written (write_frame io body w).1
        ≡ laws.written w ++ (u32_be_bytes (length body) ++ body)
  unfolding write_frame ◌>>=◌ continue
  write_frame-written body w h = elim (Bool-cases (ltb (length body) (2 ^ 32))) [
    | inl short ↦ rw short (
        second-written (u32_be_bytes (length body)) body (laws.written w) _ _
          (laws.write_all-written (u32_be_bytes (length body)) w) (rw short at h))
    | inr long ↦ cc
  ]

  read_body-arrived :
      (body rest : List ℕ) (w : io.World)
      → length body ≤ max_frame_bytes
      → laws.unread w ≡ body ++ rest
      → ((read_body io (length body) w).0 ≡ ok (some body))
        × (laws.unread (read_body io (length body) w).1 ≡ rest)
  unfolding read_body ◌>>=◌ continue
  read_body-arrived [] rest w short arrived = (refl, arrived)
  read_body-arrived (b ∷ body) rest w short arrived =
      let arrives = laws.read_exact-arrived (b ∷ body) rest w arrived in
      rw (nonempty, fits, arrives.0) (refl, arrives.1)
    where
      nonempty : (length (b ∷ body) == 0) ≡ false
      nonempty = ground arith

      fits : ltb max_frame_bytes (length (b ∷ body)) ≡ false
      fits = ground arith

  length-arrived :
      (v : ℕ) (rest : List ℕ) (w : io.World)
      → laws.unread w ≡ u32_be_bytes v ++ rest
      → ((io.read_exact 4 w).0 ≡ ok (u32_be_bytes v)) × (laws.unread (io.read_exact 4 w).1 ≡ rest)
  unfolding u32_be_bytes
  length-arrived v rest w arrived = laws.read_exact-arrived (u32_be_bytes v) rest w arrived

  -- When `write_frame` returns on one side, a body of at most 256 KiB is what `read_frame` returns on the other side once the
  -- bytes have arrived there, and the bytes behind the frame are left, so that the next frame is read from its start.
  pub read_frame-write_frame :
      (body rest : List ℕ) (writer reader : io.World)
      → length body ≤ max_frame_bytes
      → laws.written writer ≡ []
      → (write_frame io body writer).0 ≡ ok tt
      → laws.unread reader ≡ laws.written (write_frame io body writer).1 ++ rest
      → ((read_frame io reader).0 ≡ ok (some body)) × (laws.unread (read_frame io reader).1 ≡ rest)
  unfolding read_frame
  read_frame-write_frame body rest writer reader short empty sent arrived =
      let header = length-arrived (length body) (body ++ rest) reader bytes in
      rw (header.0, from_be_bytes-u32_be_bytes (length body) (omega arith))
        (read_body-arrived body rest (io.read_exact 4 reader).1 short header.1)
    where
      bytes : laws.unread reader ≡ u32_be_bytes (length body) ++ (body ++ rest)
      bytes =
          arrived
          ∙ rw (write_frame-written body writer sent, empty)
              (append_assoc (u32_be_bytes (length body)) body rest)
