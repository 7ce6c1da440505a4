-- ===== src/Broker/Frames.antt =====
-- The frames of crates/servicemanager-broker/src/pipe.rs: a length of four bytes, and the body. The calls of the pipe are
-- the parameter.
pub mod RoundTrip
use ngsm.Prelude.{
  ℕ, zero, suc, ◌+◌, ◌-◌, ◌*◌, ◌/◌, ◌%◌, ◌^◌, ◌≤◌, ◌<◌, min, max, String, ◌≡◌, refl, sym, ap, ◌∙◌,
  subst, ◌≢◌, ◌↔◌, ◌⊎◌, inl, inr, Bool, true, false, not, ◌&&◌, ◌||◌, Option, none, some, List, [],
  ◌∷◌, ◌++◌, map, reverse, arith, ltb, leb, ◌==◌, if◌then◌else◌, ==_iff, ==_refl, &&-left, &&-right,
  ||-left, ||-right, Bool-cases, Option-cases, length, length-append, get_elem?, take, drop,
  replicate, any, all, find, retain, span_not, is_some, is_none, get_or, is_some_and,
}
use ngsm.Text.{Text, text}
use ngsm.Text.Decimal.{show}
use ngsm.Result.{Result, ok, err}
use ngsm.Action.{Act, pure, fail, continue, ◌>>=◌, ◌>>◌}

-- `std::io::Error`, with the kinds that the source tests.
pub data IoError : Type 0 where
  unexpected_eof : IoError
  broken_pipe : IoError
  invalid_data : Text → IoError
  other_kind : Text → IoError

-- `read_exact` and `write_all` of a pipe, over the state of the pipe.
pub record PipeIo : Type 1 where
  pub World : Type 0
  pub read_exact : ℕ → Act World IoError (List ℕ)
  pub write_all : List ℕ → Act World IoError (Unit {0})

abbrev pub max_frame_bytes : ℕ
max_frame_bytes = 256 * 1024

-- `u32::to_be_bytes` and `u32::from_be_bytes`
unfoldable pub u32_be_bytes : ℕ → List ℕ
u32_be_bytes v = (v / 16777216 % 256) ∷ (v / 65536 % 256) ∷ (v / 256 % 256) ∷ (v % 256) ∷ []

unfoldable pub from_be_at : ℕ → List ℕ → ℕ
from_be_at high [] = high
from_be_at high (b ∷ bytes) = from_be_at (high * 256 + b) bytes

abbrev pub from_be_bytes : List ℕ → ℕ
from_be_bytes bytes = from_be_at 0 bytes

module _ (io : PipeIo) where
  -- What is read once the length is known.
  unfoldable pub read_body : ℕ → Act io.World IoError (Option (List ℕ))
  unfolding ◌>>=◌
  read_body len =
      if len == 0
      then pure (some [])
      else if ltb max_frame_bytes len
      then fail (invalid_data (text "frame too large: " ++ (show len ++ text " bytes")))
      else do body ← io.read_exact len; pure (some body)

  abbrev pub after_length : Result IoError (List ℕ) → Act io.World IoError (Option (List ℕ))
  after_length (ok len_buf) = read_body (from_be_bytes len_buf)
  after_length (err unexpected_eof) = pure none
  after_length (err broken_pipe) = pure none
  after_length (err (invalid_data message)) = fail (invalid_data message)
  after_length (err (other_kind message)) = fail (other_kind message)

  -- `none` stands for the end of the connection.
  unfoldable pub read_frame : Act io.World IoError (Option (List ℕ))
  read_frame w = let (answer, w') = io.read_exact 4 w in after_length answer w'

  unfoldable pub write_frame : List ℕ → Act io.World IoError (Unit {0})
  unfolding ◌>>=◌
  write_frame body =
      if ltb (length body) (2 ^ 32)
      then (do io.write_all (u32_be_bytes (length body)); io.write_all body)
      else fail (invalid_data (text "response frame is too large"))
