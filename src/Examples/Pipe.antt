-- ===== src/Examples/Pipe.antt =====
-- A pipe for the theorems on the frames of crates/servicemanager-broker, with a proof that it has the assumed laws: the
-- bytes that have arrived, and those that were written.
use ngsm.Prelude.{
  ℕ, ◌≡◌, refl, ap, false, some, List, [], ◌∷◌, ◌++◌, arith, ltb, if◌then◌else◌, length,
  length-append, take, drop,
}
use ngsm.Result.{ok, err}
use ngsm.Action.{Act, continue, ◌>>=◌}
use ngsm.Broker.Frames.{IoError, unexpected_eof, PipeIo, read_frame, write_frame, u32_be_bytes}
use ngsm.Broker.Frames.RoundTrip.{PipeLaws, read_frame-write_frame}

record Pipe : Type 0 where
  arrived : List ℕ
  sent : List ℕ

abbrev pipe_read : ℕ → Act Pipe IoError (List ℕ)
pipe_read n p =
    if ltb (length p.arrived) n
    then (err unexpected_eof, record p { arrived = [] })
    else (ok (take n p.arrived), record p { arrived = drop n p.arrived })

abbrev pipe : PipeIo
pipe = record {
  World = Pipe;
  read_exact = pipe_read;
  write_all = λ bytes p. (ok tt, record p { sent = p.sent ++ bytes });
}

take-append : (xs ys : List ℕ) → take (length xs) (xs ++ ys) ≡ xs
take-append [] ys = refl
take-append (x ∷ xs) ys = ap (λ zs. x ∷ zs) (take-append xs ys)

drop-append : (xs ys : List ℕ) → drop (length xs) (xs ++ ys) ≡ ys
drop-append [] ys = refl
drop-append (x ∷ xs) ys = drop-append xs ys

pipe_read-arrived :
    (bytes rest : List ℕ) (p : Pipe)
    → p.arrived ≡ bytes ++ rest
    → ((pipe_read (length bytes) p).0 ≡ ok bytes) × ((pipe_read (length bytes) p).1.arrived ≡ rest)
pipe_read-arrived bytes rest p arrived =
    rw (arrived, enough, take-append bytes rest, drop-append bytes rest) (refl, refl)
  where
    enough : ltb (length (bytes ++ rest)) (length bytes) ≡ false
    enough = rw (length-append bytes rest) (ground arith)

abbrev pipe_laws : PipeLaws pipe
pipe_laws = record {
  unread = λ p. p.arrived;
  written = λ p. p.sent;
  read_exact-arrived = pipe_read-arrived;
  write_all-written = λ bytes p h. refl;
}

abbrev writer : Pipe
writer = record { arrived = []; sent = [] }

abbrev reader : Pipe
reader = record { arrived = 0 ∷ 0 ∷ 0 ∷ 2 ∷ 123 ∷ 125 ∷ 0 ∷ []; sent = [] }

two_bytes : (write_frame pipe (123 ∷ 125 ∷ []) writer).0 ≡ ok tt
unfolding write_frame ◌>>=◌ continue
two_bytes = refl

on_the_way : reader.arrived ≡ (write_frame pipe (123 ∷ 125 ∷ []) writer).1.sent ++ 0 ∷ []
unfolding write_frame ◌>>=◌ continue u32_be_bytes
on_the_way = refl

read_frame-write_frame_example :
    ((read_frame pipe reader).0 ≡ ok (some (123 ∷ 125 ∷ [])))
    × ((read_frame pipe reader).1.arrived ≡ 0 ∷ [])
read_frame-write_frame_example =
    read_frame-write_frame pipe pipe_laws (123 ∷ 125 ∷ []) (0 ∷ []) writer reader (omega arith) refl
      two_bytes on_the_way
