-- ===== src/Examples/Rotations.antt =====
-- Rotations on a file system whose world is the content of each path.
use ngsm.Prelude.{
  ℕ, ◌≡◌, refl, true, false, Option, none, some, List, [], ◌∷◌, if◌then◌else◌, length,
}
use ngsm.Text.{Text, text_eq}
use ngsm.Text.Laws.{text_eq_refl}
use ngsm.Result.{ok}
use ngsm.Supervisor.Rotation.{RotationIo, RotationState, rotate}
use ngsm.Supervisor.Rotation.Laws.{RotationLaws}
use ngsm.Supervisor.Rotation.Archived.{Rotated, rotate-Rotated}

abbrev Files : Type 0
Files = Text → Option (List ℕ)

abbrev stored_at : Text → Option (List ℕ) → Files → Files
stored_at p v w q = if text_eq q p then v else w q

abbrev opened : Option (List ℕ) → Option (List ℕ)
opened none = some []
opened (some bytes) = some bytes

abbrev disk : RotationIo
disk = record {
  World = Files;
  File = ℕ;
  sync_all = λ f w. (ok tt, w);
  rename = λ from to w. (ok tt, stored_at to (w from) (stored_at from none w));
  copy_archive = λ from to w. (ok tt, stored_at to (w from) w);
  truncate = λ path stream w. (ok tt, stored_at path (some []) w);
  reopen = λ path stream w. (ok 8, stored_at path (opened (w path)) w);
  file_len = λ f w. (ok 0, w);
  write = λ f bytes w. (ok (length bytes), w);
  cancelled = λ w. (false, w);
  now = λ w. (0, w);
}

stored_at_same : (p : Text) (v : Option (List ℕ)) (w : Files) → stored_at p v w p ≡ v
stored_at_same p v w = rw (text_eq_refl p) refl

stored_at_other :
    (p q : Text) (v : Option (List ℕ)) (w : Files) → text_eq q p ≡ false → stored_at p v w q ≡ w q
stored_at_other p q v w apart = rw apart refl

abbrev disk_laws : RotationLaws disk
disk_laws = record {
  Apart = λ p q. text_eq q p ≡ false;
  content = λ w p. w p;
  sync_quiet = λ f p w. refl;
  rename_moves = λ from to w h. stored_at_same to (w from) (stored_at from none w);
  copy_copies = λ from to w h. stored_at_same to (w from) w;
  truncate_elsewhere = λ p q stream w apart. stored_at_other p q _ w apart;
  reopen_elsewhere = λ p q stream w apart. stored_at_other p q _ w apart;
  len_quiet = λ f p w. refl;
  cancelled_quiet = λ p w. refl;
  now_quiet = λ p w. refl;
}

-- The log holds three bytes.
abbrev before : Files
before = stored_at (108 ∷ []) (some (1 ∷ 2 ∷ 3 ∷ [])) (λ p. none)

abbrev sink : RotationState disk
sink = record {
  world = before;
  path = 108 ∷ [];
  file = some 7;
  bytes_in_current = 4096;
  opened_at = 0;
  config = record {
    enabled = some true;
    online = some 1;
    seconds = none;
    bytes = some 4096;
    delay_ms = none;
  };
  stream = record {
    path = 108 ∷ [];
    share_mode = none;
    creation_disposition = none;
    flags_and_attributes = none;
    copy_and_truncate = none;
  };
}

names_apart : text_eq (97 ∷ []) (108 ∷ []) ≡ false
unfolding text_eq
names_apart = refl

rotate-Rotated_example :
    Rotated disk disk_laws
      (108 ∷ [])
      (97 ∷ [])
      sink.stream
      (before (108 ∷ []))
      names_apart
      (some 7)
      (rotate disk (97 ∷ []) sink)
rotate-Rotated_example = rotate-Rotated disk disk_laws (97 ∷ []) sink names_apart
