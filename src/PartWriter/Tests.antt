-- ===== src/PartWriter/Tests.antt =====
-- A zone that keeps every part in a list, and an object of five bytes in parts of two.
use nedomi.Prelude.{ℕ, ◌≡◌, refl, true, false, none, some, List, [], ◌∷◌, arith}
use nedomi.PartWriter.{Zone, PartWriter, Written, part_writer, write, close}
use nedomi.PartWriter.Bytes.{write_bytes}
use nedomi.PartWriter.Refine.{write-write_bytes}
use nedomi.PartWriter.Content.{IsKept, piece}
use nedomi.PartWriter.Saved.{write-close_kept}

abbrev Log : Type 0
Log = List (ℕ × List ℕ)

abbrev zone : Zone Log ℕ Unit
zone = record {
  should_keep = λ e i. (e, true);
  save_part = λ e i b. ((i, b) ∷ e, none);
  add_object = λ e i. (e, none);
  is_already_in_cache = λ _. false;
}

abbrev object : List ℕ
object = 10 ∷ 11 ∷ 12 ∷ 13 ∷ 14 ∷ []

-- The saved parts are pieces of the object.
abbrev Pieces : Log → Type 0
Pieces [] = Unit
Pieces ((i, b) ∷ e) = (b ≡ piece zone 2 object i) × Pieces e

kept : IsKept zone 2 object Pieces
kept = record { asked = λ e i v. v; added = λ e i v. v; saved = λ e i v. (refl, v) }

abbrev writer : PartWriter ℕ
writer = record {
  part_size = 2;
  start_pos = 1;
  current_pos = 1;
  length = 4;
  obj_size = 5;
  buf = none;
}

write-close_kept_example :
    (r : Written Log ℕ Unit) × (write zone 14 []
        (part_writer 2 (record { start = 1; length = 4; obj_size = 5 }))
        (11 ∷ 12 ∷ 13 ∷ 14 ∷ [])
        0
      ≡ some r)
    × Pieces r.env
    × (r.err ≡ none → Pieces (close zone r.env r.writer).env)
write-close_kept_example =
    write-close_kept zone 2 object Pieces kept (omega arith) (omega arith) (omega arith) 1
      (11 ∷ 12 ∷ 13 ∷ 14 ∷ []) [] 4 [] 14 refl (omega arith) (omega arith) tt

write-write_bytes_example :
    write zone 14 [] writer (11 ∷ 12 ∷ 13 ∷ 14 ∷ []) 0
    ≡ some (write_bytes zone [] writer (11 ∷ 12 ∷ 13 ∷ 14 ∷ []) 0)
write-write_bytes_example =
    write-write_bytes zone 14 [] writer (11 ∷ 12 ∷ 13 ∷ 14 ∷ []) 0
      (record { sized = omega arith; begins = tt }) (omega arith) (omega arith)
