-- ===== src/PartWriter/Bytes.antt =====
-- The writer as it takes one byte at a time, an independent description of Write: a full buffer is
-- flushed, a new one is opened at the start of a part, and then the byte is put.
use nedomi.Prelude.{
  ℕ, ◌+◌, ◌%◌, Option, none, some, List, [], ◌∷◌, ◌++◌, ◌==◌, if◌then◌else◌, length,
}
use nedomi.PartWriter.{Zone, PartWriter, Written, flush_buffer}

-- A buffer is opened where there is none and the position is the start of a part.
unfoldable pub open_part : {B : Type 0} → PartWriter B → PartWriter B
open_part pw = elim pw.buf [
  | some _ ↦ pw
  | none ↦ if pw.current_pos % pw.part_size == 0 then record pw { buf = some [] } else pw
]

abbrev pub push : {B : Type 0} → Option (List B) → B → Option (List B)
push none x = none
push (some b) x = some (b ++ x ∷ [])

unfoldable pub put : {B : Type 0} → PartWriter B → B → PartWriter B
put pw x = record pw { current_pos = pw.current_pos + 1; buf = push pw.buf x }

module _ {E B Err : Type 0} (zone : Zone E B Err) where
  -- A full buffer is flushed.
  unfoldable pub make_space : E → PartWriter B → Written E B Err
  make_space e pw = elim pw.buf [
    | none ↦ record { env = e; writer = pw; count = 0; err = none }
    | some b ↦
        if length b == pw.part_size
        then flush_buffer zone e pw
        else record { env = e; writer = pw; count = 0; err = none }
  ]

  unfoldable pub write_bytes : E → PartWriter B → List B → ℕ → Written E B Err
  write_bytes e pw [] n = record { env = e; writer = pw; count = n; err = none }
  write_bytes e pw (x ∷ p) n =
      let r = make_space e pw in
      elim r.err [
        | some err ↦ record r { count = n }
        | none ↦ write_bytes r.env (put (open_part r.writer) x) p (n + 1)
      ]
