-- ===== src/PartWriter.antt =====
-- The writer that cuts an upstream response into parts, handler/cache/part_writer.go.
pub mod Bytes
mod Chunk
pub mod Flush
pub mod Refine
pub mod Content
pub mod Saved
mod Tests
use nedomi.Prelude.{
  ℕ, zero, suc, ◌+◌, ◌-◌, ◌/◌, ◌%◌, ◌^◌, Bool, true, false, Option, none, some, List, [], ◌∷◌, ◌++◌,
  ltb, ◌==◌, if◌then◌else◌, ◌&&◌, not, length, take, drop,
}

-- What the writer calls of the cache zone: the algorithm's ShouldKeep and AddObject and the
-- storage's SavePart, for a part number of the object. `E` is their state.
pub record Zone (E B Err : Type 0) : Type 0 where
  pub should_keep : E → ℕ → E × Bool
  pub save_part : E → ℕ → List B → E × Option Err
  pub add_object : E → ℕ → E × Option Err
  -- whether an error is types.ErrAlreadyInCache
  pub is_already_in_cache : Err → Bool

-- `none` is a nil buffer. The positions are uint64.
pub record PartWriter (B : Type 0) : Type 0 where
  pub part_size : ℕ
  pub start_pos : ℕ
  pub current_pos : ℕ
  pub length : ℕ
  pub obj_size : ℕ
  pub buf : Option (List B)

pub record ContentRange : Type 0 where
  pub start : ℕ
  pub length : ℕ
  pub obj_size : ℕ

-- The error of a writer that was closed too early, or one of the zone.
pub data WriterError (Err : Type 0) : Type 0 where
  short_write : (expected actual : ℕ) → WriterError Err
  failed : Err → WriterError Err

unfoldable pub umin : ℕ → ℕ → ℕ
umin l r = if ltb r l then r else l

-- The bytes of a buffer; a nil buffer has none.
abbrev pub bytes : {B : Type 0} → Option (List B) → List B
bytes none = []
bytes (some b) = b

-- PartWriter
unfoldable pub part_writer : {B : Type 0} → ℕ → ContentRange → PartWriter B
part_writer part_size range = record {
  part_size = part_size;
  start_pos = range.start;
  current_pos = range.start;
  length = range.length;
  obj_size = range.obj_size;
  buf = none;
}

-- The outcome of a call: the zone's state, the writer, the count of bytes and the error.
pub record Written (E B Err : Type 0) : Type 0 where
  pub env : E
  pub writer : PartWriter B
  pub count : ℕ
  pub err : Option Err

module _ {E B Err : Type 0} (zone : Zone E B Err) where
  -- The error of AddObject that flushBuffer returns.
  pub not_already : Option Err → Option Err
  not_already none = none
  not_already (some x) = if zone.is_already_in_cache x then none else some x

  -- The number of the part in the buffer, a uint32.
  unfoldable pub part_of : PartWriter B → ℕ
  part_of pw = (pw.current_pos + 2 ^ 64 - length (bytes pw.buf)) % 2 ^ 64 / pw.part_size % 2 ^ 32

  -- The part of flushBuffer behind its first test.
  unfoldable pub save_buffer : E → PartWriter B → Written E B Err
  save_buffer e pw =
      let part = part_of pw in
      let (e', keep) = zone.should_keep e part in
      let dropped = record pw { buf = none } in
      elim keep [
        | false ↦ record { env = e'; writer = dropped; count = 0; err = none }
        | true ↦
            let (e'', saved) = zone.save_part e' part (bytes pw.buf) in
            elim saved [
              | some x ↦ record { env = e''; writer = pw; count = 0; err = some x }
              | none ↦
                  let (e''', added) = zone.add_object e'' part in
                  record { env = e'''; writer = dropped; count = 0; err = not_already added }
            ]
      ]

  -- flushBuffer
  unfoldable pub flush_buffer : E → PartWriter B → Written E B Err
  flush_buffer e pw =
      if not (pw.current_pos == pw.obj_size) && not (length (bytes pw.buf) == pw.part_size)
      then record { env = e; writer = pw; count = 0; err = none }
      else save_buffer e pw

  -- `pw.currentPos += k`, and the new buffer
  abbrev pub advance : PartWriter B → ℕ → Option (List B) → PartWriter B
  advance pw k b = record pw { current_pos = (pw.current_pos + k) % 2 ^ 64; buf = b }

  -- One round of the loop of Write, for the bytes that remain; `count` is what the round took of
  -- it. The length of `append` is the sum of the lengths, so there is no partial copy.
  unfoldable pub round : E → PartWriter B → List B → Written E B Err
  round e pw p =
      let from_part_start = pw.current_pos % pw.part_size in
      let k = umin (pw.part_size - from_part_start) (length p) in
      elim pw.buf [
        | none ↦
            if from_part_start == 0
            then record { env = e; writer = record pw { buf = some [] }; count = 0; err = none }
            else record { env = e; writer = advance pw k none; count = k; err = none }
        | some b ↦ if length b == pw.part_size then flush_buffer e pw else record {
          env = e;
          writer = advance pw k (some (b ++ take k p));
          count = k;
          err = none;
        }
      ]

  -- Write, with `n` bytes written before. `none`: the fuel did not do.
  unfoldable pub write : ℕ → E → PartWriter B → List B → ℕ → Option (Written E B Err)
  write f e pw [] n = some (record { env = e; writer = pw; count = n; err = none })
  write zero e pw (x ∷ p) n = none
  write (suc f) e pw (x ∷ p) n =
      let r = round e pw (x ∷ p) in
      elim r.err [
        | some err ↦ some (record r { count = n })
        | none ↦ write f r.env r.writer (drop r.count (x ∷ p)) (n + r.count)
      ]

  -- Close
  unfoldable pub close : E → PartWriter B → Written E B (WriterError Err)
  close e pw =
      let actual = (pw.current_pos + 2 ^ 64 - pw.start_pos) % 2 ^ 64 in
      if not (actual == pw.length)
      then record { env = e; writer = pw; count = 0; err = some (short_write pw.length actual) }
      else (elim pw.buf [
        | none ↦ record { env = e; writer = pw; count = 0; err = none }
        | some _ ↦
            let r = flush_buffer e pw in
            record {
              env = r.env;
              writer = r.writer;
              count = 0;
              err = elim r.err [ none ↦ none | some x ↦ some (failed x) ];
            }
      ])
