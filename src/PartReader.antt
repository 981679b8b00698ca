-- ===== src/PartReader.antt =====
-- The reader of a reply that is read on to the end of a part, handler/cache/part_reader.go.
pub mod Boundary
mod Tests
use nedomi.Prelude.{
  ℕ, zero, suc, ◌+◌, ◌-◌, ◌*◌, ◌/◌, ◌%◌, ◌^◌, ◌≤◌, ◌<◌, ◌≡◌, refl, ap, sym, ◌∙◌, Bool, true, false,
  Option, none, some, List, [], ◌∷◌, ◌++◌, ltb, ◌==◌, if◌then◌else◌, length, take, drop, arith,
  Bool-cases, inl, inr, length-append, take-append-drop, append_assoc, append-nil,
}
use native.Mathlib.Nat.{mod-eq_of_lt, mod-lt, div-add-mod', add-mul}
use nedomi.Writers.{new_composite_error}

-- An io.ReadCloser: the bytes it still delivers, the error after them, where `none` is io.EOF, and
-- what its Close returns.
pub record Source (B Err : Type 0) : Type 0 where
  pub content : List B
  pub failure : Option Err
  pub close_error : Option Err

-- partReadCloser. The count is an int in the source, as the number here as long as it is below 2^64.
pub record PartReadCloser (B Err : Type 0) : Type 0 where
  pub source : Source B Err
  pub part_size : ℕ
  pub read_so_far : ℕ

module _ {B Err : Type 0} where
  -- newWholeChunkReadCloser
  unfoldable pub new_whole_chunk_read_closer : Source B Err → ℕ → PartReadCloser B Err
  new_whole_chunk_read_closer source size = record {
    source = source;
    part_size = size;
    read_so_far = 0;
  }

  -- Read that the source answers with the next `n` bytes, or with all that are left.
  unfoldable pub read : ℕ → PartReadCloser B Err → PartReadCloser B Err × List B
  read n f =
      let b = take n f.source.content in
      (
        record f {
          source = record (f.source) { content = drop n f.source.content };
          read_so_far = f.read_so_far + length b;
        },
        b,
      )

  -- io.CopyN into ioutil.Discard, of `n` bytes; io.EOF is no error for Close. A count that is negative
  -- as an int64 copies nothing.
  unfoldable pub copy_n : Source B Err → ℕ → Source B Err × Option Err
  copy_n s n =
      if ltb n (2 ^ 63)
      then (
        record s { content = drop n s.content },
        if ltb (length s.content) n then s.failure else none,
      )
      else (s, none)

  -- The bytes that Close reads to the end of a part.
  unfoldable pub read_on : PartReadCloser B Err → Source B Err × Option Err
  unfolding copy_n
  read_on f =
      let read_from_current = f.read_so_far % f.part_size in
      if read_from_current == 0
      then (f.source, none)
      else copy_n f.source (f.part_size - read_from_current)

  -- Close
  unfoldable pub close : PartReadCloser B Err → Source B Err × Option (List Err)
  unfolding read_on
  close f =
      let (source, err) = read_on f in (source, new_composite_error (err ∷ source.close_error ∷ []))

  -- Reads one after another, and all they give.
  unfoldable pub read_all : List ℕ → PartReadCloser B Err → PartReadCloser B Err × List B
  unfolding read
  read_all [] f = (f, [])
  read_all (n ∷ ns) f = let (f', b) = read n f in let (f'', bs) = read_all ns f' in (f'', b ++ bs)
