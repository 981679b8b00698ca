-- ===== src/PartReader/Tests.antt =====
-- A reader of five bytes, in parts of four.
use nedomi.Prelude.{ℕ, ◌≡◌, ◌++◌, refl, none, some, List, [], ◌∷◌, arith}
use nedomi.PartReader.{Source, new_whole_chunk_read_closer, read, copy_n, read_on, close, read_all}
use nedomi.PartReader.Boundary.{IsAtBoundary, close-IsAtBoundary}

abbrev source : Source ℕ ℕ
source = record { content = 1 ∷ 2 ∷ 3 ∷ 4 ∷ 5 ∷ []; failure = some 7; close_error = none }

abbrev reads : List ℕ
reads = 2 ∷ 1 ∷ []

-- The fourth byte is skipped.
left_over : (close (read_all reads (new_whole_chunk_read_closer source 4)).0).0.content ≡ 5 ∷ []
unfolding close read_on copy_n read_all read new_whole_chunk_read_closer
left_over = refl

close-IsAtBoundary_example :
    ((read_all reads (new_whole_chunk_read_closer source 4)).1
        ++ (read_all reads (new_whole_chunk_read_closer source 4)).0.source.content
      ≡ source.content)
    × IsAtBoundary source 4
        (read_all reads (new_whole_chunk_read_closer source 4)).1
        (close (read_all reads (new_whole_chunk_read_closer source 4)).0)
close-IsAtBoundary_example = close-IsAtBoundary source 4 reads (omega arith) (omega arith)
