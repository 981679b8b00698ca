-- ===== src/ByteSize/Tests.antt =====
-- Sizes with and without a suffix.
use nedomi.Prelude.{◌≡◌, refl, some, none, [], ◌∷◌, ◌^◌, ◌*◌, ltb, if◌then◌else◌, arith}
use nedomi.Ranges.Strings.{parse_uint, parse_digits}
use nedomi.Disk.Names.{atoi, signed}
use nedomi.ByteSize.{
  bytes_size_from_string, marshal, scaled, size_of, last_of, bytes_size_from_string-marshal,
}

-- `2K`
two_kilo : bytes_size_from_string (50 ∷ 75 ∷ []) ≡ some (2 * 1024)
unfolding bytes_size_from_string scaled size_of last_of atoi signed parse_uint parse_digits
two_kilo = refl

bytes_size_from_string-marshal_example :
    bytes_size_from_string (marshal 4096) ≡ (if ltb 4096 (2 ^ 63) then some 4096 else none)
bytes_size_from_string-marshal_example = bytes_size_from_string-marshal 4096 (omega arith)
