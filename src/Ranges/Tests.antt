-- ===== src/Ranges/Tests.antt =====
-- Headers written out as code points.
use nedomi.Prelude.{◌≡◌, ◌<◌, refl, some, [], ◌∷◌, ◌++◌, length}
use nedomi.ContainerList.Laws.{All}
use nedomi.Ranges.{
  parse_all, parse_one, parse_req_byte_range, range_from, parse_response_content_range,
  content_range, parsed, parse_request_range, get_response_range, request_prefix, response_prefix,
}
use nedomi.Ranges.Strings.{
  parse_uint, parse_digits, split, split_pieces, cut, trim_space, trim_left, after_prefix, Text,
}
use nedomi.Ranges.Bounds.{
  IsWithin, Yields, IsInside, parse_request_range-IsWithin, get_response_range-IsInside,
}

-- `bytes=2-4`
abbrev requested : Text
requested = request_prefix ++ 50 ∷ 45 ∷ 52 ∷ []

parse_request_range-IsWithin_example :
    Yields (λ l. (0 < length l) × All (IsWithin 10) l) (parse_request_range requested 10)
parse_request_range-IsWithin_example = parse_request_range-IsWithin requested 10 refl

-- `bytes 2-4/9`
abbrev responded : Text
responded = response_prefix ++ 50 ∷ 45 ∷ 52 ∷ 47 ∷ 57 ∷ []

get_response_range-IsInside_example : Yields IsInside (get_response_range 206 responded [])
get_response_range-IsInside_example = get_response_range-IsInside 206 responded []

whole_header : parse_request_range requested 10 ≡ parsed (record { start = 2; length = 3 } ∷ [])
unfolding parse_request_range parse_all parse_one parse_req_byte_range range_from parse_uint
    parse_digits split split_pieces cut trim_space trim_left after_prefix
whole_header = refl

whole_response :
    get_response_range 206 responded []
    ≡ parsed (some (record { start = 2; length = 3; obj_size = 9 }))
unfolding get_response_range parse_response_content_range content_range parse_uint parse_digits cut
    trim_space trim_left after_prefix
whole_response = refl
