-- ===== src/Handler/Tests.antt =====
-- The caching handler at work on an object of seven bytes.
use nedomi.Prelude.{ℕ, ◌+◌, ◌≡◌, ◌⊎◌, refl, true, false, none, some, [], ◌∷◌, arith}
use mathlib.Core.List.{Memᴰ}
use nedomi.Ranges.{
  parsed, parse_request_range, parse_all, parse_one, parse_req_byte_range, range_from,
}
use nedomi.Ranges.Strings.{
  parse_uint, parse_digits, split, split_pieces, cut, trim_space, trim_left, after_prefix,
}
use nedomi.Headers.{Headers, values, copy_headers_without}
use nedomi.Headers.Names.{get_hop_by_hop_headers, age_name, upgrade_name, content_length_name}
use nedomi.Headers.Laws.{IsMap, or_before, copy_headers_without-values}
use nedomi.Disk.Names.{text_eq}
use nedomi.CacheControl.{Parsers, is_metadata_fresh, cache_satisfies_request}
use nedomi.Respond.Examples.{object, server, server-IsFaithful, server-IsUp}
use nedomi.Handler.{ObjectMetadata, found, Upkeep, Request, handle}
use nedomi.Handler.Body.{IsAnswered, IsKnown, handle-range, handle-full}

abbrev metadata : ObjectMetadata
metadata = record { response_timestamp = 1; code = 200; size = 7; headers = []; expires_at = 9 }

abbrev upkeep : Upkeep ℕ
upkeep = record {
  get_metadata = λ e. (e, found metadata);
  save_metadata = λ e m. (e + 1, true);
  discard = λ e. e;
  add_event = λ e n. e + 1;
  now = λ e. 5;
  now_again = λ e. 6;
  format_time = λ t. [];
}

abbrev parsers : Parsers
parsers = record {
  parse_request_cache_control = λ t. record { no_cache = false; no_store = false };
  parse_response_cache_control = λ t. some (record {
    no_cache_present = false;
    no_store = false;
    private_present = false;
    s_max_age = none;
    max_age = some 60;
  });
  parse_time = λ t. none;
}

-- `bytes=1-5`
abbrev ranged : Request
ranged = record {
  is_head = false;
  headers = [];
  range = 98 ∷ 121 ∷ 116 ∷ 101 ∷ 115 ∷ 61 ∷ 49 ∷ 45 ∷ 53 ∷ [];
  response_headers = [];
}

abbrev full : Request
full = record { is_head = false; headers = []; range = []; response_headers = [] }

one_range : parse_request_range ranged.range 7 ≡ parsed (record { start = 1; length = 5 } ∷ [])
unfolding parse_request_range parse_all parse_one parse_req_byte_range range_from parse_uint
    parse_digits split split_pieces cut trim_space trim_left after_prefix
one_range = refl

ranged-IsKnown : IsKnown upkeep parsers server ranged 2 0 metadata
unfolding is_metadata_fresh cache_satisfies_request
ranged-IsKnown = record {
  stored = refl;
  fresh = refl;
  wanted = refl;
  sized = refl;
  not_head = refl;
}

full-IsKnown : IsKnown upkeep parsers server full 3 0 metadata
unfolding is_metadata_fresh cache_satisfies_request
full-IsKnown = record { stored = refl; fresh = refl; wanted = refl; sized = refl; not_head = refl }

handle-range_example :
    IsAnswered upkeep parsers server ranged 2 object 206 1 5
      (handle upkeep parsers server ranged 2 0)
handle-range_example =
    handle-range upkeep parsers server ranged 2 object server-IsFaithful server-IsUp 0 metadata
      ranged-IsKnown (record { start = 1; length = 5 }) one_range (omega arith) (omega arith)

handle-full_example :
    IsAnswered upkeep parsers server full 3 object 200 0 7 (handle upkeep parsers server full 3 0)
handle-full_example =
    handle-full upkeep parsers server full 3 object server-IsFaithful server-IsUp 0 metadata
      full-IsKnown refl (omega arith) (omega arith) (omega arith)

-- `Content-Length: 7`
abbrev sized_headers : Headers
sized_headers = (content_length_name, (55 ∷ []) ∷ []) ∷ []

abbrev upstream_headers : Headers
upstream_headers = (upgrade_name, [] ∷ []) ∷ (age_name, (49 ∷ []) ∷ []) ∷ []

upstream_headers-IsMap : IsMap upstream_headers
unfolding IsMap values text_eq
upstream_headers-IsMap = (refl, (refl, tt))

copy_headers_without-values_example :
    (Memᴰ upgrade_name get_hop_by_hop_headers
      × (values upgrade_name (copy_headers_without upstream_headers [] get_hop_by_hop_headers)
          ≡ values upgrade_name []))
    ⊎ ((¬ Memᴰ upgrade_name get_hop_by_hop_headers)
        × (values upgrade_name (copy_headers_without upstream_headers [] get_hop_by_hop_headers)
            ≡ or_before (values upgrade_name upstream_headers) (values upgrade_name [])))
copy_headers_without-values_example =
    copy_headers_without-values upgrade_name upstream_headers [] get_hop_by_hop_headers
      upstream_headers-IsMap
