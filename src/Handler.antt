-- ===== src/Handler.antt =====
-- The caching handler, handler/cache/handler.go and the hook of handler_helpers.go: what is answered
-- from the cache, what is passed on, and what of the passed-on responses is cached.
pub mod Hook
pub mod Body
pub mod Cached
mod Tests
use nedomi.Prelude.{
  ℕ, ◌+◌, ◌-◌, ◌/◌, ◌*◌, ◌^◌, Bool, true, false, Option, none, some, List, [], ◌∷◌, ◌++◌,
  if◌then◌else◌, ltb, ◌==◌, not,
}
use nedomi.Ranges.{Range, Parsed, parsed, refused, parse_request_range, response_prefix}
use nedomi.Ranges.Strings.{Text, is_empty}
use nedomi.Ranges.Decimal.{decimal}
use nedomi.Headers.{Headers, set, copy_headers}
use nedomi.Headers.Names.{
  content_length_name, content_range_name, expires_name, age_name, cache_control_name,
}
use nedomi.CacheControl.{Parsers, is_metadata_fresh, cache_satisfies_request}
use nedomi.Respond.{Server, Response}
use nedomi.Respond.Lazily.{lazily_respond}

-- ObjectMetadata, for one object; the times are Unix timestamps.
pub record ObjectMetadata : Type 0 where
  pub response_timestamp : ℕ
  pub code : ℕ
  pub size : ℕ
  pub headers : Headers
  pub expires_at : ℕ

-- GetMetadata of the storage: os.ErrNotExist, EMFILE or another error.
pub data GetMetadata : Type 0 where
  found : ObjectMetadata → GetMetadata
  absent too_many_open unreadable : GetMetadata

-- The request, as far as the handler reads it, and the headers that the response already has.
pub record Request : Type 0 where
  pub is_head : Bool
  pub headers : Headers
  pub range : Text
  pub response_headers : Headers

-- The storage's calls for the object, the scheduler's AddEvent of the expiration handler, the clock
-- in nanoseconds, read once and a second time by the hook, and the format of times; an error of `discard` is logged only, and `save_metadata`
-- returns whether there is none.
pub record Upkeep (E : Type 0) : Type 0 where
  pub get_metadata : E → E × GetMetadata
  pub save_metadata : E → ObjectMetadata → E × Bool
  pub discard : E → E
  pub add_event : E → ℕ → E
  pub now : E → ℕ
  pub now_again : E → ℕ
  pub format_time : ℕ → Text

-- How the handler answers: an error's status, the response of the next handler (carbonCopyProxy) from
-- a state on, headers alone, or headers and a body.
pub data Served (E B : Type 0) : Type 0 where
  error_status : ℕ → Served E B
  proxied : E → Served E B
  headers_only : ℕ → Headers → Served E B
  with_body : ℕ → Headers → Option (Response E B) → Served E B

-- Range.ContentRange, utils/httputils/request_range.go
unfoldable pub content_range_text : Range → ℕ → Text
content_range_text r size =
    response_prefix ++ decimal r.start ++ 45 ∷ decimal (r.start + r.length - 1) ++ 47 ∷ decimal size

-- strconv.FormatInt of a difference.
unfoldable pub decimal_difference : ℕ → ℕ → Text
decimal_difference a b = if ltb a b then 45 ∷ decimal (b - a) else decimal (a - b)

-- `max-age=`
abbrev max_age_prefix : Text
max_age_prefix = 109 ∷ 97 ∷ 120 ∷ 45 ∷ 97 ∷ 103 ∷ 101 ∷ 61 ∷ []

-- rewriteTimeBasedHeaders, at a time in nanoseconds.
unfoldable pub rewrite_time_based_headers :
    {E : Type 0} → Upkeep E → ObjectMetadata → ℕ → Headers → Headers
rewrite_time_based_headers up obj now headers =
    let now_unix = now / 10 ^ 9 in
    set cache_control_name (max_age_prefix ++ decimal_difference obj.expires_at now_unix) (
      set age_name (decimal_difference now_unix obj.response_timestamp)
        (set expires_name (up.format_time obj.expires_at) headers))

-- The headers of knownRanged and knownFull, before those of the time.
unfoldable pub ranged_headers : ObjectMetadata → Range → Headers → Headers
ranged_headers obj r before =
    set content_length_name (decimal r.length)
      (set content_range_name (content_range_text r obj.size) (copy_headers obj.headers before))

unfoldable pub full_headers : ObjectMetadata → Headers → Headers
full_headers obj before =
    set content_length_name (decimal obj.size) (copy_headers obj.headers before)

module _ {E B : Type 0} (up : Upkeep E) (ps : Parsers) (srv : Server E B) (rq : Request)
    (fuel : ℕ) where
  -- knownRanged
  unfoldable pub known_ranged : E → ObjectMetadata → Served E B
  known_ranged e obj = elim (parse_request_range rq.range obj.size) [
    | refused err ↦ error_status 416
    | parsed ranges ↦ elim ranges [
      | [] ↦ proxied e
      | r ∷ rest ↦ elim rest [
        | r' ∷ rest' ↦ proxied e
        | [] ↦
            let headers =
              rewrite_time_based_headers up obj (up.now e)
                (ranged_headers obj r rq.response_headers) in
            if rq.is_head
            then headers_only 206 headers
            else with_body 206 headers (lazily_respond srv r.start (r.start + r.length - 1) fuel e)
      ]
    ]
  ]

  -- knownFull
  unfoldable pub known_full : E → ObjectMetadata → Served E B
  known_full e obj =
      let headers =
        rewrite_time_based_headers up obj (up.now e) (full_headers obj rq.response_headers) in
      let response_size = if obj.size == 0 then 0 else obj.size - 1 in
      if rq.is_head
      then headers_only obj.code headers
      else with_body obj.code headers (lazily_respond srv 0 response_size fuel e)

  -- handle
  unfoldable pub handle : E → Served E B
  handle e =
      let (e', metadata) = up.get_metadata e in
      elim metadata [
        | absent ↦ proxied e'
        | too_many_open ↦ error_status 500
        | unreadable ↦ proxied (up.discard e')
        | found obj ↦
            if not (is_metadata_fresh obj.expires_at (up.now e'))
            then proxied (up.discard e')
            else if not (cache_satisfies_request ps rq.headers)
            then proxied e'
            else if is_empty rq.range
            then known_full e' obj
            else known_ranged e' obj
      ]
