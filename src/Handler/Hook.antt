-- ===== src/Handler/Hook.antt =====
-- getResponseHook: what of a response of the next handler goes to the client and into the cache.
use nedomi.Prelude.{ℕ, ◌+◌, ◌/◌, ◌^◌, Bool, none, some, [], if◌then◌else◌, ◌==◌}
use nedomi.PartWriter.{ContentRange}
use nedomi.Ranges.{parsed, refused, get_response_range}
use nedomi.Ranges.Strings.{is_empty}
use nedomi.Headers.{Headers, get, set, copy_headers_without}
use nedomi.Headers.Names.{
  content_length_name, content_range_name, date_name, get_hop_by_hop_headers,
  metadata_headers_to_filter,
}
use nedomi.CacheControl.{Parsers, is_response_cacheable, response_expires_in}
use nedomi.Handler.{ObjectMetadata, Upkeep}

-- Where the body goes: to the client, or to the client and the PartWriter of a range too. A nil range
-- would be a panic; GetResponseRange returns none without an error.
pub data BodyWriter : Type 0 where
  client_only : BodyWriter
  client_and_cache : ContentRange → BodyWriter
  nil_range : BodyWriter

-- What the hook leaves: the state, the client's headers and status, and the body's writer.
pub record Hooked (E : Type 0) : Type 0 where
  pub env : E
  pub client_code : ℕ
  pub client_headers : Headers
  pub writer : BodyWriter

module _ {E : Type 0} (up : Upkeep E) (ps : Parsers) (is_head : Bool) (default_duration : ℕ) where
  -- The metadata of a response that is cached, at the time `now`.
  unfoldable pub metadata_of : ℕ → Headers → ContentRange → ℕ → ℕ → ObjectMetadata
  metadata_of code headers range now expires_in =
      let kept = copy_headers_without headers [] metadata_headers_to_filter in
      record {
        response_timestamp = now / 10 ^ 9;
        code = if code == 206 then 200 else code;
        size = range.obj_size;
        headers =
            if is_empty (get date_name kept)
            then set date_name (up.format_time (now / 10 ^ 9)) kept
            else kept;
        expires_at = (now + expires_in) / 10 ^ 9;
      }

  -- The hook behind its checks.
  unfoldable pub cache_response : E → ℕ → Headers → ContentRange → ℕ → E × BodyWriter
  cache_response e code headers range expires_in =
      let (e', saved) =
        up.save_metadata e (metadata_of code headers range (up.now_again e) expires_in) in
      if saved
      then (if is_head
          then (e', client_only)
          else (up.add_event e' expires_in, client_and_cache range))
      else (e', client_only)

  -- The state and the body's writer.
  unfoldable pub body_writer : E → ℕ → Headers → E × BodyWriter
  body_writer e code headers =
      let expires_in = response_expires_in ps headers default_duration (up.now e) in
      if is_response_cacheable ps code headers
      then (if expires_in == 0
          then (e, client_only)
          else (elim (get_response_range code (get content_range_name headers)
              (get content_length_name headers)) [
                | refused err ↦ (e, client_only)
                | parsed o ↦ elim o [
                  | none ↦ (e, nil_range)
                  | some range ↦ cache_response e code headers range expires_in
                ]
              ]))
      else (e, client_only)

  -- getResponseHook, for the status and the headers of the response and those of the client so far.
  unfoldable pub get_response_hook : E → ℕ → Headers → Headers → Hooked E
  get_response_hook e code headers client =
      let (e', writer) = body_writer e code headers in
      record {
        env = e';
        client_code = code;
        client_headers = copy_headers_without headers client get_hop_by_hop_headers;
        writer = writer;
      }
