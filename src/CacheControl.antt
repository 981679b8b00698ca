-- ===== src/CacheControl.antt =====
-- Whether a response may be cached and for how long, utils/cacheutils/cachable.go, and IsMetadataFresh
-- of utils/functions.go. Times and durations are in nanoseconds.
use nedomi.Prelude.{
  ℕ, ◌-◌, ◌*◌, ◌^◌, Bool, true, false, Option, none, some, [], ◌∷◌, if◌then◌else◌, ltb, ◌==◌, ◌&&◌,
  ◌||◌, not,
}
use nedomi.Ranges.Strings.{Text, is_empty, after_prefix}
use nedomi.Headers.{Headers, get}
use nedomi.Headers.Names.{
  content_encoding_name, content_type_name, cache_control_name, expires_name,
}

-- What package cacheobject reads in the header Cache-Control of a request.
pub record RequestDirectives : Type 0 where
  pub no_cache : Bool
  pub no_store : Bool

-- And in that of a response; `none` stands for -1, an age that is not set.
pub record ResponseDirectives : Type 0 where
  pub no_cache_present : Bool
  pub no_store : Bool
  pub private_present : Bool
  pub s_max_age : Option ℕ
  pub max_age : Option ℕ

-- The functions of other packages: the parsers of cacheobject, `none` for an error, and time.Parse.
pub record Parsers : Type 0 where
  pub parse_request_cache_control : Text → RequestDirectives
  pub parse_response_cache_control : Text → Option ResponseDirectives
  pub parse_time : Text → Option ℕ

-- strings.Contains
unfoldable pub contains_text : Text → Text → Bool
contains_text part [] = is_empty part
contains_text part (c ∷ t) =
    let rest = contains_text part t in
    (elim (after_prefix part (c ∷ t)) [ none ↦ rest | some r ↦ true ])

-- `multipart/byteranges`
abbrev pub multipart : Text
multipart =
    109 ∷ 117 ∷ 108 ∷ 116 ∷ 105 ∷ 112 ∷ 97 ∷ 114 ∷ 116 ∷ 47 ∷ 98 ∷ 121 ∷ 116 ∷ 101 ∷ 114 ∷ 97 ∷ 110
    ∷ 103 ∷ 101 ∷ 115 ∷ []

-- The seconds of an age, 0 for one that is not set.
abbrev pub positive : Option ℕ → ℕ
positive none = 0
positive (some n) = n

module _ (ps : Parsers) where
  -- CacheSatisfiesRequest, for the request's headers.
  unfoldable pub cache_satisfies_request : Headers → Bool
  cache_satisfies_request headers =
      let directives = ps.parse_request_cache_control (get cache_control_name headers) in
      not (directives.no_cache || directives.no_store)

  -- IsResponseCacheable
  unfoldable pub is_response_cacheable : ℕ → Headers → Bool
  is_response_cacheable code headers =
      if not (code == 200) && not (code == 206)
      then false
      else if not (is_empty (get content_encoding_name headers))
      then false
      else if contains_text multipart (get content_type_name headers)
      then false
      else (elim (ps.parse_response_cache_control (get cache_control_name headers)) [
        | none ↦ false
        | some d ↦ if d.no_cache_present || d.no_store || d.private_present then false else true
      ])

  -- ResponseExpiresIn; a duration that is not positive is 0.
  unfoldable pub response_expires_in : Headers → ℕ → ℕ → ℕ
  response_expires_in headers if_not_any now =
      elim (ps.parse_response_cache_control (get cache_control_name headers)) [
        | none ↦ if_not_any
        | some d ↦
            if ltb 0 (positive d.s_max_age)
            then positive d.s_max_age * 10 ^ 9
            else if ltb 0 (positive d.max_age)
            then positive d.max_age * 10 ^ 9
            else if not (is_empty (get expires_name headers))
            then (elim (ps.parse_time (get expires_name headers)) [
              | some t ↦ t - now
              | none ↦ if_not_any
            ])
            else if_not_any
      ]

-- IsMetadataFresh, for a time in seconds at which the object expires.
unfoldable pub is_metadata_fresh : ℕ → ℕ → Bool
is_metadata_fresh expires_at now = ltb now (expires_at * 10 ^ 9)
