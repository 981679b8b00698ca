-- ===== src/Handler/Cached.antt =====
-- What the hook caches.
use nedomi.Prelude.{ℕ, ◌+◌, ◌^◌, ◌<◌, ◌≤◌, ◌≡◌, ◌⊎◌, refl, Bool, true, false, some, inl, inr}
use nedomi.PartWriter.{ContentRange}
use nedomi.Ranges.{Parsed, parsed, refused, RangeError, get_response_range}
use nedomi.Headers.{Headers, get}
use nedomi.Headers.Names.{
  content_length_name, content_range_name, content_encoding_name, content_type_name,
  cache_control_name,
}
use nedomi.CacheControl.{
  Parsers, ResponseDirectives, contains_text, multipart, response_expires_in, is_metadata_fresh,
}
use nedomi.Ranges.Strings.{is_empty}
use nedomi.Handler.{ObjectMetadata, Upkeep}
use nedomi.Handler.Hook.{client_only, client_and_cache, Hooked, metadata_of}

pub Parsed-cases :
    {A : Type 0} (p : Parsed A)
    → ((a : A) × (p ≡ parsed a)) ⊎ ((err : RangeError) × (p ≡ refused err))
Parsed-cases (parsed a) = inl (a, refl)
Parsed-cases (refused err) = inr (err, refl)

module _ {E : Type 0} (up : Upkeep E) (ps : Parsers) (is_head : Bool) (default_duration : ℕ) (e : E)
    (code : ℕ) (headers : Headers) where
  -- How long ResponseExpiresIn keeps the response.
  abbrev pub kept_for : ℕ
  kept_for = response_expires_in ps headers default_duration (up.now e)

  -- The metadata that is saved with a range.
  abbrev pub saved_with : ContentRange → ObjectMetadata
  saved_with range =
      metadata_of up ps is_head default_duration code headers range (up.now_again e) kept_for

  -- A response that is whole or a single range, not encoded, and not forbidden to be stored by its
  -- Cache-Control.
  pub record IsCacheable : Type 0 where
    pub status : (code ≡ 200) ⊎ (code ≡ 206)
    pub plain : is_empty (get content_encoding_name headers) ≡ true
    pub single : contains_text multipart (get content_type_name headers) ≡ false
    pub directives : ResponseDirectives
    pub read : ps.parse_response_cache_control (get cache_control_name headers) ≡ some directives
    pub cached : directives.no_cache_present ≡ false
    pub stored : directives.no_store ≡ false
    pub shared : directives.private_present ≡ false

  -- And one that lasts and has a readable range inside the object.
  pub record IsStorable (range : ContentRange) : Type 0 where
    pub cacheable : IsCacheable
    pub ranged :
        get_response_range code (get content_range_name headers) (get content_length_name headers)
        ≡ parsed (some range)
    pub inside : range.start + range.length ≤ range.obj_size
    pub lasting : 0 < kept_for

  -- Nothing is kept: the response may not be cached, expires at once or has no readable range.
  pub record IsPassed (h : Hooked E) : Type 0 where
    pub writer : h.writer ≡ client_only
    pub untouched : h.env ≡ e
    pub why :
        (¬ IsCacheable)
        ⊎ ((kept_for ≡ 0)
            ⊎ ((err : RangeError) × (get_response_range code
                    (get content_range_name headers)
                    (get content_length_name headers)
                  ≡ refused err)))

  -- The metadata alone is given to the storage, which refuses it or has it from a HEAD request.
  pub record IsNoted (range : ContentRange) (h : Hooked E) : Type 0 where
    pub storable : IsStorable range
    pub writer : h.writer ≡ client_only
    pub env : h.env ≡ (up.save_metadata e (saved_with range)).0
    pub why : ((up.save_metadata e (saved_with range)).1 ≡ false) ⊎ (is_head ≡ true)

  -- The body is written to the cache too, after the metadata was saved.
  pub record IsCached (range : ContentRange) (h : Hooked E) : Type 0 where
    pub storable : IsStorable range
    pub writer : h.writer ≡ client_and_cache range
    pub body : is_head ≡ false
    pub saved : (up.save_metadata e (saved_with range)).1 ≡ true
    pub scheduled : h.env ≡ up.add_event (up.save_metadata e (saved_with range)).0 kept_for
    pub full_code : (saved_with range).code ≡ 200
    pub stale :
        (t : ℕ)
        → up.now_again e + kept_for ≤ t
        → is_metadata_fresh (saved_with range).expires_at t ≡ false
    pub fresh :
        (t : ℕ)
        → t + 10 ^ 9 ≤ up.now_again e + kept_for
        → is_metadata_fresh (saved_with range).expires_at t ≡ true
