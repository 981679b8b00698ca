-- ===== src/Handler/Body.antt =====
-- What a request for a cached object is answered with, headers and body.
use nedomi.Prelude.{
  ℕ, ◌+◌, ◌-◌, ◌/◌, ◌^◌, ◌<◌, ◌≤◌, ◌≡◌, refl, ap, ◌∙◌, true, false, some, List, [], ◌∷◌,
  if◌then◌else◌, ◌==◌, arith, subst, length, take, drop,
}
use nedomi.Ranges.{Range, parsed, parse_request_range}
use nedomi.Ranges.Bounds.{Yields, IsWithin, parse_request_range-IsWithin}
use nedomi.Ranges.Strings.{Text, is_empty}
use nedomi.Ranges.Decimal.{decimal}
use nedomi.ContainerList.Laws.{All}
use nedomi.Disk.Names.{text_eq}
use nedomi.Headers.{Headers, get, set}
use nedomi.Headers.Laws.{values-assign_same, values-assign_other}
use nedomi.Headers.Names.{
  content_length_name, content_range_name, expires_name, age_name, cache_control_name,
}
use nedomi.CacheControl.{Parsers, is_metadata_fresh, cache_satisfies_request}
use nedomi.Respond.{Server, Response}
use nedomi.Respond.Cut.{count_parts}
use nedomi.Respond.Faithful.{IsFaithful}
use nedomi.Respond.Up.{IsUp, lazily_respond-whole}
use nedomi.Respond.Lazily.{lazily_respond}
use nedomi.Handler.{
  ObjectMetadata, found, Request, Upkeep, Served, headers_only, with_body, content_range_text,
  rewrite_time_based_headers, ranged_headers, full_headers, known_ranged, known_full, handle,
}

get-set_same : (k v : Text) (h : Headers) → get k (set k v h) ≡ v
unfolding get set
get-set_same k v h = rw (values-assign_same k (v ∷ []) h, get) refl

get-set_other : (k k' v : Text) (h : Headers) → text_eq k k' ≡ false → get k (set k' v h) ≡ get k h
unfolding get set
get-set_other k k' v h ne = rw (values-assign_other k k' (v ∷ []) h ne, get) refl

-- A header without a range gives none.
range_here :
    (t : Text) (size : ℕ) (r : Range) (l : List Range)
    → parse_request_range t size ≡ parsed (r ∷ l)
    → is_empty t ≡ false
unfolding parse_request_range
range_here [] size r l h = absurd (cc h)
range_here (c ∷ t) size r l h = refl

module _ {E : Type 0} (up : Upkeep E) where
  -- The headers of the time leave those of the length and the range.
  rewrite_time_based_headers-length :
      (obj : ObjectMetadata) (now : ℕ) (h : Headers)
      → get content_length_name (rewrite_time_based_headers up obj now h)
        ≡ get content_length_name h
  unfolding rewrite_time_based_headers text_eq
  rewrite_time_based_headers-length obj now h =
      get-set_other content_length_name cache_control_name _ _ refl
      ∙ get-set_other content_length_name age_name _ _ refl
      ∙ get-set_other content_length_name expires_name _ _ refl

  rewrite_time_based_headers-range :
      (obj : ObjectMetadata) (now : ℕ) (h : Headers)
      → get content_range_name (rewrite_time_based_headers up obj now h) ≡ get content_range_name h
  unfolding rewrite_time_based_headers text_eq
  rewrite_time_based_headers-range obj now h =
      get-set_other content_range_name cache_control_name _ _ refl
      ∙ get-set_other content_range_name age_name _ _ refl
      ∙ get-set_other content_range_name expires_name _ _ refl

ranged_headers-length :
    (obj : ObjectMetadata) (r : Range) (before : Headers)
    → get content_length_name (ranged_headers obj r before) ≡ decimal r.length
unfolding ranged_headers
ranged_headers-length obj r before = get-set_same content_length_name (decimal r.length) _

ranged_headers-range :
    (obj : ObjectMetadata) (r : Range) (before : Headers)
    → get content_range_name (ranged_headers obj r before) ≡ content_range_text r obj.size
unfolding ranged_headers text_eq
ranged_headers-range obj r before =
    get-set_other content_range_name content_length_name _ _ refl
    ∙ get-set_same content_range_name (content_range_text r obj.size) _

full_headers-length :
    (obj : ObjectMetadata) (before : Headers)
    → get content_length_name (full_headers obj before) ≡ decimal obj.size
unfolding full_headers
full_headers-length obj before = get-set_same content_length_name (decimal obj.size) _

module _ {E B : Type 0} (up : Upkeep E) (ps : Parsers) (srv : Server E B) (rq : Request)
    (fuel : ℕ) where
  -- An answer with a status and a stretch of the object.
  pub record IsAnswered (obj : List B) (code : ℕ) (from n : ℕ) (s : Served E B) : Type 0 where
    pub headers : Headers
    pub response : Response E B
    pub answered : s ≡ with_body code headers (some response)
    pub content_length : get content_length_name headers ≡ decimal n
    pub sent : response.sent ≡ take n (drop from obj)
    pub not_stopped : response.stopped ≡ false

  -- The metadata is found and fresh, and the client takes the cache's answer.
  pub record IsKnown (e : E) (meta : ObjectMetadata) : Type 0 where
    pub stored : (up.get_metadata e).1 ≡ found meta
    pub fresh : is_metadata_fresh meta.expires_at (up.now (up.get_metadata e).0) ≡ true
    pub wanted : cache_satisfies_request ps rq.headers ≡ true
    pub sized : meta.size ≡ srv.object_size
    pub not_head : rq.is_head ≡ false

  module _ (obj : List B) (laws : IsFaithful srv obj) (well : IsUp srv) (e : E)
      (meta : ObjectMetadata) (known : IsKnown e meta) where
    known_ranged-IsAnswered :
        (e' : E) (r : Range)
        → parse_request_range rq.range meta.size ≡ parsed (r ∷ [])
        → (r.start + r.length - 1) / srv.part_size + 1 < 2 ^ 32
        → count_parts srv r.start (r.start + r.length - 1) ≤ fuel
        → IsAnswered obj 206 r.start r.length (known_ranged up ps srv rq fuel e' meta)
    unfolding known_ranged
    known_ranged-IsAnswered e' r parse few enough =
        let bounds : Yields (λ l. (0 < length l) × All (IsWithin meta.size) l) (parsed (r ∷ [])) =
          subst (Yields (λ l. (0 < length l) × All (IsWithin meta.size) l)) parse (
            parse_request_range-IsWithin rq.range meta.size
              (range_here rq.range meta.size r [] parse)) in
        let within : IsWithin meta.size r = bounds.1.0 in
        let size : meta.size ≡ length obj = known.sized ∙ laws.sized in
        let body =
          lazily_respond-whole srv obj laws well r.start (r.start + r.length - 1)
            (omega (arith, within.some_byte)) (omega (arith, within.ends, within.some_byte, size))
            few fuel e' enough in
        let n : r.start + r.length - 1 + 1 - r.start ≡ r.length = omega (arith, within.some_byte) in
        let headers =
          rewrite_time_based_headers up meta (up.now e')
            (ranged_headers meta r rq.response_headers) in
        rw (parse, known_ranged)
          (record {
            headers = headers;
            response = body.0;
            answered =
                ap
                  (λ b.
                    if b
                    then headers_only 206 headers
                    else with_body 206 headers
                        (lazily_respond srv r.start (r.start + r.length - 1) fuel e'))
                  known.not_head
                ∙ ap (with_body 206 headers) body.1;
            content_length =
                rewrite_time_based_headers-length up meta (up.now e')
                  (ranged_headers meta r rq.response_headers)
                ∙ ranged_headers-length meta r rq.response_headers;
            sent = body.2 ∙ ap (λ k. take k (drop r.start obj)) n;
            not_stopped = body.3;
          })

    known_full-IsAnswered :
        (e' : E)
        → 0 < meta.size
        → (meta.size - 1) / srv.part_size + 1 < 2 ^ 32
        → count_parts srv 0 (meta.size - 1) ≤ fuel
        → IsAnswered obj meta.code 0 meta.size (known_full up ps srv rq fuel e' meta)
    unfolding known_full
    known_full-IsAnswered e' pos few enough =
        let size : meta.size ≡ length obj = known.sized ∙ laws.sized in
        let body =
          lazily_respond-whole srv obj laws well 0 (meta.size - 1) (omega arith)
            (omega (arith, pos, size)) few fuel e' enough in
        let some_size : (meta.size == 0) ≡ false = ground arith in
        let n : meta.size - 1 + 1 - 0 ≡ meta.size = omega (arith, pos) in
        let headers =
          rewrite_time_based_headers up meta (up.now e') (full_headers meta rq.response_headers) in
        record {
          headers = headers;
          response = body.0;
          answered =
              ap
                (λ b.
                  if b
                  then headers_only meta.code headers
                  else with_body meta.code headers
                      (lazily_respond srv 0 (if meta.size == 0 then 0 else meta.size - 1) fuel e'))
                known.not_head
              ∙ ap
                  (λ b.
                    with_body meta.code headers
                      (lazily_respond srv 0 (if b then 0 else meta.size - 1) fuel e'))
                  some_size
              ∙ ap (with_body meta.code headers) body.1;
          content_length =
              rewrite_time_based_headers-length up meta (up.now e')
                (full_headers meta rq.response_headers)
              ∙ full_headers-length meta rq.response_headers;
          sent = body.2 ∙ ap (λ k. take k obj) n;
          not_stopped = body.3;
        }

    -- The request has a Range header of one range that can be served; the metadata is found and
    -- fresh, and the client takes the cache's answer; the storage and the upstream hold true bytes
    -- and nothing on the way fails: the answer has the status 206, the length of the range as its
    -- Content-Length, and exactly the bytes of the range as its body.
    pub handle-range :
        (r : Range)
        → parse_request_range rq.range meta.size ≡ parsed (r ∷ [])
        → (r.start + r.length - 1) / srv.part_size + 1 < 2 ^ 32
        → count_parts srv r.start (r.start + r.length - 1) ≤ fuel
        → IsAnswered obj 206 r.start r.length (handle up ps srv rq fuel e)
    unfolding handle
    handle-range r parse few enough =
        let here = range_here rq.range meta.size r [] parse in
        rw (known.stored, handle, known.fresh, known.wanted, here)
          (known_ranged-IsAnswered (up.get_metadata e).0 r parse few enough)

    -- The same without a Range header, for an object that is not empty: the answer has the status of
    -- the metadata, the size as its Content-Length, and the whole object as its body.
    pub handle-full :
        is_empty rq.range ≡ true
        → 0 < meta.size
        → (meta.size - 1) / srv.part_size + 1 < 2 ^ 32
        → count_parts srv 0 (meta.size - 1) ≤ fuel
        → IsAnswered obj meta.code 0 meta.size (handle up ps srv rq fuel e)
    unfolding handle
    handle-full empty pos few enough =
        rw (known.stored, handle, known.fresh, known.wanted, empty)
          (known_full-IsAnswered (up.get_metadata e).0 pos few enough)
