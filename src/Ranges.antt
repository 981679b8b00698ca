-- ===== src/Ranges.antt =====
-- The ranges of HTTP headers, utils/httputils/request_range.go and response_range.go. A string is
-- the list of its code points.
pub mod Strings
pub mod Bounds
pub mod Decimal
mod Tests
use nedomi.Prelude.{
  ℕ, zero, suc, ◌+◌, ◌-◌, Bool, true, false, Option, none, some, List, [], ◌∷◌, ◌++◌, ltb, leb,
  ◌==◌, if◌then◌else◌, ◌||◌, length,
}
use nedomi.PartWriter.{ContentRange}
use nedomi.Ranges.Strings.{Text, is_empty, parse_uint, trim_space, split, cut, after_prefix}

-- Range
pub record Range : Type 0 where
  pub start : ℕ
  pub length : ℕ

-- The values of the errors: `invalid_range` and `invalid_size`, those of this package, `syntax` that
-- of strconv, and those of a response whose headers do not serve.
pub data RangeError : Type 0 where
  invalid_range invalid_size syntax no_content_range no_content_length invalid_status : RangeError

-- A value and a nil error, or an error.
pub data Parsed (A : Type 0) : Type 0 where
  parsed : A → Parsed A
  refused : RangeError → Parsed A

-- parseEndRelativeRange
unfoldable pub parse_end_relative_range : Text → ℕ → Parsed Range
parse_end_relative_range e size = elim (parse_uint e) [
  | none ↦ refused invalid_range
  | some ei ↦
      if ei == 0
      then refused invalid_range
      else let ei' = if ltb size ei then size else ei in
        parsed (record { start = size - ei'; length = ei' })
]

-- The part of parseReqByteRange for a start `si`.
unfoldable pub range_from : ℕ → Text → ℕ → Parsed Range
range_from si e size =
    if is_empty e
    then parsed (record { start = si; length = size - si })
    else (elim (parse_uint e) [
      | none ↦ refused invalid_range
      | some ei ↦
          if ltb ei si
          then refused invalid_range
          else let ei' = if leb size ei then size - 1 else ei in
            parsed (record { start = si; length = ei' - si + 1 })
    ])

-- parseReqByteRange
unfoldable pub parse_req_byte_range : Text → Text → ℕ → Parsed Range
unfolding parse_end_relative_range range_from
parse_req_byte_range s e size =
    if is_empty s then parse_end_relative_range e size else (elim (parse_uint s) [
      | none ↦ refused invalid_range
      | some si ↦ if leb size si then refused invalid_range else range_from si e size
    ])

-- One of the ranges, after the split at the commas; `none` for one that is empty.
unfoldable pub parse_one : Text → ℕ → Option (Parsed Range)
unfolding parse_req_byte_range
parse_one ra size =
    let ra' = trim_space ra in
    if is_empty ra' then none else (elim (cut 45 ra') [
      | none ↦ some (refused invalid_range)
      | some (s, e) ↦ some (parse_req_byte_range (trim_space s) (trim_space e) size)
    ])

-- The loop of ParseRequestRange, with the ranges so far.
unfoldable pub parse_all : List Text → ℕ → List Range → Parsed (List Range)
parse_all [] size ranges = if length ranges == 0 then refused invalid_range else parsed ranges
parse_all (ra ∷ ras) size ranges = elim (parse_one ra size) [
  | none ↦ parse_all ras size ranges
  | some r ↦ elim r [ refused err ↦ refused err | parsed x ↦ parse_all ras size (ranges ++ x ∷ []) ]
]

-- `bytes=`
abbrev pub request_prefix : Text
request_prefix = 98 ∷ 121 ∷ 116 ∷ 101 ∷ 115 ∷ 61 ∷ []

-- ParseRequestRange; without a header there are no ranges.
unfoldable pub parse_request_range : Text → ℕ → Parsed (List Range)
unfolding parse_all
parse_request_range s size =
    if is_empty s
    then parsed []
    else if size == 0
    then refused invalid_size
    else (elim (after_prefix request_prefix s) [
      | none ↦ refused invalid_range
      | some rest ↦ parse_all (split 44 rest) size []
    ])

-- `bytes `
abbrev pub response_prefix : Text
response_prefix = 98 ∷ 121 ∷ 116 ∷ 101 ∷ 115 ∷ 32 ∷ []

-- The last part of ParseResponseContentRange, for the numbers that were read.
unfoldable pub content_range : ℕ → ℕ → ℕ → Parsed (Option ContentRange)
content_range start e size =
    if ltb e start || leb size e
    then refused invalid_range
    else parsed (some (record { start = start; length = e - start + 1; obj_size = size }))

-- A number of a Content-Range, in spaces.
abbrev pub number : {A : Type 0} → Text → (ℕ → Parsed A) → Parsed A
number t f = elim (parse_uint (trim_space t)) [ none ↦ refused syntax | some n ↦ f n ]

-- ParseResponseContentRange; `none` is the nil range without a header.
unfoldable pub parse_response_content_range : Text → Parsed (Option ContentRange)
unfolding content_range
parse_response_content_range cr =
    if is_empty cr then parsed none else (elim (after_prefix response_prefix cr) [
      | none ↦ refused invalid_range
      | some rest ↦ elim (cut 47 (trim_space rest)) [
        | none ↦ refused invalid_range
        | some (range, size) ↦ number size (λ n. elim (cut 45 (trim_space range)) [
          | none ↦ refused invalid_range
          | some (s, e) ↦ number s (λ start. number e (λ last. content_range start last n))
        ])
      ]
    ])

-- GetResponseRange, for the values of the headers Content-Range and Content-Length.
unfoldable pub get_response_range : ℕ → Text → Text → Parsed (Option ContentRange)
get_response_range code range_str length_str =
    if code == 206
    then (if is_empty range_str
        then refused no_content_range
        else parse_response_content_range range_str)
    else if code == 200
    then (if is_empty length_str then refused no_content_length else (elim (parse_uint length_str) [
      | none ↦ refused syntax
      | some n ↦ parsed (some (record { start = 0; length = n; obj_size = n }))
    ]))
    else refused invalid_status
