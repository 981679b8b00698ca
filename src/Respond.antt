-- ===== src/Respond.antt =====
-- The answer from the cache, handler/cache/handler_helpers.go: which parts come from the storage and
-- which from the upstream, and what is sent of them.
pub mod Pieces
pub mod Faithful
pub mod Fetch
pub mod Lazily
pub mod Cut
pub mod Loop
pub mod Up
pub mod Examples
mod Tests
use nedomi.Prelude.{
  ℕ, zero, suc, ◌+◌, ◌-◌, ◌*◌, ◌/◌, ◌%◌, ◌^◌, Bool, true, false, Option, none, some, List, [], ◌∷◌,
  ◌++◌, ltb, leb, ◌==◌, if◌then◌else◌, ◌&&◌, length, take, drop, get_or,
}
use nedomi.PartWriter.{umin}
use nedomi.Balancing.Search.{search}
use nedomi.Ranges.{Parsed, parsed, refused, get_response_range}
use nedomi.Ranges.Strings.{Text}

-- An io.ReadCloser: the bytes it delivers, whether an error comes after them, and whether it is a
-- Seeker whose Seek fails.
pub record Stream (B : Type 0) : Type 0 where
  pub content : List B
  pub fails : Bool
  pub seek_fails : Bool

-- GetPart of the storage: a reader, os.ErrNotExist, EMFILE or another error.
pub data GetPart (B : Type 0) : Type 0 where
  opened : Stream B → GetPart B
  not_exist too_many_files other_error : GetPart B

-- The answer of the next handler to a request for a range.
pub record Reply (B : Type 0) : Type 0 where
  pub code : ℕ
  pub content_range : Text
  pub content_length : Text
  pub body : Stream B

-- What the handler calls, for one object; `E` is the state behind it. `send` is a write of the
-- response, and `some k` an error after `k` bytes. `sort` is sort.Sort by the part's number.
pub record Server (E B : Type 0) : Type 0 where
  pub part_size : ℕ
  pub object_size : ℕ
  pub lookup : E → ℕ → E × Bool
  pub get_part : E → ℕ → E × GetPart B
  pub promote_object : E → ℕ → E
  pub get_available_parts : E → E × Option (List ℕ)
  pub next : E → ℕ → ℕ → E × Reply B
  pub send : E → List B → E × Option ℕ
  pub sort : List ℕ → List ℕ

-- The loop of BreakInIndexes, from index `i` on, for `k` of them. A part's number is a uint32.
unfoldable pub indexes_from : ℕ → ℕ → List ℕ
indexes_from zero i = []
indexes_from (suc k) i = i % 2 ^ 32 ∷ indexes_from k (i + 1)

-- BreakInIndexes
unfoldable pub break_in_indexes : ℕ → ℕ → ℕ → List ℕ
unfolding indexes_from
break_in_indexes start end part_size =
    let first_index = start / part_size in
    let last_index = end / part_size + 1 in indexes_from (last_index - first_index) first_index

module _ {B : Type 0} where
  -- MultiReadCloser of two readers
  unfoldable pub multi : Stream B → Stream B → Stream B
  multi s t =
      if s.fails
      then record s { seek_fails = false }
      else record { content = s.content ++ t.content; fails = t.fails; seek_fails = false }

  -- SkipReadCloser
  unfoldable pub skip : ℕ → Stream B → Stream B
  skip n s = record s { content = drop n s.content }

  -- LimitReadCloser: an error that comes after the limit is not seen.
  unfoldable pub limit : ℕ → Stream B → Stream B
  limit n s = record s { content = take n s.content; fails = s.fails && ltb (length s.content) n }

  -- A pipe that was closed with an error.
  abbrev pub broken : Stream B
  broken = record { content = []; fails = true; seek_fails = false }

abbrev pub is_parsed : {A : Type 0} → Parsed A → Bool
is_parsed (parsed a) = true
is_parsed (refused err) = false

-- What getContents returns: a reader and the count of parts, or an error.
pub data Contents (B : Type 0) : Type 0 where
  contents : Stream B → ℕ → Contents B
  failed : Contents B

-- The state behind the handler and what was sent; `stopped` is a return on an error.
pub record Response (E B : Type 0) : Type 0 where
  pub env : E
  pub sent : List B
  pub stopped : Bool

-- The test that getContents searches the available parts with.
unfoldable pub is_ahead : List ℕ → ℕ → List ℕ → ℕ → Bool
is_ahead indexes from parts i =
    ltb (get_or indexes from 0) (get_or parts i 0)
    && leb (get_or parts i 0) (get_or indexes (length indexes - 1) 0)

module _ {E B : Type 0} (srv : Server E B) where
  -- getUpstreamReader: the body of a reply with the status 206 and a range that can be read, and
  -- otherwise a pipe closed with an error.
  unfoldable pub get_upstream_reader : E → ℕ → ℕ → E × Stream B
  get_upstream_reader e start end =
      let (e', reply) = srv.next e start end in
      let range = get_response_range reply.code reply.content_range reply.content_length in
      (e', if is_parsed range && reply.code == 206 then reply.body else broken)

  -- What getPartFromStorage makes of the storage's answer; `some none` is a nil reader without an
  -- error.
  unfoldable pub part_or_error : E → ℕ → GetPart B → E × Option (Option (Stream B))
  part_or_error e part (opened s) = (srv.promote_object e part, some (some s))
  part_or_error e part not_exist = (e, some none)
  part_or_error e part too_many_files = (e, none)
  part_or_error e part other_error = (e, some none)

  -- getPartFromStorage
  unfoldable pub get_part_from_storage : E → ℕ → E × Option (Option (Stream B))
  unfolding part_or_error
  get_part_from_storage e part =
      let (e', cached) = srv.lookup e part in
      let (e'', r) = srv.get_part e' part in part_or_error e'' part r

  -- The end of getContents: the rest comes from the upstream. `last_part` is that of the last index.
  unfoldable pub rest_from_upstream : E → List ℕ → ℕ → E × Contents B
  unfolding get_upstream_reader
  rest_from_upstream e indexes from =
      let last_part = get_or indexes (length indexes - 1) 0 in
      let to_byte =
        umin srv.object_size (((last_part + 1) % 2 ^ 32 * srv.part_size + 2 ^ 64 - 1) % 2 ^ 64) in
      let (e', s) = get_upstream_reader e (get_or indexes from 0 * srv.part_size) to_byte in
      (e', contents s (length indexes - from))

  -- The part `part` of the storage, and what is missing before it from the upstream; an error or a
  -- nil reader leaves the rest to the upstream.
  unfoldable pub up_to_part : E → List ℕ → ℕ → ℕ → E × Contents B
  unfolding get_part_from_storage get_upstream_reader rest_from_upstream multi
  up_to_part e indexes from part =
      let (e', r) = get_part_from_storage e part in
      elim r [
        | none ↦ rest_from_upstream e' indexes from
        | some o ↦ elim o [
          | none ↦ rest_from_upstream e' indexes from
          | some s ↦
              let first = get_or indexes from 0 in
              let to_byte = umin srv.object_size ((part * srv.part_size + 2 ^ 64 - 1) % 2 ^ 64) in
              let (e'', u) = get_upstream_reader e' (first * srv.part_size) to_byte in
              (e'', contents (multi u s) (part - first + 1))
        ]
      ]

  -- getContents, behind the storage's answer for the first part.
  unfoldable pub after_missing : E → List ℕ → ℕ → E × Contents B
  unfolding up_to_part rest_from_upstream search is_ahead
  after_missing e indexes from =
      let (e', available) = srv.get_available_parts e in
      elim available [
        | none ↦ (e', failed)
        | some l ↦
            let parts = srv.sort l in
            let i = search (length parts) (is_ahead indexes from parts) in
            if ltb i (length parts)
            then up_to_part e' indexes from (get_or parts i 0)
            else rest_from_upstream e' indexes from
      ]

  -- getContents
  unfoldable pub get_contents : E → List ℕ → ℕ → E × Contents B
  unfolding get_part_from_storage after_missing
  get_contents e indexes from =
      let (e', r) = get_part_from_storage e (get_or indexes from 0) in
      elim r [
        | none ↦ (e', failed)
        | some o ↦ elim o [ none ↦ after_missing e' indexes from | some s ↦ (e', contents s 1) ]
      ]

  -- io.Copy of a stream to the response, after `sent`.
  unfoldable pub copy : E → List B → Stream B → Response E B
  copy e sent s =
      let (e', r) = srv.send e s.content in
      elim r [
        | some k ↦ record { env = e'; sent = sent ++ take k s.content; stopped = true }
        | none ↦ record { env = e'; sent = sent ++ s.content; stopped = s.fails }
      ]
