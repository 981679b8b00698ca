-- ===== src/Respond/Lazily.antt =====
-- lazilyRespond: the loop over the indexes of a range.
use nedomi.Prelude.{
  ℕ, zero, suc, ◌+◌, ◌-◌, ◌*◌, ◌%◌, ◌^◌, Bool, true, false, Option, none, some, List, [], ltb, ◌==◌,
  if◌then◌else◌, ◌&&◌, length,
}
use nedomi.Respond.{
  Stream, Server, Contents, contents, failed, Response, break_in_indexes, skip, limit, get_contents,
  copy,
}

module _ {E B : Type 0} (srv : Server E B) (start end : ℕ) where
  abbrev pub indexes : List ℕ
  indexes = break_in_indexes start end srv.part_size

  abbrev pub start_offset : ℕ
  start_offset = start % srv.part_size

  -- Whether the reader at index `i` is skipped to the start of the range.
  abbrev pub is_skipped : ℕ → Bool
  is_skipped i = (i == 0) && ltb 0 start_offset

  -- The limit of the last reader.
  unfoldable pub end_limit : ℕ → ℕ → ℕ
  end_limit i count =
      let whole = ((count - 1) * srv.part_size + end % srv.part_size + 1) % 2 ^ 64 in
      if i == 0 then (whole + 2 ^ 64 - start_offset) % 2 ^ 64 else whole

  -- The reader at index `i`, for `count` parts, cut to the range.
  unfoldable pub cut_to_range : ℕ → ℕ → Stream B → Stream B
  unfolding skip limit end_limit
  cut_to_range i count s =
      let s' = if is_skipped i then skip start_offset s else s in
      if i + count == length indexes then limit (end_limit i count) s' else s'

  -- What follows getContents in a round: the next index and the response.
  unfoldable pub send_contents : E → ℕ → List B → Contents B → ℕ × Response E B
  unfolding cut_to_range copy
  send_contents e i sent failed = (i, record { env = e; sent = sent; stopped = true })
  send_contents e i sent (contents s count) =
      if is_skipped i && s.seek_fails
      then (i, record { env = e; sent = sent; stopped = true })
      else (i + count, copy srv e sent (cut_to_range i count s))

  -- The loop from index `i` on; `none`: the fuel did not do.
  unfoldable pub respond_loop : ℕ → E → ℕ → List B → Option (Response E B)
  unfolding get_contents send_contents
  respond_loop zero e i sent =
      if ltb i (length indexes)
      then none
      else some (record { env = e; sent = sent; stopped = false })
  respond_loop (suc f) e i sent =
      let fetched = get_contents srv e indexes i in
      let r = send_contents fetched.0 i sent fetched.1 in
      let rest = respond_loop f r.1.env r.0 r.1.sent in
      if ltb i (length indexes)
      then (if r.1.stopped then some r.1 else rest)
      else some (record { env = e; sent = sent; stopped = false })

  -- lazilyRespond
  unfoldable pub lazily_respond : ℕ → E → Option (Response E B)
  unfolding respond_loop
  lazily_respond f e = respond_loop f e 0 []
