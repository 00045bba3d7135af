-- ===== src/Sse/Feed.antt =====
-- internal/recorder/sse.go: `Feed`, `Finish`, and the loop over the lines of the buffer.
use agentapi_doctor.Common.{
  ℕ, zero, suc, ◌+◌, Bool, true, false, not, ◌&&◌, ◌||◌, List, [], ◌∷◌, ◌++◌, Option, none, some,
  if◌then◌else◌, is_negative, add64, leb, ltb, eqb, Result, ok, err, length,
}
use agentapi_doctor.Sse.{
  Bytes, LogicalEvent, ReadChunk, Assembler, StreamTail, Error, add_current_chunk, consume_line,
  max_fields_per_event, chunk_out_of_sequence, invalid_chunk, offset_mismatch, buffer_exceeded,
  event_too_large, too_many_fields, out_of_fuel,
}

-- The bytes before the first newline, and those behind it.
unfoldable pub cut_line : Bytes → Option (Bytes × Bytes)
cut_line [] = none
cut_line (b ∷ bs) =
    let rest = cut_line bs in
    if eqb b b'\n'
    then some ([], bs)
    else (elim rest [ none ↦ none | some (line, r) ↦ some (b ∷ line, r) ])

-- The line without a carriage return at its end.
unfoldable pub strip_return : Bytes → Bytes
strip_return [] = []
strip_return (b ∷ []) = if eqb b b'\r' then [] else b ∷ []
strip_return (b ∷ c ∷ bs) = b ∷ strip_return (c ∷ bs)

abbrev pub is_comment : Bytes → Bool
is_comment [] = false
is_comment (b ∷ bs) = eqb b b':'

-- The assembler after a line has left its buffer.
unfoldable pub take_line : Assembler → ℕ → Bytes → Bytes → Assembler
take_line a chunk line rest = record a {
  current_chunks = add_current_chunk a.current_chunks chunk;
  buffer = rest;
  processed_offset = add64 a.processed_offset (length line + 1);
}

-- The bytes of a line that is not empty are counted, and its limits checked.
unfoldable pub count_line : Assembler → Bytes → Assembler × Option Error
count_line a [] = (a, none)
count_line a (b ∷ bs) =
    let a' = record a { current_bytes = a.current_bytes + (length (b ∷ bs) + 1) } in
    if ltb a'.max_buffer_bytes a'.current_bytes
    then (a', some event_too_large)
    else if not (is_comment (b ∷ bs)) && leb max_fields_per_event (length a'.current_fields)
    then (a', some too_many_fields)
    else (a', none)

module _ (parse_int : Bytes → Option ℕ) where
  -- One turn of the loop of `Feed`, on a line that the buffer holds whole.
  unfoldable pub feed_line :
      Assembler → ℕ → Bytes → Bytes → Assembler × Result Error (List LogicalEvent)
  feed_line a chunk raw rest =
      let taken = take_line a chunk raw rest in
      let line = strip_return raw in
      let (counted, broken) = count_line taken line in
      elim broken [
        | some e ↦ (counted, err e)
        | none ↦
            let (b, events) = consume_line parse_int counted line a.processed_offset in
            (b, ok events)
      ]

  -- The loop of `Feed`. Each turn takes a newline from the buffer, so its length is fuel enough.
  unfoldable pub drain :
      ℕ → Assembler → ℕ → List LogicalEvent → Assembler × Result Error (List LogicalEvent)
  drain zero a chunk events = (a, err out_of_fuel)
  drain (suc fuel) a chunk events = elim (cut_line a.buffer) [
    | none ↦
        if ltb a.max_buffer_bytes (a.current_bytes + length a.buffer)
        then (a, err event_too_large)
        else (record a { current_chunks = add_current_chunk a.current_chunks chunk }, ok events)
    | some (line, rest) ↦ elim (feed_line a chunk line rest).1 [
      | err e ↦ ((feed_line a chunk line rest).0, err e)
      | ok more ↦ drain fuel (feed_line a chunk line rest).0 chunk (events ++ more)
    ]
  ]

  -- The first chunk sets the offsets.
  unfoldable pub start_at : Assembler → ReadChunk → Assembler
  start_at a c = if a.started then a else record a {
    started = true;
    next_byte_offset = c.byte_offset;
    processed_offset = c.byte_offset;
  }

  unfoldable pub receive : Assembler → ReadChunk → Assembler
  receive a c = record a {
    buffer = a.buffer ++ c.content;
    next_chunk_sequence = add64 a.next_chunk_sequence 1;
    next_byte_offset = add64 a.next_byte_offset (length c.content);
  }

  abbrev pub is_empty : Bytes → Bool
  is_empty [] = true
  is_empty (b ∷ bs) = false

  unfoldable pub feed : Assembler → ReadChunk → Assembler × Result Error (List LogicalEvent)
  feed a c =
      if not (eqb c.sequence a.next_chunk_sequence)
      then (a, err chunk_out_of_sequence)
      else if is_negative c.byte_offset || is_empty c.content
      then (a, err invalid_chunk)
      else (let s = start_at a c in
          if not (eqb c.byte_offset s.next_byte_offset)
          then (s, err offset_mismatch)
          else if ltb s.max_buffer_bytes (length s.buffer + length c.content)
          then (s, err buffer_exceeded)
          else drain (suc (length (receive s c).buffer)) (receive s c) c.sequence [])

  -- The chunks of a stream, until one is refused, with all their events.
  unfoldable pub feed_all :
      Assembler → List ReadChunk → Assembler × Result Error (List LogicalEvent)
  feed_all a [] = (a, ok [])
  feed_all a (c ∷ cs) = elim (feed a c).1 [
    | err e ↦ ((feed a c).0, err e)
    | ok events ↦
        let (b, more) = feed_all (feed a c).0 cs in
        (b, elim more [ err e ↦ err e | ok later ↦ ok (events ++ later) ])
  ]

unfoldable pub finish : Assembler → StreamTail
finish a = record {
  buffered_bytes = length a.buffer;
  pending_fields = length a.current_fields;
  source_chunks = a.current_chunks;
}
