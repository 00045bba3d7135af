-- ===== src/Sse/Chunks.antt =====
-- The loop of `Feed` over the lines of the buffer (internal/recorder/sse.go), against the description.
use agentapi_doctor.Common.{
  ℕ, zero, suc, ◌<◌, List, [], ◌∷◌, ◌++◌, Option, none, some, ◌≡◌, refl, arith, ap, sym, ◌∙◌, map,
  length, inl, inr, Option-cases, ok, Result-cases, subst,
}
use mathlib.Core.List.{append_assoc, append-nil, map-append}
use agentapi_doctor.Sse.{Bytes, LogicalEvent, Assembler, Error, consume_line}
use agentapi_doctor.Sse.Feed.{cut_line, strip_return, take_line, count_line, feed_line, drain}
use agentapi_doctor.Sse.Lines.{
  Reader, end_raw_line, read, then_read, read_no_newline, read_newline, length-cut_line,
  end_raw_line_pending,
}
use agentapi_doctor.Sse.Refinement.{without_chunks, reader_of, Agrees, consume_line-Reads}

module _ (parse_int : Bytes → Option ℕ) where
  count_line_keeps :
      (a : Assembler) (line : Bytes)
      → (count_line a line).0 ≡ record a { current_bytes = (count_line a line).0.current_bytes }
  unfolding count_line
  count_line_keeps a [] = refl
  count_line_keeps a (b ∷ bs) = ground arith

  -- A turn of the loop makes of a line what the description makes of it, and leaves the rest.
  feed_line_reads :
      (a : Assembler) (chunk : ℕ) (line rest : Bytes) (events : List LogicalEvent)
      → (feed_line parse_int a chunk line rest).1 ≡ ok events
      → let spec = end_raw_line parse_int (reader_of a) line in
        (reader_of (feed_line parse_int a chunk line rest).0 ≡ record spec.0 { pending = rest })
        × (map without_chunks events ≡ spec.1)
  unfolding feed_line end_raw_line take_line
  feed_line_reads a chunk line rest events h = elim (Option-cases counted.1) [
    | inr (x, e) ↦ absurd (ground arith)
    | inl e ↦
        let o = consume_line parse_int counted.0 (strip_return line) a.processed_offset in
        let g = consume_line-Reads parse_int counted.0 (reader_of a) (strip_return line) agrees in
        let made : events ≡ o.1 = ground arith in
        let left : (feed_line parse_int a chunk line rest).0 ≡ o.0 = rw (e, feed_line) refl in
        (
          ground (
            arith, left, g.agrees.next_event, g.agrees.event_offset, g.agrees.fields, g.buffer,
            g.processed, keeps,
          ),
          rw made g.events,
        )
  ]
    where
      counted : Assembler × Option Error
      counted = count_line (take_line a chunk line rest) (strip_return line)

      keeps :
          counted.0
          ≡ record (take_line a chunk line rest) { current_bytes = counted.0.current_bytes }
      keeps = count_line_keeps (take_line a chunk line rest) (strip_return line)

      agrees : Agrees parse_int counted.0 (reader_of a)
      agrees = record {
        next_event = ground (arith, keeps);
        event_offset = ground (arith, keeps);
        fields = ground (arith, keeps);
      }

  -- A line that the buffer holds is read first, and then the rest.
  turn_reads :
      (a b a' : Assembler) (line rest : Bytes) (more events out : List LogicalEvent)
      → let start = record (reader_of a) { pending = [] } in
        let next = record (reader_of b) { pending = [] } in
        cut_line a.buffer ≡ some (line, rest)
        → reader_of b ≡ record (end_raw_line parse_int (reader_of a) line).0 { pending = rest }
        → map without_chunks more ≡ (end_raw_line parse_int (reader_of a) line).1
        → reader_of a' ≡ (read parse_int next b.buffer).0
        → map without_chunks out
          ≡ map without_chunks (events ++ more) ++ (read parse_int next b.buffer).1
        → (reader_of a' ≡ (read parse_int start a.buffer).0)
          × (map without_chunks out
              ≡ map without_chunks events ++ (read parse_int start a.buffer).1)
  turn_reads a b a' line rest more events out e left made reads gives = (
    reads ∙ ap (λ o. o.0) (sym whole),
    gives
        ∙ ap (λ l. l ++ (read parse_int next b.buffer).1) (map-append without_chunks events more)
        ∙ append_assoc (map without_chunks events) (map without_chunks more)
            (read parse_int next b.buffer).1
        ∙ ap (λ l. map without_chunks events ++ (l ++ (read parse_int next b.buffer).1)) made
        ∙ ap (λ o. map without_chunks events ++ o.1) (sym whole),
  )
    where
      start : Reader
      start = record (reader_of a) { pending = [] }

      next : Reader
      next = record (reader_of b) { pending = [] }

      ended : Reader × List LogicalEvent
      ended = end_raw_line parse_int (reader_of a) line

      is_next : ended.0 ≡ next
      is_next = unfold end_raw_line in ap (λ (r : Reader). record r { pending = [] }) (sym left)

      is_rest : rest ≡ b.buffer
      is_rest = ap (λ (r : Reader). r.pending) (sym left)

      whole :
          read parse_int start a.buffer
          ≡ ((read parse_int next b.buffer).0, ended.1 ++ (read parse_int next b.buffer).1)
      whole =
          read_newline parse_int start a.buffer line rest e
          ∙ ap (λ o. then_read parse_int o rest)
              (end_raw_line_pending parse_int (reader_of a) [] line)
          ∙ ap (λ r. ((read parse_int r rest).0, ended.1 ++ (read parse_int r rest).1)) is_next
          ∙ ap (λ bs. ((read parse_int next bs).0, ended.1 ++ (read parse_int next bs).1)) is_rest

  -- What an assembler and its new events are to a reader that has read on.
  abbrev pub Caught :
      Assembler → List LogicalEvent → List LogicalEvent → Reader × List LogicalEvent → Type 0
  Caught a events out spec =
      (reader_of a ≡ spec.0)
      × (map without_chunks out ≡ map without_chunks events ++ spec.1)
      × (cut_line a.buffer ≡ none)

  -- The loop reads the whole buffer, and leaves no newline in it.
  pub drain_reads :
      (fuel : ℕ) (a : Assembler) (chunk : ℕ) (events out : List LogicalEvent)
      → length a.buffer < fuel
      → (drain parse_int fuel a chunk events).1 ≡ ok out
      → Caught
          (drain parse_int fuel a chunk events).0
          events
          out
          (read parse_int (record (reader_of a) { pending = [] }) a.buffer)
  unfolding drain
  drain_reads zero a chunk events out enough h = elim enough [ ]
  drain_reads (suc fuel) a chunk events out enough h = elim (Option-cases (cut_line a.buffer)) [
    | inl e ↦ ground (
      arith,
      read_no_newline parse_int (record (reader_of a) { pending = [] }) a.buffer e,
      append-nil (map without_chunks events),
    )
    | inr ((line, rest), e) ↦ elim (Result-cases (feed_line parse_int a chunk line rest).1) [
      | inl (x, f) ↦ absurd (ground arith)
      | inr (more, f) ↦
          let b = (feed_line parse_int a chunk line rest).0 in
          let (left, made) = feed_line_reads a chunk line rest more f in
          let shorter = length-cut_line a.buffer line rest e in
          let less : length b.buffer < fuel =
            rw (ap (λ (r : Reader). r.pending) left) (omega arith) in
          let go_on : drain parse_int (suc fuel) a chunk events
              ≡ drain parse_int fuel b chunk (events ++ more) =
            rw (e, drain, f, drain) refl in
          let (reads, gives, none_left) =
            drain_reads fuel b chunk (events ++ more) out less (ap (λ o. o.1) (sym go_on) ∙ h) in
          let (all_read, all_given) =
            turn_reads a b (drain parse_int fuel b chunk (events ++ more)).0 line rest more events
              out e left made reads gives in
          subst
            (λ o.
              Caught o.0 events out
                (read parse_int (record (reader_of a) { pending = [] }) a.buffer))
            (sym go_on) (all_read, all_given, none_left)
    ]
  ]
