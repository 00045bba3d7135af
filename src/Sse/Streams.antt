-- ===== src/Sse/Streams.antt =====
-- Whole streams through the assembler of internal/recorder/sse.go.
use agentapi_doctor.Common.{
  ℕ, zero, suc, ◌<◌, true, List, [], ◌∷◌, ◌++◌, Option, none, some, ◌≡◌, ◌≢◌, refl, arith, ap, sym,
  ◌∙◌, map, length, inl, inr, Option-cases, ok, err, Result-cases, subst,
}
use mathlib.Core.List.{map-append}
use agentapi_doctor.Sse.{
  Bytes, LogicalEvent, ReadChunk, Assembler, new, out_of_fuel, consume_line, dispatch,
}
use agentapi_doctor.Sse.Feed.{
  cut_line, drain, start_at, receive, feed, feed_all, finish, feed_line, count_line, take_line,
  strip_return,
}
use agentapi_doctor.Sse.Lines.{
  Reader, read, then_read, read-append, read_no_newline, length-cut_line,
}
use agentapi_doctor.Sse.Refinement.{without_chunks, reader_of}
use agentapi_doctor.Sse.Chunks.{Caught, drain_reads}

-- The bytes of the chunks, joined.
abbrev pub contents : List ReadChunk → Bytes
contents [] = []
contents (c ∷ cs) = c.content ++ contents cs

-- The reader at the start of a stream.
abbrev pub reader_at : ℕ → Reader
reader_at offset = record {
  pending = [];
  line_offset = offset;
  next_event = 1;
  event_offset = 0;
  fields = [];
}

module _ (parse_int : Bytes → Option ℕ) where
  -- The part of `feed` behind its checks.
  feed_checked :
      (a : Assembler) (c : ReadChunk) (out : List LogicalEvent)
      → (feed parse_int a c).1 ≡ ok out
      → let s = start_at parse_int a c in
        feed parse_int a c
        ≡ drain parse_int
            (suc (length (receive parse_int s c).buffer))
            (receive parse_int s c)
            c.sequence
            []
  unfolding feed
  feed_checked a c out h = ground arith

  start_at_keeps :
      (a : Assembler) (c : ReadChunk)
      → ((start_at parse_int a c).buffer ≡ a.buffer)
        × ((start_at parse_int a c).started ≡ true)
        × (a.started ≡ true → start_at parse_int a c ≡ a)
  unfolding start_at
  start_at_keeps a c = ground arith

  -- One chunk: the reader reads the chunk's bytes.
  feed_reads :
      (a : Assembler) (c : ReadChunk) (out : List LogicalEvent)
      → cut_line a.buffer ≡ none
      → (feed parse_int a c).1 ≡ ok out
      → Caught parse_int
          (feed parse_int a c).0
          []
          out
          (read parse_int (reader_of (start_at parse_int a c)) c.content)
  unfolding receive
  feed_reads a c out clean h =
      subst (λ o. Caught parse_int o.0 [] out (read parse_int (reader_of s) c.content))
        (sym checked)
        (subst
          (Caught parse_int (drain parse_int fuel (receive parse_int s c) c.sequence []).0 [] out)
          whole drained)
    where
      s : Assembler
      s = start_at parse_int a c

      fuel : ℕ
      fuel = suc (length (receive parse_int s c).buffer)

      checked : feed parse_int a c ≡ drain parse_int fuel (receive parse_int s c) c.sequence []
      checked = feed_checked a c out h

      begin : Reader
      begin = record (reader_of s) { pending = [] }

      drained :
          Caught parse_int
            (drain parse_int fuel (receive parse_int s c) c.sequence []).0
            []
            out
            (read parse_int begin (s.buffer ++ c.content))
      drained =
          drain_reads parse_int fuel (receive parse_int s c) c.sequence [] out (omega arith)
            (ap (λ o. o.1) (sym checked) ∙ h)

      clean_start : cut_line s.buffer ≡ none
      clean_start = ap cut_line (start_at_keeps a c).0 ∙ clean

      whole : read parse_int begin (s.buffer ++ c.content) ≡ read parse_int (reader_of s) c.content
      whole =
          read-append parse_int begin s.buffer c.content
          ∙ ap (λ o. then_read parse_int o c.content)
              (read_no_newline parse_int begin s.buffer clean_start)

  consume_line_started :
      (a : Assembler) (line : Bytes) (start : ℕ)
      → (consume_line parse_int a line start).0.started ≡ a.started
  unfolding consume_line dispatch
  consume_line_started a [] start = ground arith
  consume_line_started a (b ∷ bs) start = ground arith

  count_line_started : (a : Assembler) (line : Bytes) → (count_line a line).0.started ≡ a.started
  unfolding count_line
  count_line_started a [] = refl
  count_line_started a (b ∷ bs) = ground arith

  feed_line_started :
      (a : Assembler) (chunk : ℕ) (line rest : Bytes)
      → (feed_line parse_int a chunk line rest).0.started ≡ a.started
  unfolding feed_line take_line
  feed_line_started a chunk line rest =
      let taken = take_line a chunk line rest in
      let counted = (count_line taken (strip_return line)).0 in
      ground (
        arith,
        count_line_started taken (strip_return line),
        consume_line_started counted (strip_return line) a.processed_offset,
      )

  drain_started :
      (fuel : ℕ) (a : Assembler) (chunk : ℕ) (events : List LogicalEvent)
      → (drain parse_int fuel a chunk events).0.started ≡ a.started
  unfolding drain
  drain_started zero a chunk events = refl
  drain_started (suc fuel) a chunk events = elim (Option-cases (cut_line a.buffer)) [
    | inl e ↦ ground arith
    | inr ((line, rest), e) ↦
        let o = feed_line parse_int a chunk line rest in
        let step = feed_line_started a chunk line rest in
        elim (Result-cases o.1) [
          | inl (x, f) ↦ ground arith
          | inr (more, f) ↦ ground (arith, drain_started fuel o.0 chunk (events ++ more))
        ]
  ]

  started_stays :
      (a : Assembler) (c : ReadChunk) (out : List LogicalEvent)
      → (feed parse_int a c).1 ≡ ok out
      → (feed parse_int a c).0.started ≡ true
  unfolding receive
  started_stays a c out h =
      let r = receive parse_int (start_at parse_int a c) c in
      ap (λ o. o.0.started) (feed_checked a c out h)
      ∙ drain_started (suc (length r.buffer)) r c.sequence []
      ∙ (start_at_keeps a c).1

  -- The reader `r` has read the chunks, with their events.
  abbrev pub AllRead : Assembler → List ReadChunk → List LogicalEvent → Reader → Type 0
  AllRead a cs out r =
      (reader_of (feed_all parse_int a cs).0 ≡ (read parse_int r (contents cs)).0)
      × (map without_chunks out ≡ (read parse_int r (contents cs)).1)

  -- A chunk and then the rest, once the rest is read.
  feed_then :
      (a : Assembler) (c : ReadChunk) (cs : List ReadChunk) (out : List LogicalEvent)
      → let b = (feed parse_int a c).0 in
        cut_line a.buffer ≡ none
        → (feed_all parse_int a (c ∷ cs)).1 ≡ ok out
        → ((later : List LogicalEvent)
            → cut_line b.buffer ≡ none
            → b.started ≡ true
            → (feed_all parse_int b cs).1 ≡ ok later
            → AllRead b cs later (reader_of b))
        → AllRead a (c ∷ cs) out (reader_of (start_at parse_int a c))
  unfolding feed_all
  feed_then a c cs out clean h go_on = elim (Result-cases (feed parse_int a c).1) [
    | inl (x, e) ↦ absurd (ground arith)
    | inr (events, e) ↦
        let b = (feed parse_int a c).0 in
        let start = reader_of (start_at parse_int a c) in
        let (reads, gives, clean_b) = feed_reads a c events clean e in
        elim (Result-cases (feed_all parse_int b cs).1) [
          | inl (x, f) ↦ absurd (ground arith)
          | inr (later, f) ↦
              let (reads_on, gives_on) = go_on later clean_b (started_stays a c events e) f in
              let pair : read parse_int start c.content ≡ (reader_of b, map without_chunks events) =
                ground (arith, reads, gives) in
              let both =
                read-append parse_int start c.content (contents cs)
                ∙ ap (λ o. then_read parse_int o (contents cs)) pair in
              let made : out ≡ events ++ later = ground arith in
              let ends : (feed_all parse_int a (c ∷ cs)).0 ≡ (feed_all parse_int b cs).0 =
                ground arith in
              (
                ap reader_of ends ∙ reads_on ∙ ap (λ o. o.0) (sym both),
                ap (map without_chunks) made
                    ∙ map-append without_chunks events later
                    ∙ ap (λ l. map without_chunks events ++ l) gives_on
                    ∙ ap (λ o. o.1) (sym both),
              )
        ]
  ]

  feed_all_from :
      (a : Assembler) (cs : List ReadChunk) (out : List LogicalEvent)
      → cut_line a.buffer ≡ none
      → a.started ≡ true
      → (feed_all parse_int a cs).1 ≡ ok out
      → AllRead a cs out (reader_of a)
  unfolding feed_all read
  feed_all_from a [] out clean on h = ground arith
  feed_all_from a (c ∷ cs) out clean on h =
      subst (λ s. AllRead a (c ∷ cs) out (reader_of s)) ((start_at_keeps a c).2 on)
        (feed_then a c cs out clean h (feed_all_from (feed parse_int a c).0 cs))

  -- When the assembler accepts all chunks of a stream, its state and its events, but for the record
  -- of the chunks they came in, are those of the byte-by-byte description on the joined bytes, from
  -- the offset of the first chunk.
  pub feed_all_reads :
      (limit : ℕ) (c : ReadChunk) (cs : List ReadChunk) (out : List LogicalEvent)
      → (feed_all parse_int (new limit) (c ∷ cs)).1 ≡ ok out
      → AllRead (new limit) (c ∷ cs) out (reader_at c.byte_offset)
  unfolding new start_at cut_line
  feed_all_reads limit c cs out h =
      feed_then (new limit) c cs out refl h (feed_all_from (feed parse_int (new limit) c).0 cs)

  -- Two streams of accepted chunks with the same bytes from the same offset, cut and limited as they
  -- may be, give the same events, but for the record of the chunks they came in, and end with as many
  -- buffered bytes and pending fields.
  pub rechunking_invariant :
      (limit limit' : ℕ) (c d : ReadChunk) (cs ds : List ReadChunk) (out out' : List LogicalEvent)
      → c.byte_offset ≡ d.byte_offset
      → contents (c ∷ cs) ≡ contents (d ∷ ds)
      → (feed_all parse_int (new limit) (c ∷ cs)).1 ≡ ok out
      → (feed_all parse_int (new limit') (d ∷ ds)).1 ≡ ok out'
      → let tail = finish (feed_all parse_int (new limit) (c ∷ cs)).0 in
        let tail' = finish (feed_all parse_int (new limit') (d ∷ ds)).0 in
        (map without_chunks out ≡ map without_chunks out')
        × (tail.buffered_bytes ≡ tail'.buffered_bytes)
        × (tail.pending_fields ≡ tail'.pending_fields)
  unfolding finish
  rechunking_invariant limit limit' c d cs ds out out' offset bytes h h' =
      let (r, e) = feed_all_reads limit c cs out h in
      let (r', e') = feed_all_reads limit' d ds out' h' in
      let same =
        ap (λ bs. read parse_int (reader_at c.byte_offset) bs) bytes
        ∙ ap (λ o. read parse_int (reader_at o) (contents (d ∷ ds))) offset in
      let states = r ∙ ap (λ o. o.0) same ∙ sym r' in
      (
        e ∙ ap (λ o. o.1) same ∙ sym e',
        ap (λ (s : Reader). length s.pending) states,
        ap (λ (s : Reader). length s.fields) states,
      )

  consume_line_buffer :
      (a : Assembler) (line : Bytes) (start : ℕ)
      → (consume_line parse_int a line start).0.buffer ≡ a.buffer
  unfolding consume_line dispatch
  consume_line_buffer a [] start = ground arith
  consume_line_buffer a (b ∷ bs) start = ground arith

  count_line_buffer :
      (a : Assembler) (line : Bytes)
      → ((count_line a line).0.buffer ≡ a.buffer) × ((count_line a line).1 ≢ some out_of_fuel)
  unfolding count_line
  count_line_buffer a [] = ground arith
  count_line_buffer a (b ∷ bs) = ground arith

  -- A turn leaves the bytes behind its line, whatever becomes of the line.
  feed_line_rest :
      (a : Assembler) (chunk : ℕ) (line rest : Bytes)
      → ((feed_line parse_int a chunk line rest).0.buffer ≡ rest)
        × ((feed_line parse_int a chunk line rest).1 ≢ err out_of_fuel)
  unfolding feed_line take_line
  feed_line_rest a chunk line rest =
      let taken = take_line a chunk line rest in
      let counted = (count_line taken (strip_return line)).0 in
      let (kept, fine) = count_line_buffer taken (strip_return line) in
      ground (arith, kept, fine, consume_line_buffer counted (strip_return line) a.processed_offset)

  -- The loop has fuel enough: a turn takes a line and its newline from the buffer.
  drain_returns :
      (fuel : ℕ) (a : Assembler) (chunk : ℕ) (events : List LogicalEvent)
      → length a.buffer < fuel
      → (drain parse_int fuel a chunk events).1 ≢ err out_of_fuel
  unfolding drain
  drain_returns zero a chunk events h = elim h [ ]
  drain_returns (suc fuel) a chunk events h = elim (Option-cases (cut_line a.buffer)) [
    | inl e ↦ ground arith
    | inr ((line, rest), e) ↦
        let o = feed_line parse_int a chunk line rest in
        let (left, fine) = feed_line_rest a chunk line rest in
        let shorter = length-cut_line a.buffer line rest e in
        elim (Result-cases o.1) [
          | inl (x, f) ↦ ground (arith, fine)
          | inr (more, f) ↦
              let less : length o.0.buffer < fuel = rw left (omega arith) in
              ground (arith, drain_returns fuel o.0 chunk (events ++ more) less)
        ]
  ]

  -- Taking a chunk always ends with events or with an error of the code: the loop's fuel is never
  -- used up, whatever the assembler and the chunk.
  pub feed_returns : (a : Assembler) (c : ReadChunk) → (feed parse_int a c).1 ≢ err out_of_fuel
  unfolding feed
  feed_returns a c =
      let r = receive parse_int (start_at parse_int a c) c in
      ground (arith, drain_returns (suc (length r.buffer)) r c.sequence [] (omega arith))
