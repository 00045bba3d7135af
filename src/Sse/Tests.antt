-- ===== src/Sse/Tests.antt =====
-- Streams through the assembler of internal/recorder/sse.go, and its theorems at them.
use agentapi_doctor.Common.{
  code_points, ℕ, ◌≡◌, ◌≢◌, List, [], ◌∷◌, Option, none, refl, ok, err, map,
}
use agentapi_doctor.Sse.{
  Bytes, LogicalEvent, ReadChunk, new, consume_line, dispatch, parse_field, cut_colon, make_event,
  apply_fields, apply_field, bytes_eq, add_current_chunk, out_of_fuel,
}
use agentapi_doctor.Sse.Feed.{
  cut_line, strip_return, take_line, count_line, feed_line, drain, start_at, receive, feed,
  feed_all, finish,
}
use agentapi_doctor.Sse.Refinement.{without_chunks}
use agentapi_doctor.Sse.Streams.{
  reader_at, AllRead, feed_all_reads, rechunking_invariant, feed_returns,
}

abbrev no_ints : Bytes → Option ℕ
no_ints _ = none

abbrev first : ReadChunk
first = record { sequence = 1; byte_offset = 7; content = code_points "data: a\n\nid" }

abbrev left : ReadChunk
left = record { sequence = 1; byte_offset = 7; content = code_points "dat" }

abbrev right : ReadChunk
right = record { sequence = 2; byte_offset = 10; content = code_points "a: a\n\nid" }

abbrev event : List ℕ → LogicalEvent
event chunks = record {
  sequence = 1;
  event_offset = 7;
  event = [];
  payload = code_points "a";
  id = [];
  retry_millis = none;
  fields = record { name = code_points "data"; value = code_points "a" } ∷ [];
  issues = [];
  source_chunks = chunks;
}

whole_accepted : (feed_all no_ints (new 64) (first ∷ [])).1 ≡ ok (event (1 ∷ []) ∷ [])
unfolding new consume_line dispatch parse_field cut_colon make_event apply_fields apply_field
    bytes_eq add_current_chunk cut_line strip_return take_line count_line feed_line drain start_at
    receive feed feed_all
whole_accepted = refl

cut_accepted : (feed_all no_ints (new 32) (left ∷ right ∷ [])).1 ≡ ok (event (1 ∷ 2 ∷ []) ∷ [])
unfolding new consume_line dispatch parse_field cut_colon make_event apply_fields apply_field
    bytes_eq add_current_chunk cut_line strip_return take_line count_line feed_line drain start_at
    receive feed feed_all
cut_accepted = refl

feed_all_reads_example :
    AllRead no_ints (new 32) (left ∷ right ∷ []) (event (1 ∷ 2 ∷ []) ∷ []) (reader_at 7)
feed_all_reads_example =
    feed_all_reads no_ints 32 left (right ∷ []) (event (1 ∷ 2 ∷ []) ∷ []) cut_accepted

rechunking_invariant_example :
    let tail = finish (feed_all no_ints (new 64) (first ∷ [])).0 in
    let tail' = finish (feed_all no_ints (new 32) (left ∷ right ∷ [])).0 in
    (map without_chunks (event (1 ∷ []) ∷ []) ≡ map without_chunks (event (1 ∷ 2 ∷ []) ∷ []))
    × (tail.buffered_bytes ≡ tail'.buffered_bytes)
    × (tail.pending_fields ≡ tail'.pending_fields)
rechunking_invariant_example =
    rechunking_invariant no_ints 64 32 first left [] (right ∷ []) (event (1 ∷ []) ∷ [])
      (event (1 ∷ 2 ∷ []) ∷ []) refl refl whole_accepted cut_accepted

feed_returns_example : (feed no_ints (new 32) left).1 ≢ err out_of_fuel
feed_returns_example = feed_returns no_ints (new 32) left
