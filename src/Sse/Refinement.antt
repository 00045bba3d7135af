-- ===== src/Sse/Refinement.antt =====
-- The assembler of internal/recorder/sse.go and the byte-by-byte description: the reader that an
-- assembler stands for, and one line for both.
use agentapi_doctor.Common.{ℕ, List, [], ◌∷◌, Option, none, ◌≡◌, refl, arith, ap, sym, ◌∙◌, map}
use agentapi_doctor.Sse.{
  Bytes, Field, LogicalEvent, Assembler, make_event, apply_fields, apply_field, consume_line,
  dispatch,
}
use agentapi_doctor.Sse.Lines.{Reader, end_line}

-- An event without the record of the chunks that it came in.
abbrev pub without_chunks : LogicalEvent → LogicalEvent
without_chunks e = record e { source_chunks = [] }

-- The reader that an assembler stands for.
abbrev pub reader_of : Assembler → Reader
reader_of a = record {
  pending = a.buffer;
  line_offset = a.processed_offset;
  next_event = a.next_event_sequence;
  event_offset = a.current_offset;
  fields = a.current_fields;
}

module _ (parse_int : Bytes → Option ℕ) where
  apply_field_chunks :
      (e : LogicalEvent) (cs : List ℕ) (lines : List Bytes) (f : Field)
      → apply_field parse_int (record e { source_chunks = cs }) lines f ≡ (
        record (apply_field parse_int e lines f).0 { source_chunks = cs },
        (apply_field parse_int e lines f).1,
      )
  unfolding apply_field
  apply_field_chunks e cs lines f = ground arith

  apply_fields_chunks :
      (e : LogicalEvent) (cs : List ℕ) (lines : List Bytes) (fs : List Field)
      → apply_fields parse_int (record e { source_chunks = cs }) lines fs
        ≡ record (apply_fields parse_int e lines fs) { source_chunks = cs }
  unfolding apply_fields
  apply_fields_chunks e cs lines [] = refl
  apply_fields_chunks e cs lines (f ∷ fs) = ground (
    arith,
    apply_field_chunks e cs lines f,
    apply_fields_chunks (apply_field parse_int e lines f).0 cs (apply_field parse_int e lines f).1
        fs,
  )

  make_event_chunks :
      (n o : ℕ) (fs : List Field) (cs : List ℕ)
      → without_chunks (make_event parse_int n o fs cs) ≡ make_event parse_int n o fs []
  unfolding make_event
  make_event_chunks n o fs cs =
      ap without_chunks (apply_fields_chunks base cs [] fs)
      ∙ sym (apply_fields_chunks base [] [] fs)
    where
      base : LogicalEvent
      base = record {
        sequence = n;
        event_offset = o;
        event = [];
        payload = [];
        id = [];
        retry_millis = none;
        fields = fs;
        issues = [];
        source_chunks = [];
      }

  -- The assembler has the event at hand that the reader has.
  pub record Agrees (a : Assembler) (r : Reader) : Type 0 where
    pub next_event : a.next_event_sequence ≡ r.next_event
    pub event_offset : a.current_offset ≡ r.event_offset
    pub fields : a.current_fields ≡ r.fields

  -- The outcome of a line agrees, its events too, and the buffer is left alone.
  pub record Reads (a : Assembler) (o : Assembler × List LogicalEvent)
      (spec : Reader × List LogicalEvent) : Type 0 where
    pub agrees : Agrees o.0 spec.0
    pub events : map without_chunks o.1 ≡ spec.1
    pub buffer : o.0.buffer ≡ a.buffer
    pub processed : o.0.processed_offset ≡ a.processed_offset

  pub consume_line-Reads :
      (a : Assembler) (r : Reader) (line : Bytes)
      → Agrees a r
      → Reads a (consume_line parse_int a line r.line_offset) (end_line parse_int r line)
  unfolding consume_line dispatch end_line
  consume_line-Reads a r [] g = by_fields r.fields g.fields refl
    where
      by_fields :
          (fs : List Field)
          → a.current_fields ≡ fs
          → r.fields ≡ fs
          → Reads a (dispatch parse_int a) (end_line parse_int r [])
      by_fields [] e f = record {
        agrees = record {
          next_event = ground (arith, g.next_event);
          event_offset = ground (arith, g.event_offset);
          fields = ground arith;
        };
        events = ground arith;
        buffer = ground arith;
        processed = ground arith;
      }
      by_fields (x ∷ xs) e f = record {
        agrees = record {
          next_event = ground (arith, g.next_event);
          event_offset = ground (arith, g.event_offset);
          fields = ground arith;
        };
        events = ground (
          arith,
          g.next_event,
          g.event_offset,
          make_event_chunks a.next_event_sequence a.current_offset (x ∷ xs) a.current_chunks,
        );
        buffer = ground arith;
        processed = ground arith;
      }
  consume_line-Reads a r (c ∷ cs) g = record {
    agrees = record {
      next_event = ground (arith, g.next_event);
      event_offset = ground (arith, g.event_offset, g.fields);
      fields = ground (arith, g.fields);
    };
    events = ground arith;
    buffer = ground arith;
    processed = ground arith;
  }
