-- ===== src/Sse/Lines.antt =====
-- What a stream of server-sent events means, byte by byte and with no chunks: the description that
-- the assembler of internal/recorder/sse.go is held against.
use agentapi_doctor.Common.{
  ℕ, ◌+◌, List, [], ◌∷◌, ◌++◌, Option, none, some, ◌≡◌, refl, arith, ap, ◌∙◌, if◌then◌else◌, add64,
  eqb, length, ◌<◌, Bool-cases, inl, inr, Option-cases,
}
use mathlib.Core.List.{append_assoc, append-nil}
use agentapi_doctor.Sse.{Bytes, Field, LogicalEvent, parse_field, make_event}
use agentapi_doctor.Sse.Feed.{cut_line, strip_return, is_comment}

-- The bytes of the line at hand, where it begins, the fields of the event at hand and where that began.
pub record Reader : Type 0 where
  pub pending : Bytes
  pub line_offset : ℕ
  pub next_event : ℕ
  pub event_offset : ℕ
  pub fields : List Field

module _ (parse_int : Bytes → Option ℕ) where
  -- A line with its newline: the empty line ends the event, a comment is passed over, any other line
  -- is a field.
  unfoldable pub end_line : Reader → Bytes → Reader × List LogicalEvent
  end_line r [] = elim r.fields [
    | [] ↦ (r, [])
    | f ∷ fs ↦ (
      record r { next_event = add64 r.next_event 1; fields = [] },
      make_event parse_int r.next_event r.event_offset (f ∷ fs) [] ∷ [],
    )
  ]
  end_line r (b ∷ bs) = if is_comment (b ∷ bs) then (r, []) else (
    record r {
      event_offset = (elim r.fields [ [] ↦ r.line_offset | _ ∷ _ ↦ r.event_offset ]);
      fields = r.fields ++ parse_field (b ∷ bs) ∷ [];
    },
    [],
  )

  -- The line is over: the next one begins behind its newline.
  unfoldable pub end_raw_line : Reader → Bytes → Reader × List LogicalEvent
  end_raw_line r line =
      let (s, events) = end_line r (strip_return line) in
      (record s { pending = []; line_offset = add64 r.line_offset (length line + 1) }, events)

  unfoldable pub read_byte : Reader → ℕ → Reader × List LogicalEvent
  read_byte r b =
      if eqb b b'\n'
      then end_raw_line r r.pending
      else (record r { pending = r.pending ++ b ∷ [] }, [])

  unfoldable pub read : Reader → Bytes → Reader × List LogicalEvent
  read r [] = (r, [])
  read r (b ∷ bs) =
      let (s, events) = read_byte r b in let (t, more) = read s bs in (t, events ++ more)

  -- Reading on, with the events so far.
  abbrev pub then_read : Reader × List LogicalEvent → Bytes → Reader × List LogicalEvent
  then_read (r, events) bs = ((read r bs).0, events ++ (read r bs).1)

  pub read-append : (r : Reader) (xs ys : Bytes) → read r (xs ++ ys) ≡ then_read (read r xs) ys
  unfolding read
  read-append r [] ys = refl
  read-append r (x ∷ xs) ys = ground (
    arith,
    read-append (read_byte r x).0 xs ys,
    append_assoc (read_byte r x).1 (read (read_byte r x).0 xs).1
        (read (read (read_byte r x).0 xs).0 ys).1,
  )

  -- Bytes with no newline only lengthen the line at hand.
  pub read_no_newline :
      (r : Reader) (bs : Bytes)
      → cut_line bs ≡ none
      → read r bs ≡ (record r { pending = r.pending ++ bs }, [])
  unfolding read read_byte cut_line
  read_no_newline r [] h = ground (arith, append-nil r.pending)
  read_no_newline r (b ∷ bs) h = ground (
    arith,
    read_no_newline (record r { pending = r.pending ++ b ∷ [] }) bs,
    append_assoc r.pending (b ∷ []) bs,
  )

  end_line_pending :
      (r : Reader) (p : Bytes) (line : Bytes)
      → end_line (record r { pending = p }) line
        ≡ (record (end_line r line).0 { pending = p }, (end_line r line).1)
  unfolding end_line
  end_line_pending r p [] = ground arith
  end_line_pending r p (b ∷ bs) = ground arith

  -- Ending a line reads the line that it is given, and forgets the one at hand.
  pub end_raw_line_pending :
      (r : Reader) (p line : Bytes)
      → end_raw_line (record r { pending = p }) line ≡ end_raw_line r line
  unfolding end_raw_line
  end_raw_line_pending r p line = ground (arith, end_line_pending r p (strip_return line))

  -- Bytes with a newline end the line at hand there.
  pub read_newline :
      (r : Reader) (bs line rest : Bytes)
      → cut_line bs ≡ some (line, rest)
      → read r bs ≡ then_read (end_raw_line r (r.pending ++ line)) rest
  unfolding read read_byte cut_line
  read_newline r [] line rest h = cc
  read_newline r (b ∷ bs) line rest h = elim (Bool-cases (eqb b b'\n')) [
    | inl e ↦ ground (arith, append-nil r.pending)
    | inr e ↦ elim (Option-cases (cut_line bs)) [
      | inl k ↦ ground arith
      | inr ((l, q), k) ↦
          let r' : Reader = record r { pending = r.pending ++ b ∷ [] } in
          let first : read r (b ∷ bs) ≡ read r' bs = rw e refl in
          let rest_lem = read_newline r' bs l q k in
          let same = end_raw_line_pending r (r.pending ++ b ∷ []) (r'.pending ++ l) in
          let joined = append_assoc r.pending (b ∷ []) l in
          let whole : line ≡ b ∷ l = ground arith in
          let behind : rest ≡ q = ground arith in
          rw (whole, behind)
            (first ∙ rest_lem ∙ ap (λ o. then_read o q) (same ∙ ap (end_raw_line r) joined))
    ]
  ]

pub length-cut_line :
    (bs line rest : Bytes) → cut_line bs ≡ some (line, rest) → length rest < length bs
unfolding cut_line
length-cut_line [] line rest h = cc
length-cut_line (b ∷ bs) line rest h = elim (Option-cases (cut_line bs)) [
  | inl e ↦ ground arith
  | inr ((l, r), e) ↦ ground (arith, length-cut_line bs l r e)
]
