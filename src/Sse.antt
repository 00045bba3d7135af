-- ===== src/Sse.antt =====
-- internal/recorder/sse.go: the assembler of server-sent events. Bytes are numbers, Go's strings are
-- lists of bytes, and offsets are int64 bit patterns. `strconv.ParseInt` is the parameter `parse_int`;
-- its result is an int64, none on an error.
pub mod Feed
pub mod Lines
pub mod Refinement
pub mod Chunks
pub mod Streams
pub mod Tests
use agentapi_doctor.Common.{
  code_points, ℕ, zero, suc, ◌+◌, String, Bool, true, false, not, ◌&&◌, ◌||◌, List, [], ◌∷◌, ◌++◌,
  Option, none, some, ◌==◌, Eq, if◌then◌else◌, is_negative, add64, leb, ltb, eqb, nat_eq, Result,
  ok, err, length, last?, ◌↔◌, ◌≡◌, arith, refl, eqb_iff,
}

abbrev pub Bytes : Type 0
Bytes = List ℕ

unfoldable pub bytes_eq : Bytes → Bytes → Bool
bytes_eq [] [] = true
bytes_eq (x ∷ xs) (y ∷ ys) = eqb x y && bytes_eq xs ys
bytes_eq _ _ = false

pub record ReadChunk : Type 0 where
  pub sequence : ℕ
  pub byte_offset : ℕ
  pub content : Bytes

pub record Field : Type 0 where
  pub name : Bytes
  pub value : Bytes

pub data Issue : Type 0 where
  id_contains_nul invalid_retry : Issue

pub record LogicalEvent : Type 0 where
  pub sequence : ℕ
  pub event_offset : ℕ
  pub event : Bytes
  pub payload : Bytes
  pub id : Bytes
  pub retry_millis : Option ℕ
  pub fields : List Field
  pub issues : List Issue
  pub source_chunks : List ℕ

pub record StreamTail : Type 0 where
  pub buffered_bytes : ℕ
  pub pending_fields : ℕ
  pub source_chunks : List ℕ

pub record Assembler : Type 0 where
  pub max_buffer_bytes : ℕ
  pub buffer : Bytes
  pub next_chunk_sequence : ℕ
  pub next_byte_offset : ℕ
  pub started : Bool
  pub processed_offset : ℕ
  pub next_event_sequence : ℕ
  pub current_offset : ℕ
  pub current_bytes : ℕ
  pub current_fields : List Field
  pub current_chunks : List ℕ

pub data Error : Type 0 where
  chunk_out_of_sequence invalid_chunk offset_mismatch buffer_exceeded event_too_large
        too_many_fields out_of_fuel :
      Error

abbrev pub default_max_buffer : ℕ
default_max_buffer = 1048576

abbrev pub max_fields_per_event : ℕ
max_fields_per_event = 1024

-- `NewSSEAssembler`; the limit is an int.
unfoldable pub new : ℕ → Assembler
new max_bytes = record {
  max_buffer_bytes =
      if is_negative max_bytes || eqb max_bytes 0 then default_max_buffer else max_bytes;
  buffer = [];
  next_chunk_sequence = 1;
  next_byte_offset = 0;
  started = false;
  processed_offset = 0;
  next_event_sequence = 1;
  current_offset = 0;
  current_bytes = 0;
  current_fields = [];
  current_chunks = [];
}

-- `addCurrentChunk`.
unfoldable pub add_current_chunk : List ℕ → ℕ → List ℕ
add_current_chunk chunks sequence = elim (last? chunks) [
  | none ↦ chunks ++ sequence ∷ []
  | some n ↦ if eqb n sequence then chunks else chunks ++ sequence ∷ []
]

-- `strings.Cut` at a colon: the part before it, and the part behind it if there is one.
unfoldable pub cut_colon : Bytes → Bytes × Option Bytes
cut_colon [] = ([], none)
cut_colon (b ∷ bs) =
    let (name, value) = cut_colon bs in if eqb b b':' then ([], some bs) else (b ∷ name, value)

-- The value behind the colon, without one leading space.
abbrev trim_space : Bytes → Bytes
trim_space [] = []
trim_space (b ∷ bs) = if eqb b b' ' then bs else b ∷ bs

unfoldable pub parse_field : Bytes → Field
unfolding cut_colon
parse_field line =
    let (name, value) = cut_colon line in
    record { name = name; value = elim value [ none ↦ [] | some v ↦ trim_space v ] }

abbrev pub contains_nul : Bytes → Bool
contains_nul [] = false
contains_nul (b ∷ bs) = eqb b 0 || contains_nul bs

-- `strings.Join(data, "\n")`.
abbrev pub join_lines : List Bytes → Bytes
join_lines [] = []
join_lines (x ∷ []) = x
join_lines (x ∷ y ∷ xs) = x ++ b'\n' ∷ join_lines (y ∷ xs)

module _ (parse_int : Bytes → Option ℕ) where
  -- One turn of the loop of `dispatch` over the fields.
  unfoldable pub apply_field : LogicalEvent → List Bytes → Field → LogicalEvent × List Bytes
  apply_field e lines f =
      if bytes_eq f.name (code_points "event")
      then (record e { event = f.value }, lines)
      else if bytes_eq f.name (code_points "data")
      then (e, lines ++ f.value ∷ [])
      else if bytes_eq f.name (code_points "id")
      then (if contains_nul f.value
          then (record e { issues = e.issues ++ id_contains_nul ∷ [] }, lines)
          else (record e { id = f.value }, lines))
      else if bytes_eq f.name (code_points "retry")
      then (elim (parse_int f.value) [
        | none ↦ (record e { issues = e.issues ++ invalid_retry ∷ [] }, lines)
        | some n ↦
            if is_negative n
            then (record e { issues = e.issues ++ invalid_retry ∷ [] }, lines)
            else (record e { retry_millis = some n }, lines)
      ])
      else (e, lines)

  unfoldable pub apply_fields : LogicalEvent → List Bytes → List Field → LogicalEvent
  apply_fields e lines [] = record e { payload = join_lines lines }
  apply_fields e lines (f ∷ fs) =
      let (e', lines') = apply_field e lines f in apply_fields e' lines' fs

  -- The event that `dispatch` makes of the pending fields.
  unfoldable pub make_event : ℕ → ℕ → List Field → List ℕ → LogicalEvent
  make_event sequence offset fields chunks =
      apply_fields
        (record {
          sequence = sequence;
          event_offset = offset;
          event = [];
          payload = [];
          id = [];
          retry_millis = none;
          fields = fields;
          issues = [];
          source_chunks = chunks;
        })
        [] fields

  unfoldable pub dispatch : Assembler → Assembler × List LogicalEvent
  dispatch a = elim a.current_fields [
    | [] ↦ (record a { current_bytes = 0; current_chunks = [] }, [])
    | f ∷ fs ↦ (
      record a {
        next_event_sequence = add64 a.next_event_sequence 1;
        current_bytes = 0;
        current_fields = [];
        current_chunks = [];
      },
      make_event a.next_event_sequence a.current_offset (f ∷ fs) a.current_chunks ∷ [],
    )
  ]

  -- `consumeLine`: no event, or one.
  unfoldable pub consume_line : Assembler → Bytes → ℕ → Assembler × List LogicalEvent
  consume_line a [] start = dispatch a
  consume_line a (b ∷ bs) start = if eqb b b':' then (a, []) else (
    record a {
      current_offset = (elim a.current_fields [ [] ↦ start | _ ∷ _ ↦ a.current_offset ]);
      current_fields = a.current_fields ++ parse_field (b ∷ bs) ∷ [];
    },
    [],
  )
