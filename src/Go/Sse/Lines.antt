-- ===== src/Go/Sse/Lines.antt =====
-- go/veritrail.go `SSEDecode` on any sequence of codes, against the events of
-- ts/src/commands/sse-outputs-hash.ts on the same sequence.
use veritrail.Prelude.{
  ℕ, suc, Bool, ◌≡◌, refl, ap, ◌∙◌, true, false, List, [], ◌∷◌, ◌++◌, Option, none, some, ◌==◌,
  if◌then◌else◌, inl, inr, Bool-cases,
}
use veritrail.Text.{Str, Bytes, codes, str_eq}
use veritrail.Sse.{
  EventState, is_break, last_line, lines_from, cut_colon, strip_space, take_field, take_line,
  take_lines, events,
}
use veritrail.Sse
use veritrail.Go.Sse.{
  Decoding, split_lines, index_byte, skip_space, field_value, dispatch, append_data, decode_line,
  field_at, decode_lines, decode_text,
}

-- The state of one loop as that of the other.
abbrev decoding : EventState → Decoding
decoding st = record { messages = st.dispatched; data_buf = st.data_buf }

skip_space-eq : (s : Bytes) → skip_space s ≡ strip_space s
unfolding skip_space strip_space
skip_space-eq [] = refl
skip_space-eq (c ∷ s) = refl

field_at-suc :
    (c : ℕ) (cs : Bytes) (o : Option ℕ)
    → field_at (c ∷ cs) (elim o [ none ↦ none | some i ↦ some (suc i) ])
      ≡ (c ∷ (field_at cs o).0, (field_at cs o).1)
unfolding field_at
field_at-suc c cs none = refl
field_at-suc c cs (some i) = refl

field_value-cut_colon :
    (line : Bytes) → field_value line ≡ ((cut_colon line).0, strip_space (cut_colon line).1)
unfolding field_value index_byte cut_colon
field_value-cut_colon [] = unfold field_at strip_space in refl
field_value-cut_colon (c ∷ cs) = elim (Bool-cases (c == b':')) [
  | inl e ↦ rw e (unfold field_at in ap (λ v. ([], v)) (skip_space-eq cs))
  | inr e ↦
      rw e (
        field_at-suc c cs (index_byte cs b':')
        ∙ ap (λ q. (c ∷ q.0, q.1)) (field_value-cut_colon cs))
]

dispatch-eq : (st : EventState) → dispatch (decoding st) ≡ decoding (Sse.dispatch st)
unfolding dispatch Sse.dispatch
dispatch-eq st = go st.dispatched st.data_buf
  where
    go :
        (out buf : List Str)
        → dispatch (record { messages = out; data_buf = buf })
          ≡ decoding (Sse.dispatch (record { dispatched = out; data_buf = buf }))
    go out [] = refl
    go out (d ∷ ds) = refl

-- Both sides of a test, in both states.
decoding-if :
    (b : Bool) (x y : EventState) (y' : Decoding)
    → y' ≡ decoding y
    → (if b then decoding x else y') ≡ decoding (if b then x else y)
decoding-if true x y y' h = refl
decoding-if false x y y' h = h

kept_if :
    (b : Bool) (x y z : EventState)
    → z.dispatched ≡ x.dispatched
    → z.dispatched ≡ y.dispatched
    → z.dispatched ≡ (if b then x else y).dispatched
kept_if true x y z h k = h
kept_if false x y z h k = k

append_data-take_field :
    (st : EventState) (line : Str)
    → append_data (decoding st) (field_value line) ≡ decoding (take_field st line)
unfolding append_data take_field
append_data-take_field st line = rw (field_value-cut_colon line) (
    decoding-if (str_eq (cut_colon line).0 (codes "data"))
      (record st { data_buf = st.data_buf ++ strip_space (cut_colon line).1 ∷ [] }) st (decoding st)
      refl)

decode_line-take_line :
    (st : EventState) (line : Str) → decode_line (decoding st) line ≡ decoding (take_line st line)
unfolding decode_line take_line
decode_line-take_line st [] = dispatch-eq st
decode_line-take_line st (c ∷ cs) =
    decoding-if (c == b':') st (take_field st (c ∷ cs)) _ (append_data-take_field st (c ∷ cs))

unended_field : (st : EventState) (line : Str) → st.dispatched ≡ (take_field st line).dispatched
unfolding take_field
unended_field st line =
    kept_if (str_eq (cut_colon line).0 (codes "data"))
      (record st { data_buf = st.data_buf ++ strip_space (cut_colon line).1 ∷ [] }) st st refl refl

-- One line more, and the rest of the loop.
next_line :
    (st : EventState) (line : Str) (lines : List Bytes) (rest : List Str)
    → ((st' : EventState)
        → (decode_lines (decoding st') lines).messages ≡ (take_lines st' rest).dispatched)
    → (decode_lines (decoding st) (line ∷ lines)).messages
      ≡ (take_lines st (line ∷ rest)).dispatched
unfolding decode_lines take_lines
next_line st line lines rest h =
    ap (λ d. (decode_lines d lines).messages) (decode_line-take_line st line)
    ∙ h (take_line st line)

no_lines :
    (st : EventState) → (decode_lines (decoding st) []).messages ≡ (take_lines st []).dispatched
unfolding decode_lines take_lines
no_lines st = refl

abbrev AgreesFrom : Str → Str → Type 0
AgreesFrom line s =
    (st : EventState)
    → (decode_lines (decoding st) (split_lines line s)).messages
      ≡ (take_lines st (lines_from line s)).dispatched

next_from :
    (st : EventState) (line s : Str)
    → AgreesFrom [] s
    → (decode_lines (decoding st) (line ∷ split_lines [] s)).messages
      ≡ (take_lines st (line ∷ lines_from [] s)).dispatched
next_from st line s = next_line st line (split_lines [] s) (lines_from [] s)

-- A line without an end is read as one by the first loop only, and dispatches nothing.
unended :
    (st : EventState) (line : Str) → st.dispatched ≡ (take_lines st (last_line line)).dispatched
unfolding take_lines take_line
unended st [] = refl
unended st (c ∷ cs) =
    kept_if (c == b':') st (take_field st (c ∷ cs)) st refl (unended_field st (c ∷ cs))

-- Both loops give the same messages, from every state.
decode_lines-take_lines : (line s : Str) → AgreesFrom line s
unfolding split_lines lines_from decode_lines
decode_lines-take_lines line [] st = unended st line
decode_lines-take_lines line (c ∷ []) st = elim (Bool-cases (c == b'\r')) [
  | inl r ↦ rw r (next_line st line [] [] no_lines)
  | inr r ↦ elim (Bool-cases (c == b'\n')) [
    | inl f ↦ rw (r, f) (next_line st line [] [] no_lines)
    | inr f ↦ rw (r, f) (unended st (line ++ c ∷ []))
  ]
]
decode_lines-take_lines line (c ∷ d ∷ cs) st =
    let after_two = decode_lines-take_lines [] cs in
    let after_one = decode_lines-take_lines [] (d ∷ cs) in
    let longer = decode_lines-take_lines (line ++ c ∷ []) (d ∷ cs) in
    elim (Bool-cases (c == b'\r')) [
      | inl r ↦ elim (Bool-cases (d == b'\n')) [
        | inl f ↦ rw (r, f) (next_from st line cs after_two)
        | inr f ↦ rw (r, f) (next_from st line (d ∷ cs) after_one)
      ]
      | inr r ↦ elim (Bool-cases (c == b'\n')) [
        | inl f ↦ rw (r, f) (next_from st line (d ∷ cs) after_one)
        | inr f ↦ rw (r, f) (longer st)
      ]
    ]

-- `SSEDecode` on a sequence of codes without a byte order mark.
pub decode_text-events : (s : Str) → decode_text s ≡ events s
unfolding decode_text events Sse.split_lines
decode_text-events s = decode_lines-take_lines [] s (record { dispatched = []; data_buf = [] })
