-- ===== src/Sse/Blocks.antt =====
-- The events of ts/src/commands/sse-outputs-hash.ts against a description by blocks of lines.
use veritrail.Prelude.{
  ◌≡◌, refl, sym, ap, ◌∙◌, true, false, List, [], ◌∷◌, ◌++◌, append_assoc, append-nil, ◌==◌,
  if◌then◌else◌, inl, inr, Bool-cases, flat_map, flat_map-append, Bool, ℕ,
}
use veritrail.Text.{Str, codes, str_eq, join}
use veritrail.Sse.{
  EventState, cut_colon, strip_space, dispatch, take_field, take_line, take_lines, split_lines,
  events,
}

-- The data that a line gives, if it is a `data` field.
abbrev pub field_data : Str × Str → List Str
field_data (name, value) = if str_eq name (codes "data") then strip_space value ∷ [] else []

abbrev pub line_data : Str → List Str
line_data [] = []
line_data (c ∷ cs) = if c == b':' then [] else field_data (cut_colon (c ∷ cs))

-- The blocks of lines that a blank line ends; what follows the last blank line is in none.
unfoldable pub blocks_from : List Str → List Str → List (List Str)
blocks_from block [] = []
blocks_from block ([] ∷ lines) = block ∷ blocks_from [] lines
blocks_from block ((c ∷ cs) ∷ lines) = blocks_from (block ++ (c ∷ cs) ∷ []) lines

-- The data of a block makes one message, if there is any.
abbrev pub message : List Str → List Str
message [] = []
message (d ∷ ds) = join (codes "\n") (d ∷ ds) ∷ []

abbrev pub block_message : List Str → List Str
block_message block = message (flat_map line_data block)

dispatch-eq :
    (st : EventState)
    → dispatch st ≡ record { dispatched = st.dispatched ++ message st.data_buf; data_buf = [] }
unfolding dispatch
dispatch-eq st = go st.dispatched st.data_buf
  where
    go :
        (out buf : List Str)
        → dispatch (record { dispatched = out; data_buf = buf })
          ≡ record { dispatched = out ++ message buf; data_buf = [] }
    go out [] = rw (append-nil out)
    go out (d ∷ ds) = refl

field_step :
    (st : EventState) (name value : Str)
    → (if str_eq name (codes "data")
        then record { dispatched = st.dispatched; data_buf = st.data_buf ++ strip_space value ∷ [] }
        else st)
      ≡ record { dispatched = st.dispatched; data_buf = st.data_buf ++ field_data (name, value) }
field_step st name value = elim (Bool-cases (str_eq name (codes "data"))) [
  | inl k ↦ rw k
  | inr k ↦ rw (k, append-nil st.data_buf)
]

take_field-eq :
    (st : EventState) (line : Str)
    → take_field st line
      ≡ record { dispatched = st.dispatched; data_buf = st.data_buf ++ field_data (cut_colon line) }
unfolding take_field
take_field-eq st line = field_step st (cut_colon line).0 (cut_colon line).1

comment_or :
    (st field : EventState) (is_comment : Bool) (found : List Str)
    → field ≡ record { dispatched = st.dispatched; data_buf = st.data_buf ++ found }
    → (if is_comment then st else field) ≡ record {
      dispatched = st.dispatched;
      data_buf = st.data_buf ++ (if is_comment then [] else found);
    }
comment_or st field true found h = rw (append-nil st.data_buf)
comment_or st field false found h = h

take_line-eq :
    (st : EventState) (c : ℕ) (cs : Str)
    → take_line st (c ∷ cs)
      ≡ record { dispatched = st.dispatched; data_buf = st.data_buf ++ line_data (c ∷ cs) }
unfolding take_line
take_line-eq st c cs =
    comment_or st (take_field st (c ∷ cs)) (c == b':') (field_data (cut_colon (c ∷ cs)))
      (take_field-eq st (c ∷ cs))

take_lines-blocks :
    (st : EventState) (block lines : List Str)
    → st.data_buf ≡ flat_map line_data block
    → (take_lines st lines).dispatched
      ≡ st.dispatched ++ flat_map block_message (blocks_from block lines)
unfolding take_lines blocks_from take_line
take_lines-blocks st block [] h = sym (append-nil st.dispatched)
take_lines-blocks st block ([] ∷ lines) h =
    ap (λ s. (take_lines s lines).dispatched) (dispatch-eq st)
    ∙ take_lines-blocks
        (record { dispatched = st.dispatched ++ message st.data_buf; data_buf = [] }) [] lines refl
    ∙ ap (λ buf. (st.dispatched ++ message buf) ++ flat_map block_message (blocks_from [] lines)) h
    ∙ append_assoc st.dispatched (block_message block)
        (flat_map block_message (blocks_from [] lines))
take_lines-blocks st block ((c ∷ cs) ∷ lines) h =
    ap (λ s. (take_lines s lines).dispatched) (take_line-eq st c cs)
    ∙ take_lines-blocks
        (record { dispatched = st.dispatched; data_buf = st.data_buf ++ line_data (c ∷ cs) })
        (block ++ (c ∷ cs) ∷ []) lines
        (ap (λ buf. buf ++ line_data (c ∷ cs)) h
          ∙ ap (λ x. flat_map line_data block ++ x) (sym (append-nil (line_data (c ∷ cs))))
          ∙ sym (flat_map-append line_data block ((c ∷ cs) ∷ [])))

-- The events of a text are the messages of the blocks of its lines that a blank line ends and that
-- have a line of data, in order; where the data of those lines is empty, the message is the empty string.
pub events-blocks :
    (text : Str) → events text ≡ flat_map block_message (blocks_from [] (split_lines text))
unfolding events
events-blocks text =
    take_lines-blocks (record { dispatched = []; data_buf = [] }) [] (split_lines text) refl
