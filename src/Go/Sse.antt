-- ===== src/Go/Sse.antt =====
-- go/veritrail.go: `SSEDecode` and `splitLines`, on the bytes of a stream; a Go string is its bytes.
pub mod Lines
pub mod Agreement
use veritrail.Prelude.{
  ℕ, suc, ◌+◌, List, [], ◌∷◌, ◌++◌, Option, none, some, ◌==◌, if◌then◌else◌, take, drop,
}
use veritrail.Text.{Bytes, codes, str_eq, join}
use veritrail.Sse.{strip_bom}

-- `splitLines`; `line` is `data[start:i]`, and what no terminator ends is no line.
unfoldable pub split_lines : Bytes → Bytes → List Bytes
split_lines line [] = []
split_lines line (b ∷ []) = if b == b'\r' then line ∷ [] else if b == b'\n' then line ∷ [] else []
split_lines line (b ∷ d ∷ bs) =
    let after_two = split_lines [] bs in
    let after_one = split_lines [] (d ∷ bs) in
    let longer = split_lines (line ++ b ∷ []) (d ∷ bs) in
    if b == b'\r'
    then line ∷ (if d == b'\n' then after_two else after_one)
    else if b == b'\n'
    then line ∷ after_one
    else longer

-- The variables of the loop over the lines.
pub record Decoding : Type 0 where
  pub messages : List Bytes
  pub data_buf : List Bytes

-- `strings.IndexByte(s, b)`, `none` for -1.
unfoldable pub index_byte : Bytes → ℕ → Option ℕ
index_byte [] b = none
index_byte (c ∷ cs) b =
    let later = index_byte cs b in
    if c == b then some 0 else elim later [ none ↦ none | some i ↦ some (suc i) ]

-- `if len(rest) > 0 && rest[0] == ' ' { rest = rest[1:] }`
unfoldable pub skip_space : Bytes → Bytes
skip_space [] = []
skip_space (c ∷ rest) = if c == b' ' then rest else c ∷ rest

-- The field name and the value of a line, with the place of the first colon.
unfoldable pub field_at : Bytes → Option ℕ → Bytes × Bytes
unfolding skip_space
field_at line none = (line, [])
field_at line (some idx) = (take idx line, skip_space (drop (suc idx) line))

unfoldable pub field_value : Bytes → Bytes × Bytes
unfolding index_byte field_at
field_value line = field_at line (index_byte line b':')

-- A blank line.
unfoldable pub dispatch : Decoding → Decoding
unfolding join
dispatch st = elim st.data_buf [
  | [] ↦ st
  | d ∷ ds ↦ record { messages = st.messages ++ join (codes "\n") (d ∷ ds) ∷ []; data_buf = [] }
]

-- `switch field`
unfoldable pub append_data : Decoding → Bytes × Bytes → Decoding
unfolding str_eq
append_data st (field, value) =
    if str_eq field (codes "data") then record st { data_buf = st.data_buf ++ value ∷ [] } else st

-- One round of the loop over the lines.
unfoldable pub decode_line : Decoding → Bytes → Decoding
unfolding dispatch field_value append_data
decode_line st [] = dispatch st
decode_line st (c ∷ cs) = if c == b':' then st else append_data st (field_value (c ∷ cs))

unfoldable pub decode_lines : Decoding → List Bytes → Decoding
unfolding decode_line
decode_lines st [] = st
decode_lines st (line ∷ lines) = decode_lines (decode_line st line) lines

unfoldable pub decode_text : Bytes → List Bytes
unfolding decode_lines split_lines
decode_text raw =
    (decode_lines (record { messages = []; data_buf = [] }) (split_lines [] raw)).messages

-- `SSEDecode`
unfoldable pub sse_decode : Bytes → List Bytes
unfolding decode_text strip_bom
sse_decode raw = decode_text (strip_bom raw)
