-- ===== src/Sse.antt =====
-- ts/src/commands/sse-outputs-hash.ts: server-sent events decoded and hashed.
pub mod Blocks
pub mod Terminators
pub mod Coding
use veritrail.Prelude.{
  ℕ, Bool, ◌||◌, List, [], ◌∷◌, ◌++◌, Option, none, some, ◌==◌, if◌then◌else◌, ◌>>=◌,
}
use veritrail.Platform.{Platform}
use veritrail.Text.{Str, Bytes, codes, str_eq, join}
use veritrail.Text.Base64.{from_base64}
use veritrail.Text.Hex.{to_hex}
use veritrail.Text.Utf8.{lossy_utf8, encode_utf8}
use veritrail.Value.{Value, get, as_object}
use veritrail.Value.Json.{parse}
use veritrail.Jcs.{jcs_bytes}
use veritrail.Hash.{Reply, reply, error, digest_bytes}

-- The text after the last terminator is a line if it is not empty.
abbrev pub last_line : Str → List Str
last_line [] = []
last_line (c ∷ cs) = (c ∷ cs) ∷ []

abbrev pub is_break : ℕ → Bool
is_break c = c == b'\r' || c == b'\n'

-- The loop of `splitLines`; `line` is `text.slice(lineStart, i)`.
unfoldable pub lines_from : Str → Str → List Str
lines_from line [] = last_line line
lines_from line (c ∷ []) = if is_break c then line ∷ [] else last_line (line ++ c ∷ [])
lines_from line (c ∷ d ∷ cs) =
    let after_two = lines_from [] cs in
    let after_one = lines_from [] (d ∷ cs) in
    let longer = lines_from (line ++ c ∷ []) (d ∷ cs) in
    if c == b'\r'
    then line ∷ (if d == b'\n' then after_two else after_one)
    else if c == b'\n'
    then line ∷ after_one
    else longer

-- `splitLines`
unfoldable pub split_lines : Str → List Str
unfolding lines_from
split_lines text = lines_from [] text

pub record EventState : Type 0 where
  pub dispatched : List Str
  pub data_buf : List Str

-- The field name, and the text behind the first colon.
unfoldable pub cut_colon : Str → Str × Str
cut_colon [] = ([], [])
cut_colon (c ∷ cs) =
    let (name, value) = cut_colon cs in if c == b':' then ([], cs) else (c ∷ name, value)

unfoldable pub strip_space : Str → Str
strip_space [] = []
strip_space (c ∷ cs) = if c == b' ' then cs else c ∷ cs

-- A blank line: the event is dispatched if it has data, and the buffer is reset.
unfoldable pub dispatch : EventState → EventState
unfolding join
dispatch st = elim st.data_buf [
  | [] ↦ record st { data_buf = [] }
  | d ∷ ds ↦ record { dispatched = st.dispatched ++ join (codes "\n") (d ∷ ds) ∷ []; data_buf = [] }
]

-- A line that holds a field; only `data` counts.
unfoldable pub take_field : EventState → Str → EventState
unfolding cut_colon strip_space str_eq
take_field st line =
    let (name, value) = cut_colon line in
    if str_eq name (codes "data")
    then record st { data_buf = st.data_buf ++ strip_space value ∷ [] }
    else st

-- One round of the loop over the lines.
unfoldable pub take_line : EventState → Str → EventState
unfolding dispatch take_field
take_line st [] = dispatch st
take_line st (c ∷ cs) = if c == b':' then st else take_field st (c ∷ cs)

unfoldable pub take_lines : EventState → List Str → EventState
unfolding take_line
take_lines st [] = st
take_lines st (line ∷ lines) = take_lines (take_line st line) lines

-- A leading UTF-8 byte order mark is dropped.
unfoldable pub strip_bom : Bytes → Bytes
strip_bom (a ∷ b ∷ c ∷ rest) =
    if a == 0xef
    then (if b == 0xbb then (if c == 0xbf then rest else a ∷ b ∷ c ∷ rest) else a ∷ b ∷ c ∷ rest)
    else a ∷ b ∷ c ∷ rest
strip_bom raw = raw

-- `parseSse` on the decoded text.
unfoldable pub events : Str → List Str
unfolding take_lines split_lines
events text = (take_lines (record { dispatched = []; data_buf = [] }) (split_lines text)).dispatched

-- `parseSse`
unfoldable pub parse_sse : Bytes → List Str
unfolding events strip_bom lossy_utf8
parse_sse raw = events (lossy_utf8 (strip_bom raw))

pub data Mode : Type 0 where
  sse sse_jsonrpc : Mode

unfoldable pub mode_of : Str → Option Mode
unfolding str_eq
mode_of m =
    if str_eq m (codes "sse")
    then some sse
    else if str_eq m (codes "sse-jsonrpc")
    then some sse_jsonrpc
    else none

pub record SseOutput : Type 0 where
  pub decoded_hex : Str
  pub outputs_hash : Str

module _ (p : Platform) where
  -- The `result` of a JSON-RPC message, if there is one.
  unfoldable pub inner_result : Str → Option (Value p.Num)
  unfolding as_object get
  inner_result msg = do v ← parse p msg; fs ← as_object v; get (codes "result") fs

  unfoldable pub result_parts : List Str → List Bytes
  unfolding inner_result
  result_parts [] = []
  result_parts (msg ∷ msgs) = elim (inner_result msg) [
    | none ↦ result_parts msgs
    | some v ↦ jcs_bytes p v ∷ result_parts msgs
  ]

  -- The bytes that the hash commits to.
  unfoldable pub committed : Mode → List Str → Bytes
  unfolding result_parts encode_utf8 join
  committed sse msgs = encode_utf8 (join (codes "\n") msgs)
  committed sse_jsonrpc msgs = join (codes "\n") (result_parts msgs)

  unfoldable pub sse_output : Bytes → SseOutput
  unfolding to_hex
  sse_output bytes = record { decoded_hex = to_hex bytes; outputs_hash = digest_bytes p bytes }

  unfoldable pub in_mode : Option Mode → Str → Reply SseOutput
  unfolding committed sse_output parse_sse from_base64
  in_mode none raw_b64 = error (codes "unsupported_mode")
  in_mode (some mode) raw_b64 =
      reply (sse_output (committed mode (parse_sse (from_base64 raw_b64))))

  -- `sseOutputsHash`
  unfoldable pub sse_outputs_hash : Str → Str → Reply SseOutput
  unfolding in_mode mode_of
  sse_outputs_hash mode raw_b64 = in_mode (mode_of mode) raw_b64
