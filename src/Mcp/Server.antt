-- ===== src/Mcp/Server.antt =====
-- ts/src/mcp/server.ts: a server with one tool, `add`, whose results carry a receipt, and a round trip
-- of a client with it.
use veritrail.Prelude.{◌++◌, true, Option, none, some, if◌then◌else◌}
use veritrail.Platform.{Platform}
use veritrail.Text.{Str, Bytes, codes, str_eq}
use veritrail.Value.{Value, bool, num, str, arr, obj, nil, cons, Fields, end, field, prop}
use veritrail.Stringify.{json_string}
use veritrail.Outcome.{Outcome, pass, or_throw, ◌>>=◌}
use veritrail.Verify.{RegistryJwk}
use veritrail.Mcp.{
  TestSigner, KeyPair, generate_test_signer, BuildReceiptOptions, veritrail_tool_result,
}

-- The arithmetic of the engine that the tool calls.
pub record Arithmetic (p : Platform) : Type 0 where
  -- `Number(v)`, `none` where it throws.
  pub to_number : Value p.Num → Option p.Num
  -- `m + n`
  pub plus : p.Num → p.Num → p.Num
  -- `String(n)`
  pub number_string : p.Num → Str
  -- `Math.max(0, Math.round(t1 - t0))`
  pub elapsed : p.Num → p.Num → p.Num

-- `{ type: 'text', text }`
abbrev pub text_block : {N : Type 0} → Str → Value N
text_block text =
    obj (field (codes "type") (str (codes "text")) (field (codes "text") (str text) end))

-- `[{ type: 'text', text }]`
abbrev pub text_content : {N : Type 0} → Str → Value N
text_content text = arr (cons (text_block text) nil)

-- `{ [k]: v }`
abbrev pub single : {N : Type 0} → Str → Value N → Value N
single k v = obj (field k v end)

module _ {N : Type 0} where
  -- A property that may be missing.
  unfoldable pub optional_field : Str → Option Str → Fields N → Fields N
  optional_field k none fs = fs
  optional_field k (some s) fs = field k (str s) fs

  -- A JWK of the registry as an object, with the properties that it has.
  unfoldable pub jwk_value : RegistryJwk → Value N
  unfolding optional_field
  jwk_value jwk = obj (
      field (codes "kty") (str jwk.kty) (
        field (codes "crv") (str jwk.crv) (
          field (codes "x") (str jwk.x) (
            optional_field (codes "y") jwk.y (
              field (codes "alg") (str jwk.alg)
                (optional_field (codes "status") jwk.status end))))))

  -- What the handler of `tools/list` returns.
  abbrev pub tools : Value N
  tools = single (codes "tools") (
      arr (
        cons
          (obj (
            field (codes "name") (str (codes "add")) (
              field (codes "description")
                (str (codes "Add two numbers; emits a Veritrail receipt in _meta."))
                (field (codes "inputSchema")
                  (obj (
                    field (codes "type") (str (codes "object")) (
                      field (codes "properties")
                        (obj (
                          field (codes "a") (single (codes "type") (str (codes "number")))
                            (field (codes "b") (single (codes "type") (str (codes "number"))) end)))
                        (field (codes "required")
                          (arr (cons (str (codes "a")) (cons (str (codes "b")) nil))) end))))
                  end))))
          nil))

  -- The answer to a call of another tool.
  unfoldable pub unknown_tool : Str → Fields N
  unknown_tool name =
      field (codes "content") (text_content (codes "unknown tool: " ++ name))
        (field (codes "isError") (bool true) end)

  -- `request.params.arguments ?? {}`
  abbrev pub or_no_fields : Option (Fields N) → Fields N
  or_no_fields none = end
  or_no_fields (some fs) = fs

module _ (p : Platform) where
  open p use {Num}

  -- The parameters of a `tools/call` request.
  pub record ToolCall : Type 0 where
    pub name : Str
    pub arguments : Option (Fields Num)

  -- What the two readings of the clock and `randomBytes(16)` return in a call.
  pub record Moment : Type 0 where
    pub started : Num
    pub finished : Num
    pub nonce : Bytes

  pub record Server : Type 0 where
    pub instructions : Str
    pub list_tools : Value Num
    pub call_tool : Moment → ToolCall → Outcome Str (Fields Num)

  -- What `client.callTool` returns over a transport that is linked to a server, given what its
  -- handler of `tools/call` does.
  abbrev pub Transport : Type 0
  Transport = (ToolCall → Outcome Str (Fields Num)) → ToolCall → Outcome Str (Fields Num)

  pub record RoundTripOptions : Type 0 where
    pub signer : Option (TestSigner p)
    pub tool_name : Str
    pub a : Num
    pub b : Num

  pub record RoundTripResult : Type 0 where
    pub result : Fields Num
    pub signer : TestSigner p

  -- `opts.signer ?? generateTestSigner()`
  unfoldable pub or_generated : Option (TestSigner p) → KeyPair p → TestSigner p
  or_generated none pair = generate_test_signer p pair none none
  or_generated (some signer) pair = signer

  -- The request of the client.
  abbrev pub request : RoundTripOptions → ToolCall
  request opts = record {
    name = opts.tool_name;
    arguments = some (field (codes "a") (num opts.a) (field (codes "b") (num opts.b) end));
  }

  -- The registry that the server publishes.
  unfoldable pub published_keys : TestSigner p → Value Num
  unfolding jwk_value
  published_keys signer =
      single (codes "veritrail_keys")
        (single signer.performer_id (single signer.kid (jwk_value signer.public_jwk)))

  module _ (arithmetic : Arithmetic p) where
    open arithmetic use {to_number, plus, number_string, elapsed}

    -- `result`, before a receipt is attached.
    unfoldable pub sum_result : Num → Fields Num
    sum_result sum =
        field (codes "content") (text_content (number_string sum))
          (field (codes "structuredContent") (single (codes "sum") (num sum)) end)

    -- What the handler gives the middleware.
    abbrev pub add_options : TestSigner p → Moment → Fields Num → Num → BuildReceiptOptions p
    add_options signer moment params sum = record {
      signer = signer;
      tool_name = codes "add";
      params = obj params;
      result = sum_result sum;
      ts = none;
      wall_ms = some (number_string (elapsed moment.started moment.finished));
      nonce = moment.nonce;
    }

    -- The tool `add`.
    unfoldable pub add : TestSigner p → Moment → Fields Num → Outcome Str (Fields Num)
    unfolding sum_result or_throw
    add signer moment params = do
      a ← or_throw (to_number (prop (codes "a") params))
      b ← or_throw (to_number (prop (codes "b") params))
      pass (veritrail_tool_result p (add_options signer moment params (plus a b)))

    -- The handler of `tools/call`.
    unfoldable pub call_tool : TestSigner p → Moment → ToolCall → Outcome Str (Fields Num)
    unfolding add unknown_tool str_eq
    call_tool signer moment call =
        if str_eq call.name (codes "add")
        then add signer moment (or_no_fields call.arguments)
        else pass (unknown_tool call.name)

    -- `buildServer`
    unfoldable pub build_server : TestSigner p → Server
    unfolding call_tool published_keys json_string
    build_server signer = record {
      instructions = json_string p (published_keys signer);
      list_tools = tools;
      call_tool = call_tool signer;
    }

    -- `runRoundTrip`; `pair` is the key pair that it generates where it is given no signer.
    unfoldable pub run_round_trip :
        Transport → KeyPair p → Moment → RoundTripOptions → Outcome Str RoundTripResult
    unfolding build_server or_generated
    run_round_trip transport pair moment opts = do
      let signer = or_generated opts.signer pair
      result ← transport ((build_server signer).call_tool moment) (request opts)
      pass (record { result = result; signer = signer })
