-- ===== src/Lib.antt =====
-- Veritrail signs what an agent did as a receipt, a compact JWS over canonical JSON, and verifies
-- receipts and chains of them. This library models the TypeScript implementation under ts/src, the
-- script conformance/compare.mjs and, of the second implementation under go, what verifies receipts
-- and chains and what decodes streams.
--
-- Text models strings as UTF-16 code units and buffers as bytes, with the decoders that the
-- commands call: Text/Base64 (b64urlDecode of ts/src/commands/verify.ts, Buffer.from), Text/Utf8
-- (strictUtf8 of the same file, toString('utf8')), Text/Hex. Value has the JavaScript values that
-- JSON.parse makes; Value/Json is JSON.parse and Stringify is JSON.stringify.
-- Platform is what the code takes from node:crypto and from the number formatting of the engine:
-- parameters, which the theorems hold for whatever they are. Toy is one instance for the tests.
-- Outcome is the way a step ends: a value, an early return with a reason, or an exception.
--
-- Jcs is ts/src/commands/jcs.ts (jcsString is jcs_string). Hash is hashstring.ts and digest.ts,
-- Receipt is receipt-id.ts and cost-canon.ts, Sse is sse-outputs-hash.ts, Artifact is
-- a2a-artifact-hash.ts, Sign is sign.ts, all in ts/src/commands. Compact is what verify.ts and
-- verify-chain.ts read from a compact JWS, Verify the checks of verify.ts, one function for each
-- step, Chain the checks of verify-chain.ts. verify-chain calls verify for each hop; all of them
-- hash and sign bytes that Jcs makes.
--
-- Cli is ts/src/cli.ts: main takes the command and the chunks of the standard input, and gives the
-- text that is written. Cli/Inputs is how an input of any type reaches a command, Cli/Commands what
-- each command makes of it; an input of verify or verify-chain whose keys or policy are not of the
-- type they are cast to goes to a parameter, Host.
--
-- Mcp and A2a are the two middlewares, ts/src/mcp/veritrail-middleware.ts and
-- ts/src/a2a/veritrail-a2a-middleware.ts: they build a payload from the hashes, sign it as sign.ts
-- does and attach the receipt. Mcp/Server and A2a/Server are server.ts beside them, a handler that
-- calls the middleware and a round trip of a client with it; Mcp/Demo and A2a/Demo are demo.ts,
-- the checks of that client. The SDKs between handler and client are parameters: a function from
-- what the handler does to what the client gets. Conformance is conformance/compare.mjs, given
-- what the two commands return.
--
-- Go has the second implementation on bytes: Go/Verify is go/verify.go, Go/Chain is go/chain.go,
-- Go/Sse and Go/Outputs are SSEDecode and SSEOutputsHash of go/veritrail.go, Go/Base64 the decoder of
-- encoding/base64. Go/Library has what they take from encoding/json, the cryptography and
-- github.com/gowebpki/jcs: parameters. The agreements with the TypeScript code hold for inputs that
-- these libraries read as the engine and node:crypto read them; Go/Verify/Alike and
-- Go/Verify/Agreement say what that is of a receipt, Go/Chain/Shared of a chain, Go/Outputs/Agreement
-- of a message.
--
-- Below a module stand its proofs: Verify/Accepts and Chain/Lineage hold the conditions that the
-- checks of verify and of verifyChain are compared with, Sign/Signable those of sign,
-- Jcs/Canonical and Jcs/Reread what a canonical text stands for, Jcs/Sorted the order of its
-- keys, Sse/Blocks the events as blocks of lines, Sse/Coding the events in another coding,
-- Chain/Evidence and Mcp/Commits what ids and hashes commit to, Artifact/Supported which
-- artifacts are hashed, Conformance/Anchors and Conformance/Agreement what is asked of a vector,
-- Go/Verify/Signatures and Go/Verify/Alike what the libraries of the two programs are taken to
-- agree on, Text/Utf8/Strict which bytes strictUtf8 accepts. Jcs/Objects shows that objects whose
-- keys the source writes out are JSON data. Tests and the modules below it run the code on the
-- toy platform, on some of conformance/vectors among others, and apply the theorems there.
--
-- Two loops are not structural. The JSON parser runs on fuel, 2 * length + 2 for a text, which is
-- enough since each call consumes a code unit or is followed by one that does (Value/Json/Fuel).
-- The decimal numeral of a number n runs on the fuel n, and each digit divides by 10. The rest is
-- structural recursion on the text, the value or the list of receipts.
--
-- The properties of an object are kept in the order of their creation, which for JSON.parse is that
-- of the text. Where the source lists them (JSON.stringify, Object.entries), Value/Keys gives the
-- order of the engine, array indices first; Object.keys is only called to be sorted.
--
-- Not modelled: ts/src/index.ts, which only passes names on, what the demos and the script print,
-- the closing of connections, the agent card, and the tests; of go, what goes through the struct
-- types of encoding/json (ReceiptID and CostCanon of go/veritrail.go, go/sign.go, go/a2a.go and
-- the program under go/cmd). The depth of the call stack has no bound.
pub mod Prelude
pub mod Platform
pub mod Text
pub mod Value
pub mod Jcs
pub mod Hash
pub mod Receipt
pub mod Outcome
pub mod Compact
pub mod Verify
pub mod Chain
pub mod Sse
pub mod Artifact
pub mod Sign
pub mod Mcp
pub mod A2a
pub mod Cli
pub mod Stringify
pub mod Conformance
pub mod Go
pub mod Toy
mod Tests
