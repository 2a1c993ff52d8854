-- ===== src/Go.antt =====
-- The second implementation of the protocol, go/*.go, as far as it is modelled. A Go string that
-- `json.Unmarshal` or an encoder gave is valid UTF-8 and is modelled as the text it codes (`Str`);
-- a `[]byte`, a `json.RawMessage` and the messages of a stream are bytes (`Bytes`).
pub mod Library
pub mod Base64
pub mod Sse
pub mod Verify
pub mod Chain
pub mod Outputs
