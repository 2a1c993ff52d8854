-- ===== src/Artifact.antt =====
-- ts/src/commands/a2a-artifact-hash.ts: the canonical descriptor of an A2A artifact, and its hash.
-- Parts are values as the caller gives them, so that reading a property of null throws.
pub mod Supported
use veritrail.Prelude.{Bool, true, false, not, [], Option, none, some, if◌then◌else◌}
use veritrail.Platform.{Platform}
use veritrail.Text.{Str, codes}
use veritrail.Text.Base64.{from_base64}
use veritrail.Text.Hex.{to_hex}
use veritrail.Value.{
  Value, undefined, null, bool, num, str, arr, obj, Items, nil, cons, Fields, end, field, prop,
  is_str, as_str, as_array,
}
use veritrail.Jcs.{jcs_bytes}
use veritrail.Hash.{digest_bytes}
use veritrail.Outcome.{Outcome, pass, fail, thrown, ◌>>=◌, ◌>>◌, require, require_some}

abbrev pub unsupported_part : Str
unsupported_part = codes "unsupported_part"

module _ {N : Type 0} where
  -- `v[k]`, for a key that strings, numbers and arrays do not have.
  unfoldable pub read_prop : Str → Value N → Outcome Str (Value N)
  read_prop k undefined = thrown
  read_prop k null = thrown
  read_prop k (obj fs) = pass (prop k fs)
  read_prop k _ = pass undefined

  -- `v?.[k]`
  unfoldable pub read_optional : Str → Value N → Value N
  read_optional k (obj fs) = prop k fs
  read_optional k _ = undefined

  -- `orNull`
  unfoldable pub or_null : Value N → Value N
  or_null undefined = null
  or_null v = v

  -- `{ kind, text }` and `{ kind, data }`
  abbrev pub described : Str → Str → Value N → Fields N
  described kind key v = field (codes "kind") (str kind) (field key v end)

module _ (p : Platform) where
  open p use {Num, number_falsy}

  -- `!v`
  unfoldable pub is_falsy : Value Num → Bool
  is_falsy undefined = true
  is_falsy null = true
  is_falsy (bool b) = not b
  is_falsy (num n) = number_falsy n
  is_falsy (str []) = true
  is_falsy _ = false

  -- The descriptor of an inline file: the digest stands for the bytes.
  unfoldable pub inline_file : Str → Value Num → Outcome Str (Fields Num)
  inline_file bytes file = do
    mime_type ← read_prop (codes "mimeType") file
    name ← read_prop (codes "name") file
    pass (
        field (codes "kind") (str (codes "file")) (
          field (codes "digest") (str (digest_bytes p (from_base64 bytes))) (
            field (codes "mimeType") (or_null mime_type)
              (field (codes "name") (or_null name) end))))

  -- The descriptor of a file by reference, which is not followed.
  unfoldable pub uri_file : Str → Value Num → Outcome Str (Fields Num)
  uri_file uri file = do
    declared ← read_prop (codes "declared_digest") file
    mime_type ← read_prop (codes "mimeType") file
    name ← read_prop (codes "name") file
    pass (
        field (codes "kind") (str (codes "file")) (
          field (codes "uri") (str uri) (
            field (codes "declared_digest") (or_null declared) (
              field (codes "mimeType") (or_null mime_type)
                (field (codes "name") (or_null name) end)))))

  unfoldable pub by_uri : Option Str → Value Num → Outcome Str (Fields Num)
  by_uri none file = fail unsupported_part
  by_uri (some uri) file = uri_file uri file

  unfoldable pub by_bytes : Option Str → Value Num → Outcome Str (Fields Num)
  by_bytes none file = do uri ← read_prop (codes "uri") file; by_uri (as_str uri) file
  by_bytes (some bytes) file = inline_file bytes file

  unfoldable pub file_descriptor : Value Num → Outcome Str (Fields Num)
  file_descriptor file = do
    require (not (is_falsy file)) unsupported_part
    bytes ← read_prop (codes "bytes") file
    by_bytes (as_str bytes) file

  unfoldable pub text_descriptor : Value Num → Outcome Str (Fields Num)
  text_descriptor part = do
    text ← read_prop (codes "text") part
    pass (described (codes "text") (codes "text") text)

  unfoldable pub data_descriptor : Value Num → Outcome Str (Fields Num)
  data_descriptor part = do
    content ← read_prop (codes "data") part
    pass (described (codes "data") (codes "data") content)

  unfoldable pub by_kind : Value Num → Value Num → Outcome Str (Fields Num)
  by_kind kind part =
      if is_str (codes "text") kind
      then text_descriptor part
      else if is_str (codes "data") kind
      then data_descriptor part
      else if is_str (codes "file") kind
      then read_prop (codes "file") part >>= file_descriptor
      else fail unsupported_part

  -- `partToDescriptor`
  unfoldable pub part_to_descriptor : Value Num → Outcome Str (Fields Num)
  unfolding by_kind text_descriptor data_descriptor
  part_to_descriptor part = do kind ← read_prop (codes "kind") part; by_kind kind part

  -- The loop over the parts, in order.
  unfoldable pub descriptors : Items Num → Outcome Str (Items Num)
  descriptors nil = pass nil
  descriptors (cons part parts) = do
    d ← part_to_descriptor part
    ds ← descriptors parts
    pass (cons (obj d) ds)

  -- `buildDescriptor`
  unfoldable pub build_descriptor : Value Num → Outcome Str (Fields Num)
  build_descriptor artifact = do
    parts ← require_some (as_array (read_optional (codes "parts") artifact)) unsupported_part
    ds ← descriptors parts
    pass (field (codes "parts") (arr ds) end)

  pub record ArtifactHashOutput : Type 0 where
    pub outputs_hash : Str
    pub descriptor_hex : Str

  -- `a2aArtifactHash`
  unfoldable pub a2a_artifact_hash : Value Num → Outcome Str ArtifactHashOutput
  unfolding build_descriptor descriptors part_to_descriptor file_descriptor by_bytes by_uri uri_file
      inline_file is_falsy or_null read_optional read_prop is_str as_str as_array ◌>>=◌ ◌>>◌ require
      require_some jcs_bytes digest_bytes to_hex from_base64
  a2a_artifact_hash artifact = do
    descriptor ← build_descriptor artifact
    pass (record {
      outputs_hash = digest_bytes p (jcs_bytes p (obj descriptor));
      descriptor_hex = to_hex (jcs_bytes p (obj descriptor));
    })
