-- ===== src/Mcp.antt =====
-- ts/src/mcp/veritrail-middleware.ts: receipts for MCP tool calls.
pub mod Server
pub mod Demo
pub mod Published
pub mod Accepted
pub mod Received
pub mod Complete
pub mod Attached
pub mod Commits
pub mod Payload
pub mod Verified
use veritrail.Prelude.{[], ◌∷◌, ◌++◌, Option, none, some}
use veritrail.Platform.{Platform}
use veritrail.Text.{Str, Bytes, codes}
use veritrail.Text.Base64.{base64url}
use veritrail.Value.{Value, null, str, obj, Fields, end, field, prop, set, remove}
use veritrail.Jcs.{jcs_bytes}
use veritrail.Hash.{digest_bytes}
use veritrail.Verify.{RegistryJwk, Registry}
use veritrail.Sign.{version, frame}

-- `RECEIPT_META_KEY`
abbrev pub receipt_meta_key : Str
receipt_meta_key = codes "dev.veritrail/receipt"

abbrev pub meta_key : Str
meta_key = codes "_meta"

-- `v ?? d`
abbrev pub or_default : Option Str → Str → Str
or_default none d = d
or_default (some s) d = s

-- The cost block of both middlewares.
abbrev pub default_cost : {N : Type 0} → Option Str → Value N
default_cost wall_ms = obj (
    field (codes "tokens") (str (codes "0")) (
      field (codes "usd_micros") (str (codes "0")) (
        field (codes "wall_ms") (str (or_default wall_ms (codes "0")))
          (field (codes "rail_ref") null end))))

module _ {N : Type 0} where
  -- `stripMeta`
  unfoldable pub strip_meta : Fields N → Fields N
  unfolding remove
  strip_meta result = remove meta_key result

  -- `{ ...(v ?? {}) }` for a record `v`.
  unfoldable pub spread : Value N → Fields N
  spread (obj fs) = fs
  spread _ = end

  -- `o[key] = { ...(o[key] ?? {}), [RECEIPT_META_KEY]: jws }`
  unfoldable pub attach : Str → Str → Fields N → Fields N
  unfolding spread set
  attach key jws o = set key (obj (set receipt_meta_key (str jws) (spread (prop key o)))) o

-- The fields that the payloads of the two bindings share, in the order of the source.
abbrev pub receipt_payload :
    {N : Type 0} → Str → Str → Str → Str → Str → Option Str → Option Str → Bytes → Fields N
receipt_payload binding performer_id method inputs_hash outputs_hash wall_ms ts nonce =
    field (codes "v") (str version) (
      field (codes "binding") (str binding) (
        field (codes "action_ref") null (
          field (codes "performer_id") (str performer_id) (
            field (codes "requester_id") null (
              field (codes "parent_performer_id") null (
                field (codes "parent_receipt_hash") null (
                  field (codes "method") (str method) (
                    field (codes "inputs_hash") (str inputs_hash) (
                      field (codes "outputs_hash") (str outputs_hash) (
                        field (codes "cost") (default_cost wall_ms) (
                          field (codes "status") (str (codes "OK")) (
                            field (codes "reason") null (
                              field (codes "log_policy") (str (codes "best_effort")) (
                                field (codes "ts")
                                  (str (or_default ts (codes "2026-05-28T00:00:00Z")))
                                  (field (codes "nonce") (str (b'u' ∷ base64url nonce))
                                    end)))))))))))))))

module _ (p : Platform) where
  open p use {Num, PrivateKey}

  pub record TestSigner : Type 0 where
    pub private_key : PrivateKey
    pub public_jwk : RegistryJwk
    pub performer_id : Str
    pub kid : Str

  -- What `generateKeyPairSync('ed25519')` returns: the private key, and the public one as a JWK.
  pub record KeyPair : Type 0 where
    pub private_key : PrivateKey
    pub kty : Str
    pub crv : Str
    pub x : Str

  -- `generateTestSigner`
  unfoldable pub generate_test_signer : KeyPair → Option Str → Option Str → TestSigner
  generate_test_signer pair performer_id kid = record {
    private_key = pair.private_key;
    public_jwk = record {
      kty = pair.kty;
      crv = pair.crv;
      x = pair.x;
      y = none;
      alg = codes "EdDSA";
      status = some (codes "active");
    };
    performer_id = or_default performer_id (codes "srv-mcp-demo");
    kid = or_default kid (codes "ed-demo-1");
  }

  -- `registryFromSigner`
  unfoldable pub registry_from_signer : TestSigner → Registry
  registry_from_signer signer = (signer.performer_id, (signer.kid, signer.public_jwk) ∷ []) ∷ []

  -- `hashOf`
  unfoldable pub hash_of : Value Num → Str
  hash_of v = digest_bytes p (jcs_bytes p v)

  -- `computeOutputsHash`
  unfoldable pub compute_outputs_hash : Fields Num → Str
  unfolding hash_of strip_meta
  compute_outputs_hash result = hash_of (obj (strip_meta result))

  -- `nonce` is what `randomBytes(16)` returns.
  pub record BuildReceiptOptions : Type 0 where
    pub signer : TestSigner
    pub tool_name : Str
    pub params : Value Num
    pub result : Fields Num
    pub ts : Option Str
    pub wall_ms : Option Str
    pub nonce : Bytes

  -- `buildReceiptPayload`
  unfoldable pub build_receipt_payload : BuildReceiptOptions → Fields Num
  build_receipt_payload opts =
      receipt_payload (codes "mcp") opts.signer.performer_id (codes "mcp:" ++ opts.tool_name)
        (hash_of opts.params) (compute_outputs_hash opts.result) opts.wall_ms opts.ts opts.nonce

  -- `signReceipt`
  unfoldable pub sign_receipt : Fields Num → TestSigner → Str
  unfolding frame
  sign_receipt payload signer = frame p signer.kid payload signer.private_key

  -- `veritrailToolResult`: the result with the receipt attached.
  unfoldable pub veritrail_tool_result : BuildReceiptOptions → Fields Num
  unfolding attach build_receipt_payload sign_receipt
  veritrail_tool_result opts =
      attach meta_key (sign_receipt (build_receipt_payload opts) opts.signer) opts.result
