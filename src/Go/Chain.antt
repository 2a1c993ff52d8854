-- ===== src/Go/Chain.antt =====
-- go/chain.go: `VerifyChain`, and `Digest` of go/veritrail.go that it calls.
pub mod Hops
pub mod Returns
pub mod Shared
pub mod Agreement
use veritrail.Prelude.{
  ℕ, Bool, true, false, not, List, [], ◌∷◌, Option, none, some, if◌then◌else◌, length,
}
use veritrail.Text.{Str, Bytes, codes, str_eq, str_in}
use veritrail.Text.Base64.{base64url}
use veritrail.Compact.{segments}
use veritrail.Outcome.{Outcome, pass, fail, thrown, ◌>>=◌, ◌>>◌, require, require_some}
use veritrail.Chain.{
  ChainReason, empty_chain, receipt_invalid, malformed_chain, link_mismatch,
  parent_identity_mismatch, cycle, chain_ok, VerifyChainOutput,
}
use veritrail.Go.Library.{Library, RawObject}
use veritrail.Go.Base64.{raw_url_decode}
use veritrail.Go.Verify.{Keys, VerifyPolicy, lookup, string_claim, verify}

-- `VerifyChainInput`
pub record VerifyChainInput : Type 0 where
  pub receipts : List Str
  pub keys : Keys
  pub policy : VerifyPolicy

-- The zero value of `VerifyPolicy`.
abbrev pub no_policy : VerifyPolicy
no_policy = record { expected_binding = none; expected_method = none }

-- `hashStringFromBytes`
unfoldable pub hash_string_from_bytes : Bytes → Str
unfolding base64url
hash_string_from_bytes digest = b'u' ∷ base64url (0x12 ∷ 0x20 ∷ digest)

-- `payloads[i]` and `receiptIDs[i]`.
pub record Hop : Type 0 where
  pub payload : RawObject
  pub id : Str

abbrev pub null_text : Option Bytes → Bool
null_text none = true
null_text (some raw) = str_eq raw (codes "null")

-- `claimIsNull`
unfoldable pub claim_is_null : RawObject → Str → Bool
unfolding lookup str_eq
claim_is_null m key = null_text (lookup key m)

-- Step 7, with the ids in `seen`.
unfoldable pub check_cycle : List Str → List Str → Outcome ChainReason (Unit {0})
unfolding str_in
check_cycle seen [] = pass tt
check_cycle seen (rid ∷ rids) = do
  require (not (str_in rid seen)) cycle
  check_cycle (rid ∷ seen) rids

-- Step 4.
unfoldable pub check_parents : List Hop → Outcome ChainReason (Unit {0})
unfolding claim_is_null
check_parents [] = pass tt
check_parents (x ∷ []) =
    require (claim_is_null x.payload (codes "parent_receipt_hash")) malformed_chain
check_parents (x ∷ y ∷ hops) = do
  require (not (claim_is_null x.payload (codes "parent_receipt_hash"))) malformed_chain
  check_parents (y ∷ hops)

abbrev pub hop_ids : List Hop → List Str
hop_ids [] = []
hop_ids (x ∷ hops) = x.id ∷ hop_ids hops

module _ (lib : Library) where
  open lib use {unmarshal_object, sha256}

  -- `Digest`
  unfoldable pub digest : Bytes → Str
  unfolding hash_string_from_bytes
  digest raw = hash_string_from_bytes (sha256 raw)

  -- `decodePayload`
  unfoldable pub decode_payload : Str → Outcome ChainReason (Bytes × RawObject)
  unfolding segments raw_url_decode
  decode_payload jws = do
    segs ← require_some (segments jws) receipt_invalid
    payload_bytes ← require_some (raw_url_decode segs.payload_seg) receipt_invalid
    payload ← require_some (unmarshal_object payload_bytes) receipt_invalid
    pass (payload_bytes, payload)

  -- Step 2: the policy is the leaf's, and the zero value from the second hop on.
  unfoldable pub check_hops : Keys → VerifyPolicy → List Str → Outcome ChainReason (Unit {0})
  unfolding verify
  check_hops keys policy [] = pass tt
  check_hops keys policy (jws ∷ receipts) = do
    require (verify lib (record { signed_receipt = jws; keys = keys; policy = policy })).valid
        receipt_invalid
    check_hops keys no_policy receipts

  -- Step 3.
  unfoldable pub read_hops : List Str → Outcome ChainReason (List Hop)
  unfolding decode_payload digest
  read_hops [] = pass []
  read_hops (jws ∷ receipts) = do
    decoded ← decode_payload jws
    hops ← read_hops receipts
    pass (record { payload = decoded.1; id = digest decoded.0 } ∷ hops)

  -- Step 5.
  unfoldable pub check_links : List Hop → Outcome ChainReason (Unit {0})
  unfolding string_claim str_eq
  check_links [] = pass tt
  check_links (x ∷ []) = pass tt
  check_links (x ∷ y ∷ hops) = do
    require (str_eq (string_claim lib x.payload (codes "parent_receipt_hash")) y.id) link_mismatch
    check_links (y ∷ hops)

  -- `continue`, or the comparison of step 6.
  unfoldable pub identity_matches : RawObject → RawObject → Bool
  unfolding claim_is_null string_claim str_eq
  identity_matches child parent =
      if claim_is_null child (codes "parent_performer_id")
      then true
      else if str_eq (string_claim lib child (codes "parent_performer_id")) []
      then true
      else str_eq (string_claim lib child (codes "parent_performer_id"))
          (string_claim lib parent (codes "performer_id"))

  -- Step 6.
  unfoldable pub check_identities : List Hop → Outcome ChainReason (Unit {0})
  unfolding identity_matches
  check_identities [] = pass tt
  check_identities (x ∷ []) = pass tt
  check_identities (x ∷ y ∷ hops) = do
    require (identity_matches x.payload y.payload) parent_identity_mismatch
    check_identities (y ∷ hops)

  -- Steps 2 to 7 over a chain that is not empty.
  unfoldable pub chain_steps : Keys → VerifyPolicy → List Str → Outcome ChainReason (Unit {0})
  unfolding check_hops read_hops check_parents check_links check_identities check_cycle
  chain_steps keys policy receipts = do
    check_hops keys policy receipts
    hops ← read_hops receipts
    check_parents hops
    check_links hops
    check_identities hops
    check_cycle [] (hop_ids hops)

-- The three results of `VerifyChain`; no step throws.
unfoldable pub chain_verdict : ℕ → Outcome ChainReason (Unit {0}) → VerifyChainOutput
chain_verdict n (pass _) = record { valid = true; reason = chain_ok; chain_len = n }
chain_verdict n (fail r) = record { valid = false; reason = r; chain_len = n }
chain_verdict n thrown = record { valid = false; reason = receipt_invalid; chain_len = n }

-- `VerifyChain`
unfoldable pub verify_chain : Library → VerifyChainInput → VerifyChainOutput
unfolding chain_steps chain_verdict ◌>>=◌ ◌>>◌ require require_some
verify_chain lib input = elim input.receipts [
  | [] ↦ chain_verdict 0 (fail empty_chain)
  | r ∷ rs ↦ chain_verdict (length (r ∷ rs)) (chain_steps lib input.keys input.policy (r ∷ rs))
]
