-- ===== src/Chain.antt =====
-- ts/src/commands/verify-chain.ts: `verifyChain` over a path from the leaf to the root.
pub mod Lineage
pub mod Evidence
pub mod Reread
pub mod Total
pub mod Suffix
use veritrail.Prelude.{
  ℕ, Bool, true, false, not, List, [], ◌∷◌, Option, none, some, if◌then◌else◌, length,
}
use veritrail.Platform.{Platform}
use veritrail.Text.{Str, codes, str_in}
use veritrail.Value.{
  Value, obj, Fields, Items, prop, as_str, as_array, is_str, is_present, strict_eq, elements,
}
use veritrail.Jcs.{jcs_bytes}
use veritrail.Hash.{digest_bytes}
use veritrail.Outcome.{Outcome, pass, fail, thrown, ◌>>=◌, ◌>>◌, require, require_some}
use veritrail.Compact.{parse_payload}
use veritrail.Verify.{Policy, Registry, VerifyOutput, verify}

pub data ChainReason : Type 0 where
  empty_chain receipt_invalid malformed_chain link_mismatch : ChainReason
  parent_identity_mismatch cycle chain_ok : ChainReason

pub record VerifyChainOutput : Type 0 where
  pub valid : Bool
  pub reason : ChainReason
  pub chain_len : ℕ

abbrev pub empty_policy : Policy
empty_policy = record { expected_binding = none; expected_method = none }

-- `policy ?? EMPTY_POLICY`
abbrev pub or_empty : Option Policy → Policy
or_empty none = empty_policy
or_empty (some policy) = policy

-- A hop as step 3 leaves it: `payloads[i]` and `receiptIds[i]`.
pub record Hop (N : Type 0) : Type 0 where
  pub payload : Fields N
  pub id : Str

-- The fields of a payload that link it to its parent.
abbrev pub parent_hash : {N : Type 0} → Fields N → Value N
parent_hash = prop (codes "parent_receipt_hash")

abbrev pub parent_performer : {N : Type 0} → Fields N → Value N
parent_performer = prop (codes "parent_performer_id")

abbrev pub performer : {N : Type 0} → Fields N → Value N
performer = prop (codes "performer_id")

-- `if (!res.valid) return fail('receipt_invalid', n)`
unfoldable pub require_valid : Option VerifyOutput → Outcome ChainReason (Unit {0})
require_valid none = thrown
require_valid (some res) = require res.valid receipt_invalid

-- `receipts[i].split`, on what need not be a string.
unfoldable pub require_string : Option Str → Outcome ChainReason Str
require_string none = thrown
require_string (some s) = pass s

-- Step 7, with the ids seen so far.
unfoldable pub check_repeats : List Str → List Str → Outcome ChainReason (Unit {0})
unfolding str_in
check_repeats seen [] = pass tt
check_repeats seen (id ∷ ids) = do
  require (not (str_in id seen)) cycle
  check_repeats (id ∷ seen) ids

module _ (p : Platform) where
  open p use {Num, number_eq}

  pub record VerifyChainInput : Type 0 where
    pub receipts : Value Num
    pub keys : Option Registry
    pub policy : Option Policy

  -- Step 2: the policy is the leaf's, and the empty one from the second hop on.
  unfoldable pub check_hops :
      Option Registry → Policy → List (Value Num) → Outcome ChainReason (Unit {0})
  unfolding require_valid
  check_hops keys policy [] = pass tt
  check_hops keys policy (r ∷ rs) = do
    require_valid (verify p (record { signed_receipt = r; keys = keys; policy = some policy }))
    check_hops keys empty_policy rs

  -- `computeReceiptId`
  unfoldable pub compute_receipt_id : Fields Num → Str
  compute_receipt_id payload = digest_bytes p (jcs_bytes p (obj payload))

  -- Step 3.
  unfoldable pub read_hops : List (Value Num) → Outcome ChainReason (List (Hop Num))
  unfolding require_string as_str
  read_hops [] = pass []
  read_hops (r ∷ rs) = do
    jws ← require_string (as_str r)
    payload ← require_some (parse_payload p jws) receipt_invalid
    hops ← read_hops rs
    pass (record { payload = payload; id = compute_receipt_id payload } ∷ hops)

  -- Step 4.
  unfoldable pub check_parents : List (Hop Num) → Outcome ChainReason (Unit {0})
  unfolding is_present
  check_parents [] = pass tt
  check_parents (x ∷ []) = require (not (is_present (parent_hash x.payload))) malformed_chain
  check_parents (x ∷ y ∷ hops) = do
    require (is_present (parent_hash x.payload)) malformed_chain
    check_parents (y ∷ hops)

  -- Step 5.
  unfoldable pub check_links : List (Hop Num) → Outcome ChainReason (Unit {0})
  unfolding is_str
  check_links [] = pass tt
  check_links (x ∷ []) = pass tt
  check_links (x ∷ y ∷ hops) = do
    require (is_str y.id (parent_hash x.payload)) link_mismatch
    check_links (y ∷ hops)

  -- A claimed parent performer, if there is one, is that of the next hop.
  unfoldable pub claims : Value Num → Value Num → Bool
  unfolding is_present strict_eq
  claims claimed actual = if is_present claimed then strict_eq number_eq claimed actual else true

  -- Step 6.
  unfoldable pub check_identities : List (Hop Num) → Outcome ChainReason (Unit {0})
  unfolding claims
  check_identities [] = pass tt
  check_identities (x ∷ []) = pass tt
  check_identities (x ∷ y ∷ hops) = do
    require (claims (parent_performer x.payload) (performer y.payload)) parent_identity_mismatch
    check_identities (y ∷ hops)

  abbrev pub hop_ids : List (Hop Num) → List Str
  hop_ids [] = []
  hop_ids (x ∷ hops) = x.id ∷ hop_ids hops

  -- Steps 2 to 7 over a chain that is not empty.
  unfoldable pub chain_steps :
      Option Registry → Policy → List (Value Num) → Outcome ChainReason (Unit {0})
  chain_steps keys policy receipts = do
    check_hops keys policy receipts
    hops ← read_hops receipts
    check_parents hops
    check_links hops
    check_identities hops
    check_repeats [] (hop_ids hops)

-- What a call of `verifyChain` comes to; `none` is an exception.
unfoldable pub chain_verdict : ℕ → Outcome ChainReason (Unit {0}) → Option VerifyChainOutput
chain_verdict n (pass _) = some (record { valid = true; reason = chain_ok; chain_len = n })
chain_verdict n (fail r) = some (record { valid = false; reason = r; chain_len = n })
chain_verdict n thrown = none

-- The receipts of an array, in order.
unfoldable pub receipt_list : {N : Type 0} → Option (Items N) → List (Value N)
unfolding elements
receipt_list none = []
receipt_list (some xs) = elements xs

unfoldable pub verify_list :
    (p : Platform) → Option Registry → Option Policy → List (Value p.Num) → Option VerifyChainOutput
unfolding chain_steps chain_verdict check_hops read_hops check_parents check_links check_identities
    check_repeats compute_receipt_id verify parse_payload digest_bytes ◌>>=◌ ◌>>◌ require
    require_some
verify_list p keys policy [] = chain_verdict 0 (fail empty_chain)
verify_list p keys policy (r ∷ rs) =
    chain_verdict (length (r ∷ rs)) (chain_steps p keys (or_empty policy) (r ∷ rs))

-- `verifyChain`; what is no array counts as an empty chain.
unfoldable pub verify_chain : (p : Platform) → VerifyChainInput p → Option VerifyChainOutput
unfolding verify_list receipt_list as_array
verify_chain p input =
    verify_list p input.keys input.policy (receipt_list (as_array input.receipts))
