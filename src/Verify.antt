-- ===== src/Verify.antt =====
-- ts/src/commands/verify.ts: `verify`, after the structure that Compact reads.
pub mod Accepts
pub mod Total
pub mod Checks
pub mod Stages
pub mod Inherited
use veritrail.Prelude.{
  ◌≡◌, Bool, true, false, not, ◌&&◌, ◌||◌, List, [], ◌∷◌, Option, none, some, if◌then◌else◌,
}
use veritrail.Platform.{Platform}
use veritrail.Text.{Str, Bytes, codes, str_eq, str_in}
use veritrail.Value.{Value, obj, Fields, prop, has_own, as_str, is_str}
use veritrail.Jcs.{jcs_bytes}
use veritrail.Outcome.{Outcome, pass, fail, thrown, ◌>>=◌, ◌>>◌, require, require_some}
use veritrail.Compact.{Compact, read_compact, signing_text, ascii_bytes}

-- The reason codes, in the order of the checks.
pub data Reason : Type 0 where
  malformed header_key_material unknown_key revoked_key alg_not_allowed : Reason
  bad_signature non_canonical_payload context_mismatch ok : Reason

pub record RegistryJwk : Type 0 where
  pub kty : Str
  pub crv : Str
  pub x : Str
  pub y : Option Str
  pub alg : Str
  pub status : Option Str

-- `Record<string, T>`, each key once.
abbrev pub Dict : Type 0 → Type 0
Dict T = List (Str × T)

abbrev pub Registry : Type 0
Registry = Dict (Dict RegistryJwk)

-- `none` is null or undefined.
pub record Policy : Type 0 where
  pub expected_binding : Option Str
  pub expected_method : Option Str

pub record VerifyOutput : Type 0 where
  pub valid : Bool
  pub reason : Reason

abbrev pub forbidden_header_keys : List Str
forbidden_header_keys =
    codes "jwk" ∷ codes "jku" ∷ codes "x5u" ∷ codes "x5c" ∷ codes "x5t" ∷ codes "x5t#S256" ∷ []

-- The members that an object literal inherits from `Object.prototype`; each of them is truthy.
abbrev pub inherited_names : List Str
inherited_names =
    codes "constructor"
    ∷ codes "__defineGetter__"
    ∷ codes "__defineSetter__"
    ∷ codes "hasOwnProperty"
    ∷ codes "__lookupGetter__"
    ∷ codes "__lookupSetter__"
    ∷ codes "isPrototypeOf"
    ∷ codes "propertyIsEnumerable"
    ∷ codes "toString"
    ∷ codes "valueOf"
    ∷ codes "__proto__"
    ∷ codes "toLocaleString"
    ∷ []

-- What `dict[k]` finds.
pub data Member (T : Type 0) : Type 0 where
  own : T → Member T
  inherited absent : Member T

module _ {T : Type 0} where
  unfoldable pub member : Str → Dict T → Member T
  unfolding str_eq str_in
  member k [] = if str_in k inherited_names then inherited else absent
  member k ((j, v) ∷ d) = if str_eq j k then own v else member k d

-- The value that the registry lookup ends with: an entry, or a member of a built-in object, which
-- has no `status`, no `alg` and no key.
pub data Resolved : Type 0 where
  entry : RegistryJwk → Resolved
  built_in : Resolved

unfoldable pub any_own : {N : Type 0} → List Str → Fields N → Bool
unfolding has_own
any_own [] header = false
any_own (k ∷ ks) header = if has_own k header then true else any_own ks header

unfoldable pub status_of : Resolved → Option Str
status_of (entry jwk) = jwk.status
status_of built_in = none

unfoldable pub alg_of : Resolved → Option Str
alg_of (entry jwk) = some jwk.alg
alg_of built_in = none

unfoldable pub is_revoked : Option Str → Bool
unfolding str_eq
is_revoked none = false
is_revoked (some s) = str_eq s (codes "revoked")

-- `headerAlg` is a string other than "none" and "", and the key's `alg`.
unfoldable pub alg_allowed : Str → Option Str → Bool
unfolding str_eq
alg_allowed header_alg none = false
alg_allowed header_alg (some alg) =
    not (str_eq header_alg (codes "none")) && not (str_eq header_alg []) && str_eq header_alg alg

-- A call that may throw, under `catch { return false }`.
abbrev pub caught : Option Bool → Bool
caught none = false
caught (some b) = b

-- `e === undefined || e === null || payload[k] === e`
unfoldable pub meets : {N : Type 0} → Option Str → Value N → Bool
unfolding is_str
meets none v = true
meets (some e) v = is_str e v

abbrev pub expected : (Policy → Option Str) → Option Policy → Option Str
expected f none = none
expected f (some policy) = f policy

module _ (p : Platform) where
  open p use {Num, PublicKey, create_public_key, verify_eddsa, verify_es256, inherited_member}

  pub record VerifyInput : Type 0 where
    pub signed_receipt : Value Num
    pub keys : Option Registry
    pub policy : Option Policy

  -- `v[kid]` for a member `v` that `input.keys` inherits under the name `performer`.
  unfoldable pub of_inherited : Option Bool → Outcome Reason Resolved
  of_inherited none = thrown
  of_inherited (some true) = pass built_in
  of_inherited (some false) = fail unknown_key

  unfoldable pub key_in : Member RegistryJwk → Outcome Reason Resolved
  key_in (own jwk) = pass (entry jwk)
  key_in inherited = pass built_in
  key_in absent = fail unknown_key

  unfoldable pub keys_in : Str → Str → Member (Dict RegistryJwk) → Outcome Reason Resolved
  unfolding of_inherited key_in member
  keys_in performer kid (own perf_keys) = key_in (member kid perf_keys)
  keys_in performer kid inherited = of_inherited (inherited_member performer kid)
  keys_in performer kid absent = fail unknown_key

  -- Step 3.
  unfoldable pub resolve_key : Option Registry → Str → Str → Outcome Reason Resolved
  unfolding keys_in member
  resolve_key none performer kid = fail unknown_key
  resolve_key (some keys) performer kid = keys_in performer kid (member performer keys)

  -- `buildPublicKey`
  unfoldable pub build_public_key : Resolved → Option PublicKey
  build_public_key (entry jwk) = create_public_key jwk.kty jwk.crv jwk.x jwk.y
  build_public_key built_in = none

  -- `verifySignature`
  unfoldable pub verify_signature : Str → Bytes → PublicKey → Bytes → Bool
  unfolding str_eq
  verify_signature alg input key sig =
      if str_eq alg (codes "EdDSA")
      then caught (verify_eddsa input key sig)
      else if str_eq alg (codes "ES256")
      then caught (verify_es256 input key sig)
      else false

  -- Steps 7 and 8.
  unfoldable pub check_payload : Option Policy → Compact Num → Outcome Reason (Unit {0})
  check_payload policy c = do
    require (str_eq (jcs_bytes p (obj c.payload)) c.payload_bytes) non_canonical_payload
    require (meets (expected (λ q. q.expected_binding) policy) (prop (codes "binding") c.payload))
        context_mismatch
    require (meets (expected (λ q. q.expected_method) policy) (prop (codes "method") c.payload))
        context_mismatch

  -- Step 6.
  unfoldable pub check_signature : Str → Resolved → Compact Num → Outcome Reason (Unit {0})
  check_signature alg jwk c = do
    key ← require_some (build_public_key jwk) bad_signature
    require (verify_signature alg (ascii_bytes (signing_text c.segs)) key c.sig) bad_signature

  -- Steps 4 and 5, which end with the algorithm.
  unfoldable pub check_key : Resolved → Compact Num → Outcome Reason Str
  check_key jwk c = do
    require (not (is_revoked (status_of jwk))) revoked_key
    alg ← require_some (as_str (prop (codes "alg") c.header)) alg_not_allowed
    require (alg_allowed alg (alg_of jwk)) alg_not_allowed
    pass alg

  -- Steps 2 and 3, which end with the key.
  unfoldable pub find_key : Option Registry → Compact Num → Outcome Reason Resolved
  find_key keys c = do
    require (not (any_own forbidden_header_keys c.header)) header_key_material
    performer ← require_some (as_str (prop (codes "performer_id") c.payload)) unknown_key
    kid ← require_some (as_str (prop (codes "kid") c.header)) unknown_key
    resolve_key keys performer kid

  -- Steps 2 to 8.
  unfoldable pub check_compact :
      Option Registry → Option Policy → Compact Num → Outcome Reason (Unit {0})
  check_compact keys policy c = do
    jwk ← find_key keys c
    alg ← check_key jwk c
    check_signature alg jwk c
    check_payload policy c

  -- Steps 1 to 8.
  unfoldable pub verify_steps : VerifyInput → Outcome Reason (Unit {0})
  verify_steps input = do
    c ← require_some (read_compact p input.signed_receipt) malformed
    check_compact input.keys input.policy c

-- What a call of `verify` comes to; `none` is an exception.
unfoldable pub verdict : Outcome Reason (Unit {0}) → Option VerifyOutput
verdict (pass _) = some (record { valid = true; reason = ok })
verdict (fail r) = some (record { valid = false; reason = r })
verdict thrown = none

-- `verify`
unfoldable pub verify : (p : Platform) → VerifyInput p → Option VerifyOutput
unfolding verify_steps check_compact find_key check_key check_signature check_payload verdict
    read_compact any_own resolve_key is_revoked status_of as_str alg_allowed alg_of build_public_key
    verify_signature meets jcs_bytes ◌>>=◌ ◌>>◌ require require_some
verify p input = verdict (verify_steps p input)
