-- ===== src/Tests/Receipts.antt =====
-- Two receipts, one the parent of the other, that a concrete Go library and the toy platform read
-- alike.
use veritrail.Platform.{Platform}
use veritrail.Prelude.{
  some-injective, ℕ, ◌%◌, length, ◌≡◌, refl, ap, sym, ◌∙◌, subst, true, false, List, [], ◌∷◌,
  Option, none, some, ◌>>=◌, if◌then◌else◌, ◌==◌, inl, inr, Bool-cases, arith,
}
use veritrail.Text.{Str, Bytes, codes, str_eq, str_in}
use veritrail.Text.Utf8.{strict_utf8}
use veritrail.Value.{
  undefined, null, str, obj, Fields, end, field, get, prop, as_object, as_str, is_present,
}
use veritrail.Value.Json.{parse}
use veritrail.Jcs.{jcs_bytes}
use veritrail.Outcome.{Outcome, pass}
use veritrail.Compact.{Compact, read_compact, signing_text, ascii_bytes}
use veritrail.Verify.{Policy, Reason, Resolved, RegistryJwk, ok, verify, find_key, inherited_names}
use veritrail.Verify
use veritrail.Chain.{chain_ok, verify_chain}
use veritrail.Go.Library.{Library, RawObject}
use veritrail.Go.Verify.{lookup, is_some}
use veritrail.Go.Verify as GoVerify
use veritrail.Go.Verify.Claims.{raw_view, value_view}
use veritrail.Go.Verify.Keys.{IsPlainClaim, IsPlainName}
use veritrail.Go.Verify.Alike.{FindsAlike, SignsAlike}
use veritrail.Go.Verify.Signatures.{IsTyped, CryptoAlike}
use veritrail.Go.Verify.Agreement.{IsAgreed}
use veritrail.Go.Chain.Hops.{IsPerformerClaim}
use veritrail.Go.Chain.Shared.{IsShared}
use veritrail.Go.Base64.{IsWhole}
use veritrail.Text.Base64.{from_base64}
use veritrail.Chain
use veritrail.Toy.{toy, toy_runs, toy_signature}
use veritrail.Tests.{V, registry, signed, jwk}

-- A platform whose digests are short.
abbrev pub brief : Platform
brief = record toy { sha256 = λ bytes. length bytes % 256 ∷ [] }

-- Raw messages that a concrete library keeps of the members of an object.
unfoldable raw_of : V → Bytes
unfolding jcs_bytes
raw_of (str s) = b'"' ∷ s
raw_of null = codes "null"
raw_of (obj fs) = jcs_bytes brief (obj fs)
raw_of _ = codes "0"

unfoldable pub raws : Fields (List ℕ) → RawObject
unfolding raw_of
raws end = []
raws (field k v fs) = (k, raw_of v) ∷ raws fs

unfoldable pub string_of : Bytes → Option Str
string_of [] = none
string_of (c ∷ s) = if c == b'"' then some s else if c == b'n' then some [] else none

unfoldable pub object_of : Bytes → Option (Fields (List ℕ))
unfolding strict_utf8 parse as_object
object_of bytes = strict_utf8 bytes >>= λ t. parse brief t >>= λ v. as_object v

abbrev pub toy_go : Library
toy_go = record {
  unmarshal_object = λ bytes. object_of bytes >>= λ fs. some (raws fs);
  unmarshal_string = string_of;
  utf8_valid = λ bytes. is_some (strict_utf8 bytes);
  transform = λ bytes. object_of bytes >>= λ fs. some (jcs_bytes brief (obj fs));
  sha256 = brief.sha256;
  ed25519_verify = λ pub_key message sig. str_eq sig (toy_signature message pub_key);
  is_on_curve = λ x y. false;
  ecdsa_verify = λ x y digest r s. false;
}

-- The concrete library says of each member what the two programs agree on.
abbrev SameViews : Fields (List ℕ) → Type 0
SameViews end = Unit
SameViews (field k v fs) = (raw_view toy_go (some (raw_of v)) ≡ value_view (some v)) × SameViews fs

entries_of :
    (fs : Fields (List ℕ))
    → SameViews fs
    → (k : Str) → raw_view toy_go (lookup k (raws fs)) ≡ value_view (get k fs)
unfolding raws lookup get
entries_of end h k = refl
entries_of (field j v fs) (hv, h) k = elim (Bool-cases (str_eq j k)) [
  | inl e ↦ rw e hv
  | inr e ↦ rw e (entries_of fs h k)
]

-- What is to be computed of a receipt.
pub record IsChecked (jws : Str) (c : Compact (List ℕ)) : Type 0 where
  pub read_is : read_compact brief (str jws) ≡ some c
  header_whole : IsWhole c.segs.header_seg
  payload_whole : IsWhole c.segs.payload_seg
  sig_whole : IsWhole c.segs.sig_seg
  header_is : object_of (from_base64 c.segs.header_seg) ≡ some c.header
  header_views : SameViews c.header
  payload_is : object_of c.payload_bytes ≡ some c.payload
  payload_views : SameViews c.payload
  valid : is_some (strict_utf8 c.payload_bytes) ≡ true
  performer_is : prop (codes "performer_id") c.payload ≡ str (codes "srv")
  kid_is : prop (codes "kid") c.header ≡ str (codes "k1")
  claim_is : prop (codes "parent_performer_id") c.payload ≡ undefined
  key_is : find_key brief (some registry) c ≡ pass (Verify.entry jwk)

plain_of : (v : V) (s : Str) → v ≡ str s → IsPlainName s → IsPlainClaim v
unfolding as_str
plain_of v s v_is h t e = subst IsPlainName (some-injective (ap as_str (sym v_is) ∙ e)) h

same_key :
    (jwk' : RegistryJwk)
    → ◌≡◌ {A = Outcome Reason Resolved} (pass (Verify.entry jwk)) (pass (Verify.entry jwk'))
    → jwk ≡ jwk'
same_key jwk' h = ground arith

-- The key of the entry is its x, and the toy signature is checked in one way on both sides.
jwk-IsTyped : IsTyped jwk
unfolding str_eq
jwk-IsTyped = record { eddsa = λ e. (refl, refl); es256 = λ e. cc }

jwk-CryptoAlike : (input sig : Bytes) → CryptoAlike brief toy_go jwk input sig
unfolding str_eq toy_runs GoVerify.key_bytes
jwk-CryptoAlike input sig = record { eddsa = λ e. (_, refl, refl); es256 = λ e. cc }

signs_of :
    {jws : Str} {c : Compact (List ℕ)} → IsChecked jws c → FindsAlike brief toy_go (some registry) c
signs_of {jws} {c} k jwk' found alg_is =
    subst (λ j. SignsAlike brief toy_go j c) (same_key jwk' (sym k.key_is ∙ found))
      (record {
        typed = jwk-IsTyped;
        crypto = jwk-CryptoAlike (ascii_bytes (signing_text c.segs)) c.sig;
      })

pub IsAgreed-of :
    {jws : Str} {c : Compact (List ℕ)} → IsChecked jws c → IsAgreed brief toy_go (some registry) c
unfolding str_eq str_in
IsAgreed-of {jws} {c} k = record {
  header_whole = k.header_whole;
  payload_whole = k.payload_whole;
  sig_whole = k.sig_whole;
  reads = record {
    header = record {
      raw = raws c.header;
      read = rw k.header_is refl;
      entries = entries_of c.header k.header_views;
    };
    payload = record {
      raw = raws c.payload;
      read = rw k.payload_is refl;
      entries = entries_of c.payload k.payload_views;
    };
    valid = k.valid;
    canonical = rw k.payload_is refl;
  };
  signs = signs_of k;
  performer_plain =
      plain_of (prop (codes "performer_id") c.payload) (codes "srv") k.performer_is (refl, refl);
  kid_plain = plain_of (prop (codes "kid") c.header) (codes "k1") k.kid_is (refl, refl);
}

no_claim : (v : V) → v ≡ undefined → IsPerformerClaim v
unfolding is_present
no_claim v v_is e = cc (ap is_present v_is)

pub IsShared-of :
    {jws : Str} {c : Compact (List ℕ)} → IsChecked jws c → IsShared brief toy_go (some registry) jws
IsShared-of {jws} {c} k = record {
  compact = c;
  read_is = k.read_is;
  agreed = IsAgreed-of k;
  hashed = refl;
  claim = no_claim (prop (codes "parent_performer_id") c.payload) k.claim_is;
}

-- A receipt without a parent, and one whose parent it is.
abbrev nothing_read : Compact (List ℕ)
nothing_read = record {
  segs = record { header_seg = []; payload_seg = []; sig_seg = [] };
  header = end;
  payload = end;
  payload_bytes = [];
  sig = [];
}

abbrev compact_or : Option (Compact (List ℕ)) → Compact (List ℕ)
compact_or none = nothing_read
compact_or (some c) = c

unfoldable pub read_of : V → Compact (List ℕ)
unfolding toy_runs signed
read_of parent = compact_or (read_compact brief (str (signed parent)))

pub root-IsChecked : IsChecked (signed null) (read_of null)
unfolding toy_runs signed read_of raws string_of object_of GoVerify.verify_signature
root-IsChecked = record {
  read_is = refl;
  header_whole = refl;
  payload_whole = refl;
  sig_whole = refl;
  header_is = refl;
  header_views = (refl, (refl, tt));
  payload_is = refl;
  payload_views = (refl, (refl, (refl, (refl, tt))));
  valid = refl;
  performer_is = refl;
  kid_is = refl;
  claim_is = refl;
  key_is = refl;
}

unfoldable pub root_id : Str
unfolding read_of toy_runs
root_id = Chain.compute_receipt_id brief (read_of null).payload

pub child-IsChecked : IsChecked (signed (str root_id)) (read_of (str root_id))
unfolding toy_runs signed read_of raws string_of object_of GoVerify.verify_signature root_id
child-IsChecked = record {
  read_is = refl;
  header_whole = refl;
  payload_whole = refl;
  sig_whole = refl;
  header_is = refl;
  header_views = (refl, (refl, tt));
  payload_is = refl;
  payload_views = (refl, (refl, (refl, (refl, tt))));
  valid = refl;
  performer_is = refl;
  kid_is = refl;
  claim_is = refl;
  key_is = refl;
}
