-- ===== src/Go/Verify/Keys.antt =====
-- The registry and the policy as go/verify.go and as ts/src/commands/verify.ts use them.
use veritrail.Prelude.{
  ◌≡◌, refl, ap, ◌∙◌, Bool, true, false, List, [], ◌∷◌, Option, none, some, inl, inr, Bool-cases,
  arith,
}
use veritrail.Text.{Str, str_eq, str_in}
use veritrail.Value.{Value, as_str}
use veritrail.Outcome.{Outcome, pass, fail, thrown, ◌>>=◌, ◌>>◌, require, require_some}
use veritrail.Verify.{
  header_key_material, Reason, unknown_key, RegistryJwk, Dict, Registry, Policy, inherited_names,
  Member, own, inherited, absent, member, Resolved, entry, built_in, any_own, key_in, keys_in,
  resolve_key,
}
use veritrail.Verify
use veritrail.Platform.{Platform}
use veritrail.Go.Verify.Claims.{text_of, text_of-as_str}
use veritrail.Go.Verify.{RegistryKey, VerifyPolicy, Keys, lookup, resolve, string_or_empty}

-- The registry, the policy and an entry as Go reads them from the same input.
abbrev or_blank : Option Str → Str
or_blank none = []
or_blank (some s) = s

abbrev pub go_key : RegistryJwk → RegistryKey
go_key jwk = record {
  kty = jwk.kty;
  crv = jwk.crv;
  x = jwk.x;
  y = or_blank jwk.y;
  alg = jwk.alg;
  status = or_blank jwk.status;
}

abbrev pub go_entries : Dict RegistryJwk → List (Str × RegistryKey)
go_entries [] = []
go_entries ((kid, jwk) ∷ d) = (kid, go_key jwk) ∷ go_entries d

abbrev go_registry : Registry → Keys
go_registry [] = []
go_registry ((performer, d) ∷ keys) = (performer, go_entries d) ∷ go_registry keys

abbrev pub go_keys : Option Registry → Keys
go_keys none = []
go_keys (some keys) = go_registry keys

abbrev pub go_policy : Option Policy → VerifyPolicy
go_policy policy = record {
  expected_binding = Verify.expected (λ q. q.expected_binding) policy;
  expected_method = Verify.expected (λ q. q.expected_method) policy;
}

-- A name that is not empty and that no object inherits.
abbrev pub IsPlainName : Str → Type 0
IsPlainName s = (str_eq s [] ≡ false) × (str_in s inherited_names ≡ false)

-- A claim that is such a name if it is a string.
abbrev pub IsPlainClaim : {N : Type 0} → Value N → Type 0
IsPlainClaim v = (s : Str) → as_str v ≡ some s → IsPlainName s

abbrev go_member : {A B : Type 0} → (A → B) → Member A → Option B
go_member f (own a) = some (f a)
go_member f inherited = none
go_member f absent = none

lookup-go_entries :
    (kid : Str) (d : Dict RegistryJwk) → lookup kid (go_entries d) ≡ go_member go_key (member kid d)
unfolding lookup member
lookup-go_entries kid [] = elim (Bool-cases (str_in kid inherited_names)) [
  | inl e ↦ rw e refl
  | inr e ↦ rw e refl
]
lookup-go_entries kid ((j, jwk) ∷ d) = elim (Bool-cases (str_eq j kid)) [
  | inl e ↦ rw e refl
  | inr e ↦ rw e (lookup-go_entries kid d)
]

lookup-go_registry :
    (performer : Str) (keys : Registry)
    → lookup performer (go_registry keys) ≡ go_member go_entries (member performer keys)
unfolding lookup member
lookup-go_registry performer [] = elim (Bool-cases (str_in performer inherited_names)) [
  | inl e ↦ rw e refl
  | inr e ↦ rw e refl
]
lookup-go_registry performer ((j, d) ∷ keys) = elim (Bool-cases (str_eq j performer)) [
  | inl e ↦ rw e refl
  | inr e ↦ rw e (lookup-go_registry performer keys)
]

-- A name that is no inherited one is never found among the inherited members.
member-inherited :
    {T : Type 0} (k : Str) (d : Dict T)
    → str_in k inherited_names ≡ false
    → member k d ≡ inherited
    → false ≡ true
unfolding member
member-inherited k [] h e = ground arith
member-inherited k ((j, v) ∷ d) h e = elim (Bool-cases (str_eq j k)) [
  | inl q ↦ ground arith
  | inr q ↦ member-inherited k d h (ground arith)
]

-- What the lookups of `verify` end with, for Go: it knows no inherited members.
abbrev pub go_resolved : Outcome Reason Resolved → Outcome Reason RegistryKey
go_resolved (pass (entry jwk)) = pass (go_key jwk)
go_resolved (pass built_in) = thrown
go_resolved (fail r) = fail r
go_resolved thrown = thrown

module _ (p : Platform) (kid : Str) (plain : str_in kid inherited_names ≡ false) where
  key_of :
      (m : Member RegistryJwk)
      → (m ≡ inherited → false ≡ true)
      → require_some (go_member go_key m) unknown_key ≡ go_resolved (key_in p m)
  unfolding key_in require_some
  key_of (own jwk) h = refl
  key_of inherited h = cc (h refl)
  key_of absent h = refl

  keys_of :
      (performer : Str) (m : Member (Dict RegistryJwk))
      → (m ≡ inherited → false ≡ true)
      → (require_some (go_member go_entries m) unknown_key >>= λ d.
          require_some (lookup kid d) unknown_key)
        ≡ go_resolved (keys_in p performer kid m)
  unfolding keys_in require_some ◌>>=◌
  keys_of performer (own d) h =
      ap (λ o. require_some o unknown_key) (lookup-go_entries kid d)
      ∙ key_of (member kid d) (member-inherited kid d plain)
  keys_of performer inherited h = cc (h refl)
  keys_of performer absent h = refl

pub resolve-resolve_key :
    (p : Platform) (keys : Option Registry) (performer kid : Str)
    → IsPlainName performer
    → IsPlainName kid
    → resolve (go_keys keys) performer kid ≡ go_resolved (resolve_key p keys performer kid)
unfolding resolve resolve_key
resolve-resolve_key p none performer kid (a, _) (b, _) =
    unfold ◌>>◌ ◌>>=◌ require require_some in rw (a, b) refl
resolve-resolve_key p (some keys) performer kid (a, i) (b, j) =
    unfold ◌>>◌ ◌>>=◌ require in
    rw (a, b, lookup-go_registry performer keys)
      (keys_of p kid j performer (member performer keys) (member-inherited performer keys i))

-- The two names as options, `none` where the claim is no string.
names_step :
    (p : Platform) (keys : Option Registry) (o o' : Option Str)
    → ((s : Str) → o ≡ some s → IsPlainName s)
    → ((s : Str) → o' ≡ some s → IsPlainName s)
    → resolve (go_keys keys) (string_or_empty o) (string_or_empty o')
      ≡ go_resolved (
          require_some o unknown_key >>= λ s.
          require_some o' unknown_key >>= λ t. resolve_key p keys s t)
unfolding resolve ◌>>=◌ ◌>>◌ require require_some
names_step p keys none o' h h' = unfold str_eq in refl
names_step p keys (some s) none h h' = unfold str_eq in rw ((h s refl).0) refl
names_step p keys (some s) (some t) h h' = resolve-resolve_key p keys s t (h s refl) (h' t refl)

go_resolved-require :
    (b : Bool) (r : Reason) (k : Outcome Reason Resolved)
    → (require b r >> go_resolved k) ≡ go_resolved (require b r >> k)
unfolding ◌>>◌ ◌>>=◌ require
go_resolved-require true r k = refl
go_resolved-require false r k = refl

-- Steps 2 and 3.
pub find_names :
    {N : Type 0} (p : Platform) (keys : Option Registry) (b : Bool) (v w : Value N)
    → IsPlainClaim v
    → IsPlainClaim w
    → (require b header_key_material >> resolve (go_keys keys) (text_of v) (text_of w))
      ≡ go_resolved (
          require b header_key_material
          >> (require_some (as_str v) unknown_key >>= λ s.
              require_some (as_str w) unknown_key >>= λ t. resolve_key p keys s t))
find_names p keys b v w h h' =
    rw (text_of-as_str v, text_of-as_str w, names_step p keys (as_str v) (as_str w) h h')
      (go_resolved-require b header_key_material _)
