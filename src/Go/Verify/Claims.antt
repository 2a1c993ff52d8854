-- ===== src/Go/Verify/Claims.antt =====
-- The claims of a receipt as go/verify.go and as ts/src/commands/verify.ts read them.
use veritrail.Prelude.{
  ◌≡◌, refl, sym, ap, ◌∙◌, Bool, not, List, [], ◌∷◌, Option, none, some, inl, inr, Bool-cases,
}
use veritrail.Text.{Str, Bytes, codes, str_eq}
use veritrail.Value.{
  Value, undefined, null, bool, num, str, arr, obj, Fields, end, field, get, has_own, prop,
  or_undefined, is_present, as_str,
}
use veritrail.Verify.{any_own}
use veritrail.Go.Library.{Library, RawObject}
use veritrail.Go.Verify.{lookup, is_some, any_key, claim_text, string_or_empty, string_claim}

-- What Go learns of a member: its value as a string, and whether its text is `null`.
abbrev pub raw_view : Library → Option Bytes → Option (Option Str × Bool)
raw_view lib none = none
raw_view lib (some raw) = some (lib.unmarshal_string raw, str_eq raw (codes "null"))

-- The string that `json.Unmarshal` leaves for a value; `null` leaves the empty string.
abbrev unmarshalled : {N : Type 0} → Value N → Option Str
unmarshalled (str s) = some s
unmarshalled null = some []
unmarshalled _ = none

abbrev pub value_view : {N : Type 0} → Option (Value N) → Option (Option Str × Bool)
value_view none = none
value_view (some v) = some (unmarshalled v, not (is_present v))

-- `json.Unmarshal` reads from the bytes an object that has the members `fs`.
pub record IsReadBy {N : Type 0} (lib : Library) (bytes : Bytes) (fs : Fields N) : Type 0 where
  pub raw : RawObject
  pub read : lib.unmarshal_object bytes ≡ some raw
  pub entries : (k : Str) → raw_view lib (lookup k raw) ≡ value_view (get k fs)

-- A claim as a Go string: empty where it is no string.
abbrev pub text_of : {N : Type 0} → Value N → Str
text_of (str s) = s
text_of _ = []

pub text_of-as_str : {N : Type 0} (v : Value N) → text_of v ≡ string_or_empty (as_str v)
unfolding as_str
text_of-as_str undefined = refl
text_of-as_str null = refl
text_of-as_str (bool b) = refl
text_of-as_str (num n) = refl
text_of-as_str (str s) = refl
text_of-as_str (arr xs) = refl
text_of-as_str (obj fs) = refl

abbrev view_text : Option (Option Str × Bool) → Str
view_text none = []
view_text (some (o, _)) = string_or_empty o

claim_text-view : (lib : Library) (o : Option Bytes) → claim_text lib o ≡ view_text (raw_view lib o)
claim_text-view lib none = refl
claim_text-view lib (some raw) = refl

view_text-value :
    {N : Type 0} (o : Option (Value N)) → view_text (value_view o) ≡ text_of (or_undefined o)
view_text-value none = refl
view_text-value (some undefined) = refl
view_text-value (some null) = refl
view_text-value (some (bool b)) = refl
view_text-value (some (num n)) = refl
view_text-value (some (str s)) = refl
view_text-value (some (arr xs)) = refl
view_text-value (some (obj fs)) = refl

has_own-get : {N : Type 0} (k : Str) (fs : Fields N) → has_own k fs ≡ is_some (get k fs)
unfolding has_own get
has_own-get k end = refl
has_own-get k (field j v fs) = elim (Bool-cases (str_eq j k)) [
  | inl e ↦ rw e refl
  | inr e ↦ rw e (has_own-get k fs)
]

is_some-view : (lib : Library) (o : Option Bytes) → is_some o ≡ is_some (raw_view lib o)
is_some-view lib none = refl
is_some-view lib (some raw) = refl

is_some-value : {N : Type 0} (o : Option (Value N)) → is_some (value_view o) ≡ is_some o
is_some-value none = refl
is_some-value (some v) = refl

module _ {N : Type 0} (lib : Library) {bytes : Bytes} {fs : Fields N}
    (r : IsReadBy lib bytes fs) where
  pub string_claim-prop : (k : Str) → string_claim lib r.raw k ≡ text_of (prop k fs)
  unfolding string_claim
  string_claim-prop k =
      claim_text-view lib (lookup k r.raw) ∙ ap view_text (r.entries k) ∙ view_text-value (get k fs)

  is_some-has_own : (k : Str) → is_some (lookup k r.raw) ≡ has_own k fs
  is_some-has_own k =
      is_some-view lib (lookup k r.raw)
      ∙ ap is_some (r.entries k)
      ∙ is_some-value (get k fs)
      ∙ sym (has_own-get k fs)

  pub any_key-any_own : (ks : List Str) → any_key ks r.raw ≡ any_own ks fs
  unfolding any_key any_own
  any_key-any_own [] = refl
  any_key-any_own (k ∷ ks) = rw (is_some-has_own k, any_key-any_own ks) refl
