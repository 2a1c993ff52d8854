-- ===== src/Sign/Signable.antt =====
-- When `sign` of ts/src/commands/sign.ts signs, and what it writes then.
use veritrail.Prelude.{
  ◌≡◌, ◌≢◌, sym, ap, ◌∙◌, ◌↔◌, true, false, not, [], ◌++◌, some, ◌==◌, arith, length,
}
use veritrail.Platform.{Platform}
use veritrail.Text.{Str, Bytes, codes, str_eq, str_eq_iff}
use veritrail.Value.Strings.{as_str-eq-some_iff}
use veritrail.Value.{Value, str, obj, Fields, prop, has_own, set, as_object}
use veritrail.Outcome.{
  pass, ◌>>=◌, ◌>>◌, require, require_some, >>=-eq-pass, >>-eq-pass, >>=-pass, >>-pass,
  require-pass, require_some-pass, pass-injective, require-eq-pass, require_some-eq-pass,
}
use veritrail.Verify.Checks.{not-eq-true}
use veritrail.Sign.{
  as_record, decode_flexible_base64, private_key_from_seed, pkcs8_ed25519_prefix, version, frame,
  sign, invalid_private_key,
}

module _ (p : Platform) where
  open p use {Num, PrivateKey, create_private_key}

  -- The conditions under which an input is signed, with what is read from it.
  pub record IsSignable (input : Value Num) (jws : Str) : Type 0 where
    pub fields : Fields Num
    pub fields_are : as_record input ≡ some fields
    pub receipt : Fields Num
    pub receipt_is : prop (codes "receipt") fields ≡ obj receipt
    pub no_id : has_own (codes "receipt_id") receipt ≡ false
    pub kid : Str
    pub kid_is : prop (codes "kid") fields ≡ str kid
    pub kid_ne_empty : kid ≢ []
    pub encoded : Str
    pub encoded_is : prop (codes "private_key_b64") fields ≡ str encoded
    pub seed : Bytes
    pub seed_is : decode_flexible_base64 encoded ≡ some seed
    pub seed_length : length seed ≡ 32
    pub key : PrivateKey
    pub key_is : create_private_key (pkcs8_ed25519_prefix ++ seed) ≡ some key
    pub jws_is : frame p kid (set (codes "v") (str version) receipt) key ≡ jws

  as_object-eq-some : (v : Value Num) (fs : Fields Num) → as_object v ≡ some fs → v ≡ obj fs
  unfolding as_object
  as_object-eq-some (obj gs) fs h = ground arith
  as_object-eq-some _ fs h = cc

  private_key_from_seed-eq :
      (seed : Bytes)
      → length seed ≡ 32
      → private_key_from_seed p seed ≡ create_private_key (pkcs8_ed25519_prefix ++ seed)
  unfolding private_key_from_seed
  private_key_from_seed-eq seed h = rw h

  kid_ne_empty_of : (kid : Str) → str_eq kid [] ≡ false → kid ≢ []
  kid_ne_empty_of kid h = ground (arith, str_eq_iff kid [])

  sign-IsSignable : (input : Value Num) (jws : Str) → sign p input ≡ pass jws → IsSignable input jws
  unfolding sign
  sign-IsSignable input jws h =
      let (fs, fs_is, h1) = >>=-eq-pass _ _ h in
      let (receipt, receipt_is, h2) = >>=-eq-pass _ _ h1 in
      let (no_id, h3) = >>-eq-pass _ _ h2 in
      let (kid, kid_is, h4) = >>=-eq-pass _ _ h3 in
      let (kid_ne, h5) = >>-eq-pass _ _ h4 in
      let (encoded, encoded_is, h6) = >>=-eq-pass _ _ h5 in
      let (seed, seed_is, h7) = >>=-eq-pass _ _ h6 in
      let (len, h8) = >>-eq-pass _ _ h7 in
      let (key, key_is, h9) = >>=-eq-pass _ _ h8 in
      let seed_length : length seed ≡ 32 = ground (arith, require-eq-pass _ _ len) in
      record {
        fields = fs;
        fields_are = require_some-eq-pass _ _ fs_is;
        receipt = receipt;
        receipt_is = as_object-eq-some _ _ (require_some-eq-pass _ _ receipt_is);
        no_id = not-eq-true _ (require-eq-pass _ _ no_id);
        kid = kid;
        kid_is = (as_str-eq-some_iff _ _).0 (require_some-eq-pass _ _ kid_is);
        kid_ne_empty = kid_ne_empty_of kid (not-eq-true _ (require-eq-pass _ _ kid_ne));
        encoded = encoded;
        encoded_is = (as_str-eq-some_iff _ _).0 (require_some-eq-pass _ _ encoded_is);
        seed = seed;
        seed_is = require_some-eq-pass _ _ seed_is;
        seed_length = seed_length;
        key = key;
        key_is = sym (private_key_from_seed-eq seed seed_length) ∙ require_some-eq-pass _ _ key_is;
        jws_is = pass-injective h9;
      }

  not_empty : (kid : Str) → kid ≢ [] → not (str_eq kid []) ≡ true
  not_empty kid h = ground (arith, str_eq_iff kid [])

  -- The steps from the seed on.
  signs_with :
      {input : Value Num} {jws : Str} (s : IsSignable input jws)
      → (do
        seed ← require_some (decode_flexible_base64 s.encoded) (invalid_private_key p)
        require (length seed == 32) (invalid_private_key p)
        key ← require_some (private_key_from_seed p seed) (invalid_private_key p)
        pass (frame p s.kid (set (codes "v") (str version) s.receipt) key))
        ≡ pass jws
  signs_with s = >>=-pass _ _ s.seed (require_some-pass _ _ s.seed_is) (
      >>-pass _ _ (require-pass _ _ (rw s.seed_length)) (
        >>=-pass _ _ s.key
          (require_some-pass _ _ (private_key_from_seed-eq s.seed s.seed_length ∙ s.key_is))
          (ap pass s.jws_is)))

  sign_of_IsSignable :
      (input : Value Num) (jws : Str) → IsSignable input jws → sign p input ≡ pass jws
  unfolding sign as_object
  sign_of_IsSignable input jws s = >>=-pass _ _ s.fields (require_some-pass _ _ s.fields_are) (
      >>=-pass _ _ s.receipt (require_some-pass _ _ (ap as_object s.receipt_is)) (
        >>-pass _ _ (require-pass _ _ (ap not s.no_id)) (
          >>=-pass _ _ s.kid (require_some-pass _ _ ((as_str-eq-some_iff _ _).1 s.kid_is)) (
            >>-pass _ _ (require-pass _ _ (not_empty s.kid s.kid_ne_empty)) (
              >>=-pass _ _ s.encoded
                (require_some-pass _ _ ((as_str-eq-some_iff _ _).1 s.encoded_is))
                (signs_with s))))))

  -- `sign` returns a signed receipt exactly for the inputs that meet the conditions, and then it is the
  -- framing of the receipt with the protocol version set.
  pub sign_iff : (input : Value Num) (jws : Str) → (sign p input ≡ pass jws) ↔ IsSignable input jws
  sign_iff input jws = (sign-IsSignable input jws, sign_of_IsSignable input jws)
