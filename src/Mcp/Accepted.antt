-- ===== src/Mcp/Accepted.antt =====
-- What the checks of ts/src/mcp/demo.ts and ts/src/a2a/demo.ts accept.
use veritrail.Prelude.{◌≡◌, ◌≢◌, ◌⊎◌, refl, sym, ap, ◌∙◌, subst, true, [], ◌∷◌, ◌++◌, some, arith}
use veritrail.Platform.{Platform}
use veritrail.Text.{Str, Bytes, codes, split, str_eq, str_eq_refl}
use veritrail.Text.Utf8.{lossy_utf8}
use veritrail.Text.Utf8.RoundTrip.{lossy_utf8-encode_utf8}
use veritrail.Text.Base64.{base64url, from_base64}
use veritrail.Text.Base64.RoundTrip.{IsBytes, b64url_decode-base64url}
use veritrail.Value.Strings.{is_str_iff}
use veritrail.Value.{Value, str, obj, Fields, get, set, prop, as_str, is_str}
use veritrail.Value.Json.{parse}
use veritrail.Value.Updates.{get-set-same}
use veritrail.Jcs.{jcs_bytes}
use veritrail.Jcs.Quoted.{IsStr}
use veritrail.Jcs.Canonical.{canonical, HaveJson, IsJson}
use veritrail.Jcs.Lookup.{canonical_fields, get-canonical_fields}
use veritrail.Jcs.RoundTrip.{parse-jcs_string}
use veritrail.Jcs.Texts.{jcs_string-IsText, jcs_bytes-IsBytes}
use veritrail.Chain.Reread.{b64url_decode-eq-some}
use veritrail.Hash.Injective.{Collision}
use veritrail.Outcome.{
  pass, or_throw, ◌>>=◌, ◌>>◌, require, >>=-eq-pass, >>-eq-pass, require-eq-pass, pass-injective,
}
use veritrail.Artifact.{read_prop}
use veritrail.Compact.{ascii_bytes}
use veritrail.Verify.{Registry, Policy, verify, ok}
use veritrail.Sign.{frame, signing_input, eddsa_header}
use veritrail.Sign.Segments.{split-joined}
use veritrail.Sign.Verified.{IsPublicHalf, header-HaveJson}
use veritrail.Mcp.{
  attach, spread, receipt_meta_key, meta_key, BuildReceiptOptions, build_receipt_payload,
  sign_receipt, registry_from_signer, compute_outputs_hash, veritrail_tool_result, strip_meta,
}
use veritrail.Mcp.Attached.{compute_outputs_hash-veritrail_tool_result}
use veritrail.Mcp.Commits.{hash_of-commits}
use veritrail.Mcp.Demo.{
  second, expecting, attached_receipt, receipt_payload_of, verified_hash, accept_result,
}
use veritrail.Mcp.Payload.{AreStr, build_receipt_payload-HaveJson}
use veritrail.Mcp.Verified.{verify-sign_receipt}

module _ (p : Platform) where
  open p use {Num, PrivateKey}

  -- The receipt that is attached under a key is the one that is read there.
  pub attached_receipt-attach :
      (key jws : Str) (o : Fields Num) → attached_receipt p (prop key (attach key jws o)) ≡ pass jws
  unfolding attached_receipt read_prop attach or_throw ◌>>=◌ as_str
  attached_receipt-attach key jws o =
      rw (get-set-same key (obj (set receipt_meta_key (str jws) (spread (prop key o)))) o)
        (rw (get-set-same receipt_meta_key (str jws) (spread (prop key o))))

  canonical_read :
      (fs : Fields Num)
      → HaveJson p fs
      → parse p (lossy_utf8 (jcs_bytes p (obj fs))) ≡ some (obj (canonical_fields p fs))
  unfolding jcs_bytes canonical
  canonical_read fs h =
      rw (lossy_utf8-encode_utf8 _ (jcs_string-IsText p (obj fs) h)) (parse-jcs_string p (obj fs) h)

  receipt_payload_of-split :
      (jws head seg sig : Str) (bytes : Bytes) (v : Value Num)
      → split b'.' jws ≡ head ∷ seg ∷ sig ∷ []
      → from_base64 seg ≡ bytes
      → parse p (lossy_utf8 bytes) ≡ some v
      → receipt_payload_of p jws ≡ pass v
  unfolding receipt_payload_of second or_throw ◌>>=◌
  receipt_payload_of-split jws head seg sig bytes v parts decoded parsed =
      rw (parts, decoded, parsed)

  -- The payload of a framed receipt is read back in canonical form.
  pub receipt_payload_of-frame :
      (kid : Str) (payload : Fields Num) (key : PrivateKey)
      → IsStr kid
      → HaveJson p payload
      → ((text : Bytes) → IsBytes (p.sign_eddsa text key))
      → receipt_payload_of p (frame p kid payload key) ≡ pass (obj (canonical_fields p payload))
  unfolding frame signing_input jcs_bytes
  receipt_payload_of-frame kid payload key hk hp sig =
      let header = jcs_bytes p (obj (eddsa_header kid)) in
      let bh : IsBytes header =
        jcs_bytes-IsBytes p (obj (eddsa_header kid)) (header-HaveJson p kid hk) in
      let bytes = jcs_bytes p (obj payload) in
      let bp : IsBytes bytes = jcs_bytes-IsBytes p (obj payload) hp in
      receipt_payload_of-split (frame p kid payload key) _ (base64url bytes) _ bytes
        (obj (canonical_fields p payload))
        (split-joined header bytes _ bh bp (sig (ascii_bytes (signing_input p kid payload))))
        (b64url_decode-eq-some (base64url bytes) bytes (b64url_decode-base64url bytes bp))
        (canonical_read payload hp)

  -- The hash that a framed receipt names, if `verify` accepts the receipt.
  pub verified_hash-frame :
      (keys : Registry) (policy : Policy) (kid : Str) (payload : Fields Num) (key : PrivateKey)
      (hash : Str)
      → IsStr kid
      → HaveJson p payload
      → ((text : Bytes) → IsBytes (p.sign_eddsa text key))
      → get (codes "outputs_hash") payload ≡ some (str hash)
      → verify p (record {
        signed_receipt = str (frame p kid payload key);
        keys = some keys;
        policy = some policy;
      })
        ≡ some (record { valid = true; reason = ok })
      → verified_hash p keys policy (frame p kid payload key) ≡ pass (str hash)
  unfolding verified_hash read_prop or_throw require ◌>>=◌ ◌>>◌ canonical
  verified_hash-frame keys policy kid payload key hash hk hp sig named valid = rw (
    receipt_payload_of-frame kid payload key hk hp sig,
    get-canonical_fields p (codes "outputs_hash") (str hash) payload hp named,
    valid,
  )

  pub str-injective : {s t : Str} → ◌≡◌ {A = Value Num} (str s) (str t) → s ≡ t
  str-injective h = ground arith

  is_str_refl : (s : Str) → is_str {N = Num} s (str s) ≡ true
  unfolding is_str
  is_str_refl s = str_eq_refl s

  pub receipt_attached :
      (opts : BuildReceiptOptions p)
      → attached_receipt p (prop meta_key (veritrail_tool_result p opts))
        ≡ pass (sign_receipt p (build_receipt_payload p opts) opts.signer)
  unfolding veritrail_tool_result
  receipt_attached opts = attached_receipt-attach meta_key _ opts.result

  outputs_hash_named :
      (opts : BuildReceiptOptions p)
      → get (codes "outputs_hash") (build_receipt_payload p opts)
        ≡ some (str (compute_outputs_hash p opts.result))
  unfolding build_receipt_payload get str_eq
  outputs_hash_named opts = refl

  pub tool_receipt_verified :
      (opts : BuildReceiptOptions p)
      → AreStr p opts
      → opts.signer.public_jwk.status ≢ some (codes "revoked")
      → opts.signer.public_jwk.alg ≡ codes "EdDSA"
      → IsPublicHalf p opts.signer.private_key opts.signer.public_jwk
      → verified_hash p
          (registry_from_signer p opts.signer)
          (expecting (codes "mcp") (codes "mcp:" ++ opts.tool_name))
          (sign_receipt p (build_receipt_payload p opts) opts.signer)
        ≡ pass (str (compute_outputs_hash p opts.result))
  unfolding sign_receipt
  tool_receipt_verified opts h active alg half =
      verified_hash-frame (registry_from_signer p opts.signer) _ opts.signer.kid
        (build_receipt_payload p opts) opts.signer.private_key (compute_outputs_hash p opts.result)
        h.kid (build_receipt_payload-HaveJson p opts h) half.are_bytes (outputs_hash_named opts)
        (verify-sign_receipt p opts h.kid h.performer_id h.tool_name h.wall_ms h.ts active alg half)

  pub accept_result-steps :
      (keys : Registry) (result : Fields Num) (jws hash : Str)
      → attached_receipt p (prop meta_key result) ≡ pass jws
      → verified_hash p keys (expecting (codes "mcp") (codes "mcp:add")) jws ≡ pass (str hash)
      → compute_outputs_hash p result ≡ hash
      → accept_result p keys result ≡ pass (str hash)
  unfolding accept_result require ◌>>=◌ ◌>>◌
  accept_result-steps keys result jws hash attached verified bound =
      rw (attached, verified, bound, is_str_refl hash)

  -- The result of the tool `add`, with the receipt that the middleware attaches, passes the checks of
  -- the client, which find the hash of the result in the receipt.
  pub accept_result-veritrail_tool_result :
      (opts : BuildReceiptOptions p)
      → AreStr p opts
      → opts.tool_name ≡ codes "add"
      → opts.signer.public_jwk.status ≢ some (codes "revoked")
      → opts.signer.public_jwk.alg ≡ codes "EdDSA"
      → IsPublicHalf p opts.signer.private_key opts.signer.public_jwk
      → accept_result p (registry_from_signer p opts.signer) (veritrail_tool_result p opts)
        ≡ pass (str (compute_outputs_hash p opts.result))
  accept_result-veritrail_tool_result opts h add active alg half =
      accept_result-steps (registry_from_signer p opts.signer) (veritrail_tool_result p opts) _
        (compute_outputs_hash p opts.result) (receipt_attached opts)
        (subst
          (λ name.
            verified_hash p (registry_from_signer p opts.signer)
              (expecting (codes "mcp") (codes "mcp:" ++ name))
              (sign_receipt p (build_receipt_payload p opts) opts.signer)
            ≡ pass (str (compute_outputs_hash p opts.result)))
          add (tool_receipt_verified opts h active alg half))
        (compute_outputs_hash-veritrail_tool_result p opts).0

  -- What the checks have read of a result that passes them.
  accept_result-reads :
      (keys : Registry) (r : Fields Num) (jws : Str) (h : Value Num)
      → attached_receipt p (prop meta_key r) ≡ pass jws
      → accept_result p keys r ≡ pass h
      → (payload : Value Num) × (receipt_payload_of p jws ≡ pass payload)
        × (read_prop (codes "outputs_hash") payload ≡ pass (str (compute_outputs_hash p r)))
  unfolding accept_result verified_hash
  accept_result-reads keys r jws h attached e =
      let (jws', j_is, e1) = >>=-eq-pass _ _ e in
      let (hash, hash_is, e2) = >>=-eq-pass _ _ e1 in
      let (bound, _) = >>-eq-pass _ _ e2 in
      let (payload, p_is, e3) = >>=-eq-pass _ _ hash_is in
      let (named, n_is, e4) = >>=-eq-pass _ _ e3 in
      let (out, _, e5) = >>=-eq-pass _ _ e4 in
      let (_, same) = >>-eq-pass _ _ e5 in
      let same_jws : jws' ≡ jws = pass-injective (sym j_is ∙ attached) in
      let is : hash ≡ str (compute_outputs_hash p r) =
        (is_str_iff (compute_outputs_hash p r) hash).0 (require-eq-pass _ _ bound) in
      (payload, ap (receipt_payload_of p) (sym same_jws) ∙ p_is, n_is ∙ same ∙ ap pass is)

  -- What a client accepts with one receipt is one result: if two results pass the checks with the same
  -- receipt, whatever the registries, they hold the same data up to the order of keys, `_meta` apart,
  -- or two byte strings have one SHA-256 digest; the results are JSON data, and SHA-256 is assumed to
  -- return bytes.
  pub accept_result-same :
      ((b : Bytes) → IsBytes (p.sha256 b))
      → (keys keys' : Registry) (r r' : Fields Num) (jws : Str) (h h' : Value Num)
      → attached_receipt p (prop meta_key r) ≡ pass jws
      → attached_receipt p (prop meta_key r') ≡ pass jws
      → IsJson p (obj (strip_meta r))
      → IsJson p (obj (strip_meta r'))
      → accept_result p keys r ≡ pass h
      → accept_result p keys' r' ≡ pass h'
      → (canonical (obj (strip_meta r)) ≡ canonical (obj (strip_meta r'))) ⊎ Collision p
  accept_result-same bytes keys keys' r r' jws h h' at at' jr jr' e e' =
      let (payload, reads, names) = accept_result-reads keys r jws h at e in
      let (payload', reads', names') = accept_result-reads keys' r' jws h' at' e' in
      let same : payload ≡ payload' = pass-injective (sym reads ∙ reads') in
      let hashes : str (compute_outputs_hash p r) ≡ str (compute_outputs_hash p r') =
        pass-injective (sym names ∙ ap (read_prop (codes "outputs_hash")) same ∙ names') in
      hash_of-commits p bytes (obj (strip_meta r)) (obj (strip_meta r')) jr jr'
        (unfold compute_outputs_hash in str-injective hashes)
