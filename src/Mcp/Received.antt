-- ===== src/Mcp/Received.antt =====
-- The results of the tool `add` of ts/src/mcp/server.ts, and their forgery by ts/src/mcp/demo.ts.
use veritrail.Prelude.{◌≡◌, ◌≢◌, ◌⊎◌, inl, inr, refl, sym, ap, ◌∙◌, Bool-cases, [], arith}
use veritrail.Platform.{Platform}
use veritrail.Text.{Str, Bytes, codes, str_eq, str_lt}
use veritrail.Text.Base64.RoundTrip.{IsBytes}
use veritrail.Value.Strings.{is_str_iff}
use veritrail.Value.{
  Value, str, num, arr, obj, cons, Fields, field, end, get, set, remove, is_str, as_object, has_own,
}
use veritrail.Stringify.{plain, keep}
use veritrail.Stringify.RoundTrip.{parse-json_string}
use veritrail.Jcs.{sort_keys, insert_key}
use veritrail.Jcs.Quoted.{IsStr}
use veritrail.Jcs.Canonical.{canonical, canonical_members, of_members, IsJson, IsNumber}
use veritrail.Jcs.Objects.{keys_ok, keys_ok-HaveJson, ◌▸◌}
use veritrail.Hash.Injective.{Collision}
use veritrail.Outcome.{pass, or_throw, ◌>>=◌, require}
use veritrail.Mcp.{
  TestSigner, compute_outputs_hash, hash_of, strip_meta, meta_key, receipt_meta_key,
  veritrail_tool_result, attach, spread, build_receipt_payload, sign_receipt,
}
use veritrail.Mcp.Commits.{hash_of-commits}
use veritrail.Mcp.Accepted.{str-injective}
use veritrail.Mcp.Server.{Arithmetic, Moment, add_options, sum_result, text_content, single}
use veritrail.Mcp.Demo.{forge, reject_forged}

module _ (p : Platform) (arithmetic : Arithmetic p) where
  open p use {Num, number_value}
  open arithmetic use {to_number, plus, number_string, elapsed}

  -- A result of the tool, as the client has it.
  abbrev pub received : Str → Num → Str → Fields Num
  received text sum jws = field (codes "content") (text_content text) (
      field (codes "structuredContent") (single (codes "sum") (num sum))
        (field meta_key (single receipt_meta_key (str jws)) end))

  -- What is hashed of it.
  abbrev hashed : Str → Num → Fields Num
  hashed text sum =
      field (codes "content") (text_content text)
        (field (codes "structuredContent") (single (codes "sum") (num sum)) end)

  pub tool_result-received :
      (signer : TestSigner p) (moment : Moment p) (params : Fields Num) (sum : Num)
      → veritrail_tool_result p (add_options p arithmetic signer moment params sum)
        ≡ received (number_string sum) sum (
            sign_receipt p
              (build_receipt_payload p (add_options p arithmetic signer moment params sum))
              signer)
  unfolding veritrail_tool_result attach spread set get str_eq sum_result
  tool_result-received signer moment params sum = refl

  text_content-IsJson : (text : Str) → IsStr text → IsJson p (text_content text)
  unfolding keys_ok has_own str_eq
  text_content-IsJson text h = (
    keys_ok-HaveJson p
        (field (codes "type") (str (codes "text")) (field (codes "text") (str text) end)) refl
        ((omega arith) ▸ h ▸ tt),
    tt,
  )

  single_sum : (sum : Num) → IsNumber p sum → IsJson p (single (codes "sum") (num sum))
  unfolding has_own
  single_sum sum h = (omega arith, (refl, (h, tt)))

  pub received-IsJson :
      (text : Str) (sum : Num) (jws : Str)
      → IsStr text
      → IsNumber p sum
      → IsStr jws
      → IsJson p (obj (received text sum jws))
  unfolding keys_ok has_own str_eq
  received-IsJson text sum jws ht hs hj =
      keys_ok-HaveJson p (received text sum jws) refl
        (text_content-IsJson text ht ▸ single_sum sum hs ▸ (omega arith, (refl, (hj, tt))) ▸ tt)

  hashed-IsJson :
      (text : Str) (sum : Num) → IsStr text → IsNumber p sum → IsJson p (obj (hashed text sum))
  unfolding keys_ok has_own str_eq
  hashed-IsJson text sum ht hs =
      keys_ok-HaveJson p (hashed text sum) refl
        (text_content-IsJson text ht ▸ single_sum sum hs ▸ tt)

  -- The forged result is the same with another sum.
  forge-received :
      (text : Str) (sum : Num) (jws : Str)
      → IsJson p (obj (received text sum jws))
      → forge p (received text sum jws)
        ≡ pass (received (codes "999") (number_value (codes "999")) jws)
  unfolding forge or_throw ◌>>=◌ as_object plain keep of_members set str_eq
  forge-received text sum jws h = rw (parse-json_string p (obj (received text sum jws)) h)

  compute_outputs_hash-received :
      (text : Str) (sum : Num) (jws : Str)
      → compute_outputs_hash p (received text sum jws) ≡ hash_of p (obj (hashed text sum))
  unfolding compute_outputs_hash strip_meta remove str_eq
  compute_outputs_hash-received text sum jws = refl

  -- The text in the content of a result in canonical form.
  unfoldable content_text : Value Num → Str
  content_text (obj (field _ (arr (cons (obj (field _ (str t) _)) _)) _)) = t
  content_text _ = []

  content_text-canonical :
      (text : Str) (sum : Num) → content_text (canonical (obj (hashed text sum))) ≡ text
  unfolding content_text canonical canonical_members sort_keys insert_key str_lt of_members
  content_text-canonical text sum = refl

  -- A result whose text is not the forged one is told from the forged one, unless SHA-256 collides.
  pub reject_forged-received :
      ((b : Bytes) → IsBytes (p.sha256 b))
      → (text : Str) (sum : Num) (jws : Str) → IsStr text
      → IsNumber p sum
      → IsStr jws
      → IsNumber p (number_value (codes "999"))
      → text ≢ codes "999"
      → (reject_forged p
            (str (compute_outputs_hash p (received text sum jws)))
            (received text sum jws)
          ≡ pass tt)
        ⊎ Collision p
  unfolding reject_forged ◌>>=◌ require
  reject_forged-received bytes text sum jws ht hs hj h9 differs =
      let mine = compute_outputs_hash p (received text sum jws) in
      let theirs =
        compute_outputs_hash p (received (codes "999") (number_value (codes "999")) jws) in
      elim (Bool-cases (is_str {N = Num} theirs (str mine))) [
        | inr e ↦ inl (rw (forge-received text sum jws (received-IsJson text sum jws ht hs hj), e))
        | inl e ↦
            elim (hash_of-commits p bytes (obj (hashed text sum))
              (obj (hashed (codes "999") (number_value (codes "999"))))
              (hashed-IsJson text sum ht hs)
              (hashed-IsJson (codes "999") (number_value (codes "999")) (omega arith) h9)
              (sym (compute_outputs_hash-received text sum jws)
                ∙ str-injective p ((is_str_iff theirs (str mine)).0 e)
                ∙ compute_outputs_hash-received (codes "999") (number_value (codes "999")) jws)) [
                  | inl same ↦ absurd (
                      differs (
                        sym (content_text-canonical text sum)
                        ∙ ap content_text same
                        ∙ content_text-canonical (codes "999") (number_value (codes "999"))))
                  | inr c ↦ inr c
                ]
      ]
