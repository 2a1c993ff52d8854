-- ===== src/A2a/Tampered.antt =====
-- The artifacts of ts/src/a2a/server.ts, which have one text, and their forgery by ts/src/a2a/demo.ts.
use veritrail.Prelude.{
  ◌≡◌, ◌≢◌, ◌⊎◌, inl, inr, refl, sym, ap, ◌∙◌, Bool-cases, [], ◌++◌, some, arith,
}
use veritrail.Platform.{Platform}
use veritrail.Text.{Str, Bytes, codes, str_eq, str_lt}
use veritrail.Text.Base64.RoundTrip.{IsBytes}
use veritrail.Value.Strings.{is_str_iff}
use veritrail.Value.{
  Value, str, arr, obj, nil, cons, field, end, get, set, is_str, as_array, has_own,
}
use veritrail.Stringify.{plain, keep}
use veritrail.Stringify.RoundTrip.{parse-json_string}
use veritrail.Jcs.{sort_keys, insert_key}
use veritrail.Jcs.Quoted.{IsStr}
use veritrail.Jcs.Canonical.{canonical, canonical_members, of_members, IsJson}
use veritrail.Jcs.Objects.{keys_ok, keys_ok-HaveJson, ◌▸◌}
use veritrail.Hash.Injective.{Collision}
use veritrail.Outcome.{pass, or_throw, ◌>>=◌, require}
use veritrail.Artifact.{read_prop, a2a_artifact_hash}
use veritrail.Mcp.{hash_of}
use veritrail.Mcp.Server.{single}
use veritrail.Mcp.Commits.{hash_of-commits}
use veritrail.Mcp.Accepted.{str-injective}
use veritrail.A2a.{hash_or_throw, compute_artifact_hash}
use veritrail.A2a.Server.{Strings, text_part}
use veritrail.A2a.Demo.{tampered, tamper_text, with_text, tamper_parts, reject_tampered}
use veritrail.A2a.Accepted.{hash_of_parts-eq-pass}

module _ (p : Platform) (strings : Strings p) where
  open p use {Num}

  abbrev pub one_text : Str → Value Num
  one_text text = arr (cons (text_part text) nil)

  -- The hash of one text part.
  abbrev pub text_hash : Str → Str
  text_hash text = hash_of p (single (codes "parts") (one_text text))

  pub compute_artifact_hash-text :
      (text : Str) → compute_artifact_hash p (one_text text) ≡ pass (text_hash text)
  unfolding compute_artifact_hash hash_or_throw a2a_artifact_hash hash_of get str_eq
  compute_artifact_hash-text text = refl

  one_text-IsJson : (text : Str) → IsStr text → IsJson p (one_text text)
  unfolding keys_ok has_own str_eq
  one_text-IsJson text h = (
    keys_ok-HaveJson p
        (field (codes "kind") (str (codes "text")) (field (codes "text") (str text) end)) refl
        ((omega arith) ▸ h ▸ tt),
    tt,
  )

  parts-IsJson : (text : Str) → IsStr text → IsJson p (single (codes "parts") (one_text text))
  unfolding has_own
  parts-IsJson text h = (omega arith, (refl, (one_text-IsJson text h, tt)))

  -- The text in a descriptor in canonical form.
  unfoldable text_in : Value Num → Str
  text_in (obj (field _ (arr (cons (obj (field _ _ (field _ (str t) _))) _)) _)) = t
  text_in _ = []

  text_in-canonical :
      (text : Str) → text_in (canonical (single (codes "parts") (one_text text))) ≡ text
  unfolding text_in canonical canonical_members sort_keys insert_key str_lt of_members
  text_in-canonical text = refl

  tamper_parts-text :
      (text : Str)
      → tamper_parts p strings (cons (text_part text) nil)
        ≡ pass (cons (text_part (text ++ tampered)) nil)
  unfolding tamper_parts read_prop is_str tamper_text with_text set get str_eq ◌>>=◌
  tamper_parts-text text = refl

  plain_text : (text : Str) → as_array (plain (one_text text)) ≡ some (cons (text_part text) nil)
  unfolding plain keep of_members as_array
  plain_text text = refl

  -- The forged parts are told from the ones in the receipt, unless SHA-256 collides.
  pub reject_tampered-text :
      ((b : Bytes) → IsBytes (p.sha256 b))
      → (text : Str) → IsStr text
      → IsStr (text ++ tampered)
      → text ≢ text ++ tampered
      → (reject_tampered p strings (str (text_hash text)) (one_text text) ≡ pass tt) ⊎ Collision p
  unfolding reject_tampered ◌>>=◌ require or_throw
  reject_tampered-text bytes text ht hf differs =
      let forged = text ++ tampered in
      elim (Bool-cases (is_str {N = Num} (text_hash forged) (str (text_hash text)))) [
        | inr e ↦ inl (
            rw (
              parse-json_string p (one_text text) (one_text-IsJson text ht),
              plain_text text,
              tamper_parts-text text,
              hash_of_parts-eq-pass p (one_text forged) (text_hash forged)
                  (compute_artifact_hash-text forged),
              e,
            ))
        | inl e ↦
            elim (hash_of-commits p bytes (single (codes "parts") (one_text text))
              (single (codes "parts") (one_text forged)) (parts-IsJson text ht)
              (parts-IsJson forged hf)
              (str-injective p ((is_str_iff (text_hash forged) (str (text_hash text))).0 e))) [
                | inl same ↦ absurd (
                    differs
                      (sym (text_in-canonical text) ∙ ap text_in same ∙ text_in-canonical forged))
                | inr c ↦ inr c
              ]
      ]
