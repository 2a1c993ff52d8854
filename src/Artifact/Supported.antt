-- ===== src/Artifact/Supported.antt =====
-- Which artifacts ts/src/commands/a2a-artifact-hash.ts hashes.
use veritrail.Prelude.{
  ◌≡◌, ◌≢◌, refl, sym, ◌∙◌, ◌↔◌, ◌⊎◌, inl, inr, Bool, true, false, [], ◌∷◌, Option, none, some, All,
  if◌then◌else◌, Bool-cases,
}
use veritrail.Platform.{Platform}
use veritrail.Text.{Str, codes}
use veritrail.Value.{
  Value, undefined, null, bool, num, str, arr, obj, Items, nil, cons, Fields, end, field, prop,
  is_str, as_str, as_array, elements,
}
use veritrail.Value.Strings.{is_str_iff, as_str-eq-some_iff}
use veritrail.Outcome.{
  Outcome, pass, fail, thrown, ◌>>=◌, ◌>>◌, require, require_some, >>=-eq-pass, >>=-pass,
}
use veritrail.Artifact.{
  unsupported_part, read_prop, read_optional, is_falsy, inline_file, uri_file, by_uri, by_bytes,
  file_descriptor, text_descriptor, data_descriptor, by_kind, part_to_descriptor, descriptors,
  build_descriptor, ArtifactHashOutput, a2a_artifact_hash,
}

module _ {N : Type 0} where
  abbrev IsString : Value N → Type 0
  IsString v = (s : Str) × (v ≡ str s)

  -- A file object that carries its bytes or a URI.
  abbrev pub IsFile : Value N → Type 0
  IsFile (obj fs) = IsString (prop (codes "bytes") fs) ⊎ IsString (prop (codes "uri") fs)
  IsFile _ = ⊥

  -- A part of text or of data, or a file of that kind.
  abbrev pub IsPart : Value N → Type 0
  IsPart (obj fs) =
      (prop (codes "kind") fs ≡ str (codes "text"))
      ⊎ ((prop (codes "kind") fs ≡ str (codes "data"))
          ⊎ ((prop (codes "kind") fs ≡ str (codes "file")) × IsFile (prop (codes "file") fs)))
  IsPart _ = ⊥

  abbrev pub ArePartsOf : Value N → Type 0
  ArePartsOf (arr parts) = All IsPart (elements parts)
  ArePartsOf _ = ⊥

  abbrev pub IsArtifact : Value N → Type 0
  IsArtifact (obj fs) = ArePartsOf (prop (codes "parts") fs)
  IsArtifact _ = ⊥

-- A step that passes a value.
abbrev Passes : {A : Type 0} → Outcome Str A → Type 0
Passes {A} m = (a : A) × (m ≡ pass a)

-- A last step that always passes.
Passes-last :
    {A B : Type 0} (m : Outcome Str A) (f : A → B) → Passes (m >>= λ a. pass (f a)) ↔ Passes m
unfolding ◌>>=◌
Passes-last (pass a) f = ((λ h. (a, refl)), (λ h. (f a, refl)))
Passes-last (fail r) f = ((λ (b, e). cc), (λ (b, e). cc))
Passes-last thrown f = ((λ (b, e). cc), (λ (b, e). cc))

Passes-nested :
    {A B C : Type 0} (m : Outcome Str A) (k : A → Outcome Str B) (f : B → C)
    → Passes (m >>= λ a. k a >>= λ b. pass (f b)) ↔ Passes (m >>= k)
unfolding ◌>>=◌
Passes-nested (pass a) k f = Passes-last (k a) f
Passes-nested (fail r) k f = ((λ (b, e). cc), (λ (b, e). cc))
Passes-nested thrown k f = ((λ (b, e). cc), (λ (b, e). cc))

refused : {A : Type 0} (m : Outcome Str A) (r : Str) → m ≡ fail r → Passes m ↔ ⊥
refused m r h = ((λ (a, e). absurd (fail≢pass (sym h ∙ e))), (λ x. absurd x))
  where
    fail≢pass : {B : Type 0} {a : B} {q : Str} → ◌≢◌ {A = Outcome Str B} (fail q) (pass a)
    fail≢pass e = cc

threw : {A : Type 0} (m : Outcome Str A) → m ≡ thrown → Passes m ↔ ⊥
threw m h = ((λ (a, e). absurd (thrown≢pass (sym h ∙ e))), (λ x. absurd x))
  where
    thrown≢pass : {B : Type 0} {a : B} → ◌≢◌ {A = Outcome Str B} thrown (pass a)
    thrown≢pass e = cc

false≢true : false ≢ true
false≢true e = cc

none≢some : {a : Str} → ◌≢◌ {A = Option Str} none (some a)
none≢some e = cc

either : {A B C D : Type 0} → (A → C) → (B → D) → A ⊎ B → C ⊎ D
either f g (inl a) = inl (f a)
either f g (inr b) = inr (g b)

module _ (p : Platform) where
  open p use {Num}

  inline_file-Passes : (b : Str) (fs : Fields Num) → Passes (inline_file p b (obj fs))
  unfolding inline_file read_prop ◌>>=◌
  inline_file-Passes b fs = (_, refl)

  uri_file-Passes : (u : Str) (fs : Fields Num) → Passes (uri_file p u (obj fs))
  unfolding uri_file read_prop ◌>>=◌
  uri_file-Passes u fs = (_, refl)

  as_str-IsString :
      (v : Value Num) (o : Option Str) → as_str v ≡ o → IsString v ↔ ((s : Str) × (o ≡ some s))
  as_str-IsString v o e = (
    (λ (s, v_is). (s, sym e ∙ (as_str-eq-some_iff v s).1 v_is)),
    (λ (s, o_is). (s, (as_str-eq-some_iff v s).0 (e ∙ o_is))),
  )

  -- A file object, by what it carries.
  carried :
      (fs : Fields Num) (o o' : Option Str)
      → as_str (prop (codes "uri") fs) ≡ o'
      → Passes (by_bytes p o (obj fs)) ↔ (((s : Str) × (o ≡ some s)) ⊎ ((s : Str) × (o' ≡ some s)))
  unfolding by_bytes by_uri read_prop ◌>>=◌
  carried fs (some b) o' e = ((λ h. inl (b, refl)), (λ h. inline_file-Passes b fs))
  carried fs none (some u) e = ((λ h. inr (u, refl)), (λ h. rw e (uri_file-Passes u fs)))
  carried fs none none e = (
    (λ h. absurd (
        (refused (by_uri p (as_str (prop (codes "uri") fs)) (obj fs)) unsupported_part
            (rw e refl)).0
          h)),
    elim [ inl (s, o) ↦ absurd (none≢some o) | inr (s, o) ↦ absurd (none≢some o) ],
  )

  file_descriptor_iff : (v : Value Num) → Passes (file_descriptor p v) ↔ IsFile v
  unfolding file_descriptor is_falsy ◌>>◌ ◌>>=◌ require read_prop by_bytes by_uri as_str
  file_descriptor_iff undefined = refused _ unsupported_part refl
  file_descriptor_iff null = refused _ unsupported_part refl
  file_descriptor_iff (bool true) = refused _ unsupported_part refl
  file_descriptor_iff (bool false) = refused _ unsupported_part refl
  file_descriptor_iff (num n) = elim (Bool-cases (p.number_falsy n)) [
    | inl e ↦ refused _ unsupported_part (rw e refl)
    | inr e ↦ refused _ unsupported_part (rw e refl)
  ]
  file_descriptor_iff (str []) = refused _ unsupported_part refl
  file_descriptor_iff (str (c ∷ s)) = refused _ unsupported_part refl
  file_descriptor_iff (arr xs) = refused _ unsupported_part refl
  file_descriptor_iff (obj fs) =
      let (to, from) =
        carried fs (as_str (prop (codes "bytes") fs)) (as_str (prop (codes "uri") fs)) refl in
      let (bytes_to, bytes_from) = as_str-IsString (prop (codes "bytes") fs) _ refl in
      let (uri_to, uri_from) = as_str-IsString (prop (codes "uri") fs) _ refl in
      ((λ h. either bytes_from uri_from (to h)), (λ h. from (either bytes_to uri_to h)))

  -- The three kinds, by the outcome of their tests.
  kinds :
      (t d f : Bool) (T D F : Type 0) (text content file : Outcome Str (Fields Num))
      → (t ≡ true) ↔ T
      → (d ≡ true) ↔ D
      → (f ≡ true) ↔ F
      → Passes text
      → Passes content
      → (P : Type 0) → Passes file ↔ P
      → Passes
          (if t then text else if d then content else if f then file else fail unsupported_part)
        ↔ (T ⊎ (D ⊎ (F × P)))
  kinds true d f T D F text content file it id if' pt pd P pf = ((λ h. inl (it.0 refl)), (λ h. pt))
  kinds false true f T D F text content file it id if' pt pd P pf =
      ((λ h. inr (inl (id.0 refl))), (λ h. pd))
  kinds false false true T D F text content file it id if' pt pd P pf = (
    (λ h. inr (inr (if'.0 refl, pf.0 h))),
    elim [
      | inl x ↦ absurd (false≢true (it.1 x))
      | inr (inl x) ↦ absurd (false≢true (id.1 x))
      | inr (inr (_, x)) ↦ pf.1 x
    ],
  )
  kinds false false false T D F text content file it id if' pt pd P pf = (
    (λ h. absurd ((refused (fail unsupported_part) unsupported_part refl).0 h)),
    elim [
      | inl x ↦ absurd (false≢true (it.1 x))
      | inr (inl x) ↦ absurd (false≢true (id.1 x))
      | inr (inr (x, _)) ↦ absurd (false≢true (if'.1 x))
    ],
  )

  -- A part, by its kind.
  part_to_descriptor_iff : (v : Value Num) → Passes (part_to_descriptor p v) ↔ IsPart v
  unfolding part_to_descriptor by_kind text_descriptor data_descriptor ◌>>=◌ read_prop is_str
  part_to_descriptor_iff undefined = threw _ refl
  part_to_descriptor_iff null = threw _ refl
  part_to_descriptor_iff (bool b) = refused _ unsupported_part refl
  part_to_descriptor_iff (num n) = refused _ unsupported_part refl
  part_to_descriptor_iff (str s) = refused _ unsupported_part refl
  part_to_descriptor_iff (arr xs) = refused _ unsupported_part refl
  part_to_descriptor_iff (obj fs) =
      kinds _ _ _ _ _ _ _ _ _ (is_str_iff (codes "text") (prop (codes "kind") fs))
        (is_str_iff (codes "data") (prop (codes "kind") fs))
        (is_str_iff (codes "file") (prop (codes "kind") fs)) (_, refl) (_, refl)
        (IsFile (prop (codes "file") fs)) (file_descriptor_iff (prop (codes "file") fs))

  descriptors_iff : (xs : Items Num) → Passes (descriptors p xs) ↔ All IsPart (elements xs)
  unfolding descriptors elements
  descriptors_iff nil = ((λ _. tt), (λ _. (_, refl)))
  descriptors_iff (cons v xs) = (
    (λ (ds, e).
        let (d, is_d, e1) = >>=-eq-pass (part_to_descriptor p v) _ e in
        let (rest, is_rest, _) = >>=-eq-pass (descriptors p xs) _ e1 in
        ((part_to_descriptor_iff v).0 (d, is_d), (descriptors_iff xs).0 (rest, is_rest))),
    (λ (h, hs).
        let (d, is_d) = (part_to_descriptor_iff v).1 h in
        let (rest, is_rest) = (descriptors_iff xs).1 hs in
        (_, >>=-pass _ _ d is_d (>>=-pass _ _ rest is_rest refl))),
  )

  array_iff :
      (v : Value Num)
      → Passes (require_some (as_array v) unsupported_part >>= λ parts. descriptors p parts)
        ↔ ArePartsOf v
  unfolding as_array require_some ◌>>=◌
  array_iff (arr xs) = descriptors_iff xs
  array_iff undefined = refused _ unsupported_part refl
  array_iff null = refused _ unsupported_part refl
  array_iff (bool b) = refused _ unsupported_part refl
  array_iff (num n) = refused _ unsupported_part refl
  array_iff (str s) = refused _ unsupported_part refl
  array_iff (obj fs) = refused _ unsupported_part refl

  optional_iff :
      (v : Value Num)
      → Passes (
          require_some (as_array (read_optional (codes "parts") v)) unsupported_part >>= λ parts.
          descriptors p parts)
        ↔ IsArtifact v
  unfolding read_optional
  optional_iff (obj fs) = array_iff (prop (codes "parts") fs)
  optional_iff undefined = array_iff undefined
  optional_iff null = array_iff undefined
  optional_iff (bool b) = array_iff undefined
  optional_iff (num n) = array_iff undefined
  optional_iff (str s) = array_iff undefined
  optional_iff (arr xs) = array_iff undefined

-- An artifact is hashed exactly if it is an object with an array `parts` of objects, each of the kind
-- `text`, or of the kind `data`, or of the kind `file` with a file object that carries its bytes or a
-- URI as a string; for any other value the command throws or reports an error.
pub a2a_artifact_hash_iff :
    (p : Platform) (artifact : Value p.Num)
    → ((out : ArtifactHashOutput p) × (a2a_artifact_hash p artifact ≡ pass out))
      ↔ IsArtifact artifact
unfolding a2a_artifact_hash build_descriptor
a2a_artifact_hash_iff p artifact =
    let (to, from) = optional_iff p artifact in
    let (nested, into) =
      Passes-nested
        (require_some (as_array (read_optional (codes "parts") artifact)) unsupported_part)
        (descriptors p) (λ ds. field (codes "parts") (arr ds) end) in
    let (last, first) = Passes-last (build_descriptor p artifact) _ in
    ((λ h. to (nested (last h))), (λ h. first (into (from h))))
