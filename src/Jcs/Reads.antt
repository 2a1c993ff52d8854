-- ===== src/Jcs/Reads.antt =====
-- How `JSON.parse` reads the canonical text of a scalar, with more text behind it.
use veritrail.Prelude.{
  ℕ, zero, suc, ◌*◌, ◌<◌, ◌≡◌, refl, sym, ap, ◌∙◌, subst, Bool, true, false, ◌||◌, [], ◌∷◌, ◌++◌,
  append_assoc, arith, ◌==◌, if◌then◌else◌, none, some, ◌>>=◌, length, within,
}
use veritrail.Platform.{Platform}
use veritrail.Text.{Str, codes}
use veritrail.Value.{Value, null, bool, num, str}
use veritrail.Value.Json.{
  token, scalar, expect, parse_value, parse_scalar, skip_space, keyword, number_literal,
}
use veritrail.Jcs.{quote}
use veritrail.Jcs.Quoted.{IsStr, scan_string-quote}
use veritrail.Jcs.Number.{IsDelimited, number_literal-append, number_head}
use veritrail.Jcs.Canonical.{IsNumber}

-- The text begins with neither white space nor punctuation.
abbrev pub Starts : Str → Type 0
Starts [] = ⊥
Starts (c ∷ _) =
    (c == b' ' || c == b'\n' || c == b'\r' || c == b'\t' || c == b',' || c == b']' || c == b'}')
    ≡ false

pub expect-Starts :
    (d : ℕ) (t rest : Str)
    → Starts t
    → (d == b']' || d == b'}') ≡ true
    → expect d (t ++ rest) ≡ none
unfolding expect skip_space
expect-Starts d [] rest h k = absurd h
expect-Starts d (c ∷ t) rest h k = ground arith

pub token-number :
    (c : ℕ) (cs : Str) → (c == b'-' || within b'0' b'9' c) ≡ true → token (c ∷ cs) ≡ scalar (c ∷ cs)
unfolding token skip_space
token-number c cs h = ground arith

pub Starts-append : (s t : Str) → Starts s → Starts (s ++ t)
Starts-append [] t h = absurd h
Starts-append (c ∷ s) t h = h

pub keyword_ne :
    (k : ℕ) (ks : Str) (c : ℕ) (cs : Str) → (c == k) ≡ false → keyword (k ∷ ks) (c ∷ cs) ≡ none
unfolding keyword
keyword_ne k ks c cs h = rw h

module _ (p : Platform) where
  open p use {Num, number_text, number_value}

  -- The text of a value is read back as it, in front of a delimiter and with enough fuel.
  pub record Reads (t : Str) (v : Value Num) : Type 0 where
    pub starts : Starts t
    pub reads :
        (f : ℕ) (rest : Str)
        → 2 * length t < f
        → IsDelimited rest
        → parse_value p f (t ++ rest) ≡ some (v, rest)

  pub Reads-null : Reads (codes "null") null
  unfolding parse_value token skip_space parse_scalar keyword
  Reads-null = record { starts = refl; reads = λ f rest h d. go f rest h }
    where
      go : (f : ℕ) (rest : Str) → 8 < f → parse_value p f (codes "null" ++ rest) ≡ some (null, rest)
      go zero rest h = absurd (omega arith)
      go (suc f) rest h = refl

  pub Reads-bool : (b : Bool) → Reads (if b then codes "true" else codes "false") (bool b)
  unfolding parse_value token skip_space parse_scalar keyword
  Reads-bool true = record { starts = refl; reads = λ f rest h d. go f rest h }
    where
      go :
          (f : ℕ) (rest : Str)
          → 8 < f
          → parse_value p f (codes "true" ++ rest) ≡ some (bool true, rest)
      go zero rest h = absurd (omega arith)
      go (suc f) rest h = refl
  Reads-bool false = record { starts = refl; reads = λ f rest h d. go f rest h }
    where
      go :
          (f : ℕ) (rest : Str)
          → 10 < f
          → parse_value p f (codes "false" ++ rest) ≡ some (bool false, rest)
      go zero rest h = absurd (omega arith)
      go (suc f) rest h = refl

  pub parse_scalar-number :
      (c : ℕ) (cs : Str)
      → (c == b'-' || within b'0' b'9' c) ≡ true
      → parse_scalar p (c ∷ cs)
        ≡ (number_literal (c ∷ cs) >>= λ r. some (num (number_value r.0), r.1))
  unfolding parse_scalar
  parse_scalar-number c cs h = rw (
    parse_scalar,
    keyword_ne b'n' (codes "ull") c cs (ground arith),
    keyword_ne b't' (codes "rue") c cs (ground arith),
    keyword_ne b'f' (codes "alse") c cs (ground arith),
  )

  -- A text that begins like a number is a scalar, and no keyword.
  pub parse_value-number :
      (f c : ℕ) (cs rest : Str)
      → number_literal (c ∷ cs ++ rest) ≡ some (c ∷ cs, rest)
      → (c == b'-' || within b'0' b'9' c) ≡ true
      → parse_value p (suc f) (c ∷ cs ++ rest) ≡ some (num (number_value (c ∷ cs)), rest)
  unfolding parse_value
  parse_value-number f c cs rest e h =
      rw (parse_value, token-number c (cs ++ rest) h) (parse_scalar-number c (cs ++ rest) h ∙ rw e)

  pub Reads-num : (n : Num) → IsNumber p n → Reads (number_text n) (num n)
  Reads-num n number =
      let (c, cs, same, begins) = number_head (number_text n) number.literal in
      let whole : number_literal (c ∷ cs) ≡ some (c ∷ cs, []) = rw same at number.literal in
      let value : number_value (c ∷ cs) ≡ n = rw same at number.value in
      subst (λ t. Reads t (num n)) (sym same)
        (record {
          starts = ground arith;
          reads = λ f rest h d. go c cs f rest begins whole value h d;
        })
    where
      go :
          (c : ℕ) (cs : Str) (f : ℕ) (rest : Str)
          → (c == b'-' || within b'0' b'9' c) ≡ true
          → number_literal (c ∷ cs) ≡ some (c ∷ cs, [])
          → number_value (c ∷ cs) ≡ n
          → 2 * length (c ∷ cs) < f
          → IsDelimited rest
          → parse_value p f (c ∷ cs ++ rest) ≡ some (num n, rest)
      go c cs zero rest begins whole value h d = absurd (omega arith)
      go c cs (suc f) rest begins whole value h d =
          parse_value-number f c cs rest (number_literal-append rest d (c ∷ cs) whole) begins
          ∙ ap (λ m. some (num m, rest)) value

  pub Reads-str : (s : Str) → IsStr s → Reads (quote s) (str s)
  unfolding quote
  Reads-str s h = record { starts = refl; reads = λ f rest k d. go f rest k }
    where
      go :
          (f : ℕ) (rest : Str)
          → 2 * length (quote s) < f
          → parse_value p f (quote s ++ rest) ≡ some (str s, rest)
      go zero rest k = absurd (omega arith)
      go (suc f) rest k =
          unfold parse_value token skip_space in
          rw (append_assoc _ (b'"' ∷ []) rest, scan_string-quote s rest h)
