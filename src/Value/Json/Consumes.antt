-- ===== src/Value/Json/Consumes.antt =====
-- How much of its text each part of `JSON.parse` leaves.
use veritrail.Prelude.{
  some-injective, ℕ, suc, ◌≤◌, ◌<◌, ◌≡◌, ap, inl, inr, ◌||◌, [], ◌∷◌, ◌++◌, arith, ◌==◌,
  if◌then◌else◌, Option, some, ◌>>=◌, >>=-eq-some, length, Bool-cases,
}
use veritrail.Text.{Str}
use veritrail.Value.Json.{
  skip_space, strip, if_any, closes, expect, Scan, scan_unit, scan_string, take_digits, some_digits,
  integer_part, fraction_part, exponent_digits, exponent_part, sign_part, number_literal, keyword,
  Token, token, token_at, quote, bracket, brace, scalar,
}

pub some-snd :
    {A : Type 0} {a b : A × Str} → ◌≡◌ {A = Option (A × Str)} (some a) (some b) → a.1 ≡ b.1
some-snd h = ap (λ x. x.1) (some-injective h)

pub skip_space-le : (s : Str) → length (skip_space s) ≤ length s
unfolding skip_space
skip_space-le [] = omega arith
skip_space-le (c ∷ cs) = ground (arith, skip_space-le cs)

strip-lt : (c : ℕ) (s r : Str) → strip c s ≡ some r → length r < length s
unfolding strip
strip-lt c [] r h = cc
strip-lt c (d ∷ s) r h = ground arith

pub expect-lt : (c : ℕ) (s r : Str) → expect c s ≡ some r → length r < length s
unfolding expect
expect-lt c s r h = omega (arith, strip-lt c (skip_space s) r h, skip_space-le s)

pub scan_string-lt :
    (st : Scan) (s : Str) (t : Str × Str) → scan_string st s ≡ some t → length t.1 < length s
unfolding scan_string
scan_string-lt st [] t h = cc
scan_string-lt st (c ∷ cs) t h = elim (Bool-cases (closes st c)) [
  | inl e ↦ let e' : some ([], cs) ≡ some t = rw (e, if◌then◌else◌) at h in ground (arith, e')
  | inr e ↦
      let h1 : (scan_unit st c >>= λ u. scan_string u.1 cs >>= λ r. some (u.0 ++ r.0, r.1))
          ≡ some t =
        rw (e, if◌then◌else◌) at h in
      let (u, _, h2) = >>=-eq-some (scan_unit st c) _ h1 in
      let (r, r_is, h3) = >>=-eq-some (scan_string u.1 cs) _ h2 in
      let same : length r.1 ≡ length t.1 = ap length (some-snd h3) in
      omega (arith, same, scan_string-lt u.1 cs r r_is)
]

take_digits-le : (s : Str) → length (take_digits s).1 ≤ length s
unfolding take_digits
take_digits-le [] = omega arith
take_digits-le (c ∷ cs) = ground (arith, take_digits-le cs)

if_any-eq : (d t : Str × Str) → if_any d ≡ some t → d ≡ t
unfolding if_any
if_any-eq ([], r) t h = cc
if_any-eq (d ∷ ds, r) t h = some-injective h

some_digits-le : (s : Str) (t : Str × Str) → some_digits s ≡ some t → length t.1 ≤ length s
unfolding some_digits
some_digits-le s t h =
    let e : length (take_digits s).1 ≡ length t.1 = ap (λ d. length d.1) (if_any-eq _ t h) in
    omega (arith, e, take_digits-le s)

integer_part-le : (s : Str) (t : Str × Str) → integer_part s ≡ some t → length t.1 ≤ length s
unfolding integer_part
integer_part-le [] t h = cc
integer_part-le (c ∷ cs) t h = ground (arith, some_digits-le (c ∷ cs) t)

-- A code unit and what the digits after it leave.
after_unit-le :
    (c : ℕ) (m : Option (Str × Str)) (t : Str × Str) (n : ℕ)
    → (m >>= λ r. some (c ∷ r.0, r.1)) ≡ some t
    → ((r : Str × Str) → m ≡ some r → length r.1 ≤ n)
    → length t.1 ≤ n
after_unit-le c m t n h k =
    let (r, r_is, h1) = >>=-eq-some m _ h in
    let same : length r.1 ≡ length t.1 = ap length (some-snd h1) in omega (arith, same, k r r_is)

fraction_part-le : (s : Str) (t : Str × Str) → fraction_part s ≡ some t → length t.1 ≤ length s
unfolding fraction_part
fraction_part-le [] t h = ground arith
fraction_part-le (c ∷ cs) t h = elim (Bool-cases (c == b'.')) [
  | inl e ↦
      let le : length t.1 ≤ length cs =
        after_unit-le c (some_digits cs) t (length cs) (rw (e, if◌then◌else◌) at h)
          (λ r k. some_digits-le cs r k) in
      omega (arith, le)
  | inr e ↦ let h1 : some ([], c ∷ cs) ≡ some t = rw (e, if◌then◌else◌) at h in ground (arith, h1)
]

exponent_digits-le : (s : Str) (t : Str × Str) → exponent_digits s ≡ some t → length t.1 ≤ length s
unfolding exponent_digits
exponent_digits-le [] t h = cc
exponent_digits-le (c ∷ cs) t h = elim (Bool-cases (c == b'+' || c == b'-')) [
  | inl e ↦
      let le : length t.1 ≤ length cs =
        after_unit-le c (some_digits cs) t (length cs) (rw (e, if◌then◌else◌) at h)
          (λ r k. some_digits-le cs r k) in
      omega (arith, le)
  | inr e ↦ some_digits-le (c ∷ cs) t (rw (e, if◌then◌else◌) at h)
]

exponent_part-le : (s : Str) (t : Str × Str) → exponent_part s ≡ some t → length t.1 ≤ length s
unfolding exponent_part
exponent_part-le [] t h = ground arith
exponent_part-le (c ∷ cs) t h = elim (Bool-cases (c == b'e' || c == b'E')) [
  | inl e ↦
      let le : length t.1 ≤ length cs =
        after_unit-le c (exponent_digits cs) t (length cs) (rw (e, if◌then◌else◌) at h)
          (λ r k. exponent_digits-le cs r k) in
      omega (arith, le)
  | inr e ↦ let h1 : some ([], c ∷ cs) ≡ some t = rw (e, if◌then◌else◌) at h in ground (arith, h1)
]

sign_part-le : (s : Str) → length (sign_part s).1 ≤ length s
unfolding sign_part
sign_part-le [] = omega arith
sign_part-le (c ∷ cs) = ground arith

pub number_literal-le :
    (s : Str) (t : Str × Str) → number_literal s ≡ some t → length t.1 ≤ length s
unfolding number_literal
number_literal-le s t h =
    let (i, i_is, h1) = >>=-eq-some (integer_part (sign_part s).1) _ h in
    let (f, f_is, h2) = >>=-eq-some (fraction_part i.1) _ h1 in
    let (e, e_is, h3) = >>=-eq-some (exponent_part f.1) _ h2 in
    let same : length e.1 ≡ length t.1 = ap length (some-snd h3) in
    omega (
      arith,
      same,
      sign_part-le s,
      integer_part-le (sign_part s).1 i i_is,
      fraction_part-le i.1 f f_is,
      exponent_part-le f.1 e e_is,
    )

pub keyword-le : (k s r : Str) → keyword k s ≡ some r → length r ≤ length s
unfolding keyword
keyword-le [] s r h = ground arith
keyword-le (k ∷ ks) [] r h = cc
keyword-le (k ∷ ks) (c ∷ cs) r h = ground (arith, keyword-le ks cs r)

-- The length of a token with the text behind it.
abbrev pub token_length : Token → ℕ
token_length (quote r) = suc (length r)
token_length (bracket r) = suc (length r)
token_length (brace r) = suc (length r)
token_length (scalar r) = length r

token_at-le : (s : Str) → token_length (token_at s) ≤ length s
unfolding token_at
token_at-le [] = omega arith
token_at-le (c ∷ cs) = ground arith

pub token-le : (s : Str) → token_length (token s) ≤ length s
unfolding token
token-le s = omega (arith, token_at-le (skip_space s), skip_space-le s)
