-- ===== src/Value/Json/Shorter.antt =====
-- What is left behind a value of `JSON.parse` is shorter than the text, given what its tokens leave.
use veritrail.Prelude.{
  ℕ, zero, suc, ◌≤◌, ◌<◌, ◌≡◌, ap, inl, inr, true, false, arith, Option, none, some, ◌>>=◌,
  >>=-eq-some, length, Option-cases,
}
use veritrail.Platform.{Platform}
use veritrail.Text.{Str, codes}
use veritrail.Value.{Value, Items, Fields, arr, obj, nil, end, bool, num, null}
use veritrail.Value.Json.{
  expect, plain, scan_string, number_literal, keyword, Token, token, read_token, more_items,
  member_key, more_members, quote, bracket, brace, scalar, parse_scalar, parse_value, parse_items,
  parse_members,
}
use veritrail.Value.Json.Consumes.{
  token_length, some-snd, expect-lt, scan_string-lt, number_literal-le, keyword-le, token-le,
}

module _ (p : Platform) where
  open p use {Num, number_value}

  keyword_or-le :
      (k : Str) (v : Value Num) (other : Option (Value Num × Str)) (s : Str) (t : Value Num × Str)
      → elim (keyword k s) as (λ _. Option (Value Num × Str)) [
        | some r ↦ some (v, r)
        | none ↦ other
      ]
        ≡ some t
      → (other ≡ some t → length t.1 ≤ length s)
      → length t.1 ≤ length s
  keyword_or-le k v other s t h rest = elim (Option-cases (keyword k s)) [
    | inl e ↦ rest (rw e at h)
    | inr (r, e) ↦
        let same : r ≡ t.1 = some-snd {a = (v, r)} (rw e at h) in rw (← same) (keyword-le k s r e)
  ]

  number-le :
      (s : Str) (t : Value Num × Str)
      → (number_literal s >>= λ r. some (num (number_value r.0), r.1)) ≡ some t
      → length t.1 ≤ length s
  number-le s t h =
      let (r, r_is, h1) = >>=-eq-some (number_literal s) _ h in
      let same : length r.1 ≡ length t.1 = ap length (some-snd h1) in
      omega (arith, same, number_literal-le s r r_is)

  parse_scalar-le :
      (s : Str) (t : Value Num × Str) → parse_scalar p s ≡ some t → length t.1 ≤ length s
  unfolding parse_scalar
  parse_scalar-le s t h = keyword_or-le (codes "null") null _ s t h (λ h1.
      keyword_or-le (codes "true") (bool true) _ s t h1
        (λ h2. keyword_or-le (codes "false") (bool false) _ s t h2 (number-le s t)))

  -- A reader that leaves no more text than it is given.
  abbrev Shrinks : {A : Type 0} → (Str → Option (A × Str)) → Type 0
  Shrinks {A} read = (s : Str) (t : A × Str) → read s ≡ some t → length t.1 ≤ length s

  read_token-le :
      (items : Str → Option (Items Num × Str)) (members : Str → Option (Fields Num × Str))
      → Shrinks items
      → Shrinks members
      → (k : Token) (t : Value Num × Str) → read_token p items members k ≡ some t
      → length t.1 ≤ token_length k
  unfolding read_token
  read_token-le items members hi hm (quote r) t h =
      let (u, u_is, h1) = >>=-eq-some (scan_string plain r) _ h in
      let same : length u.1 ≡ length t.1 = ap length (some-snd h1) in
      omega (arith, same, scan_string-lt plain r u u_is)
  read_token-le items members hi hm (bracket r) t h = elim (Option-cases (expect b']' r)) [
    | inl e ↦
        let (u, u_is, h1) = >>=-eq-some (items r) _ (rw (e, read_token) at h) in
        let same : length u.1 ≡ length t.1 = ap length (some-snd h1) in
        omega (arith, same, hi r u u_is)
    | inr (r', e) ↦
        let same : length r' ≡ length t.1 =
          ap length (some-snd {a = (arr nil, r')} (rw (e, read_token) at h)) in
        omega (arith, same, expect-lt b']' r r' e)
  ]
  read_token-le items members hi hm (brace r) t h = elim (Option-cases (expect b'}' r)) [
    | inl e ↦
        let (u, u_is, h1) = >>=-eq-some (members r) _ (rw (e, read_token) at h) in
        let same : length u.1 ≡ length t.1 = ap length (some-snd h1) in
        omega (arith, same, hm r u u_is)
    | inr (r', e) ↦
        let same : length r' ≡ length t.1 =
          ap length (some-snd {a = (obj end, r')} (rw (e, read_token) at h)) in
        omega (arith, same, expect-lt b'}' r r' e)
  ]
  read_token-le items members hi hm (scalar r) t h = parse_scalar-le r t h

  more_items-le :
      (items : Str → Option (Items Num × Str))
      → Shrinks items
      → (v : Value Num × Str) (t : Items Num × Str) → more_items p items v ≡ some t
      → length t.1 ≤ length v.1
  unfolding more_items
  more_items-le items hi v t h = elim (Option-cases (expect b',' v.1)) [
    | inl e ↦
        let (r, r_is, h1) = >>=-eq-some (expect b']' v.1) _ (rw (e, more_items) at h) in
        let same : length r ≡ length t.1 = ap length (some-snd h1) in
        omega (arith, same, expect-lt b']' v.1 r r_is)
    | inr (r, e) ↦
        let (u, u_is, h1) = >>=-eq-some (items r) _ (rw (e, more_items) at h) in
        let same : length u.1 ≡ length t.1 = ap length (some-snd h1) in
        omega (arith, same, hi r u u_is, expect-lt b',' v.1 r e)
  ]

  pub member_key-lt : (s : Str) (k : Str × Str) → member_key p s ≡ some k → length k.1 < length s
  unfolding member_key
  member_key-lt s k h =
      let (q, q_is, h1) = >>=-eq-some (expect b'"' s) _ h in
      let (u, u_is, h2) = >>=-eq-some (scan_string plain q) _ h1 in
      let (c, c_is, h3) = >>=-eq-some (expect b':' u.1) _ h2 in
      let same : length c ≡ length k.1 = ap length (some-snd h3) in
      omega (
        arith,
        same,
        expect-lt b'"' s q q_is,
        scan_string-lt plain q u u_is,
        expect-lt b':' u.1 c c_is,
      )

  more_members-le :
      (members : Str → Option (Fields Num × Str))
      → Shrinks members
      → (k : Str) (v : Value Num × Str) (t : Fields Num × Str) → more_members p members k v ≡ some t
      → length t.1 ≤ length v.1
  unfolding more_members
  more_members-le members hm k v t h = elim (Option-cases (expect b',' v.1)) [
    | inl e ↦
        let (r, r_is, h1) = >>=-eq-some (expect b'}' v.1) _ (rw (e, more_members) at h) in
        let same : length r ≡ length t.1 = ap length (some-snd h1) in
        omega (arith, same, expect-lt b'}' v.1 r r_is)
    | inr (r, e) ↦
        let (u, u_is, h1) = >>=-eq-some (members r) _ (rw (e, more_members) at h) in
        let same : length u.1 ≡ length t.1 = ap length (some-snd h1) in
        omega (arith, same, hm r u u_is, expect-lt b',' v.1 r e)
  ]

  mutual
    unfolding parse_value

    value-le : (f : ℕ) → Shrinks (parse_value p f)
    value-le zero s t h = cc
    value-le (suc f) s t h = omega (
      arith,
      token-le s,
      read_token-le (parse_items p f) (parse_members p f) (items-le f) (members-le f) (token s) t h,
    )

    items-le : (f : ℕ) → Shrinks (parse_items p f)
    items-le zero s t h = cc
    items-le (suc f) s t h =
        let (v, v_is, h1) = >>=-eq-some (parse_value p f s) _ h in
        omega (arith, value-le f s v v_is, more_items-le (parse_items p f) (items-le f) v t h1)

    members-le : (f : ℕ) → Shrinks (parse_members p f)
    members-le zero s t h = cc
    members-le (suc f) s t h =
        let (k, k_is, h1) = >>=-eq-some (member_key p s) _ h in
        let (v, v_is, h2) = >>=-eq-some (parse_value p f k.1) _ h1 in
        omega (
          arith,
          member_key-lt s k k_is,
          value-le f k.1 v v_is,
          more_members-le (parse_members p f) (members-le f) k.0 v t h2,
        )

  -- What is left behind a value is no longer than the text.
  pub parse_value-le :
      (f : ℕ) (s : Str) (t : Value Num × Str) → parse_value p f s ≡ some t → length t.1 ≤ length s
  parse_value-le f s t h = value-le f s t h
