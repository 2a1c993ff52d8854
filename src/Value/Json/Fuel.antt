-- ===== src/Value/Json/Fuel.antt =====
-- The fuel of the model of `JSON.parse`.
use veritrail.Prelude.{
  ℕ, zero, suc, ◌+◌, ◌*◌, ◌≤◌, ◌<◌, ◌≡◌, refl, inl, inr, arith, Option, none, some, ◌>>=◌, length,
  Option-cases, ap,
}
use veritrail.Platform.{Platform}
use veritrail.Text.{Str}
use veritrail.Value.{Value, Items, Fields}
use veritrail.Value.Json.{
  expect, Token, token, quote, bracket, brace, scalar, read_token, more_items, member_key,
  more_members, parse_value, parse_items, parse_members, parse, whole,
}
use veritrail.Value.Json.Consumes.{expect-lt, token_length, token-le}
use veritrail.Value.Json.Shorter.{member_key-lt, parse_value-le}

module _ (p : Platform) where
  open p use {Num}

  -- Two readers that agree on all texts shorter than `n`.
  abbrev Agree : {A : Type 0} → ℕ → (Str → Option (A × Str)) → (Str → Option (A × Str)) → Type 0
  Agree n read read' = (r : Str) → length r < n → read r ≡ read' r

  read_token-Agree :
      (items items' : Str → Option (Items Num × Str))
      (members members' : Str → Option (Fields Num × Str)) (k : Token)
      → Agree (token_length k) items items'
      → Agree (token_length k) members members'
      → read_token p items members k ≡ read_token p items' members' k
  unfolding read_token
  read_token-Agree items items' members members' (quote r) hi hm = refl
  read_token-Agree items items' members members' (bracket r) hi hm =
      elim (Option-cases (expect b']' r)) [
        | inl e ↦ rw (e, read_token, hi r (omega arith))
        | inr (r', e) ↦ rw (e, read_token)
      ]
  read_token-Agree items items' members members' (brace r) hi hm =
      elim (Option-cases (expect b'}' r)) [
        | inl e ↦ rw (e, read_token, hm r (omega arith))
        | inr (r', e) ↦ rw (e, read_token)
      ]
  read_token-Agree items items' members members' (scalar r) hi hm = refl

  more_items-Agree :
      (items items' : Str → Option (Items Num × Str)) (v : Value Num × Str)
      → Agree (length v.1) items items'
      → more_items p items v ≡ more_items p items' v
  unfolding more_items
  more_items-Agree items items' v h = elim (Option-cases (expect b',' v.1)) [
    | inl e ↦ rw (e, more_items)
    | inr (r, e) ↦ rw (e, more_items, h r (expect-lt b',' v.1 r e))
  ]

  more_members-Agree :
      (members members' : Str → Option (Fields Num × Str)) (k : Str) (v : Value Num × Str)
      → Agree (length v.1) members members'
      → more_members p members k v ≡ more_members p members' k v
  unfolding more_members
  more_members-Agree members members' k v h = elim (Option-cases (expect b',' v.1)) [
    | inl e ↦ rw (e, more_members)
    | inr (r, e) ↦ rw (e, more_members, h r (expect-lt b',' v.1 r e))
  ]

  -- Binding one result under two continuations that agree on it.
  bind-same :
      {A B : Type 0} (m m' : Option A) (k k' : A → Option B)
      → m ≡ m'
      → ((a : A) → m' ≡ some a → k a ≡ k' a)
      → (m >>= k) ≡ (m' >>= k')
  bind-same m none k k' e h = rw e
  bind-same m (some a) k k' e h = rw e (h a refl)

  mutual
    unfolding parse_value

    value-fuel :
        (f g : ℕ) (s : Str)
        → 2 * length s + 2 ≤ f
        → 2 * length s + 2 ≤ g
        → parse_value p f s ≡ parse_value p g s
    value-fuel zero g s hf hg = absurd (omega arith)
    value-fuel (suc f) zero s hf hg = absurd (omega arith)
    value-fuel (suc f) (suc g) s hf hg =
        read_token-Agree (parse_items p f) (parse_items p g) (parse_members p f) (parse_members p g)
          (token s)
          (λ r h. items-fuel f g r (omega (arith, token-le s)) (omega (arith, token-le s)))
          (λ r h. members-fuel f g r (omega (arith, token-le s)) (omega (arith, token-le s)))

    items-fuel :
        (f g : ℕ) (s : Str)
        → 2 * length s + 3 ≤ f
        → 2 * length s + 3 ≤ g
        → parse_items p f s ≡ parse_items p g s
    items-fuel zero g s hf hg = absurd (omega arith)
    items-fuel (suc f) zero s hf hg = absurd (omega arith)
    items-fuel (suc f) (suc g) s hf hg =
        bind-same (parse_value p f s) (parse_value p g s) _ _
          (value-fuel f g s (omega arith) (omega arith))
          (λ v e. more_items-Agree (parse_items p f) (parse_items p g) v (λ r h.
            items-fuel f g r (omega (arith, parse_value-le p g s v e))
              (omega (arith, parse_value-le p g s v e))))

    members-fuel :
        (f g : ℕ) (s : Str)
        → 2 * length s + 3 ≤ f
        → 2 * length s + 3 ≤ g
        → parse_members p f s ≡ parse_members p g s
    members-fuel zero g s hf hg = absurd (omega arith)
    members-fuel (suc f) zero s hf hg = absurd (omega arith)
    members-fuel (suc f) (suc g) s hf hg =
        bind-same (member_key p s) (member_key p s) _ _ refl (λ k k_is.
          bind-same (parse_value p f k.1) (parse_value p g k.1) _ _
            (value-fuel f g k.1 (omega (arith, member_key-lt p s k k_is))
              (omega (arith, member_key-lt p s k k_is)))
            (λ v e. more_members-Agree (parse_members p f) (parse_members p g) k.0 v (λ r h.
              members-fuel f g r
                (omega (arith, member_key-lt p s k k_is, parse_value-le p g k.1 v e))
                (omega (arith, member_key-lt p s k k_is, parse_value-le p g k.1 v e)))))

  -- The fuel that `parse` gives is enough for every text: more of it changes nothing, so that the
  -- model fails to parse only what is not JSON.
  pub parse-fuel :
      (s : Str) (f : ℕ) → 2 * length s + 2 ≤ f → (parse_value p f s >>= whole p) ≡ parse p s
  unfolding parse
  parse-fuel s f h = ap (λ m. m >>= whole p) (value-fuel f (2 * length s + 2) s h (omega arith))
