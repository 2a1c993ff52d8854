-- ===== src/Jcs/Number.antt =====
-- A number literal is read up to the delimiter that follows it.
use veritrail.Prelude.{
  ℕ, ◌≡◌, refl, true, ◌||◌, [], ◌∷◌, ◌++◌, arith, ◌==◌, within, Option, some, ◌>>=◌, >>=-eq-some,
}
use veritrail.Text.{Str}
use veritrail.Value.Json.{
  take_digits, some_digits, integer_part, fraction_part, exponent_digits, exponent_part, sign_part,
  number_literal,
}

-- What may follow a value: nothing, or a comma or a closing bracket.
abbrev pub IsDelimited : Str → Type 0
IsDelimited [] = Unit
IsDelimited (c ∷ _) = (c == b',' || c == b']' || c == b'}') ≡ true

-- A reader that stops before `rest` reads the same in front of it.
abbrev Extends : (Str → Option (Str × Str)) → Str → Type 0
Extends g rest = (s a r : Str) → g s ≡ some (a, r) → g (s ++ rest) ≡ some (a, r ++ rest)

abbrev mark : ℕ → Option (Str × Str) → Option (Str × Str)
mark c o = o >>= λ x. some (c ∷ x.0, x.1)

module _ (rest : Str) (delimited : IsDelimited rest) where
  take_digits-rest : take_digits rest ≡ ([], rest)
  take_digits-rest = go rest delimited
    where
      go : (s : Str) → IsDelimited s → take_digits s ≡ ([], s)
      go [] h = unfold take_digits in refl
      go (c ∷ cs) h = unfold take_digits in ground arith

  take_digits-append :
      (s : Str) → take_digits (s ++ rest) ≡ ((take_digits s).0, (take_digits s).1 ++ rest)
  unfolding take_digits
  take_digits-append [] = take_digits-rest
  take_digits-append (c ∷ cs) = ground (arith, take_digits-append cs)

  some_digits-append : Extends some_digits rest
  unfolding some_digits
  some_digits-append s a r h = ground (arith, take_digits-append s)

  integer_part-append : Extends integer_part rest
  unfolding integer_part
  integer_part-append [] a r h = cc
  integer_part-append (c ∷ cs) a r h = ground (arith, some_digits-append (c ∷ cs) a r)

  fraction_part-rest : fraction_part rest ≡ some ([], rest)
  fraction_part-rest = go rest delimited
    where
      go : (s : Str) → IsDelimited s → fraction_part s ≡ some ([], s)
      go [] h = unfold fraction_part in refl
      go (c ∷ cs) h = unfold fraction_part in ground arith

  exponent_part-rest : exponent_part rest ≡ some ([], rest)
  exponent_part-rest = go rest delimited
    where
      go : (s : Str) → IsDelimited s → exponent_part s ≡ some ([], s)
      go [] h = unfold exponent_part in refl
      go (c ∷ cs) h = unfold exponent_part in ground arith

  -- A sign or a mark, and then what a reader that extends reads.
  marked-append :
      (g : Str → Option (Str × Str)) (c : ℕ) (cs a r : Str)
      → Extends g rest
      → mark c (g cs) ≡ some (a, r)
      → mark c (g (cs ++ rest)) ≡ some (a, r ++ rest)
  marked-append g c cs a r e h =
      let (x, read, same) = >>=-eq-some (g cs) _ h in rw (e cs x.0 x.1 read) (ground arith)

  closed_end :
      (x y r : Str)
      → ◌≡◌ {A = Option (Str × Str)} (some (x, r)) (some (y, []))
      → ◌≡◌ {A = Option (Str × Str)} (some (x, r ++ rest)) (some (y, rest))
  closed_end x y [] h = ground arith
  closed_end x y (_ ∷ _) h = absurd (ground arith)

  fraction_part-append : Extends fraction_part rest
  fraction_part-append [] a r h = unfold fraction_part in ground (arith, fraction_part-rest)
  fraction_part-append (c ∷ cs) a r h =
      unfold fraction_part in ground (arith, marked-append some_digits c cs a r some_digits-append)

  exponent_digits-append : Extends exponent_digits rest
  exponent_digits-append [] a r h = unfold exponent_digits in cc
  exponent_digits-append (c ∷ cs) a r h =
      unfold exponent_digits in
      ground (
        arith,
        marked-append some_digits c cs a r some_digits-append,
        some_digits-append (c ∷ cs) a r,
      )

  exponent_part-append : Extends exponent_part rest
  exponent_part-append [] a r h = unfold exponent_part in ground (arith, exponent_part-rest)
  exponent_part-append (c ∷ cs) a r h =
      unfold exponent_part in
      ground (arith, marked-append exponent_digits c cs a r exponent_digits-append)

  sign_part-append :
      (c : ℕ) (s : Str)
      → sign_part (c ∷ s ++ rest) ≡ ((sign_part (c ∷ s)).0, (sign_part (c ∷ s)).1 ++ rest)
  unfolding sign_part
  sign_part-append c s = ground arith

  -- A literal that is read whole is read so in front of a delimiter.
  pub number_literal-append :
      (s : Str) → number_literal s ≡ some (s, []) → number_literal (s ++ rest) ≡ some (s, rest)
  unfolding number_literal
  number_literal-append [] h = absurd (unfold sign_part integer_part in cc)
  number_literal-append (c ∷ s) h =
      let (i, integer, h1) = >>=-eq-some (integer_part (sign_part (c ∷ s)).1) _ h in
      let (f, fraction, h2) = >>=-eq-some (fraction_part i.1) _ h1 in
      let (e, exponent, same) = >>=-eq-some (exponent_part f.1) _ h2 in
      rw
        (
          number_literal,
          sign_part-append c s,
          integer_part-append _ i.0 i.1 integer,
          fraction_part-append _ f.0 f.1 fraction,
          exponent_part-append _ e.0 e.1 exponent,
        )
        (closed_end _ (c ∷ s) e.1 same)

pub number_head :
    (s : Str)
    → number_literal s ≡ some (s, [])
    → (c : ℕ) × (cs : Str) × (s ≡ c ∷ cs) × ((c == b'-' || within b'0' b'9' c) ≡ true)
unfolding number_literal sign_part integer_part some_digits take_digits
number_head [] h = cc
number_head (c ∷ cs) h = (c, cs, refl, ground arith)
