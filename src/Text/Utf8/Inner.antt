-- ===== src/Text/Utf8/Inner.antt =====
-- The bytes inside a character, as the decoder of ts/src/commands/verify.ts (strictUtf8) takes them.
use veritrail.Prelude.{
  some-injective, ℕ, ◌+◌, ◌-◌, ◌*◌, ◌≤◌, ◌≡◌, refl, sym, ap, ◌∙◌, true, false, List, [], ◌∷◌,
  Option, none, some, arith, >>=-eq-some, within, ◌==◌, inl, inr, Bool-cases,
}
use veritrail.Text.Utf8.{decode_from, strict_points, start, inside, decode_byte}

decode_from-next :
    (more lo hi point b : ℕ) (rest : List ℕ)
    → within lo hi b ≡ true
    → (more == 1) ≡ false
    → decode_from (inside more lo hi point) (b ∷ rest)
      ≡ decode_from (inside (more - 1) 0x80 0xbf (point * 64 + (b - 0x80))) rest
unfolding decode_from decode_byte
decode_from-next more lo hi point b rest e m = rw (e, m) refl

decode_from-last :
    (lo hi point b : ℕ) (rest : List ℕ)
    → within lo hi b ≡ true
    → decode_from (inside 1 lo hi point) (b ∷ rest)
      ≡ some (point * 64 + (b - 0x80)) ∷ decode_from start rest
unfolding decode_from decode_byte
decode_from-last lo hi point b rest e = rw e refl

decode_from-error :
    (more lo hi point b : ℕ) (rest : List ℕ)
    → within lo hi b ≡ false
    → (out : List (Option ℕ)) × (decode_from (inside more lo hi point) (b ∷ rest) ≡ none ∷ out)
unfolding decode_from decode_byte
decode_from-error more lo hi point b rest e = rw e (_, refl)

-- The bytes inside a character that is decoded without an error.
pub record Inner (more lo hi point : ℕ) (bytes ps : List ℕ) : Type 0 where
  pub byte : ℕ
  pub rest : List ℕ
  pub bytes_are : bytes ≡ byte ∷ rest
  pub low : lo ≤ byte
  pub high : byte ≤ hi
  pub later :
      strict_points (decode_from (inside more 0x80 0xbf (point * 64 + (byte - 0x80))) rest)
      ≡ some ps

pub no_error :
    {A : Type 0} (d : List (Option ℕ)) (ps : List ℕ)
    → ((out : List (Option ℕ)) × (d ≡ none ∷ out))
    → strict_points d ≡ some ps
    → A
unfolding strict_points
no_error d ps (out, e) h =
    let f : ◌≡◌ {A = Option (List ℕ)} none (some ps) = sym (ap strict_points e) ∙ h in cc

pub inner :
    (more lo hi point : ℕ) (bytes ps : List ℕ)
    → (more == 1) ≡ false
    → strict_points (decode_from (inside more lo hi point) bytes) ≡ some ps
    → Inner (more - 1) lo hi point bytes ps
unfolding decode_from strict_points
inner more lo hi point [] ps m h = cc
inner more lo hi point (b ∷ rest) ps m h = elim (Bool-cases (within lo hi b)) [
  | inl e ↦ record {
    byte = b;
    rest = rest;
    bytes_are = refl;
    low = ground arith;
    high = ground arith;
    later = ap strict_points (sym (decode_from-next more lo hi point b rest e m)) ∙ h;
  }
  | inr e ↦ no_error _ ps (decode_from-error more lo hi point b rest e) h
]

-- The last byte of a character.
pub record Last (lo hi point : ℕ) (bytes ps : List ℕ) : Type 0 where
  pub byte : ℕ
  pub rest : List ℕ
  pub points : List ℕ
  pub bytes_are : bytes ≡ byte ∷ rest
  pub low : lo ≤ byte
  pub high : byte ≤ hi
  pub points_are : ps ≡ (point * 64 + (byte - 0x80)) ∷ points
  pub later : strict_points (decode_from start rest) ≡ some points

pub last :
    (lo hi point : ℕ) (bytes ps : List ℕ)
    → strict_points (decode_from (inside 1 lo hi point) bytes) ≡ some ps
    → Last lo hi point bytes ps
unfolding decode_from strict_points
last lo hi point [] ps h = cc
last lo hi point (b ∷ rest) ps h = elim (Bool-cases (within lo hi b)) [
  | inl e ↦
      let (qs, is, same) =
        >>=-eq-some (strict_points (decode_from start rest)) _
          (ap strict_points (sym (decode_from-last lo hi point b rest e)) ∙ h) in
      record {
        byte = b;
        rest = rest;
        points = qs;
        bytes_are = refl;
        low = ground arith;
        high = ground arith;
        points_are = sym (some-injective same);
        later = is;
      }
  | inr e ↦ no_error _ ps (decode_from-error 1 lo hi point b rest e) h
]
