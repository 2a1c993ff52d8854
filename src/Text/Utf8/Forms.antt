-- ===== src/Text/Utf8/Forms.antt =====
-- The UTF-8 forms of two, three and four bytes, and the scalar values that they stand for.
use veritrail.Prelude.{ℕ, ◌+◌, ◌-◌, ◌*◌, ◌≤◌, ◌≡◌, [], ◌∷◌, arith, ◌==◌, if◌then◌else◌}
use veritrail.Text.Utf8.RoundTrip.{IsScalar}
use veritrail.Text.Utf8.{encode_point}

pub two_form :
    (b c : ℕ)
    → 0xc2 ≤ b
    → b ≤ 0xdf
    → 0x80 ≤ c
    → c ≤ 0xbf
    → encode_point ((b - 0xc0) * 64 + (c - 0x80)) ≡ b ∷ c ∷ []
unfolding encode_point
two_form b c l h l' h' = ground arith

pub two_scalar :
    (b c : ℕ) → 0xc2 ≤ b → b ≤ 0xdf → 0x80 ≤ c → c ≤ 0xbf → IsScalar ((b - 0xc0) * 64 + (c - 0x80))
two_scalar b c l h l' h' = (omega arith, ground arith)

pub three_form :
    (b c d : ℕ)
    → 0xe0 ≤ b
    → b ≤ 0xef
    → (if b == 0xe0 then 0xa0 else 0x80) ≤ c
    → c ≤ (if b == 0xed then 0x9f else 0xbf)
    → 0x80 ≤ d
    → d ≤ 0xbf
    → encode_point (((b - 0xe0) * 64 + (c - 0x80)) * 64 + (d - 0x80)) ≡ b ∷ c ∷ d ∷ []
unfolding encode_point
three_form b c d l h l' h' l2 h2 = ground arith

pub three_scalar :
    (b c d : ℕ)
    → 0xe0 ≤ b
    → b ≤ 0xef
    → (if b == 0xe0 then 0xa0 else 0x80) ≤ c
    → c ≤ (if b == 0xed then 0x9f else 0xbf)
    → 0x80 ≤ d
    → d ≤ 0xbf
    → IsScalar (((b - 0xe0) * 64 + (c - 0x80)) * 64 + (d - 0x80))
three_scalar b c d l h l' h' l2 h2 = (ground arith, ground arith)

pub four_form :
    (b c d e : ℕ)
    → 0xf0 ≤ b
    → b ≤ 0xf4
    → (if b == 0xf0 then 0x90 else 0x80) ≤ c
    → c ≤ (if b == 0xf4 then 0x8f else 0xbf)
    → 0x80 ≤ d
    → d ≤ 0xbf
    → 0x80 ≤ e
    → e ≤ 0xbf
    → encode_point ((((b - 0xf0) * 64 + (c - 0x80)) * 64 + (d - 0x80)) * 64 + (e - 0x80))
      ≡ b ∷ c ∷ d ∷ e ∷ []
unfolding encode_point
four_form b c d e l h l' h' l2 h2 l3 h3 = ground arith

pub four_scalar :
    (b c d e : ℕ)
    → 0xf0 ≤ b
    → b ≤ 0xf4
    → (if b == 0xf0 then 0x90 else 0x80) ≤ c
    → c ≤ (if b == 0xf4 then 0x8f else 0xbf)
    → 0x80 ≤ d
    → d ≤ 0xbf
    → 0x80 ≤ e
    → e ≤ 0xbf
    → IsScalar ((((b - 0xf0) * 64 + (c - 0x80)) * 64 + (d - 0x80)) * 64 + (e - 0x80))
four_scalar b c d e l h l' h' l2 h2 l3 h3 = (ground arith, ground arith)
