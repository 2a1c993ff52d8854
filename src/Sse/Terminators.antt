-- ===== src/Sse/Terminators.antt =====
-- The line terminators of a stream do not count in ts/src/commands/sse-outputs-hash.ts.
use veritrail.Prelude.{
  ℕ, ◌≡◌, refl, sym, ap, ◌∙◌, false, [], ◌∷◌, ◌++◌, ◌==◌, if◌then◌else◌, inl, inr, Bool-cases, All,
  arith,
}
use veritrail.Text.{Str}
use veritrail.Sse.{lines_from, split_lines, take_lines, events}

-- The text with every line feed written as another terminator.
unfoldable pub with_breaks : Str → Str → Str
with_breaks terminator [] = []
with_breaks terminator (c ∷ cs) =
    let rest = with_breaks terminator cs in if c == b'\n' then terminator ++ rest else c ∷ rest

-- A text whose lines end in line feeds.
abbrev pub HasNoReturn : Str → Type 0
HasNoReturn = All (λ c. (c == b'\r') ≡ false)

pub lines_from-feed : (line cs : Str) → lines_from line (b'\n' ∷ cs) ≡ line ∷ lines_from [] cs
unfolding lines_from
lines_from-feed line [] = refl
lines_from-feed line (d ∷ cs) = refl

pub lines_from-other :
    (line : Str) (c : ℕ) (cs : Str)
    → (c == b'\r') ≡ false
    → (c == b'\n') ≡ false
    → lines_from line (c ∷ cs) ≡ lines_from (line ++ c ∷ []) cs
unfolding lines_from
lines_from-other line c [] h k = rw (h, k)
lines_from-other line c (d ∷ cs) h k = rw (h, k)

pub lines_from-return_feed :
    (line cs : Str) → lines_from line (b'\r' ∷ b'\n' ∷ cs) ≡ line ∷ lines_from [] cs
unfolding lines_from
lines_from-return_feed line cs = refl

lines_from-with_breaks :
    (line s : Str)
    → HasNoReturn s
    → lines_from line (with_breaks (b'\r' ∷ b'\n' ∷ []) s) ≡ lines_from line s
unfolding with_breaks
lines_from-with_breaks line [] h = refl
lines_from-with_breaks line (c ∷ cs) (hc, h) = elim (Bool-cases (c == b'\n')) [
  | inl e ↦
      let feed : c ≡ b'\n' = ground arith in
      let later = lines_from-with_breaks [] cs h in
      rw feed (
        lines_from-return_feed line (with_breaks (b'\r' ∷ b'\n' ∷ []) cs)
        ∙ ap (◌∷◌ line) later
        ∙ sym (lines_from-feed line cs))
  | inr e ↦
      let later = lines_from-with_breaks (line ++ c ∷ []) cs h in
      rw e (
        lines_from-other line c (with_breaks (b'\r' ∷ b'\n' ∷ []) cs) hc e
        ∙ later
        ∙ sym (lines_from-other line c cs hc e))
]

-- Where every line feed of a text is written as a carriage return and a line feed, the events stay
-- the same; the text has no carriage return of its own.
pub events-with_breaks :
    (s : Str) → HasNoReturn s → events (with_breaks (b'\r' ∷ b'\n' ∷ []) s) ≡ events s
unfolding events split_lines
events-with_breaks s h =
    ap (λ ls. (take_lines (record { dispatched = []; data_buf = [] }) ls).dispatched)
      (lines_from-with_breaks [] s h)
