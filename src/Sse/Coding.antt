-- ===== src/Sse/Coding.antt =====
-- The lines of ts/src/commands/sse-outputs-hash.ts, and codings of a text that keep ASCII.
pub mod Fields
use mathlib.Core.List.{map-append}
use veritrail.Prelude.{
  ℕ, ◌<◌, ◌≡◌, refl, sym, ap, ◌∙◌, ◌⊎◌, inl, inr, Bool, true, false, List, [], ◌∷◌, ◌++◌, map,
  append_assoc, append-nil, ◌==◌, ◌||◌, if◌then◌else◌, Bool-cases, All, arith, ltb, flat_map,
  flat_map-append,
}
use veritrail.Text.{Str, codes, str_eq, join}
use veritrail.Sse.{
  EventState, last_line, lines_from, split_lines, cut_colon, strip_space, dispatch, take_field,
  take_line, take_lines, events,
}
use veritrail.Sse.Terminators.{lines_from-feed, lines_from-other, lines_from-return_feed}

-- A code that no ASCII character has.
abbrev pub IsWide : ℕ → Type 0
IsWide c = ltb c 128 ≡ false

-- Codes that are not empty and that are all wide.
pub record WideCodes (w : List ℕ) : Type 0 where
  pub first : ℕ
  pub others : List ℕ
  pub codes_are : w ≡ first ∷ others
  pub are_wide : All IsWide (first ∷ others)

-- A coding that keeps ASCII, and writes any other point as wide codes.
pub record IsCoding (φ : ℕ → List ℕ) : Type 0 where
  pub ascii : (c : ℕ) → c < 128 → φ c ≡ c ∷ []
  pub wide : (c : ℕ) → IsWide c → WideCodes (φ c)

lines_from-wide :
    (line w s : Str) → All IsWide w → lines_from line (w ++ s) ≡ lines_from (line ++ w) s
lines_from-wide line [] s h = ap (λ l. lines_from l s) (sym (append-nil line))
lines_from-wide line (c ∷ w) s (hc, h) =
    lines_from-other line c (w ++ s) (ground arith) (ground arith)
    ∙ lines_from-wide (line ++ c ∷ []) w s h
    ∙ ap (λ l. lines_from l s) (append_assoc line (c ∷ []) w)

lines_from-return :
    (line : Str) (d : ℕ) (cs : Str)
    → (d == b'\n') ≡ false
    → lines_from line (b'\r' ∷ d ∷ cs) ≡ line ∷ lines_from [] (d ∷ cs)
unfolding lines_from
lines_from-return line d cs h = rw h refl

lines_from-last : (line : Str) → lines_from line (b'\r' ∷ []) ≡ line ∷ []
unfolding lines_from
lines_from-last line = refl

module _ (φ : ℕ → List ℕ) (k : IsCoding φ) where
  -- A point is ASCII and its own code, or has wide codes.
  pub point_cases : (c : ℕ) → ((c < 128) × (φ c ≡ c ∷ [])) ⊎ (IsWide c × WideCodes (φ c))
  point_cases c = elim (Bool-cases (ltb c 128)) [
    | inl e ↦ let small : c < 128 = ground arith in inl (small, k.ascii c small)
    | inr e ↦ inr (e, k.wide c e)
  ]

  pub flat_map-ascii : (c : ℕ) (s : Str) → c < 128 → flat_map φ (c ∷ s) ≡ c ∷ flat_map φ s
  flat_map-ascii c s h = rw (k.ascii c h) refl

  flat_map-snoc : (line : Str) (c : ℕ) → flat_map φ (line ++ c ∷ []) ≡ flat_map φ line ++ φ c
  flat_map-snoc line c =
      flat_map-append φ line (c ∷ []) ∙ ap (λ x. flat_map φ line ++ x) (append-nil (φ c))

  last_line-flat_map :
      (line : Str) → last_line (flat_map φ line) ≡ map (flat_map φ) (last_line line)
  last_line-flat_map [] = refl
  last_line-flat_map (c ∷ cs) = elim (point_cases c) [
    | inl (_, e) ↦ rw e refl
    | inr (_, w) ↦ rw w.codes_are refl
  ]

  -- A point that ends no line.
  lines_from-point :
      (line : Str) (c : ℕ) (s : Str)
      → (c == b'\r') ≡ false
      → (c == b'\n') ≡ false
      → lines_from (flat_map φ line) (φ c ++ s) ≡ lines_from (flat_map φ (line ++ c ∷ [])) s
  lines_from-point line c s r n = rw (flat_map-snoc line c) (elim (point_cases c) [
    | inl (_, e) ↦ rw e (lines_from-other (flat_map φ line) c s r n)
    | inr (_, w) ↦
        rw w.codes_are (lines_from-wide (flat_map φ line) (w.first ∷ w.others) s w.are_wide)
  ])

  lines_from-step :
      (line : Str) (c : ℕ) (s : Str)
      → (c == b'\r') ≡ false
      → (c == b'\n') ≡ false
      → lines_from (flat_map φ (line ++ c ∷ [])) (flat_map φ s)
        ≡ map (flat_map φ) (lines_from (line ++ c ∷ []) s)
      → lines_from (flat_map φ line) (flat_map φ (c ∷ s))
        ≡ map (flat_map φ) (lines_from line (c ∷ s))
  lines_from-step line c s r n ih =
      lines_from-point line c (flat_map φ s) r n
      ∙ ih
      ∙ ap (map (flat_map φ)) (sym (lines_from-other line c s r n))

  lines_from-feed_step :
      (line s : Str)
      → lines_from [] (flat_map φ s) ≡ map (flat_map φ) (lines_from [] s)
      → lines_from (flat_map φ line) (flat_map φ (b'\n' ∷ s))
        ≡ map (flat_map φ) (lines_from line (b'\n' ∷ s))
  lines_from-feed_step line s ih =
      ap (lines_from (flat_map φ line)) (flat_map-ascii b'\n' s (ground arith))
      ∙ lines_from-feed (flat_map φ line) (flat_map φ s)
      ∙ ap (◌∷◌ (flat_map φ line)) ih
      ∙ ap (map (flat_map φ)) (sym (lines_from-feed line s))

  lines_from-return_feed_step :
      (line s : Str)
      → lines_from [] (flat_map φ s) ≡ map (flat_map φ) (lines_from [] s)
      → lines_from (flat_map φ line) (flat_map φ (b'\r' ∷ b'\n' ∷ s))
        ≡ map (flat_map φ) (lines_from line (b'\r' ∷ b'\n' ∷ s))
  lines_from-return_feed_step line s ih =
      ap (lines_from (flat_map φ line)) (
        flat_map-ascii b'\r' (b'\n' ∷ s) (ground arith)
        ∙ ap (◌∷◌ b'\r') (flat_map-ascii b'\n' s (ground arith)))
      ∙ lines_from-return_feed (flat_map φ line) (flat_map φ s)
      ∙ ap (◌∷◌ (flat_map φ line)) ih
      ∙ ap (map (flat_map φ)) (sym (lines_from-return_feed line s))

  -- A carriage return before a point that is no line feed.
  lines_from-return_point :
      (line : Str) (d : ℕ) (s : Str)
      → (d == b'\n') ≡ false
      → lines_from line (b'\r' ∷ φ d ++ s) ≡ line ∷ lines_from [] (φ d ++ s)
  lines_from-return_point line d s n = elim (point_cases d) [
    | inl (_, e) ↦ rw e (lines_from-return line d s n)
    | inr (_, w) ↦
        let wide = w.are_wide.0 in
        let other : (w.first == b'\n') ≡ false = ground arith in
        rw w.codes_are (lines_from-return line w.first (w.others ++ s) other)
  ]

  lines_from-return_step :
      (line : Str) (d : ℕ) (s : Str)
      → (d == b'\n') ≡ false
      → lines_from [] (flat_map φ (d ∷ s)) ≡ map (flat_map φ) (lines_from [] (d ∷ s))
      → lines_from (flat_map φ line) (flat_map φ (b'\r' ∷ d ∷ s))
        ≡ map (flat_map φ) (lines_from line (b'\r' ∷ d ∷ s))
  lines_from-return_step line d s n ih =
      ap (lines_from (flat_map φ line)) (flat_map-ascii b'\r' (d ∷ s) (ground arith))
      ∙ lines_from-return_point (flat_map φ line) d (flat_map φ s) n
      ∙ ap (◌∷◌ (flat_map φ line)) ih
      ∙ ap (map (flat_map φ)) (sym (lines_from-return line d s n))

  lines_from-last_step :
      (line : Str)
      → lines_from (flat_map φ line) (flat_map φ (b'\r' ∷ []))
        ≡ map (flat_map φ) (lines_from line (b'\r' ∷ []))
  lines_from-last_step line =
      ap (lines_from (flat_map φ line)) (flat_map-ascii b'\r' [] (ground arith))
      ∙ lines_from-last (flat_map φ line)
      ∙ ap (map (flat_map φ)) (sym (lines_from-last line))

  lines_from-end :
      (line : Str) → lines_from (flat_map φ line) [] ≡ map (flat_map φ) (lines_from line [])
  unfolding lines_from
  lines_from-end line = last_line-flat_map line

  pub lines_from-flat_map :
      (line s : Str)
      → lines_from (flat_map φ line) (flat_map φ s) ≡ map (flat_map φ) (lines_from line s)
  lines_from-flat_map line [] = lines_from-end line
  lines_from-flat_map line (c ∷ []) =
      let longer = lines_from-flat_map (line ++ c ∷ []) [] in
      let empty = lines_from-end [] in
      elim (Bool-cases (c == b'\r')) [
        | inl r ↦ let same : c ≡ b'\r' = ground arith in rw same (lines_from-last_step line)
        | inr r ↦ elim (Bool-cases (c == b'\n')) [
          | inl n ↦
              let same : c ≡ b'\n' = ground arith in rw same (lines_from-feed_step line [] empty)
          | inr n ↦ lines_from-step line c [] r n longer
        ]
      ]
  lines_from-flat_map line (c ∷ d ∷ cs) =
      let after_two = lines_from-flat_map [] cs in
      let after_one = lines_from-flat_map [] (d ∷ cs) in
      let longer = lines_from-flat_map (line ++ c ∷ []) (d ∷ cs) in
      elim (Bool-cases (c == b'\r')) [
        | inl r ↦
            let same : c ≡ b'\r' = ground arith in
            elim (Bool-cases (d == b'\n')) [
              | inl n ↦
                  let feed : d ≡ b'\n' = ground arith in
                  rw (same, feed) (lines_from-return_feed_step line cs after_two)
              | inr n ↦ rw same (lines_from-return_step line d cs n after_one)
            ]
        | inr r ↦ elim (Bool-cases (c == b'\n')) [
          | inl n ↦
              let feed : c ≡ b'\n' = ground arith in
              rw feed (lines_from-feed_step line (d ∷ cs) after_one)
          | inr n ↦ lines_from-step line c (d ∷ cs) r n longer
        ]
      ]
