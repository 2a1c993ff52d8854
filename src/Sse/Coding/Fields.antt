-- ===== src/Sse/Coding/Fields.antt =====
-- The fields and the events of ts/src/commands/sse-outputs-hash.ts in a coding that keeps ASCII.
use mathlib.Core.List.{map-append}
use veritrail.Prelude.{
  ℕ, ◌<◌, ◌≡◌, refl, sym, ap, ◌∙◌, inl, inr, Bool, true, false, ◌&&◌, List, [], ◌∷◌, ◌++◌, map,
  append_assoc, ◌==◌, if◌then◌else◌, Bool-cases, All, arith, flat_map, flat_map-append,
}
use veritrail.Text.{Str, codes, str_eq, join}
use veritrail.Sse.{
  EventState, lines_from, split_lines, cut_colon, strip_space, dispatch, take_field, take_line,
  take_lines, events,
}
use veritrail.Sse.Coding.{
  IsWide, WideCodes, IsCoding, point_cases, flat_map-ascii, lines_from-flat_map,
}

cut_colon-other :
    (c : ℕ) (s : Str)
    → (c == b':') ≡ false
    → cut_colon (c ∷ s) ≡ (c ∷ (cut_colon s).0, (cut_colon s).1)
unfolding cut_colon
cut_colon-other c s h = rw h refl

cut_colon-wide :
    (w s : Str) → All IsWide w → cut_colon (w ++ s) ≡ (w ++ (cut_colon s).0, (cut_colon s).1)
cut_colon-wide [] s h = refl
cut_colon-wide (c ∷ w) s (hc, h) =
    cut_colon-other c (w ++ s) (ground arith) ∙ ap (λ q. (c ∷ q.0, q.1)) (cut_colon-wide w s h)

strip_space-other : (c : ℕ) (s : Str) → (c == b' ') ≡ false → strip_space (c ∷ s) ≡ c ∷ s
unfolding strip_space
strip_space-other c s h = rw h refl

strip_space-wide : (w s : Str) → WideCodes w → strip_space (w ++ s) ≡ w ++ s
strip_space-wide w s h =
    let first_wide = h.are_wide.0 in
    let other : (h.first == b' ') ≡ false = ground arith in
    rw h.codes_are (strip_space-other h.first (h.others ++ s) other)

take_line-other :
    (st : EventState) (c : ℕ) (s : Str)
    → (c == b':') ≡ false
    → take_line st (c ∷ s) ≡ take_field st (c ∷ s)
unfolding take_line
take_line-other st c s h = rw h refl

take_line-wide :
    (st : EventState) (w s : Str) → WideCodes w → take_line st (w ++ s) ≡ take_field st (w ++ s)
take_line-wide st w s h =
    let first_wide = h.are_wide.0 in
    let other : (h.first == b':') ≡ false = ground arith in
    rw h.codes_are (take_line-other st h.first (h.others ++ s) other)

join-cons :
    (d e : Str) (ds : List Str)
    → join (codes "\n") (d ∷ e ∷ ds) ≡ d ++ (b'\n' ∷ join (codes "\n") (e ∷ ds))
unfolding join
join-cons d e ds = append_assoc d (codes "\n") (join (codes "\n") (e ∷ ds))

module _ (φ : ℕ → List ℕ) (k : IsCoding φ) where
  abbrev coded_pair : Str × Str → Str × Str
  coded_pair q = (flat_map φ q.0, flat_map φ q.1)

  cut_colon-point :
      (c : ℕ) (s : Str)
      → (c == b':') ≡ false
      → cut_colon (φ c ++ s) ≡ (φ c ++ (cut_colon s).0, (cut_colon s).1)
  cut_colon-point c s h = elim (point_cases φ k c) [
    | inl (_, e) ↦ rw e (cut_colon-other c s h)
    | inr (_, w) ↦ rw w.codes_are (cut_colon-wide (w.first ∷ w.others) s w.are_wide)
  ]

  cut_colon-colon : (s : Str) → cut_colon (b':' ∷ s) ≡ ([], s)
  unfolding cut_colon
  cut_colon-colon s = refl

  cut_colon-end : cut_colon [] ≡ ([], [])
  unfolding cut_colon
  cut_colon-end = refl

  cut_colon-flat_map : (s : Str) → cut_colon (flat_map φ s) ≡ coded_pair (cut_colon s)
  cut_colon-flat_map [] = cut_colon-end ∙ ap coded_pair (sym cut_colon-end)
  cut_colon-flat_map (c ∷ s) =
      let ih = cut_colon-flat_map s in
      elim (Bool-cases (c == b':')) [
        | inl e ↦
            let same : c ≡ b':' = ground arith in
            rw same (
              ap cut_colon (flat_map-ascii φ k b':' s (ground arith))
              ∙ cut_colon-colon (flat_map φ s)
              ∙ ap coded_pair (sym (cut_colon-colon s)))
        | inr e ↦
            cut_colon-point c (flat_map φ s) e
            ∙ ap (λ q. (φ c ++ q.0, q.1)) ih
            ∙ ap coded_pair (sym (cut_colon-other c s e))
      ]

  strip_space-flat_map : (s : Str) → strip_space (flat_map φ s) ≡ flat_map φ (strip_space s)
  unfolding strip_space
  strip_space-flat_map [] = refl
  strip_space-flat_map (c ∷ s) = elim (point_cases φ k c) [
    | inl (_, e) ↦ elim (Bool-cases (c == b' ')) [
      | inl b ↦ rw (e, b) refl
      | inr b ↦ rw (e, b) (sym (ap (λ w. w ++ flat_map φ s) e))
    ]
    | inr (n, w) ↦
        let no_space : (c == b' ') ≡ false = ground arith in
        strip_space-wide (φ c) (flat_map φ s) w
        ∙ ap (flat_map φ) (sym (strip_space-other c s no_space))
  ]

  -- A name of ASCII characters is met by the coding of that name alone.
  str_eq-flat_map : (s t : Str) → All (λ c. c < 128) t → str_eq (flat_map φ s) t ≡ str_eq s t
  unfolding str_eq
  str_eq-flat_map [] [] h = refl
  str_eq-flat_map [] (x ∷ t) h = refl
  str_eq-flat_map (c ∷ s) [] h = elim (point_cases φ k c) [
    | inl (_, e) ↦ rw e refl
    | inr (_, w) ↦ rw w.codes_are refl
  ]
  str_eq-flat_map (c ∷ s) (x ∷ t) (hx, h) =
      let ih = str_eq-flat_map s t h in
      elim (point_cases φ k c) [
        | inl (_, e) ↦ rw e (ap (λ b. c == x && b) ih)
        | inr (n, w) ↦
            let first_wide = w.are_wide.0 in
            let other : (w.first == x) ≡ false = ground arith in
            let not_x : (c == x) ≡ false = ground arith in rw (w.codes_are, other, not_x) refl
      ]

  pub join-flat_map :
      (ds : List Str) → join (codes "\n") (map (flat_map φ) ds) ≡ flat_map φ (join (codes "\n") ds)
  unfolding join
  join-flat_map [] = refl
  join-flat_map (d ∷ []) = refl
  join-flat_map (d ∷ e ∷ ds) =
      let ih = join-flat_map (e ∷ ds) in
      join-cons (flat_map φ d) (flat_map φ e) (map (flat_map φ) ds)
      ∙ ap (λ x. flat_map φ d ++ b'\n' ∷ x) ih
      ∙ sym (
          ap (flat_map φ) (join-cons d e ds)
          ∙ flat_map-append φ d (b'\n' ∷ join (codes "\n") (e ∷ ds))
          ∙ ap (λ x. flat_map φ d ++ x)
              (flat_map-ascii φ k b'\n' (join (codes "\n") (e ∷ ds)) (ground arith)))

  -- The state of the loop after the coding of what it read.
  abbrev coded : EventState → EventState
  coded st = record {
    dispatched = map (flat_map φ) st.dispatched;
    data_buf = map (flat_map φ) st.data_buf;
  }

  coded_if :
      (b : Bool) (x y x' y' : EventState)
      → x' ≡ coded x
      → y' ≡ coded y
      → (if b then x' else y') ≡ coded (if b then x else y)
  coded_if true x y x' y' h h' = h
  coded_if false x y x' y' h h' = h'

  dispatch-coded : (st : EventState) → dispatch (coded st) ≡ coded (dispatch st)
  unfolding dispatch
  dispatch-coded st = go st.dispatched st.data_buf
    where
      go :
          (out buf : List Str)
          → dispatch (coded (record { dispatched = out; data_buf = buf }))
            ≡ coded (dispatch (record { dispatched = out; data_buf = buf }))
      go out [] = refl
      go out (d ∷ ds) =
          ap (λ m. record { dispatched = map (flat_map φ) out ++ m ∷ []; data_buf = [] })
            (join-flat_map (d ∷ ds))
          ∙ ap (λ out'. record { dispatched = out'; data_buf = [] })
              (sym (map-append (flat_map φ) out (join (codes "\n") (d ∷ ds) ∷ [])))

  take_field-coded :
      (st : EventState) (line : Str)
      → take_field (coded st) (flat_map φ line) ≡ coded (take_field st line)
  unfolding take_field
  take_field-coded st line =
      rw
        (
          cut_colon-flat_map line,
          str_eq-flat_map (cut_colon line).0 (codes "data") (ground arith),
          strip_space-flat_map (cut_colon line).1,
        )
        (coded_if (str_eq (cut_colon line).0 (codes "data")) _ st _ (coded st)
          (ap (λ buf. record { dispatched = map (flat_map φ) st.dispatched; data_buf = buf })
            (sym (map-append (flat_map φ) st.data_buf (strip_space (cut_colon line).1 ∷ []))))
          refl)

  take_line-coded :
      (st : EventState) (line : Str)
      → take_line (coded st) (flat_map φ line) ≡ coded (take_line st line)
  unfolding take_line
  take_line-coded st [] = dispatch-coded st
  take_line-coded st (c ∷ cs) = elim (point_cases φ k c) [
    | inl (small, e) ↦
        let field = take_field-coded st (c ∷ cs) in
        let same = flat_map-ascii φ k c cs small in
        ap (take_line (coded st)) same
        ∙ coded_if (c == b':') st (take_field st (c ∷ cs)) (coded st) _ refl
            (ap (take_field (coded st)) (sym same) ∙ field)
    | inr (n, w) ↦
        let no_colon : (c == b':') ≡ false = ground arith in
        take_line-wide (coded st) (φ c) (flat_map φ cs) w
        ∙ take_field-coded st (c ∷ cs)
        ∙ ap coded (sym (take_line-other st c cs no_colon))
  ]

  take_lines-coded :
      (st : EventState) (lines : List Str)
      → take_lines (coded st) (map (flat_map φ) lines) ≡ coded (take_lines st lines)
  unfolding take_lines
  take_lines-coded st [] = refl
  take_lines-coded st (line ∷ lines) =
      ap (λ s. take_lines s (map (flat_map φ) lines)) (take_line-coded st line)
      ∙ take_lines-coded (take_line st line) lines

  -- The events of a coded text are the coded events.
  pub events-flat_map : (s : Str) → events (flat_map φ s) ≡ map (flat_map φ) (events s)
  unfolding events split_lines
  events-flat_map s =
      ap (λ ls. (take_lines (record { dispatched = []; data_buf = [] }) ls).dispatched)
        (lines_from-flat_map φ k [] s)
      ∙ ap (λ st. st.dispatched)
          (take_lines-coded (record { dispatched = []; data_buf = [] }) (lines_from [] s))
