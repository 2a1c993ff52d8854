-- ===== src/Conformance/Agreement.antt =====
-- When the script of conformance/compare.mjs succeeds.
use veritrail.Prelude.{
  ℕ, ◌≡◌, ◌↔◌, ◌≢◌, refl, sym, ap, ◌∙◌, List, [], ◌∷◌, ◌++◌, Option, none, some, All, arith, inl,
  inr, Bool-cases,
}
use veritrail.Platform.{Platform}
use veritrail.Text.{Str, str_eq, str_eq_iff, str_eq_refl}
use veritrail.Value.{Fields}
use veritrail.Outcome.{Outcome, pass, ◌>>=◌, >>=-eq-pass, pass-injective}
use veritrail.Conformance.{
  Spawned, RunResult, ran, run_error, run_result, Tally, Verdict, passed, failed, count, exit_code,
  Vector, anchor_mismatch, anchor_verdict, anchored, judge, Command, judge_vector, tally_vectors,
  compare_vectors,
}
use veritrail.Conformance.Anchors.{
  Matches, Prints, anchor_mismatch-IsAnchored, IsAnchored-anchor_mismatch, run_result-Prints,
  Prints-run_result,
}

anchor_verdict-eq-passed : (out : Str) (m : Option Str) → anchor_verdict out m ≡ passed → m ≡ none
unfolding anchor_verdict
anchor_verdict-eq-passed out none h = refl
anchor_verdict-eq-passed out (some text) h = cc

failed-ne : (text : Str) → ◌≢◌ {A = Outcome Str Verdict} (pass (failed text)) (pass passed)
failed-ne text e = let v = pass-injective e in cc

append-ne : {A : Type 0} (xs : List A) (x : A) → (xs ++ x ∷ []) ≢ []
append-ne [] x e = cc
append-ne (y ∷ xs) x e = cc

count-eq-nil :
    (name : Str) (v : Verdict) (t : Tally)
    → (count name v t).failures ≡ []
    → (v ≡ passed) × (t.failures ≡ [])
unfolding count
count-eq-nil name passed t h = (refl, h)
count-eq-nil name (failed text) t h = absurd (append-ne t.failures (name ++ text) h)

exit_code-eq-zero : (t : Tally) → exit_code t ≡ 0 → t.failures ≡ []
unfolding exit_code
exit_code-eq-zero t h = go t.failures h
  where
    go : (fs : List Str) → (elim fs as (λ _. ℕ) [ [] ↦ 0 | _ ∷ _ ↦ 1 ]) ≡ 0 → fs ≡ []
    go [] h = refl
    go (f ∷ fs) h = absurd (omega arith)

module _ (p : Platform) where
  open p use {Num}

  -- Both commands run, with one output that the anchor matches.
  pub record Agrees (go ts : Spawned) (anchor : Option (Fields Num)) : Type 0 where
    pub out : Str
    pub go_prints : Prints p out go
    pub ts_prints : Prints p out ts
    pub matches : Matches p out anchor

  anchored-Matches :
      (out : Str) (anchor : Option (Fields Num))
      → anchored p out anchor ≡ pass passed
      → Matches p out anchor
  unfolding anchored
  anchored-Matches out none h = tt
  anchored-Matches out (some anchor) h =
      let (m, is, v) = >>=-eq-pass (anchor_mismatch p out anchor) _ h in
      anchor_mismatch-IsAnchored p out anchor
        (is ∙ ap pass (anchor_verdict-eq-passed out m (pass-injective v)))

  Matches-anchored :
      (out : Str) (anchor : Option (Fields Num))
      → Matches p out anchor
      → anchored p out anchor ≡ pass passed
  unfolding anchored anchor_verdict ◌>>=◌
  Matches-anchored out none h = refl
  Matches-anchored out (some anchor) h = rw (IsAnchored-anchor_mismatch p out anchor h)

  judge-eq-passed :
      (g t : RunResult) (anchor : Option (Fields Num))
      → judge p g t anchor ≡ pass passed
      → (out : Str) × (g ≡ ran out) × (t ≡ ran out) × Matches p out anchor
  unfolding judge
  judge-eq-passed (ran g) (ran t) anchor h = elim (Bool-cases (str_eq g t)) [
    | inl e ↦ (
      g,
      refl,
      ap ran (sym ((str_eq_iff g t).0 e)),
      anchored-Matches g anchor (rw (judge, e) at h),
    )
    | inr e ↦ absurd (failed-ne _ (rw (judge, e) at h))
  ]
  judge-eq-passed (ran g) (run_error t) anchor h = absurd (failed-ne _ h)
  judge-eq-passed (run_error g) t anchor h = absurd (failed-ne _ h)

  judge-Agrees :
      (go ts : Spawned) (anchor : Option (Fields Num))
      → judge p (run_result go) (run_result ts) anchor ≡ pass passed
      → Agrees go ts anchor
  judge-Agrees go ts anchor h =
      let (out, g, t, m) = judge-eq-passed (run_result go) (run_result ts) anchor h in
      record {
        out = out;
        go_prints = run_result-Prints p out go g;
        ts_prints = run_result-Prints p out ts t;
        matches = m;
      }

  Agrees-judge :
      (go ts : Spawned) (anchor : Option (Fields Num))
      → Agrees go ts anchor
      → judge p (run_result go) (run_result ts) anchor ≡ pass passed
  unfolding judge
  Agrees-judge go ts anchor a =
      rw
        (
          Prints-run_result p a.out go a.go_prints,
          Prints-run_result p a.out ts a.ts_prints,
          judge,
          str_eq_refl a.out,
        )
        (Matches-anchored a.out anchor a.matches)

  module _ (go ts : Command p) where
    -- What is asked of a vector.
    abbrev pub IsAgreed : Vector p → Type 0
    IsAgreed vec = Agrees (go vec.command vec.input) (ts vec.command vec.input) vec.anchor

    tally_vectors-All :
        (t r : Tally) (vecs : List (Vector p))
        → tally_vectors p go ts t vecs ≡ pass r
        → r.failures ≡ []
        → (t.failures ≡ []) × All IsAgreed vecs
    unfolding tally_vectors judge_vector
    tally_vectors-All t r [] h e = (ap (λ (x : Tally). x.failures) (pass-injective h) ∙ e, tt)
    tally_vectors-All t r (vec ∷ vecs) h e =
        let (v, judged, h1) = >>=-eq-pass (judge_vector p go ts vec) _ h in
        let (none_yet, later) = tally_vectors-All (count vec.name v t) r vecs h1 e in
        let (v_is, none_before) = count-eq-nil vec.name v t none_yet in
        (none_before, (judge-Agrees _ _ vec.anchor (judged ∙ ap pass v_is), later))

    All-tally_vectors :
        (t : Tally) (vecs : List (Vector p))
        → All IsAgreed vecs
        → (r : Tally) × (tally_vectors p go ts t vecs ≡ pass r) × (r.failures ≡ t.failures)
    unfolding tally_vectors judge_vector ◌>>=◌ count
    All-tally_vectors t [] h = (t, refl, refl)
    All-tally_vectors t (vec ∷ vecs) (a, h) =
        let (r, is, same) = All-tally_vectors (count vec.name passed t) vecs h in
        (r, rw (Agrees-judge _ _ vec.anchor a) is, same)

    -- The script exits with 0 exactly if, on every vector, both commands start, end with the status 0
    -- and write one text, up to a newline behind it, and where the vector has an anchor, the text is
    -- JSON, and what it has under each key of the anchor has the JSON text of what the anchor has there.
    pub compare_vectors_iff :
        (vecs : List (Vector p)) → (compare_vectors p go ts vecs ≡ pass 0) ↔ All IsAgreed vecs
    unfolding compare_vectors exit_code ◌>>=◌
    compare_vectors_iff vecs =
        let start : Tally = record { pass_count = 0; fail_count = 0; failures = [] } in
        (
          (λ h.
              let (r, is, code) = >>=-eq-pass (tally_vectors p go ts start vecs) _ h in
              (tally_vectors-All start r vecs is (exit_code-eq-zero r (pass-injective code))).1),
          (λ h. let (r, is, same) = All-tally_vectors start vecs h in rw (is, exit_code, same)),
        )
