-- ===== src/Conformance/Anchors.antt =====
-- conformance/compare.mjs: what `run` asks of a command, and what `anchorMismatch` asks of its output.
use veritrail.Prelude.{
  ◌≡◌, ◌≢◌, refl, ap, List, [], ◌∷◌, ◌++◌, Option, none, some, All, if◌then◌else◌, inl, inr,
  Bool-cases,
}
use veritrail.Platform.{Platform}
use veritrail.Text.{Str, codes, str_eq, str_eq_iff}
use veritrail.Value.{Value, Fields}
use veritrail.Value.Keys.{members_of, own_entries}
use veritrail.Value.Json.{parse}
use veritrail.Stringify.Ordered.{All-own_order, own_order-All}
use veritrail.Conformance.Texts.{IsOutput, drop_feed_iff, same_text_iff}
use veritrail.Outcome.{Outcome, pass, ◌>>=◌, >>=-eq-pass, pass-injective}
use veritrail.Conformance.{
  Spawned, or_empty_text, excerpt, drop_feed, json_text, same_text, read_key, entry_mismatch,
  RunResult, ran, run_error, run_result, anchor_mismatch,
}

ran_text : RunResult → Str
ran_text (ran s) = s
ran_text (run_error e) = []

ran-injective : {s t : Str} → ran s ≡ ran t → s ≡ t
unfolding ran_text
ran-injective e = ap ran_text e

run_error-ne : {e s : Str} → run_error e ≢ ran s
run_error-ne h = cc

module _ (p : Platform) where
  open p use {Num}

  -- A value has the member of an anchor: what it has under the key has the same JSON text.
  pub record HasMember (parsed : Value Num) (m : Str × Value Num) : Type 0 where
    pub found : Value Num
    pub read : read_key p m.0 parsed ≡ pass found
    pub same : json_text p found ≡ json_text p m.1

  -- A text is JSON that has each member of an anchor.
  pub record IsAnchored (out : Str) (anchor : Fields Num) : Type 0 where
    pub parsed : Value Num
    pub parsed_is : parse p out ≡ some parsed
    pub members : All (HasMember parsed) (members_of anchor)

  -- The anchor of a vector, if it has one, matches the output.
  abbrev pub Matches : Str → Option (Fields Num) → Type 0
  Matches out none = Unit
  Matches out (some anchor) = IsAnchored out anchor

  -- A command that starts, ends with the status 0, and writes `out`, with or without a newline behind it.
  pub record Prints (out : Str) (res : Spawned) : Type 0 where
    pub started : res.error ≡ none
    pub status_is : res.status ≡ codes "0"
    pub output_is : IsOutput (or_empty_text res.stdout) out

  mismatch_text-ne : (t : Str) → ◌≢◌ {A = Outcome Str (Option Str)} (pass (some t)) (pass none)
  mismatch_text-ne t e = let o = pass-injective e in cc

  entry_mismatch-All :
      (parsed : Value Num) (ms : List (Str × Value Num))
      → entry_mismatch p parsed ms ≡ pass none
      → All (HasMember parsed) ms
  unfolding entry_mismatch
  entry_mismatch-All parsed [] h = tt
  entry_mismatch-All parsed ((k, v) ∷ ms) h =
      let (found, read, h1) = >>=-eq-pass (read_key p k parsed) _ h in
      elim (Bool-cases (same_text p (json_text p found) (json_text p v))) [
        | inl e ↦ (
          record {
            found = found;
            read = read;
            same = (same_text_iff p (json_text p found) (json_text p v)).0 e;
          },
          entry_mismatch-All parsed ms (rw e at h1),
        )
        | inr e ↦ absurd (mismatch_text-ne _ (rw e at h1))
      ]

  All-entry_mismatch :
      (parsed : Value Num) (ms : List (Str × Value Num))
      → All (HasMember parsed) ms
      → entry_mismatch p parsed ms ≡ pass none
  unfolding entry_mismatch ◌>>=◌
  All-entry_mismatch parsed [] h = refl
  All-entry_mismatch parsed ((k, v) ∷ ms) (m, h) =
      rw (m.read, (same_text_iff p (json_text p m.found) (json_text p v)).1 m.same)
        (All-entry_mismatch parsed ms h)

  pub anchor_mismatch-IsAnchored :
      (out : Str) (anchor : Fields Num)
      → anchor_mismatch p out anchor ≡ pass none
      → IsAnchored out anchor
  unfolding anchor_mismatch own_entries
  anchor_mismatch-IsAnchored out anchor h = go (parse p out) refl h
    where
      go :
          (o : Option (Value Num))
          → parse p out ≡ o
          → (elim o as (λ _. Outcome Str (Option Str)) [
            | none ↦ pass (some (codes "output is not JSON"))
            | some parsed ↦ entry_mismatch p parsed (own_entries anchor)
          ])
            ≡ pass none
          → IsAnchored out anchor
      go none is h = absurd (mismatch_text-ne _ h)
      go (some parsed) is h = record {
        parsed = parsed;
        parsed_is = is;
        members =
            own_order-All (HasMember parsed) (members_of anchor) (entry_mismatch-All parsed _ h);
      }

  pub IsAnchored-anchor_mismatch :
      (out : Str) (anchor : Fields Num)
      → IsAnchored out anchor
      → anchor_mismatch p out anchor ≡ pass none
  unfolding anchor_mismatch own_entries
  IsAnchored-anchor_mismatch out anchor a =
      rw (anchor_mismatch, a.parsed_is)
        (All-entry_mismatch a.parsed (own_entries anchor)
          (All-own_order (HasMember a.parsed) (members_of anchor) a.members))

  pub run_result-Prints : (out : Str) (res : Spawned) → run_result res ≡ ran out → Prints out res
  unfolding run_result
  run_result-Prints out res h = go res.error refl h
    where
      go :
          (o : Option Str)
          → res.error ≡ o
          → (elim o as (λ _. RunResult) [
            | some m ↦ run_error (codes "spawn: " ++ m)
            | none ↦
                if str_eq res.status (codes "0")
                then ran (drop_feed (or_empty_text res.stdout))
                else run_error (codes "exit " ++ res.status ++ codes ": " ++ excerpt res.stderr)
          ])
            ≡ ran out
          → Prints out res
      go (some m) is h = cc
      go none is h = elim (Bool-cases (str_eq res.status (codes "0"))) [
        | inl e ↦ record {
          started = is;
          status_is = (str_eq_iff res.status (codes "0")).0 e;
          output_is = (drop_feed_iff (or_empty_text res.stdout) out).0 (ran-injective (rw e at h));
        }
        | inr e ↦ absurd (run_error-ne (rw e at h))
      ]

  pub Prints-run_result : (out : Str) (res : Spawned) → Prints out res → run_result res ≡ ran out
  unfolding run_result
  Prints-run_result out res r =
      rw (r.started, (str_eq_iff res.status (codes "0")).1 r.status_is)
        (ap ran ((drop_feed_iff (or_empty_text res.stdout) out).1 r.output_is))
