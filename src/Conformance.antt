-- ===== src/Conformance.antt =====
-- conformance/compare.mjs: every vector run through two implementations, whose outputs must be the same
-- and match the vector's anchor. What the script prints is left out.
pub mod Texts
pub mod Anchors
pub mod Agreement
use veritrail.Prelude.{
  ℕ, zero, suc, ◌+◌, ◌/◌, ◌%◌, ltb, length, Bool, List, [], ◌∷◌, ◌++◌, Option, none, some,
  if◌then◌else◌, take, ◌==◌,
}
use veritrail.Platform.{Platform}
use veritrail.Text.{Str, codes, str_eq}
use veritrail.Value.{
  Value, undefined, null, bool, num, str, arr, obj, Items, Fields, end, get, elements,
}
use veritrail.Value.Json.{parse}
use veritrail.Stringify.{json_string}
use veritrail.Outcome.{Outcome, pass, fail, thrown, ◌>>=◌}
use veritrail.Value.Keys.{array_index, own_entries}

-- What `spawnSync` returns: the message of an error, the exit status as a text, and the two outputs,
-- where there are any.
pub record Spawned : Type 0 where
  pub error : Option Str
  pub status : Str
  pub stdout : Option Str
  pub stderr : Option Str

pub data RunResult : Type 0 where
  ran : Str → RunResult
  run_error : Str → RunResult

-- `.replace(/\n$/, "")`
unfoldable pub drop_feed : Str → Str
drop_feed [] = []
drop_feed (c ∷ []) = if c == b'\n' then [] else c ∷ []
drop_feed (c ∷ d ∷ s) = c ∷ drop_feed (d ∷ s)

-- `s ?? ""`
abbrev pub or_empty_text : Option Str → Str
or_empty_text none = []
or_empty_text (some s) = s

-- `${s?.slice(0, 300)}`
abbrev pub excerpt : Option Str → Str
excerpt none = codes "undefined"
excerpt (some s) = take 300 s

-- How `run` reads what `spawnSync` returns.
unfoldable pub run_result : Spawned → RunResult
unfolding str_eq drop_feed
run_result res = elim res.error [
  | some m ↦ run_error (codes "spawn: " ++ m)
  | none ↦
      if str_eq res.status (codes "0")
      then ran (drop_feed (or_empty_text res.stdout))
      else run_error (codes "exit " ++ res.status ++ codes ": " ++ excerpt res.stderr)
]

-- `g.err ?? "ok"`
abbrev pub err_text : RunResult → Str
err_text (ran _) = codes "ok"
err_text (run_error e) = e

-- The lines of `failures`, and the two counts.
pub record Tally : Type 0 where
  pub pass_count : ℕ
  pub fail_count : ℕ
  pub failures : List Str

-- A vector that passes, or the text behind its name in `failures`.
pub data Verdict : Type 0 where
  passed : Verdict
  failed : Str → Verdict

unfoldable pub anchor_verdict : Str → Option Str → Verdict
anchor_verdict out none = passed
anchor_verdict out (some text) =
    failed (codes ": ANCHOR-FAIL — " ++ text ++ codes "\n    out: " ++ out)

unfoldable pub count : Str → Verdict → Tally → Tally
count name passed t = record t { pass_count = suc t.pass_count }
count name (failed text) t = record t {
  fail_count = suc t.fail_count;
  failures = t.failures ++ (name ++ text) ∷ [];
}

-- `if (failures.length) … process.exit(1)`
unfoldable pub exit_code : Tally → ℕ
exit_code t = elim t.failures [ [] ↦ 0 | _ ∷ _ ↦ 1 ]

-- The element at an index.
unfoldable pub nth {ℓ} : {A : Type ℓ} → ℕ → List A → Option A
nth i [] = none
nth zero (x ∷ xs) = some x
nth (suc i) (x ∷ xs) = nth i xs

unfoldable pub at_index {ℓ} : {A : Type ℓ} → Option ℕ → List A → Option A
unfolding nth
at_index none xs = none
at_index (some i) xs = nth i xs

-- The decimal numeral of a number, on fuel: the number itself is enough.
unfoldable pub decimal_digits : ℕ → ℕ → Str → Str
decimal_digits zero n acc = (b'0' + n % 10) ∷ acc
decimal_digits (suc f) n acc =
    let rest = decimal_digits f (n / 10) ((b'0' + n % 10) ∷ acc) in
    if ltb n 10 then (b'0' + n) ∷ acc else rest

unfoldable pub decimal_text : ℕ → Str
unfolding decimal_digits
decimal_text n = decimal_digits n n []

module _ (p : Platform) where
  open p use {Num, number_value}

  -- A file of conformance/vectors; `anchor` is none where it is falsy.
  pub record Vector : Type 0 where
    pub name : Str
    pub command : Str
    pub input : Value Num
    pub anchor : Option (Fields Num)

  -- `JSON.stringify(v)`, which is undefined for undefined.
  unfoldable pub json_text : Value Num → Option Str
  unfolding json_string
  json_text undefined = none
  json_text v = some (json_string p v)

  -- `a !== b` for two such texts.
  unfoldable pub same_text : Option Str → Option Str → Bool
  unfolding str_eq
  same_text none none = Bool.true
  same_text (some s) (some t) = str_eq s t
  same_text none (some _) = Bool.false
  same_text (some _) none = Bool.false

  abbrev pub shown : Option Str → Str
  shown none = codes "undefined"
  shown (some s) = s

  -- A string of one code unit.
  abbrev of_unit : Option ℕ → Option (Value Num)
  of_unit none = none
  of_unit (some c) = some (str (c ∷ []))

  -- What a value has of its own under the key `k`: the properties of an object, the elements and the
  -- length of an array, the code units and the length of a string.
  unfoldable pub own_member : Str → Value Num → Option (Value Num)
  unfolding at_index decimal_text array_index get elements str_eq
  own_member k (obj fs) = get k fs
  own_member k (arr xs) =
      if str_eq k (codes "length")
      then some (num (number_value (decimal_text (length (elements xs)))))
      else at_index (array_index k) (elements xs)
  own_member k (str s) =
      if str_eq k (codes "length")
      then some (num (number_value (decimal_text (length s))))
      else of_unit (at_index (array_index k) s)
  own_member k _ = none

  -- A value with the JSON text of what `v[k]` inherits: a prototype under `__proto__`, which has no
  -- enumerable property; other members of the prototypes are functions and have no JSON text.
  unfoldable pub prototype : Value Num → Value Num
  prototype (obj fs) = obj end
  prototype (arr xs) = arr Items.nil
  prototype (str s) = str []
  prototype (num n) = num (number_value (codes "0"))
  prototype (bool b) = bool Bool.false
  prototype _ = undefined

  unfoldable pub inherited_value : Str → Value Num → Value Num
  unfolding prototype str_eq
  inherited_value k v = if str_eq k (codes "__proto__") then prototype v else undefined

  abbrev own_or : Option (Value Num) → Value Num → Value Num
  own_or none v = v
  own_or (some w) v = w

  -- A value with the JSON text of `v[k]`.
  unfoldable pub read_key : Str → Value Num → Outcome Str (Value Num)
  unfolding own_member inherited_value
  read_key k undefined = thrown
  read_key k null = thrown
  read_key k v = pass (own_or (own_member k v) (inherited_value k v))

  -- The loop of `anchorMismatch`, over `Object.entries(anchor)`.
  unfoldable pub entry_mismatch : Value Num → List (Str × Value Num) → Outcome Str (Option Str)
  unfolding json_text same_text read_key
  entry_mismatch parsed [] = pass none
  entry_mismatch parsed ((k, v) ∷ entries) = do
    let rest = entry_mismatch parsed entries
    found ← read_key k parsed
    if same_text (json_text found) (json_text v)
        then rest
        else pass (
            some (
              codes "anchor."
              ++ k
              ++ codes ": expected "
              ++ shown (json_text v)
              ++ codes " got "
              ++ shown (json_text found)))

  -- `anchorMismatch`
  unfoldable pub anchor_mismatch : Str → Fields Num → Outcome Str (Option Str)
  unfolding entry_mismatch parse own_entries
  anchor_mismatch out anchor = elim (parse p out) [
    | none ↦ pass (some (codes "output is not JSON"))
    | some parsed ↦ entry_mismatch parsed (own_entries anchor)
  ]

  unfoldable pub anchored : Str → Option (Fields Num) → Outcome Str Verdict
  unfolding anchor_mismatch anchor_verdict
  anchored out none = pass passed
  anchored out (some anchor) = do m ← anchor_mismatch out anchor; pass (anchor_verdict out m)

  -- The body of the loop, after the two runs.
  unfoldable pub judge : RunResult → RunResult → Option (Fields Num) → Outcome Str Verdict
  unfolding anchored str_eq
  judge (ran g) (ran t) anchor =
      if str_eq g t
      then anchored g anchor
      else pass (failed (codes ": DIVERGE\n    go: " ++ g ++ codes "\n    ts: " ++ t))
  judge g t anchor =
      pass (failed (codes ": RUNERR go=" ++ err_text g ++ codes " ts=" ++ err_text t))

  -- What the two commands return for a vector.
  abbrev pub Command : Type 0
  Command = Str → Value Num → Spawned

  module _ (go ts : Command) where
    unfoldable pub judge_vector : Vector → Outcome Str Verdict
    unfolding judge run_result
    judge_vector vec =
        judge (run_result (go vec.command vec.input)) (run_result (ts vec.command vec.input))
          vec.anchor

    -- The loop over the vectors.
    unfoldable pub tally_vectors : Tally → List Vector → Outcome Str Tally
    unfolding judge_vector count
    tally_vectors t [] = pass t
    tally_vectors t (vec ∷ vecs) = do v ← judge_vector vec; tally_vectors (count vec.name v t) vecs

    -- The script: its exit code.
    unfoldable pub compare_vectors : List Vector → Outcome Str ℕ
    unfolding tally_vectors exit_code
    compare_vectors vecs = do
      t ← tally_vectors (record { pass_count = 0; fail_count = 0; failures = [] }) vecs
      pass (exit_code t)
