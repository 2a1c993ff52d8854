-- ===== src/A2a/Server.antt =====
-- ts/src/a2a/server.ts: an agent that answers a message with a summary as an artifact that carries a
-- receipt, and a round trip of a consumer with it.
use veritrail.Prelude.{not, [], ◌∷◌, ◌++◌, List, Option, none, some, if◌then◌else◌}
use veritrail.Platform.{Platform}
use veritrail.Text.{Str, codes, join}
use veritrail.Value.{
  Value, undefined, null, str, arr, obj, Items, nil, cons, Fields, end, field, prop, is_str,
}
use veritrail.Outcome.{Outcome, pass, thrown, or_throw, require, ◌>>=◌}
use veritrail.Artifact.{read_prop, is_falsy}
use veritrail.Mcp.{TestSigner, KeyPair}
use veritrail.Mcp.Server.{Moment, single, or_generated}
use veritrail.A2a.{veritrail_artifact}

-- The conversions to strings that the agent and the demo call.
pub record Strings (p : Platform) : Type 0 where
  -- `String(v)` for a `v` that is no string, `none` where it throws.
  pub string_of : Value p.Num → Option Str
  -- `v + s` for a `v` that is no string, `none` where it throws.
  pub plus_string : Value p.Num → Str → Option Str
  -- `String(Math.max(0, Math.round(t1 - t0)))`
  pub elapsed_text : p.Num → p.Num → Str

-- `{ kind, [key]: v }`
abbrev pub part : {N : Type 0} → Str → Str → Value N → Value N
part kind key v = obj (field (codes "kind") (str kind) (field key v end))

abbrev pub text_part : {N : Type 0} → Str → Value N
text_part text = part (codes "text") (codes "text") (str text)

module _ {N : Type 0} where
  -- `{ kind, [key]: p[key] }`
  unfoldable pub with_own : Str → Value N → Outcome Str (Value N)
  unfolding read_prop
  with_own key v = do w ← read_prop key v; pass (part key key w)

  unfoldable pub hash_part_of : Value N → Value N → Outcome Str (Value N)
  unfolding is_str with_own
  hash_part_of kind v =
      if is_str (codes "text") kind
      then with_own (codes "text") v
      else if is_str (codes "data") kind
      then with_own (codes "data") v
      else if is_str (codes "file") kind
      then with_own (codes "file") v
      else pass (single (codes "kind") kind)

  -- `toHashPart`
  unfoldable pub hash_part : Value N → Outcome Str (Value N)
  unfolding read_prop hash_part_of
  hash_part v = do kind ← read_prop (codes "kind") v; hash_part_of kind v

  unfoldable pub hash_parts : Items N → Outcome Str (Items N)
  unfolding hash_part
  hash_parts nil = pass nil
  hash_parts (cons v vs) = do q ← hash_part v; qs ← hash_parts vs; pass (cons q qs)

  -- `(parts ?? []).map(toHashPart)`
  unfoldable pub request_parts_of : Value N → Outcome Str (Items N)
  unfolding hash_parts
  request_parts_of undefined = pass nil
  request_parts_of null = pass nil
  request_parts_of (arr vs) = hash_parts vs
  request_parts_of _ = thrown

  -- `v?.[0]`
  unfoldable pub first_of : Value N → Value N
  first_of (arr (cons v _)) = v
  first_of (str (c ∷ _)) = str (c ∷ [])
  first_of (obj fs) = prop (codes "0") fs
  first_of _ = undefined

module _ (p : Platform) where
  open p use {Num}

  pub record RequestContext : Type 0 where
    pub user_message : Fields Num
    pub task_id : Str
    pub context_id : Str

  -- What `handler.sendMessage` returns for a message, given what the executor publishes.
  abbrev pub Handler : Type 0
  Handler = (RequestContext → Outcome Str (Fields Num)) → Fields Num → Outcome Str (Value Num)

  pub record A2aRoundTripOptions : Type 0 where
    pub signer : Option (TestSigner p)
    pub skill : Str
    pub text : Str

  pub record A2aRoundTripResult : Type 0 where
    pub artifact : Value Num
    pub task : Value Num
    pub signer : TestSigner p

  -- The artifact, before a receipt is attached.
  abbrev pub result_artifact : Str → Str → Fields Num
  result_artifact artifact_id summary = field (codes "artifactId") (str artifact_id) (
      field (codes "name") (str (codes "result"))
        (field (codes "parts") (arr (cons (text_part summary) nil)) end))

  -- The completed task.
  abbrev pub completed : RequestContext → Fields Num → Fields Num
  completed context artifact = field (codes "kind") (str (codes "task")) (
      field (codes "id") (str context.task_id) (
        field (codes "contextId") (str context.context_id) (
          field (codes "status") (single (codes "state") (str (codes "completed")))
            (field (codes "artifacts") (arr (cons (obj artifact) nil)) end))))

  -- The message of the consumer.
  abbrev pub message : Str → Str → Fields Num
  message message_id text = field (codes "kind") (str (codes "message")) (
      field (codes "messageId") (str message_id) (
        field (codes "role") (str (codes "user"))
          (field (codes "parts") (arr (cons (text_part text) nil)) end)))

  module _ (strings : Strings p) where
    open strings use {string_of, elapsed_text}

    unfoldable pub text_of_value : Value Num → Outcome Str Str
    unfolding or_throw
    text_of_value (str s) = pass s
    text_of_value v = or_throw (string_of v)

    -- `.filter((p) => p.kind === 'text').map((p) => String(p.text))`
    unfoldable pub texts_of : Items Num → Outcome Str (List Str)
    unfolding read_prop is_str text_of_value
    texts_of nil = pass []
    texts_of (cons v vs) = do
      let rest = texts_of vs
      kind ← read_prop (codes "kind") v
      if is_str (codes "text") kind
          then (do
            text ← read_prop (codes "text") v
            s ← text_of_value text
            ss ← rest
            pass (s ∷ ss))
          else rest

    -- `execute`, up to the task that it publishes; the id of the artifact is what `randomUUID` returns.
    unfoldable pub execute :
        TestSigner p → Str → Moment p → Str → RequestContext → Outcome Str (Fields Num)
    unfolding request_parts_of texts_of join
    execute signer skill moment artifact_id context = do
      parts ← request_parts_of (prop (codes "parts") context.user_message)
      texts ← texts_of parts
      artifact ←
          veritrail_artifact p
            (record {
              signer = signer;
              skill = skill;
              request_parts = arr parts;
              ts = none;
              wall_ms = some (elapsed_text moment.started moment.finished);
              nonce = moment.nonce;
            })
            (result_artifact artifact_id (codes "summary: " ++ join (codes " ") texts))
      pass (completed context artifact)

    -- `runA2ARoundTrip`; the two ids are what `randomUUID` returns.
    unfoldable pub run_a2a_round_trip :
        Handler
        → KeyPair p
        → Moment p
        → Str
        → Str
        → A2aRoundTripOptions
        → Outcome Str A2aRoundTripResult
    unfolding or_generated execute first_of is_falsy read_prop is_str require
    run_a2a_round_trip handler pair moment artifact_id message_id opts = do
      let signer = or_generated p opts.signer pair
      task ← handler (execute signer opts.skill moment artifact_id) (message message_id opts.text)
      kind ← read_prop (codes "kind") task
      _ ← require (is_str (codes "task") kind) (codes "expected a Task result from the A2A handler")
      artifacts ← read_prop (codes "artifacts") task
      let artifact = first_of artifacts
      _ ← require (not (is_falsy p artifact)) (codes "A2A task returned no artifact")
      pass (record { artifact = artifact; task = task; signer = signer })
