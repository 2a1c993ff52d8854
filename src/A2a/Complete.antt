-- ===== src/A2a/Complete.antt =====
-- The demo of ts/src/a2a/demo.ts, from the message of the consumer to the rejection of the forged
-- artifact.
use veritrail.Prelude.{◌≡◌, ◌⊎◌, inl, inr, refl, ◌++◌, none, some, arith}
use veritrail.Platform.{Platform}
use veritrail.Text.{Str, Bytes, codes, str_eq, join}
use veritrail.Text.Base64.RoundTrip.{IsBytes}
use veritrail.Value.{Value, str, obj, Fields, get, set, prop, is_str}
use veritrail.Jcs.Quoted.{IsStr}
use veritrail.Hash.Injective.{Collision}
use veritrail.Outcome.{Outcome, pass, ◌>>=◌, require}
use veritrail.Artifact.{read_prop, is_falsy}
use veritrail.Sign.Verified.{IsPublicHalf}
use veritrail.Mcp.{
  TestSigner, KeyPair, generate_test_signer, registry_from_signer, hash_of, attach, spread,
}
use veritrail.Mcp.Payload.{digest_bytes-IsStr}
use veritrail.Mcp.Server.{Moment, or_generated}
use veritrail.A2a.{
  BuildA2aReceiptOptions, compute_artifact_hash, build_a2a_receipt_payload, veritrail_artifact,
}
use veritrail.A2a.Server.{
  Strings, Handler, RequestContext, A2aRoundTripResult, with_own, hash_part, hash_part_of,
  hash_parts, request_parts_of, texts_of, text_of_value, first_of, result_artifact, completed,
  message, execute, run_a2a_round_trip,
}
use veritrail.A2a.Tampered.{one_text, text_hash, compute_artifact_hash-text, reject_tampered-text}
use veritrail.A2a.Demo.{accept_artifact, reject_tampered, a2a_demo}
use veritrail.A2a.Accepted.{IsReady, receipt_of, accept_artifact-attach}

module _ (p : Platform) (strings : Strings p) where
  open p use {Num}

  -- What the agent gives the middleware, and the artifact that it gets back.
  abbrev pub agent_options : TestSigner p → Str → Moment p → Str → BuildA2aReceiptOptions p
  agent_options signer skill moment text = record {
    signer = signer;
    skill = skill;
    request_parts = one_text p strings text;
    ts = none;
    wall_ms = some (strings.elapsed_text moment.started moment.finished);
    nonce = moment.nonce;
  }

  abbrev pub summary : Str → Str
  summary text = codes "summary: " ++ text

  abbrev pub signed_artifact : TestSigner p → Str → Moment p → Str → Str → Fields Num
  signed_artifact signer skill moment artifact_id text =
      attach (codes "metadata")
        (receipt_of p (agent_options signer skill moment text) (text_hash p strings text)
          (text_hash p strings (summary text)))
        (result_artifact p artifact_id (summary text))

  pub veritrail_artifact-text :
      (signer : TestSigner p) (skill : Str) (moment : Moment p) (artifact_id text : Str)
      → veritrail_artifact p
          (agent_options signer skill moment text)
          (result_artifact p artifact_id (summary text))
        ≡ pass (signed_artifact signer skill moment artifact_id text)
  unfolding veritrail_artifact build_a2a_receipt_payload get str_eq ◌>>=◌
  veritrail_artifact-text signer skill moment artifact_id text = rw (
    compute_artifact_hash-text p strings text,
    compute_artifact_hash-text p strings (summary text),
  )

  -- The agent answers a message of one text with a summary of it.
  execute-text :
      (signer : TestSigner p) (skill : Str) (moment : Moment p)
      (artifact_id message_id text task_id context_id : Str)
      → execute p strings signer skill moment artifact_id (record {
        user_message = message p message_id text;
        task_id = task_id;
        context_id = context_id;
      })
        ≡ pass (
            completed p
              (record {
                user_message = message p message_id text;
                task_id = task_id;
                context_id = context_id;
              })
              (signed_artifact signer skill moment artifact_id text))
  unfolding execute request_parts_of hash_parts hash_part hash_part_of with_own read_prop texts_of
      text_of_value join get str_eq is_str ◌>>=◌
  execute-text signer skill moment artifact_id message_id text task_id context_id =
      rw (veritrail_artifact-text signer skill moment artifact_id text)

  -- A handler that gives the executor the message, with ids of its own, and the consumer the task that
  -- the executor publishes.
  unfoldable pub Delivers : Handler p → Type 0
  Delivers handler =
      (run : RequestContext p → Outcome Str (Fields Num)) (user_message : Fields Num)
      → (task_id : Str) × (context_id : Str) × ((task : Fields Num)
          → run (record { user_message = user_message; task_id = task_id; context_id = context_id })
            ≡ pass task
          → handler run user_message ≡ pass (obj task))

  run_a2a_round_trip-text :
      (handler : Handler p) (spare : KeyPair p) (signer : TestSigner p) (moment : Moment p)
      (artifact_id message_id skill text : Str)
      → Delivers handler
      → (trip : A2aRoundTripResult p) × (trip.artifact
          ≡ obj (signed_artifact signer skill moment artifact_id text))
        × (run_a2a_round_trip p strings handler spare moment artifact_id message_id
              (record { signer = some signer; skill = skill; text = text })
            ≡ pass trip)
  unfolding Delivers run_a2a_round_trip or_generated read_prop first_of is_falsy require is_str get
      str_eq ◌>>=◌
  run_a2a_round_trip-text handler spare signer moment artifact_id message_id skill text delivers =
      let run = execute p strings signer skill moment artifact_id in
      let (task_id, context_id, delivered) = delivers run (message p message_id text) in
      let context : RequestContext p = record {
        user_message = message p message_id text;
        task_id = task_id;
        context_id = context_id;
      } in
      let artifact = signed_artifact signer skill moment artifact_id text in
      (
        record {
          artifact = obj artifact;
          task = obj (completed p context artifact);
          signer = signer;
        },
        refl,
        rw (
            delivered (completed p context artifact)
              (execute-text signer skill moment artifact_id message_id text task_id context_id)),
      )

  generated-IsReady :
      (pair : KeyPair p) (moment : Moment p) (text : Str)
      → IsPublicHalf p pair.private_key (generate_test_signer p pair none none).public_jwk
      → IsStr (strings.elapsed_text moment.started moment.finished)
      → IsReady p
          (agent_options (generate_test_signer p pair none none) (codes "summarize") moment text)
  unfolding generate_test_signer
  generated-IsReady pair moment text half elapsed = record {
    kid = omega arith;
    performer_id = omega arith;
    skill = omega arith;
    wall_ms = elapsed;
    ts = tt;
    active = λ e. ground arith;
    alg = refl;
    half = half;
  }

  parts_are :
      (signer : TestSigner p) (skill : Str) (moment : Moment p) (artifact_id text : Str)
      → read_prop (codes "parts") (obj (signed_artifact signer skill moment artifact_id text))
        ≡ pass (one_text p strings (summary text))
  unfolding read_prop attach set spread get str_eq
  parts_are signer skill moment artifact_id text = refl

  text_hash-IsStr : (text : Str) → IsStr (text_hash p strings text)
  unfolding hash_of
  text_hash-IsStr text = digest_bytes-IsStr p _

  outputs_are :
      (artifact_id text : Str)
      → compute_artifact_hash p (prop (codes "parts") (result_artifact p artifact_id text))
        ≡ pass (text_hash p strings text)
  unfolding get str_eq
  outputs_are artifact_id text = compute_artifact_hash-text p strings text

  accept_artifact-generated :
      (pair : KeyPair p) (moment : Moment p) (artifact_id text : Str)
      → IsPublicHalf p pair.private_key (generate_test_signer p pair none none).public_jwk
      → IsStr (strings.elapsed_text moment.started moment.finished)
      → accept_artifact p (registry_from_signer p (generate_test_signer p pair none none)) (
          obj (
            signed_artifact
              (generate_test_signer p pair none none)
              (codes "summarize")
              moment
              artifact_id
              text))
        ≡ pass (str (text_hash p strings (summary text)))
  accept_artifact-generated pair moment artifact_id text half elapsed =
      accept_artifact-attach p
        (agent_options (generate_test_signer p pair none none) (codes "summarize") moment text)
        (result_artifact p artifact_id (summary text)) (text_hash p strings text)
        (text_hash p strings (summary text)) (generated-IsReady pair moment text half elapsed) refl
        (text_hash-IsStr text) (outputs_are artifact_id (summary text))

  a2a_demo-steps :
      (handler : Handler p) (pair spare : KeyPair p) (moment : Moment p)
      (artifact_id message_id : Str) (trip : A2aRoundTripResult p) (hash parts : Value Num)
      → run_a2a_round_trip p strings handler spare moment artifact_id message_id (record {
        signer = some (generate_test_signer p pair none none);
        skill = codes "summarize";
        text = codes "hello world";
      })
        ≡ pass trip
      → accept_artifact p
          (registry_from_signer p (generate_test_signer p pair none none))
          trip.artifact
        ≡ pass hash
      → read_prop (codes "parts") trip.artifact ≡ pass parts
      → reject_tampered p strings hash parts ≡ pass tt
      → a2a_demo p strings handler pair spare moment artifact_id message_id ≡ pass tt
  unfolding a2a_demo ◌>>=◌
  a2a_demo-steps handler pair spare moment artifact_id message_id trip hash parts ran accepted read
        rejected =
      rw (ran, accepted, read, rejected)

  -- The demo completes, its receipt accepted, its artifact bound and the forged one told from it, or
  -- two byte strings have one SHA-256 digest. The handler gives the executor the message and the
  -- consumer the task, the generated keys belong together, the text of the time that passed holds code
  -- units, and SHA-256 returns bytes.
  pub a2a_demo_complete :
      (handler : Handler p) (pair spare : KeyPair p) (moment : Moment p)
      (artifact_id message_id : Str)
      → ((b : Bytes) → IsBytes (p.sha256 b))
      → Delivers handler
      → IsPublicHalf p pair.private_key (generate_test_signer p pair none none).public_jwk
      → IsStr (strings.elapsed_text moment.started moment.finished)
      → (a2a_demo p strings handler pair spare moment artifact_id message_id ≡ pass tt)
        ⊎ Collision p
  a2a_demo_complete handler pair spare moment artifact_id message_id bytes delivers half elapsed =
      let signer = generate_test_signer p pair none none in
      let text = codes "hello world" in
      let (trip, artifact_is, trip_is) =
        run_a2a_round_trip-text handler spare signer moment artifact_id message_id
          (codes "summarize") text delivers in
      let accepted = accept_artifact-generated pair moment artifact_id text half elapsed in
      elim (reject_tampered-text p strings bytes (summary text) (omega arith) (omega arith)
        (λ e. ground arith)) [
          | inl done ↦ inl (
              a2a_demo-steps handler pair spare moment artifact_id message_id trip _ _ trip_is
                (rw artifact_is accepted)
                (rw artifact_is (parts_are signer (codes "summarize") moment artifact_id text))
                done)
          | inr c ↦ inr c
        ]
