-- ===== src/Tests/Agents.antt =====
-- Round trips with the agent of ts/src/a2a/server.ts, and `JSON.stringify`, at concrete inputs.
use veritrail.Prelude.{◌≡◌, ◌⊎◌, ◌↔◌, refl, [], ◌∷◌, some, none, arith}
use veritrail.Text.{Str, codes}
use veritrail.Value.{undefined, null, str, num, obj, arr, cons, nil, end, prop}
use veritrail.Stringify.{braced, json_string, keep}
use veritrail.Hash.Injective.{Collision}
use veritrail.Outcome.{pass, ◌>>=◌}
use veritrail.Mcp.{registry_from_signer, generate_test_signer}
use veritrail.A2a.{BuildA2aReceiptOptions, compute_artifact_hash}
use veritrail.A2a.Server.{Strings, Handler, text_part, result_artifact}
use veritrail.A2a.Demo.{accept_artifact, a2a_demo}
use veritrail.A2a.Accepted.{IsReady, accept_artifact-veritrail_artifact}
use veritrail.A2a.Complete.{Delivers, signed_artifact, veritrail_artifact-text, a2a_demo_complete}
use veritrail.Toy.{toy, toy_runs, toy_digest}
use veritrail.Tests.{V, text, entry}
use veritrail.Artifact.{ArtifactHashOutput, a2a_artifact_hash}
use veritrail.Artifact.Supported.{IsArtifact, a2a_artifact_hash_iff}
use veritrail.Tests.Signing.{map-IsBytes}
use veritrail.Tests.Tools.{pair, moment, generated, generated-IsPublicHalf}

-- {"b": undefined, "a": [undefined, 5]}
abbrev sparse : V
sparse =
    obj (entry "b" undefined (entry "a" (arr (cons undefined (cons (num (codes "5")) nil))) end))

json_string_run : json_string toy sparse ≡ codes "{\"a\":[null,5]}"
unfolding toy_runs json_string braced keep
json_string_run = refl

-- The engine lists the array indices first.
json_string_indices :
    json_string toy (obj (entry "b" null (entry "10" null (entry "9" null (entry "09" null end)))))
    ≡ codes "{\"9\":null,\"10\":null,\"b\":null,\"09\":null}"
unfolding toy_runs json_string braced keep
json_string_indices = refl

abbrev strings : Strings toy
strings = record {
  string_of = λ v. some [];
  plus_string = λ v s. some s;
  elapsed_text = λ t0 t1. codes "0";
}

-- A handler that runs the executor at once.
abbrev at_once : Handler toy
at_once = λ run user_message.
    run (record { user_message = user_message; task_id = codes "t"; context_id = codes "c" })
    >>= λ task. pass (obj task)

at_once-Delivers : Delivers toy strings at_once
unfolding Delivers ◌>>=◌
at_once-Delivers run user_message = (codes "t", codes "c", λ task h. rw h)

a2a_demo_complete_example :
    (a2a_demo toy strings at_once pair pair moment (codes "a1") (codes "m1") ≡ pass tt)
    ⊎ Collision toy
unfolding toy_digest
a2a_demo_complete_example =
    a2a_demo_complete toy strings at_once pair pair moment (codes "a1") (codes "m1")
      (λ b. map-IsBytes b) at_once-Delivers generated-IsPublicHalf (omega arith)

abbrev options : BuildA2aReceiptOptions toy
options = record {
  signer = generated;
  skill = codes "summarize";
  request_parts = arr (cons (text_part (codes "hi")) nil);
  ts = none;
  wall_ms = some (codes "0");
  nonce = 1 ∷ 2 ∷ [];
}

options-IsReady : IsReady toy options
unfolding generate_test_signer
options-IsReady = record {
  kid = omega arith;
  performer_id = omega arith;
  skill = omega arith;
  wall_ms = omega arith;
  ts = tt;
  active = λ e. ground arith;
  alg = refl;
  half = generated-IsPublicHalf;
}

accept_artifact-veritrail_artifact_example :
    (hash : Str) × (compute_artifact_hash toy
        (prop (codes "parts") (result_artifact toy (codes "a1") (codes "summary: hi")))
      ≡ pass hash)
    × (accept_artifact toy (registry_from_signer toy generated) (
          obj (
            signed_artifact toy strings generated
              (codes "summarize")
              moment
              (codes "a1")
              (codes "hi")))
        ≡ pass (str hash))
accept_artifact-veritrail_artifact_example =
    accept_artifact-veritrail_artifact toy options
      (result_artifact toy (codes "a1") (codes "summary: hi"))
      (signed_artifact toy strings generated (codes "summarize") moment (codes "a1") (codes "hi"))
      options-IsReady refl
      (veritrail_artifact-text toy strings generated (codes "summarize") moment (codes "a1")
        (codes "hi"))

-- A text, and a file by reference.
abbrev two_parts : V
two_parts = obj (
    entry "parts"
      (arr (
        cons (obj (entry "kind" (text "text") (entry "text" (text "hi") end))) (
          cons
            (obj (
              entry "kind" (text "file")
                (entry "file" (obj (entry "uri" (text "s3://x") end)) end)))
            nil)))
      end)

a2a_artifact_hash_iff_example :
    ((out : ArtifactHashOutput toy) × (a2a_artifact_hash toy two_parts ≡ pass out))
    ↔ IsArtifact two_parts
a2a_artifact_hash_iff_example = a2a_artifact_hash_iff toy two_parts
