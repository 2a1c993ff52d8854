-- ===== src/Tests/Commits.antt =====
-- What the hashes of the middlewares commit to, at a concrete input.
use veritrail.Prelude.{◌≡◌, ◌⊎◌, refl, arith}
use veritrail.Text.{str_eq}
use veritrail.Value.{null, obj, has_own, end}
use veritrail.Jcs.Canonical.{canonical}
use veritrail.Hash.Injective.{Collision}
use veritrail.Mcp.{hash_of}
use veritrail.Mcp.Commits.{hash_of-commits}
use veritrail.Toy.{toy, toy_runs}
use veritrail.Tests.{V, text, entry}
use veritrail.Tests.Signing.{map-IsBytes}

abbrev ab : V
ab = obj (entry "a" (text "1") (entry "b" null end))

abbrev ba : V
ba = obj (entry "b" null (entry "a" (text "1") end))

hash_of-commits_example : (canonical ab ≡ canonical ba) ⊎ Collision toy
unfolding toy_runs has_own str_eq hash_of
hash_of-commits_example =
    hash_of-commits toy (λ b. map-IsBytes b) ab ba
      (omega arith, (refl, ((omega arith, tt), (omega arith, (refl, (tt, tt))))))
      (omega arith, (refl, (tt, (omega arith, (refl, ((omega arith, tt), tt)))))) refl
