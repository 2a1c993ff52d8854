-- ===== src/Go/Chain/Shared.antt =====
-- The steps of go/chain.go and of ts/src/commands/verify-chain.ts on receipts that both programs read
-- alike.
use veritrail.Prelude.{
  some-injective, ◌≡◌, refl, sym, ap, subst, ◌∙◌, false, List, [], ◌∷◌, map, Option, some, All,
}
use veritrail.Text.{Str, Bytes, str_eq}
use veritrail.Value.{str, obj, as_str}
use veritrail.Platform.{Platform}
use veritrail.Jcs.{jcs_bytes}
use veritrail.Hash.{digest_bytes, encode_hashstring}
use veritrail.Outcome.{Outcome, pass, >>=-cong_pass, ◌>>=◌, ◌>>◌, require_some}
use veritrail.Compact.{Compact, read_compact}
use veritrail.Verify.{Registry, Policy, expected}
use veritrail.Chain.{
  ChainReason, receipt_invalid, parent_performer, empty_policy, or_empty, compute_receipt_id,
  receipt_list,
}
use veritrail.Chain
use veritrail.Chain.Lineage.{AllAccepted, check_hops_iff}
use veritrail.Chain.Reread.{parse_payload_of_canonical}
use veritrail.Go.Library.{Library}
use veritrail.Go.Base64.{raw_url_decode-b64url_decode}
use veritrail.Go.Verify.Keys.{go_keys, go_policy}
use veritrail.Go.Verify.Steps.{IsExpecting}
use veritrail.Go.Verify.Found.{found}
use veritrail.Go.Verify.Agreement.{IsAgreed, verify-go_input}
use veritrail.Go.Chain.{
  Hop, digest, hash_string_from_bytes, decode_payload, check_hops, read_hops, check_parents,
  check_links, check_identities, check_cycle, chain_steps, hop_ids,
}
use veritrail.Go.Chain.Hops.{IsPerformerClaim, SharedHop, hop, go_hop, later_steps}

-- No expected value of the policy is the empty string.
abbrev pub IsExpectingAll : Option Policy → Type 0
IsExpectingAll policy =
    IsExpecting (expected (λ q. q.expected_binding) policy)
    × IsExpecting (expected (λ q. q.expected_method) policy)

no_expectation : IsExpectingAll (some empty_policy)
no_expectation = ((λ e h. cc), (λ e h. cc))

module _ (p : Platform) (lib : Library) (keys : Option Registry) where
  -- A receipt that both programs read alike, and whose payload both hash alike.
  pub record IsShared (jws : Str) : Type 0 where
    pub compact : Compact p.Num
    pub read_is : read_compact p (str jws) ≡ some compact
    pub agreed : IsAgreed p lib keys compact
    pub hashed : lib.sha256 compact.payload_bytes ≡ p.sha256 compact.payload_bytes
    pub claim : IsPerformerClaim (parent_performer compact.payload)

  id_given : (raw : Bytes) → str_eq [] (digest lib raw) ≡ false
  unfolding digest hash_string_from_bytes str_eq
  id_given raw = refl

  abbrev shared_hop : (jws : Str) → IsShared jws → SharedHop p.Num lib
  shared_hop jws s = record {
    fields = s.compact.payload;
    bytes = s.compact.payload_bytes;
    read = s.agreed.reads.payload;
    id = digest lib s.compact.payload_bytes;
    id_given = id_given s.compact.payload_bytes;
    claim = s.claim;
  }

  abbrev shared_hops : (receipts : List Str) → All IsShared receipts → List (SharedHop p.Num lib)
  shared_hops [] h = []
  shared_hops (jws ∷ receipts) (s, h) = shared_hop jws s ∷ shared_hops receipts h

  -- Step 2.
  check_hops-shared :
      (policy : Policy) (receipts : List Str)
      → All IsShared receipts
      → IsExpectingAll (some policy)
      → check_hops lib (go_keys keys) (go_policy (some policy)) receipts
        ≡ Chain.check_hops p keys policy (map str receipts)
  unfolding check_hops Chain.check_hops
  check_hops-shared policy [] h e = refl
  check_hops-shared policy (jws ∷ receipts) (s, h) (b, m) =
      rw
        (
          verify-go_input p lib jws keys (some policy) s.compact s.read_is s.agreed b m,
          check_hops-shared empty_policy receipts h no_expectation,
        )
        (unfold Chain.require_valid in refl)

  decode_payload-shared :
      (jws : Str) (s : IsShared jws)
      → decode_payload lib jws ≡ pass (s.compact.payload_bytes, s.agreed.reads.payload.raw)
  unfolding decode_payload require_some ◌>>=◌
  decode_payload-shared jws s =
      let f = found p jws s.compact s.read_is in
      rw
        (
          f.segs_are,
          raw_url_decode-b64url_decode s.compact.segs.payload_seg s.compact.payload_bytes
              f.payload_seg s.agreed.payload_whole,
          s.agreed.reads.payload.read,
        )
        refl

  -- Step 3 of `VerifyChain`.
  read_hops-shared :
      (receipts : List Str) (h : All IsShared receipts)
      → read_hops lib receipts ≡ pass (map (go_hop p lib) (shared_hops receipts h))
  unfolding read_hops ◌>>=◌
  read_hops-shared [] h = refl
  read_hops-shared (jws ∷ receipts) (s, h) =
      rw (decode_payload-shared jws s, read_hops-shared receipts h) refl

  shared_id :
      (jws : Str) (s : IsShared jws)
      → jcs_bytes p (obj s.compact.payload) ≡ s.compact.payload_bytes
      → compute_receipt_id p s.compact.payload ≡ digest lib s.compact.payload_bytes
  unfolding compute_receipt_id digest_bytes encode_hashstring digest hash_string_from_bytes
  shared_id jws s canonical = rw (canonical, s.hashed) refl

  -- Step 3 of `verifyChain`, after step 2 has passed.
  hops_shared :
      (policy : Policy) (receipts : List Str) (h : All IsShared receipts)
      → AllAccepted p keys policy (map str receipts)
      → Chain.read_hops p (map str receipts) ≡ pass (map (hop p lib) (shared_hops receipts h))
  unfolding Chain.read_hops ◌>>=◌ Chain.require_string as_str require_some
  hops_shared policy [] h a = refl
  hops_shared policy (jws ∷ receipts) (s, h) (accepted, a) =
      let same = some-injective (sym accepted.read_is ∙ s.read_is) in
      let canonical =
        subst (λ c. jcs_bytes p (obj c.payload) ≡ c.payload_bytes) same
          accepted.accepted.canonical in
      rw
        (
          parse_payload_of_canonical p jws s.compact s.read_is canonical,
          shared_id jws s canonical,
          hops_shared empty_policy receipts h a,
        )
        refl

  -- Steps 2 to 7.
  pub chain_steps-shared :
      (policy : Policy) (receipts : List Str)
      → All IsShared receipts
      → IsExpectingAll (some policy)
      → chain_steps lib (go_keys keys) (go_policy (some policy)) receipts
        ≡ Chain.chain_steps p keys policy (map str receipts)
  unfolding chain_steps Chain.chain_steps
  chain_steps-shared policy receipts h e =
      ap (λ m. m >> go_rest (read_hops lib receipts)) (check_hops-shared policy receipts h e)
      ∙ >>=-cong_pass (Chain.check_hops p keys policy (map str receipts))
          (λ _. go_rest (read_hops lib receipts)) (λ _. rest (Chain.read_hops p (map str receipts)))
          (λ _ passed. from_hops ((check_hops_iff p keys policy (map str receipts)).0 passed))
    where
      go_rest : Outcome ChainReason (List Hop) → Outcome ChainReason (Unit {0})
      go_rest read = do
        hops ← read
        check_parents hops
        check_links lib hops
        check_identities lib hops
        check_cycle [] (hop_ids hops)

      rest : Outcome ChainReason (List (Chain.Hop p.Num)) → Outcome ChainReason (Unit {0})
      rest read = do
        hops ← read
        Chain.check_parents p hops
        Chain.check_links p hops
        Chain.check_identities p hops
        Chain.check_repeats [] (Chain.hop_ids p hops)

      from_hops :
          AllAccepted p keys policy (map str receipts)
          → go_rest (read_hops lib receipts) ≡ rest (Chain.read_hops p (map str receipts))
      from_hops a =
          rw (read_hops-shared receipts h, hops_shared policy receipts h a)
            (unfold ◌>>=◌ in later_steps p lib (shared_hops receipts h))
