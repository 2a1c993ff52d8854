-- ===== src/Chain/Lineage.antt =====
-- When `verifyChain` accepts a path of receipts: the conditions of a lineage.
use veritrail.Prelude.{
  ℕ, ◌≡◌, ◌≢◌, refl, sym, ◌↔◌, inl, inr, true, false, List, [], ◌∷◌, Option, some, arith,
  if◌then◌else◌, length, subst, Bool-cases,
}
use veritrail.Platform.{Platform}
use veritrail.Text.{Str, str_in}
use veritrail.Value.Strings.{is_str_iff}
use veritrail.Value.{as_array, Value, str, is_present, strict_eq, as_str}
use veritrail.Outcome.{
  Outcome, pass, fail, thrown, ◌>>=◌, require, require_some, >>=-eq-pass, >>-eq-pass, >>-pass,
  require-pass, pass-injective, require-eq-pass, require_some-eq-pass,
}
use veritrail.Compact.{parse_payload}
use veritrail.Verify.{Reason, VerifyInput, Policy, Registry, verify, verdict}
use veritrail.Verify.Accepts.{Accepts}
use veritrail.Verify.Checks.{not-eq-true}
use veritrail.Verify.Stages.{verify_steps_iff}
use veritrail.Chain.{
  ChainReason, chain_ok, empty_policy, or_empty, Hop, parent_hash, parent_performer, performer,
  require_valid, require_string, check_repeats, check_hops, read_hops, compute_receipt_id,
  check_parents, check_links, claims, check_identities, hop_ids, chain_steps, chain_verdict,
  verify_list, empty_chain, receipt_list, VerifyChainInput, verify_chain,
}

-- No id stands twice in the list, nor in `seen`.
abbrev pub IsFresh : List Str → List Str → Type 0
IsFresh seen [] = Unit
IsFresh seen (id ∷ ids) = (str_in id seen ≡ false) × IsFresh (id ∷ seen) ids

check_repeats_iff : (seen ids : List Str) → (check_repeats seen ids ≡ pass tt) ↔ IsFresh seen ids
unfolding check_repeats
check_repeats_iff seen [] = ((λ _. tt), (λ _. refl))
check_repeats_iff seen (id ∷ ids) = (
  (λ h.
      let (fresh, rest) = >>-eq-pass _ _ h in
      (not-eq-true _ (require-eq-pass _ _ fresh), (check_repeats_iff (id ∷ seen) ids).0 rest)),
  (λ (fresh, rest).
      >>-pass _ _ (require-pass _ _ (rw fresh)) ((check_repeats_iff (id ∷ seen) ids).1 rest)),
)

pass≢fail : {R A : Type 0} {a : A} {r : R} → ◌≢◌ {A = Outcome R A} (pass a) (fail r)
pass≢fail h = cc

module _ (p : Platform) where
  claims_of :
      (claimed actual : Value p.Num)
      → ((is_present claimed ≡ true) → strict_eq p.number_eq claimed actual ≡ true)
      → claims p claimed actual ≡ true
  unfolding claims
  claims_of claimed actual h = elim (Bool-cases (is_present claimed)) [
    | inl yes_present ↦ rw yes_present (h yes_present)
    | inr missing ↦ rw missing
  ]

module _ (p : Platform) where
  open p use {Num, number_eq}

  -- Each hop links to the next by its id and, if it claims one, its performer; the last has no parent.
  abbrev pub IsLinked : List (Hop Num) → Type 0
  IsLinked [] = Unit
  IsLinked (x ∷ []) = is_present (parent_hash x.payload) ≡ false
  IsLinked (x ∷ y ∷ hops) =
      (parent_hash x.payload ≡ str y.id)
      × ((is_present (parent_performer x.payload) ≡ true)
          → strict_eq number_eq (parent_performer x.payload) (performer y.payload) ≡ true)
      × IsLinked (y ∷ hops)

  -- The first receipt is accepted under the policy, each later one under the empty policy.
  abbrev pub AllAccepted : Option Registry → Policy → List (Value Num) → Type 0
  AllAccepted keys policy [] = Unit
  AllAccepted keys policy (r ∷ rs) =
      Accepts p keys (some policy) r × AllAccepted keys empty_policy rs

  -- What step 3 reads from a receipt: its payload, and the id that addresses it.
  pub record IsHop (r : Value Num) (x : Hop Num) : Type 0 where
    pub jws : Str
    pub is_string : r ≡ str jws
    pub payload_is : parse_payload p jws ≡ some x.payload
    pub id_is : compute_receipt_id p x.payload ≡ x.id

  abbrev pub AreHops : List (Value Num) → List (Hop Num) → Type 0
  AreHops [] [] = Unit
  AreHops [] (_ ∷ _) = ⊥
  AreHops (_ ∷ _) [] = ⊥
  AreHops (r ∷ rs) (x ∷ hops) = IsHop r x × AreHops rs hops

  pub record IsLineage (keys : Option Registry) (policy : Policy) (receipts : List (Value Num))
      : Type 0 where
    pub accepted : AllAccepted keys policy receipts
    pub hops : List (Hop Num)
    pub read : AreHops receipts hops
    pub linked : IsLinked hops
    pub distinct : IsFresh [] (hop_ids p hops)

  require_valid-verdict_iff :
      (o : Outcome Reason (Unit {0})) → (require_valid (verdict o) ≡ pass tt) ↔ (o ≡ pass tt)
  unfolding require_valid verdict require
  require_valid-verdict_iff (pass tt) = ground arith
  require_valid-verdict_iff (fail r) = ground arith
  require_valid-verdict_iff thrown = ground arith

  require_valid_iff :
      (input : VerifyInput p)
      → (require_valid (verify p input) ≡ pass tt)
        ↔ Accepts p input.keys input.policy input.signed_receipt
  unfolding verify
  require_valid_iff input = (
    (λ h. (verify_steps_iff p input).0 ((require_valid-verdict_iff _).0 h)),
    (λ a. (require_valid-verdict_iff _).1 ((verify_steps_iff p input).1 a)),
  )

  pub check_hops_iff :
      (keys : Option Registry) (policy : Policy) (rs : List (Value Num))
      → (check_hops p keys policy rs ≡ pass tt) ↔ AllAccepted keys policy rs
  unfolding check_hops
  check_hops_iff keys policy [] = ((λ _. tt), (λ _. refl))
  check_hops_iff keys policy (r ∷ rs) = (
    (λ h.
        let (first, rest) = >>-eq-pass _ _ h in
        ((require_valid_iff _).0 first, (check_hops_iff keys empty_policy rs).0 rest)),
    (λ (first, rest).
        >>-pass _ _ ((require_valid_iff _).1 first) ((check_hops_iff keys empty_policy rs).1 rest)),
  )

  require_string-eq-pass :
      (v : Value Num) {s : Str} → require_string (as_str v) ≡ pass s → v ≡ str s
  unfolding require_string as_str
  require_string-eq-pass (str t) h = ground arith
  require_string-eq-pass _ h = cc

  read_hops-AreHops :
      (rs : List (Value Num)) (hops : List (Hop Num)) → read_hops p rs ≡ pass hops → AreHops rs hops
  unfolding read_hops
  read_hops-AreHops [] [] h = tt
  read_hops-AreHops [] (_ ∷ _) h = absurd (ground arith)
  read_hops-AreHops (r ∷ rs) hops h =
      let (jws, is_string, h1) = >>=-eq-pass _ _ h in
      let (payload, read, h2) = >>=-eq-pass _ _ h1 in
      let (rest, later, same) = >>=-eq-pass _ _ h2 in
      subst (AreHops (r ∷ rs)) (pass-injective same) (
        record {
          jws = jws;
          is_string = require_string-eq-pass r is_string;
          payload_is = require_some-eq-pass _ _ read;
          id_is = refl;
        },
        read_hops-AreHops rs rest later,
      )

  pub read_hops_of_AreHops :
      (rs : List (Value Num)) (hops : List (Hop Num)) → AreHops rs hops → read_hops p rs ≡ pass hops
  unfolding read_hops ◌>>=◌ require_string as_str require_some
  read_hops_of_AreHops [] [] h = refl
  read_hops_of_AreHops [] (_ ∷ _) h = absurd h
  read_hops_of_AreHops (_ ∷ _) [] h = absurd h
  read_hops_of_AreHops (r ∷ rs) (x ∷ hops) (is_hop, h) =
      rw (is_hop.is_string, is_hop.payload_is, read_hops_of_AreHops rs hops h, is_hop.id_is)

  check_links-IsLinked :
      (hops : List (Hop Num))
      → check_parents p hops ≡ pass tt
      → check_links p hops ≡ pass tt
      → check_identities p hops ≡ pass tt
      → IsLinked hops
  unfolding check_parents check_links check_identities claims
  check_links-IsLinked [] a b c = tt
  check_links-IsLinked (x ∷ []) a b c = not-eq-true _ (require-eq-pass _ _ a)
  check_links-IsLinked (x ∷ y ∷ hops) a b c =
      let (present, parents) = >>-eq-pass _ _ a in
      let (link, links) = >>-eq-pass _ _ b in
      let (claim, identities) = >>-eq-pass _ _ c in
      (
        (is_str_iff y.id (parent_hash x.payload)).0 (require-eq-pass _ _ link),
        (λ e. rw (e, if◌then◌else◌) at (require-eq-pass _ _ claim)),
        check_links-IsLinked (y ∷ hops) parents links identities,
      )

  check_links_of_IsLinked :
      (hops : List (Hop Num))
      → IsLinked hops
      → (check_parents p hops ≡ pass tt)
        × (check_links p hops ≡ pass tt)
        × (check_identities p hops ≡ pass tt)
  unfolding check_parents check_links check_identities
  check_links_of_IsLinked [] h = (refl, refl, refl)
  check_links_of_IsLinked (x ∷ []) h = (require-pass _ _ (rw h), refl, refl)
  check_links_of_IsLinked (x ∷ y ∷ hops) (link, claim, h) =
      let (parents, links, identities) = check_links_of_IsLinked (y ∷ hops) h in
      (
        >>-pass _ _ (require-pass _ _ (unfold is_present in rw (link, is_present))) parents,
        >>-pass _ _ (require-pass _ _ ((is_str_iff y.id (parent_hash x.payload)).1 link)) links,
        >>-pass _ _ (require-pass _ _ (claims_of p _ _ claim)) identities,
      )

  chain_steps_iff :
      (keys : Option Registry) (policy : Policy) (rs : List (Value Num))
      → (chain_steps p keys policy rs ≡ pass tt) ↔ IsLineage keys policy rs
  unfolding chain_steps
  chain_steps_iff keys policy rs = (
    (λ h.
        let (accepted, h1) = >>-eq-pass _ _ h in
        let (hops, read, h2) = >>=-eq-pass _ _ h1 in
        let (parents, h3) = >>-eq-pass _ _ h2 in
        let (links, h4) = >>-eq-pass _ _ h3 in
        let (identities, distinct) = >>-eq-pass _ _ h4 in
        record {
          accepted = (check_hops_iff keys policy rs).0 accepted;
          hops = hops;
          read = read_hops-AreHops rs hops read;
          linked = check_links-IsLinked hops parents links identities;
          distinct = (check_repeats_iff [] (hop_ids p hops)).0 distinct;
        }),
    (λ l.
        let (parents, links, identities) = check_links_of_IsLinked l.hops l.linked in
        >>-pass _ _ ((check_hops_iff keys policy rs).1 l.accepted) (
          unfold ◌>>=◌ in
          rw (read_hops_of_AreHops rs l.hops l.read, ◌>>=◌)
            (>>-pass _ _ parents (
              >>-pass _ _ links (
                >>-pass _ _ identities
                  ((check_repeats_iff [] (hop_ids p l.hops)).1 l.distinct)))))),
  )

chain_verdict-eq-valid :
    (n : ℕ) (o : Outcome ChainReason (Unit {0}))
    → chain_verdict n o ≡ some (record { valid = true; reason = chain_ok; chain_len = n })
    → o ≡ pass tt
unfolding chain_verdict
chain_verdict-eq-valid n (pass tt) h = refl
chain_verdict-eq-valid n (fail r) h = ground arith
chain_verdict-eq-valid n thrown h = cc

verify_list_iff :
    (p : Platform) (keys : Option Registry) (policy : Option Policy) (rs : List (Value p.Num))
    → (verify_list p keys policy rs
        ≡ some (record { valid = true; reason = chain_ok; chain_len = length rs }))
      ↔ ((rs ≢ []) × IsLineage p keys (or_empty policy) rs)
unfolding verify_list
verify_list_iff p keys policy [] = (
  (λ h. absurd (pass≢fail (sym (chain_verdict-eq-valid 0 (fail empty_chain) h)))),
  (λ (ne, _). absurd (ne refl)),
)
verify_list_iff p keys policy (r ∷ rs) = (
  (λ h. (
    (λ e. cc),
    (chain_steps_iff p keys (or_empty policy) (r ∷ rs)).0 (chain_verdict-eq-valid _ _ h),
  )),
  (λ (ne, l). rw ((chain_steps_iff p keys (or_empty policy) (r ∷ rs)).1 l, chain_verdict)),
)

-- `verifyChain` accepts its receipts exactly if they are an array that is not empty and a lineage:
-- every hop is accepted by `verify`, the policy holding for the leaf alone, each hop names the id of
-- the next one and the performer of it if it claims one, the last names no parent, and no id repeats.
pub verify_chain_valid_iff :
    (p : Platform) (input : VerifyChainInput p)
    → (verify_chain p input
        ≡ some (record {
          valid = true;
          reason = chain_ok;
          chain_len = length (receipt_list (as_array input.receipts));
        }))
      ↔ ((receipt_list (as_array input.receipts) ≢ [])
          × IsLineage p input.keys (or_empty input.policy) (receipt_list (as_array input.receipts)))
unfolding verify_chain
verify_chain_valid_iff p input =
    verify_list_iff p input.keys input.policy (receipt_list (as_array input.receipts))
