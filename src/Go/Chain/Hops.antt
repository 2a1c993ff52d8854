-- ===== src/Go/Chain/Hops.antt =====
-- The steps of `VerifyChain` in go/chain.go and of ts/src/commands/verify-chain.ts on hops that both
-- read alike.
use veritrail.Prelude.{
  ◌≡◌, refl, ap, ◌∙◌, Bool, true, false, not, List, [], ◌∷◌, map, Option, none, some, if◌then◌else◌,
  inl, inr, Bool-cases,
}
use veritrail.Text.{Str, Bytes, codes, str_eq}
use veritrail.Value.{
  Value, undefined, null, bool, num, str, arr, obj, Fields, get, prop, or_undefined, is_present,
  is_str, strict_eq,
}
use veritrail.Platform.{Platform}
use veritrail.Outcome.{◌>>◌}
use veritrail.Chain.{
  ChainReason, malformed_chain, link_mismatch, parent_identity_mismatch, cycle, parent_hash,
  parent_performer, performer, claims,
}
use veritrail.Chain
use veritrail.Go.Library.{Library}
use veritrail.Go.Verify.{lookup, string_claim}
use veritrail.Go.Verify.Claims.{IsReadBy, raw_view, value_view, string_claim-prop, text_of}
use veritrail.Go.Verify.Steps.{str_eq_comm}
use veritrail.Go.Chain.{
  Hop, null_text, claim_is_null, check_parents, check_links, identity_matches, check_identities,
  check_cycle, hop_ids,
}

-- A claimed parent performer is a string that is not empty.
abbrev pub IsPerformerClaim : {N : Type 0} → Value N → Type 0
IsPerformerClaim v = is_present v ≡ true → (s : Str) × (v ≡ str s) × (str_eq s [] ≡ false)

-- A hop that both programs read alike.
pub record SharedHop (N : Type 0) (lib : Library) : Type 0 where
  pub fields : Fields N
  pub bytes : Bytes
  pub read : IsReadBy lib bytes fields
  pub id : Str
  pub id_given : str_eq [] id ≡ false
  pub claim : IsPerformerClaim (parent_performer fields)

abbrev view_null : Option (Option Str × Bool) → Bool
view_null none = true
view_null (some (_, b)) = b

null_text-view : (lib : Library) (o : Option Bytes) → null_text o ≡ view_null (raw_view lib o)
null_text-view lib none = refl
null_text-view lib (some raw) = refl

view_null-value :
    {N : Type 0} (o : Option (Value N))
    → view_null (value_view o) ≡ not (is_present (or_undefined o))
unfolding is_present
view_null-value none = refl
view_null-value (some v) = refl

claim_is_null-prop :
    {N : Type 0} (lib : Library) {bytes : Bytes} {fs : Fields N} (r : IsReadBy lib bytes fs)
    (k : Str)
    → claim_is_null r.raw k ≡ not (is_present (prop k fs))
unfolding claim_is_null
claim_is_null-prop {N} lib {bytes} {fs} r k =
    null_text-view lib (lookup k r.raw) ∙ ap view_null (r.entries k) ∙ view_null-value (get k fs)

-- A claim against a string that is not empty.
text_of-str_eq :
    {N : Type 0} (s : Str) (w : Value N) → str_eq [] s ≡ false → str_eq (text_of w) s ≡ is_str s w
unfolding is_str
text_of-str_eq s (str t) h = refl
text_of-str_eq s undefined h = h
text_of-str_eq s null h = h
text_of-str_eq s (bool b) h = h
text_of-str_eq s (num n) h = h
text_of-str_eq s (arr xs) h = h
text_of-str_eq s (obj fs) h = h

not-not : (b : Bool) → not (not b) ≡ b
not-not true = refl
not-not false = refl

check_cycle-check_repeats :
    (seen ids : List Str) → check_cycle seen ids ≡ Chain.check_repeats seen ids
unfolding check_cycle Chain.check_repeats
check_cycle-check_repeats seen [] = refl
check_cycle-check_repeats seen (id ∷ ids) = rw (check_cycle-check_repeats (id ∷ seen) ids) refl

module _ (p : Platform) (lib : Library) where
  abbrev pub hop : SharedHop p.Num lib → Chain.Hop p.Num
  hop h = record { payload = h.fields; id = h.id }

  abbrev pub go_hop : SharedHop p.Num lib → Hop
  go_hop h = record { payload = h.read.raw; id = h.id }

  pub check_parents-hops :
      (hs : List (SharedHop p.Num lib))
      → check_parents (map go_hop hs) ≡ Chain.check_parents p (map hop hs)
  unfolding check_parents Chain.check_parents
  check_parents-hops [] = refl
  check_parents-hops (h ∷ []) =
      rw (claim_is_null-prop lib h.read (codes "parent_receipt_hash")) refl
  check_parents-hops (h ∷ g ∷ hs) =
      rw
        (
          claim_is_null-prop lib h.read (codes "parent_receipt_hash"),
          not-not (is_present (parent_hash h.fields)),
          check_parents-hops (g ∷ hs),
        )
        refl

  link-eq :
      (h g : SharedHop p.Num lib)
      → str_eq (string_claim lib h.read.raw (codes "parent_receipt_hash")) g.id
        ≡ is_str g.id (parent_hash h.fields)
  link-eq h g =
      ap (λ t. str_eq t g.id) (string_claim-prop lib h.read (codes "parent_receipt_hash"))
      ∙ text_of-str_eq g.id (parent_hash h.fields) g.id_given

  pub check_links-hops :
      (hs : List (SharedHop p.Num lib))
      → check_links lib (map go_hop hs) ≡ Chain.check_links p (map hop hs)
  unfolding check_links Chain.check_links
  check_links-hops [] = refl
  check_links-hops (h ∷ []) = refl
  check_links-hops (h ∷ g ∷ hs) = rw (link-eq h g, check_links-hops (g ∷ hs)) refl

  -- The comparison of step 6, for a claim and the performer of the next hop.
  identity_test :
      (v w : Value p.Num)
      → IsPerformerClaim v
      → (if not (is_present v)
          then true
          else if str_eq (text_of v) []
          then true
          else str_eq (text_of v) (text_of w))
        ≡ claims p v w
  unfolding claims strict_eq is_present
  identity_test v w k = elim (Bool-cases (is_present v)) [
    | inl e ↦
        let (s, v_is, given) = k e in
        rw (v_is, given) (str_eq_comm s (text_of w) ∙ text_of-str_eq s w (str_eq_comm [] s ∙ given))
    | inr e ↦ rw e refl
  ]

  identity-eq :
      (h g : SharedHop p.Num lib)
      → identity_matches lib h.read.raw g.read.raw
        ≡ claims p (parent_performer h.fields) (performer g.fields)
  unfolding identity_matches
  identity-eq h g =
      rw
        (
          claim_is_null-prop lib h.read (codes "parent_performer_id"),
          string_claim-prop lib h.read (codes "parent_performer_id"),
          string_claim-prop lib g.read (codes "performer_id"),
        )
        (identity_test (parent_performer h.fields) (performer g.fields) h.claim)

  pub check_identities-hops :
      (hs : List (SharedHop p.Num lib))
      → check_identities lib (map go_hop hs) ≡ Chain.check_identities p (map hop hs)
  unfolding check_identities Chain.check_identities
  check_identities-hops [] = refl
  check_identities-hops (h ∷ []) = refl
  check_identities-hops (h ∷ g ∷ hs) = rw (identity-eq h g, check_identities-hops (g ∷ hs)) refl

  hop_ids-hops :
      (hs : List (SharedHop p.Num lib)) → hop_ids (map go_hop hs) ≡ Chain.hop_ids p (map hop hs)
  hop_ids-hops [] = refl
  hop_ids-hops (h ∷ hs) = ap (◌∷◌ h.id) (hop_ids-hops hs)

  -- Steps 4 to 7.
  pub later_steps :
      (hs : List (SharedHop p.Num lib))
      → (check_parents (map go_hop hs)
          >> (check_links lib (map go_hop hs)
              >> (check_identities lib (map go_hop hs)
                  >> check_cycle [] (hop_ids (map go_hop hs)))))
        ≡ (Chain.check_parents p (map hop hs)
            >> (Chain.check_links p (map hop hs)
                >> (Chain.check_identities p (map hop hs)
                    >> Chain.check_repeats [] (Chain.hop_ids p (map hop hs)))))
  later_steps hs =
      rw
        (
          check_parents-hops hs,
          check_links-hops hs,
          check_identities-hops hs,
          hop_ids-hops hs,
          check_cycle-check_repeats [] (Chain.hop_ids p (map hop hs)),
        )
        refl
