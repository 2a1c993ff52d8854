-- ===== src/Chain/Evidence.antt =====
-- ts/src/commands/verify-chain.ts: what the id of a leaf says of the hops behind it.
use veritrail.Prelude.{
  ◌≡◌, ◌⊎◌, sym, ap, subst, ◌∙◌, inl, inr, true, false, List, [], ◌∷◌, Option, some, arith, length,
}
use veritrail.Platform.{Platform}
use veritrail.Text.{Str, Bytes}
use veritrail.Text.Base64.RoundTrip.{IsBytes}
use veritrail.Text.Utf8.{lossy_utf8}
use veritrail.Value.{Value, obj, str, Fields, as_array, is_present}
use veritrail.Value.Json.{parse}
use veritrail.Jcs.{jcs_bytes}
use veritrail.Hash.{digest_bytes}
use veritrail.Hash.Injective.{Collision, digest_bytes-injective}
use veritrail.Outcome.{pass, pass-injective}
use veritrail.Compact.{read_compact}
use veritrail.Verify.{Registry, Policy}
use veritrail.Verify.Accepts.{Accepts}
use veritrail.Chain.{
  Hop, parent_hash, compute_receipt_id, read_hops, empty_policy, receipt_list, VerifyChainInput,
  verify_chain, chain_ok,
}
use veritrail.Chain.Lineage.{
  IsLinked, IsHop, AreHops, AllAccepted, verify_chain_valid_iff, read_hops_of_AreHops,
}
use veritrail.Chain.Reread.{parse-jcs_bytes}

module _ (p : Platform) where
  open p use {Num, sha256}

  -- A hop that its id addresses, with a payload that its canonical bytes are read as.
  pub record IsAddressed (x : Hop Num) : Type 0 where
    pub id_is : compute_receipt_id p x.payload ≡ x.id
    pub read_back : parse p (lossy_utf8 (jcs_bytes p (obj x.payload))) ≡ some (obj x.payload)

  abbrev AllAddressed : List (Hop Num) → Type 0
  AllAddressed [] = Unit
  AllAddressed (x ∷ hops) = IsAddressed x × AllAddressed hops

  addressed :
      (keys : Option Registry) (policy : Policy) (r : Value Num) (x : Hop Num)
      → Accepts p keys (some policy) r
      → IsHop p r x
      → IsAddressed x
  addressed keys policy r x a h = record {
    id_is = h.id_is;
    read_back =
        (parse-jcs_bytes p h.jws a.read x.payload
          (subst (λ v. read_compact p v ≡ some a.read) h.is_string a.read_is) a.accepted.canonical
          h.payload_is).1;
  }

  all_addressed :
      (keys : Option Registry) (policy : Policy) (rs : List (Value Num)) (hops : List (Hop Num))
      → AllAccepted p keys policy rs
      → AreHops p rs hops
      → AllAddressed hops
  all_addressed keys policy [] [] a h = tt
  all_addressed keys policy [] (_ ∷ _) a h = absurd h
  all_addressed keys policy (_ ∷ _) [] a h = absurd h
  all_addressed keys policy (r ∷ rs) (x ∷ hops) (a, later) (is_hop, h) =
      (addressed keys policy r x a is_hop, all_addressed keys empty_policy rs hops later h)

  obj-injective :
      {fs gs : Fields Num} → ◌≡◌ {A = Option (Value Num)} (some (obj fs)) (some (obj gs)) → fs ≡ gs
  obj-injective h = ground arith

  same_payload :
      (x y : Hop Num)
      → IsAddressed x
      → IsAddressed y
      → jcs_bytes p (obj x.payload) ≡ jcs_bytes p (obj y.payload)
      → x.payload ≡ y.payload
  same_payload x y hx hy e =
      obj-injective (sym hx.read_back ∙ ap (λ b. parse p (lossy_utf8 b)) e ∙ hy.read_back)

  str-injective : {s t : Str} → ◌≡◌ {A = Value Num} (str s) (str t) → s ≡ t
  str-injective h = ground arith

  -- Equal hops link to the same id.
  same_link :
      (x y w z : Hop Num)
      → x ≡ y
      → parent_hash x.payload ≡ str w.id
      → parent_hash y.payload ≡ str z.id
      → w.id ≡ z.id
  same_link x y w z h lx ly = str-injective (sym lx ∙ ap (λ h. parent_hash h.payload) h ∙ ly)

  -- A hop without a parent is not one with a parent.
  no_parent :
      (x y z : Hop Num)
      → x ≡ y
      → is_present (parent_hash x.payload) ≡ false
      → parent_hash y.payload ≡ str z.id
      → ⊥
  unfolding is_present
  no_parent x y z h none_x ly =
      let e : true ≡ false =
        sym (ap is_present ly) ∙ ap (λ h. is_present (parent_hash h.payload)) (sym h) ∙ none_x in
      cc

  module _ (bytes : (b : Bytes) → IsBytes (sha256 b)) where
    same_digest_of :
        (x y : Hop Num)
        → IsAddressed x
        → IsAddressed y
        → x.id ≡ y.id
        → digest_bytes p (jcs_bytes p (obj x.payload))
          ≡ digest_bytes p (jcs_bytes p (obj y.payload))
    unfolding compute_receipt_id
    same_digest_of x y hx hy e = hx.id_is ∙ e ∙ sym hy.id_is

    same_hop : (x y : Hop Num) → IsAddressed x → IsAddressed y → x.id ≡ y.id → (x ≡ y) ⊎ Collision p
    same_hop x y hx hy e = elim (digest_bytes-injective p bytes _ _ (same_digest_of x y hx hy e)) [
      | inl same ↦ inl (hop_eq (same_payload x y hx hy same) e)
      | inr c ↦ inr c
    ]
      where
        hop_eq : x.payload ≡ y.payload → x.id ≡ y.id → x ≡ y
        hop_eq a b = cc

    -- Linked paths of addressed hops from one id on are the same, or there is a collision.
    same_path :
        (x y : Hop Num) (xs ys : List (Hop Num))
        → AllAddressed (x ∷ xs)
        → AllAddressed (y ∷ ys)
        → IsLinked p (x ∷ xs)
        → IsLinked p (y ∷ ys)
        → x.id ≡ y.id
        → (x ∷ xs ≡ y ∷ ys) ⊎ Collision p
    unfolding is_present
    same_path x y [] [] (hx, _) (hy, _) lx ly e = elim (same_hop x y hx hy e) [
      | inl h ↦ inl (ap (λ h. h ∷ []) h)
      | inr c ↦ inr c
    ]
    same_path x y [] (z ∷ ys) (hx, _) (hy, _) lx (link, _, _) e = elim (same_hop x y hx hy e) [
      | inl h ↦ absurd (no_parent x y z h lx link)
      | inr c ↦ inr c
    ]
    same_path x y (w ∷ xs) [] (hx, _) (hy, _) (link, _, _) ly e = elim (same_hop x y hx hy e) [
      | inl h ↦ absurd (no_parent y x w (sym h) ly link)
      | inr c ↦ inr c
    ]
    same_path x y (w ∷ xs) (z ∷ ys) (hx, axs) (hy, ays) (lx, claimx, linkx) (ly, claimy, linky) e =
        elim (same_hop x y hx hy e) [
          | inl h ↦ elim (same_path w z xs ys axs ays linkx linky (same_link x y w z h lx ly)) [
            | inl t ↦ inl (cc)
            | inr c ↦ inr c
          ]
          | inr c ↦ inr c
        ]

    -- If two chains are valid, whatever their registries and policies, and the ids of their leaves are
    -- the same, then all their hops are the same, or two byte strings have one SHA-256 digest; SHA-256
    -- is assumed to return bytes.
    pub same_leaf :
        (a b : VerifyChainInput p) (x y : Hop Num) (xs ys : List (Hop Num))
        → verify_chain p a
          ≡ some (record {
            valid = true;
            reason = chain_ok;
            chain_len = length (receipt_list (as_array a.receipts));
          })
        → verify_chain p b
          ≡ some (record {
            valid = true;
            reason = chain_ok;
            chain_len = length (receipt_list (as_array b.receipts));
          })
        → read_hops p (receipt_list (as_array a.receipts)) ≡ pass (x ∷ xs)
        → read_hops p (receipt_list (as_array b.receipts)) ≡ pass (y ∷ ys)
        → x.id ≡ y.id
        → (x ∷ xs ≡ y ∷ ys) ⊎ Collision p
    same_leaf a b x y xs ys valid_a valid_b hops_a hops_b e =
        let la = ((verify_chain_valid_iff p a).0 valid_a).1 in
        let lb = ((verify_chain_valid_iff p b).0 valid_b).1 in
        let ha : la.hops ≡ x ∷ xs =
          pass-injective (sym (read_hops_of_AreHops p _ la.hops la.read) ∙ hops_a) in
        let hb : lb.hops ≡ y ∷ ys =
          pass-injective (sym (read_hops_of_AreHops p _ lb.hops lb.read) ∙ hops_b) in
        same_path x y xs ys
          (subst AllAddressed ha (all_addressed _ _ _ la.hops la.accepted la.read))
          (subst AllAddressed hb (all_addressed _ _ _ lb.hops lb.accepted lb.read))
          (subst (IsLinked p) ha la.linked) (subst (IsLinked p) hb lb.linked) e
