-- ===== src/Chain/Suffix.antt =====
-- The rest of a chain that ts/src/commands/verify-chain.ts accepts.
use veritrail.Prelude.{◌≡◌, true, false, List, [], ◌∷◌, ◌++◌, Option, none, some, length, arith}
use veritrail.Platform.{Platform}
use veritrail.Text.{Str, str_in}
use veritrail.Value.{Value, arr, Items, cons, elements, as_array}
use veritrail.Verify.{Registry, Policy}
use veritrail.Chain.{
  chain_ok, Hop, empty_policy, hop_ids, receipt_list, or_empty, VerifyChainInput, verify_chain,
}
use veritrail.Chain.Lineage.{IsFresh, AreHops, IsLinked, IsLineage, verify_chain_valid_iff}

str_in-drop :
    (id x : Str) (a b : List Str) → str_in id (a ++ x ∷ b) ≡ false → str_in id (a ++ b) ≡ false
unfolding str_in
str_in-drop id x [] b h = ground arith
str_in-drop id x (y ∷ a) b h = ground (arith, str_in-drop id x a b)

-- A list that is fresh beside more ids is fresh beside fewer.
IsFresh-drop : (x : Str) (a b ids : List Str) → IsFresh (a ++ x ∷ b) ids → IsFresh (a ++ b) ids
IsFresh-drop x a b [] h = tt
IsFresh-drop x a b (id ∷ ids) (fresh, h) =
    (str_in-drop id x a b fresh, IsFresh-drop x (id ∷ a) b ids h)

module _ (p : Platform) where
  open p use {Num}

  -- A chain without its leaf, under the empty policy.
  IsLineage-rest :
      (keys : Option Registry) (policy : Policy) (r r' : Value Num) (rs : List (Value Num))
      → IsLineage p keys policy (r ∷ r' ∷ rs)
      → IsLineage p keys empty_policy (r' ∷ rs)
  IsLineage-rest keys policy r r' rs l = go l.hops l.read l.linked l.distinct
    where
      go :
          (hops : List (Hop Num))
          → AreHops p (r ∷ r' ∷ rs) hops
          → IsLinked p hops
          → IsFresh [] (hop_ids p hops)
          → IsLineage p keys empty_policy (r' ∷ rs)
      go (x ∷ y ∷ hops) (_, read) (_, _, linked) (_, distinct) = record {
        accepted = l.accepted.1;
        hops = y ∷ hops;
        read = read;
        linked = linked;
        distinct = IsFresh-drop x.id [] [] (hop_ids p (y ∷ hops)) distinct;
      }
      go (x ∷ []) (_, read) linked distinct = absurd read
      go [] read linked distinct = absurd read

-- What a valid chain says without its leaf: the rest is a valid chain, under the same registry and no
-- policy. The chain has at least two receipts.
pub verify_chain-rest :
    (p : Platform) (keys : Option Registry) (policy : Option Policy) (r r' : Value p.Num)
    (rs : Items p.Num)
    → verify_chain p (record { receipts = arr (cons r (cons r' rs)); keys = keys; policy = policy })
      ≡ some (record {
        valid = true;
        reason = chain_ok;
        chain_len = length (elements (cons r (cons r' rs)));
      })
    → verify_chain p (record { receipts = arr (cons r' rs); keys = keys; policy = none })
      ≡ some
          (record { valid = true; reason = chain_ok; chain_len = length (elements (cons r' rs)) })
unfolding receipt_list as_array elements
verify_chain-rest p keys policy r r' rs h =
    let whole : VerifyChainInput p = record {
      receipts = arr (cons r (cons r' rs));
      keys = keys;
      policy = policy;
    } in
    let rest : VerifyChainInput p = record {
      receipts = arr (cons r' rs);
      keys = keys;
      policy = none;
    } in
    let (_, lineage) = (verify_chain_valid_iff p whole).0 h in
    (verify_chain_valid_iff p rest).1
      ((λ e. cc), IsLineage-rest p keys (or_empty policy) r r' (elements rs) lineage)
