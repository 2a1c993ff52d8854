-- ===== src/Receipt.antt =====
-- ts/src/commands/receipt-id.ts and cost-canon.ts: the content address of a receipt, and the
-- canonical form of its cost block.
use veritrail.Prelude.{Bool, true, false, List, [], ◌∷◌, if◌then◌else◌}
use veritrail.Platform.{Platform}
use veritrail.Text.{Str, codes}
use veritrail.Text.Hex.{to_hex}
use veritrail.Value.{Value, num, obj, Fields, has_own, prop, get}
use veritrail.Jcs.{jcs_bytes}
use veritrail.Hash.{Reply, reply, error, digest_bytes}

-- `typeof v === 'number'`
unfoldable pub is_number : {N : Type 0} → Value N → Bool
is_number (num _) = true
is_number _ = false

module _ (p : Platform) where
  open p use {Num}

  pub record ReceiptIdOutput : Type 0 where
    pub canonical_hex : Str
    pub receipt_id : Str

  -- `receiptId`
  unfoldable pub receipt_id : Fields Num → Reply ReceiptIdOutput
  unfolding has_own jcs_bytes digest_bytes to_hex
  receipt_id receipt =
      if has_own (codes "receipt_id") receipt
      then error (codes "receipt_id_must_be_absent")
      else reply (record {
        canonical_hex = to_hex (jcs_bytes p (obj receipt));
        receipt_id = digest_bytes p (jcs_bytes p (obj receipt));
      })

  -- The loop over the magnitude fields: a field holds a number.
  unfoldable pub any_number : List Str → Fields Num → Bool
  unfolding is_number get
  any_number [] cost = false
  any_number (k ∷ ks) cost = if is_number (prop k cost) then true else any_number ks cost

  abbrev pub magnitude_fields : List Str
  magnitude_fields = codes "tokens" ∷ codes "usd_micros" ∷ codes "wall_ms" ∷ []

  -- `costCanon`; the output is `canonical_hex`.
  unfoldable pub cost_canon : Fields Num → Reply Str
  unfolding any_number jcs_bytes to_hex
  cost_canon cost =
      if any_number magnitude_fields cost
      then error (codes "cost_must_be_string_int")
      else reply (to_hex (jcs_bytes p (obj cost)))
