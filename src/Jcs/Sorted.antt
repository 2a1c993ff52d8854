-- ===== src/Jcs/Sorted.antt =====
-- The order of the keys in the texts of ts/src/commands/jcs.ts.
use mathlib.Core.List.{Perm}
use mathlib.Core.List.Perm
use veritrail.Prelude.{◌≡◌, refl, List, [], ◌∷◌, ◌++◌, map, inl, inr, Bool-cases}
use veritrail.Platform.{Platform}
use veritrail.Text.{Str, codes, join, str_lt}
use veritrail.Value.{Fields, obj}
use veritrail.Jcs.{
  Members, insert_key, sort_keys, member_text, object_text, jcs_string, jcs_members,
}
use veritrail.Jcs.Sorting.{IsSorted, sort_keys-IsSorted}

module _ {A : Type 0} where
  insert_key-Perm : (m : Str × A) (ms : List (Str × A)) → Perm (insert_key m ms) (m ∷ ms)
  unfolding insert_key
  insert_key-Perm m [] = Perm.rfl
  insert_key-Perm m (n ∷ ms) = elim (Bool-cases (str_lt n.0 m.0)) [
    | inl e ↦ rw e (Perm.trans (Perm.cons n (insert_key-Perm m ms)) (Perm.swap m n ms))
    | inr e ↦ rw e Perm.rfl
  ]

  sort_keys-Perm : (ms : List (Str × A)) → Perm (sort_keys ms) ms
  unfolding sort_keys
  sort_keys-Perm [] = Perm.rfl
  sort_keys-Perm (m ∷ ms) =
      Perm.trans (insert_key-Perm m (sort_keys ms)) (Perm.cons m (sort_keys-Perm ms))

module _ (p : Platform) where
  open p use {Num}

  -- The canonical text of an object is, between braces and separated by commas, each key quoted, a colon
  -- and the canonical text of its value, for each of its members once, and no key comes before one that
  -- is smaller by code units.
  pub jcs_string-IsSorted :
      (fs : Fields Num)
      → (ms : Members) × (jcs_string p (obj fs)
          ≡ b'{' ∷ (join (codes ",") (map member_text ms) ++ b'}' ∷ []))
        × Perm ms (jcs_members p fs)
        × IsSorted ms
  unfolding jcs_string object_text
  jcs_string-IsSorted fs = (
    sort_keys (jcs_members p fs),
    refl,
    sort_keys-Perm (jcs_members p fs),
    sort_keys-IsSorted (jcs_members p fs),
  )
