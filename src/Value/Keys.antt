-- ===== src/Value/Keys.antt =====
-- The order in which the engine lists the own properties of an object (OrdinaryOwnPropertyKeys of
-- ECMA-262), for `JSON.stringify` and `Object.entries`. A `Fields` list has them in the order of their
-- creation, as the engine keeps them.
use veritrail.Prelude.{
  ℕ, ◌+◌, ◌-◌, ◌*◌, Bool, true, false, List, [], ◌∷◌, ltb, ◌==◌, within, if◌then◌else◌, Option,
  none, some, ◌>>=◌,
}
use veritrail.Text.{Str}
use veritrail.Value.{Value, Fields, end, field}

-- The number that decimal digits stand for, behind those that make `acc`.
unfoldable pub decimal : ℕ → Str → Option ℕ
decimal acc [] = some acc
decimal acc (c ∷ cs) =
    let rest = decimal (acc * 10 + (c - b'0')) cs in if within b'0' b'9' c then rest else none

-- An array index: a numeral below 2 ^ 32 - 1 without a zero in front.
unfoldable pub array_index : Str → Option ℕ
unfolding decimal
array_index [] = none
array_index (c ∷ []) = decimal 0 (c ∷ [])
array_index (c ∷ d ∷ cs) =
    if c == b'0'
    then none
    else (decimal 0 (c ∷ d ∷ cs) >>= λ n. if ltb n 4294967295 then some n else none)

-- Whether a key comes before one that was created earlier: only as an array index that is smaller, or
-- as one where the other is none.
unfoldable pub index_before : Option ℕ → Option ℕ → Bool
index_before (some m) (some n) = ltb m n
index_before (some m) none = true
index_before none o = false

module _ {A : Type 0} where
  unfoldable pub insert_own : Str × A → List (Str × A) → List (Str × A)
  unfolding array_index index_before
  insert_own m [] = m ∷ []
  insert_own m (n ∷ ms) =
      if index_before (array_index n.0) (array_index m.0) then n ∷ insert_own m ms else m ∷ n ∷ ms

  -- The array indices in ascending order, then the other keys in the order of their creation.
  unfoldable pub own_order : List (Str × A) → List (Str × A)
  unfolding insert_own
  own_order [] = []
  own_order (m ∷ ms) = insert_own m (own_order ms)

module _ {N : Type 0} where
  -- The properties in the order of their creation.
  unfoldable pub members_of : Fields N → List (Str × Value N)
  members_of end = []
  members_of (field k v fs) = (k, v) ∷ members_of fs

  -- `Object.entries(o)`
  unfoldable pub own_entries : Fields N → List (Str × Value N)
  unfolding members_of own_order
  own_entries fs = own_order (members_of fs)
