-- ===== src/Jcs/Sorting.antt =====
-- Sorting the members of an object by key: what it keeps, and that it forgets the order.
use veritrail.Prelude.{
  ◌≡◌, refl, ap, ◌∙◌, true, false, List, [], ◌∷◌, map, arith, All, inl, inr, Bool-cases,
}
use veritrail.Text.{Str, str_lt, str_eq}
use veritrail.Jcs.{insert_key, sort_keys}

-- The order of the keys is total, transitive and strict.
pub str_lt_irrefl : (a : Str) → str_lt a a ≡ false
unfolding str_lt
str_lt_irrefl [] = refl
str_lt_irrefl (x ∷ a) = ground (arith, str_lt_irrefl a)

pub str_lt_trans : (a b c : Str) → str_lt a b ≡ true → str_lt b c ≡ true → str_lt a c ≡ true
unfolding str_lt
str_lt_trans [] (y ∷ b) (z ∷ c) h k = refl
str_lt_trans (x ∷ a) (y ∷ b) (z ∷ c) h k = ground (arith, str_lt_trans a b c)
str_lt_trans _ _ _ h k = ground arith

pub str_lt_total : (a b : Str) → str_lt a b ≡ false → str_lt b a ≡ false → a ≡ b
unfolding str_lt
str_lt_total [] [] h k = refl
str_lt_total (x ∷ a) (y ∷ b) h k = ground (arith, str_lt_total a b)
str_lt_total _ _ h k = cc

pub str_lt_asym : (a b : Str) → str_lt a b ≡ true → str_lt b a ≡ false
str_lt_asym a b h = elim (Bool-cases (str_lt b a)) [
  | inl k ↦ cc (str_lt_trans a b a h k, str_lt_irrefl a)
  | inr k ↦ k
]

module _ {A : Type 0} where
  All-insert_key {κ} :
      (P : Str × A → Type κ) (m : Str × A) (ms : List (Str × A))
      → P m
      → All P ms
      → All P (insert_key m ms)
  unfolding insert_key
  All-insert_key P m [] h k = (h, tt)
  All-insert_key P m (n ∷ ms) h (kn, k) = elim (Bool-cases (str_lt n.0 m.0)) [
    | inl e ↦ rw e (kn, All-insert_key P m ms h k)
    | inr e ↦ rw e (h, (kn, k))
  ]

  -- What holds of every member holds of every member of the sorted list.
  pub All-sort_keys {κ} :
      (P : Str × A → Type κ) (ms : List (Str × A)) → All P ms → All P (sort_keys ms)
  unfolding sort_keys
  All-sort_keys P [] h = tt
  All-sort_keys P (m ∷ ms) (hm, h) = All-insert_key P m (sort_keys ms) hm (All-sort_keys P ms h)

module _ {A B : Type 0} (f : Str × A → Str × B) (keeps : (m : Str × A) → (f m).0 ≡ m.0) where
  map-insert_key :
      (m : Str × A) (ms : List (Str × A)) → map f (insert_key m ms) ≡ insert_key (f m) (map f ms)
  unfolding insert_key
  map-insert_key m [] = refl
  map-insert_key m (n ∷ ms) = elim (Bool-cases (str_lt n.0 m.0)) [
    | inl e ↦
        let e' : str_lt (f n).0 (f m).0 ≡ true = rw (keeps n, keeps m) e in
        rw (e, e') (ap (◌∷◌ (f n)) (map-insert_key m ms))
    | inr e ↦ let e' : str_lt (f n).0 (f m).0 ≡ false = rw (keeps n, keeps m) e in rw (e, e')
  ]

  -- Sorting by key commutes with a map that keeps the keys.
  pub map-sort_keys : (ms : List (Str × A)) → map f (sort_keys ms) ≡ sort_keys (map f ms)
  unfolding sort_keys
  map-sort_keys [] = refl
  map-sort_keys (m ∷ ms) =
      map-insert_key m (sort_keys ms) ∙ ap (insert_key (f m)) (map-sort_keys ms)

module _ {A : Type 0} where
  -- No key is smaller than the key before it.
  abbrev pub IsSorted : List (Str × A) → Type 0
  IsSorted [] = Unit
  IsSorted (m ∷ []) = Unit
  IsSorted (m ∷ n ∷ ms) = (str_lt n.0 m.0 ≡ false) × IsSorted (n ∷ ms)

  insert_key-IsSorted :
      (m : Str × A) (ms : List (Str × A)) → IsSorted ms → IsSorted (insert_key m ms)
  unfolding insert_key
  insert_key-IsSorted m [] h = tt
  insert_key-IsSorted m (n ∷ []) h = elim (Bool-cases (str_lt n.0 m.0)) [
    | inl e ↦ rw e (str_lt_asym n.0 m.0 e, tt)
    | inr e ↦ rw e (e, tt)
  ]
  insert_key-IsSorted m (n ∷ o ∷ ms) (hn, h) = elim (Bool-cases (str_lt n.0 m.0)) [
    | inl e ↦ rw e (elim (Bool-cases (str_lt o.0 m.0)) [
      | inl k ↦ rw k (hn, (rw (k, insert_key) at (insert_key-IsSorted m (o ∷ ms) h)))
      | inr k ↦ rw k (str_lt_asym n.0 m.0 e, (k, h))
    ])
    | inr e ↦ rw e (e, (hn, h))
  ]

  pub sort_keys-IsSorted : (ms : List (Str × A)) → IsSorted (sort_keys ms)
  unfolding sort_keys
  sort_keys-IsSorted [] = tt
  sort_keys-IsSorted (m ∷ ms) = insert_key-IsSorted m (sort_keys ms) (sort_keys-IsSorted ms)

  sort_keys_of_IsSorted : (ms : List (Str × A)) → IsSorted ms → sort_keys ms ≡ ms
  unfolding sort_keys insert_key
  sort_keys_of_IsSorted [] h = refl
  sort_keys_of_IsSorted (m ∷ []) h = refl
  sort_keys_of_IsSorted (m ∷ n ∷ ms) (hm, h) = rw (sort_keys_of_IsSorted (n ∷ ms) h, insert_key, hm)

  -- Sorting what is sorted changes nothing.
  pub sort_keys_idem : (ms : List (Str × A)) → sort_keys (sort_keys ms) ≡ sort_keys ms
  sort_keys_idem ms = sort_keys_of_IsSorted (sort_keys ms) (sort_keys-IsSorted ms)

pub str_eq_comm : (a b : Str) → str_eq a b ≡ str_eq b a
unfolding str_eq
str_eq_comm [] [] = refl
str_eq_comm (x ∷ a) (y ∷ b) = ground (arith, str_eq_comm a b)
str_eq_comm _ _ = refl

module _ {A : Type 0} where
  -- No member has this key.
  abbrev pub LacksKey : Str → List (Str × A) → Type 0
  LacksKey k ms = All (λ m. str_eq m.0 k ≡ false) ms

  abbrev pub IsDistinct : List (Str × A) → Type 0
  IsDistinct [] = Unit
  IsDistinct (m ∷ ms) = LacksKey m.0 ms × IsDistinct ms

  insert_key-IsDistinct :
      (m : Str × A) (ms : List (Str × A))
      → LacksKey m.0 ms
      → IsDistinct ms
      → IsDistinct (insert_key m ms)
  unfolding insert_key
  insert_key-IsDistinct m [] l d = (tt, tt)
  insert_key-IsDistinct m (n ∷ ms) (ln, l) (dn, d) = elim (Bool-cases (str_lt n.0 m.0)) [
    | inl e ↦ rw e (
      All-insert_key (λ x. str_eq x.0 n.0 ≡ false) m ms (str_eq_comm m.0 n.0 ∙ ln) dn,
      insert_key-IsDistinct m ms l d,
    )
    | inr e ↦ rw e ((ln, l), (dn, d))
  ]

  -- Sorting keeps the keys distinct.
  pub sort_keys-IsDistinct : (ms : List (Str × A)) → IsDistinct ms → IsDistinct (sort_keys ms)
  unfolding sort_keys
  sort_keys-IsDistinct [] d = tt
  sort_keys-IsDistinct (m ∷ ms) (l, d) =
      insert_key-IsDistinct m (sort_keys ms) (All-sort_keys (λ x. str_eq x.0 m.0 ≡ false) ms l)
        (sort_keys-IsDistinct ms d)
