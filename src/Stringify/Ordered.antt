-- ===== src/Stringify/Ordered.antt =====
-- The order in which `JSON.stringify` lists properties: what it keeps.
use veritrail.Prelude.{
  ◌≡◌, refl, ap, ◌∙◌, true, false, List, [], ◌∷◌, map, inl, inr, Bool-cases, All,
}
use veritrail.Text.{Str, str_eq}
use veritrail.Value.Keys.{array_index, index_before, insert_own, own_order}
use veritrail.Jcs.Sorting.{str_eq_comm, LacksKey, IsDistinct}

module _ {A : Type 0} where
  All-insert_own {κ} :
      (P : Str × A → Type κ) (m : Str × A) (ms : List (Str × A))
      → P m
      → All P ms
      → All P (insert_own m ms)
  unfolding insert_own
  All-insert_own P m [] h k = (h, tt)
  All-insert_own P m (n ∷ ms) h (kn, k) =
      elim (Bool-cases (index_before (array_index n.0) (array_index m.0))) [
        | inl e ↦ rw e (kn, All-insert_own P m ms h k)
        | inr e ↦ rw e (h, (kn, k))
      ]

  -- What holds of every property holds of every property listed.
  pub All-own_order {κ} :
      (P : Str × A → Type κ) (ms : List (Str × A)) → All P ms → All P (own_order ms)
  unfolding own_order
  All-own_order P [] h = tt
  All-own_order P (m ∷ ms) (hm, h) = All-insert_own P m (own_order ms) hm (All-own_order P ms h)

  insert_own-All {κ} :
      (P : Str × A → Type κ) (m : Str × A) (ms : List (Str × A))
      → All P (insert_own m ms)
      → P m × All P ms
  unfolding insert_own
  insert_own-All P m [] h = h
  insert_own-All P m (n ∷ ms) h =
      elim (Bool-cases (index_before (array_index n.0) (array_index m.0))) [
        | inl e ↦
            let (kn, k) = rw (insert_own, e) at h in
            let (hm, hs) = insert_own-All P m ms k in (hm, (kn, hs))
        | inr e ↦ rw (insert_own, e) at h
      ]

  -- And the other way round.
  pub own_order-All {κ} :
      (P : Str × A → Type κ) (ms : List (Str × A)) → All P (own_order ms) → All P ms
  unfolding own_order
  own_order-All P [] h = tt
  own_order-All P (m ∷ ms) h =
      let (hm, k) = insert_own-All P m (own_order ms) h in (hm, own_order-All P ms k)

  insert_own-IsDistinct :
      (m : Str × A) (ms : List (Str × A))
      → LacksKey m.0 ms
      → IsDistinct ms
      → IsDistinct (insert_own m ms)
  unfolding insert_own
  insert_own-IsDistinct m [] l d = (tt, tt)
  insert_own-IsDistinct m (n ∷ ms) (ln, l) (dn, d) =
      elim (Bool-cases (index_before (array_index n.0) (array_index m.0))) [
        | inl e ↦ rw e (
          All-insert_own (λ x. str_eq x.0 n.0 ≡ false) m ms (str_eq_comm m.0 n.0 ∙ ln) dn,
          insert_own-IsDistinct m ms l d,
        )
        | inr e ↦ rw e ((ln, l), (dn, d))
      ]

  -- Listing keeps the keys distinct.
  pub own_order-IsDistinct : (ms : List (Str × A)) → IsDistinct ms → IsDistinct (own_order ms)
  unfolding own_order
  own_order-IsDistinct [] d = tt
  own_order-IsDistinct (m ∷ ms) (l, d) =
      insert_own-IsDistinct m (own_order ms) (All-own_order (λ x. str_eq x.0 m.0 ≡ false) ms l)
        (own_order-IsDistinct ms d)

module _ {A B : Type 0} (f : Str × A → Str × B) (keeps : (m : Str × A) → (f m).0 ≡ m.0) where
  map-insert_own :
      (m : Str × A) (ms : List (Str × A)) → map f (insert_own m ms) ≡ insert_own (f m) (map f ms)
  unfolding insert_own
  map-insert_own m [] = refl
  map-insert_own m (n ∷ ms) = elim (Bool-cases (index_before (array_index n.0) (array_index m.0))) [
    | inl e ↦
        let e' : index_before (array_index (f n).0) (array_index (f m).0) ≡ true =
          rw (keeps n, keeps m) e in
        rw (e, e') (ap (◌∷◌ (f n)) (map-insert_own m ms))
    | inr e ↦
        let e' : index_before (array_index (f n).0) (array_index (f m).0) ≡ false =
          rw (keeps n, keeps m) e in
        rw (e, e') refl
  ]

  -- Listing commutes with a map that keeps the keys.
  pub map-own_order : (ms : List (Str × A)) → map f (own_order ms) ≡ own_order (map f ms)
  unfolding own_order
  map-own_order [] = refl
  map-own_order (m ∷ ms) =
      map-insert_own m (own_order ms) ∙ ap (insert_own (f m)) (map-own_order ms)
