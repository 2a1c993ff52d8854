-- ===== src/Jcs/Lookup.antt =====
-- Reading the fields of a canonical object.
use veritrail.Prelude.{
  ◌≡◌, refl, ap, ◌∙◌, false, List, [], ◌∷◌, Option, none, some, inl, inr, Bool-cases,
}
use veritrail.Platform.{Platform}
use veritrail.Text.{Str, str_eq, str_lt, str_eq_iff}
use veritrail.Value.{Value, Fields, end, field, get, has_own}
use veritrail.Jcs.{insert_key, sort_keys}
use veritrail.Jcs.Sorting.{LacksKey, IsDistinct, All-sort_keys}
use veritrail.Jcs.Canonical.{of_members, canonical, canonical_members, HaveJson}

module _ {N : Type 0} where
  get-insert_key :
      (k : Str) (m : Str × Value N) (ms : List (Str × Value N))
      → LacksKey m.0 ms
      → get k (of_members (insert_key m ms)) ≡ get k (field m.0 m.1 (of_members ms))
  unfolding get of_members insert_key
  get-insert_key k m [] l = refl
  get-insert_key k m (n ∷ ms) (ln, l) = elim (Bool-cases (str_lt n.0 m.0)) [
    | inl e ↦
        rw (e, get-insert_key k m ms l)
          (elim (Bool-cases (str_eq n.0 k)) [
            | inl nk ↦ elim (Bool-cases (str_eq m.0 k)) [
              | inl mk ↦ cc ((str_eq_iff m.0 k).0 mk, ln, nk)
              | inr mk ↦ rw (nk, mk)
            ]
            | inr nk ↦ rw nk
          ])
    | inr e ↦ rw e
  ]

  get-sort_keys :
      (k : Str) (ms : List (Str × Value N))
      → IsDistinct ms
      → get k (of_members (sort_keys ms)) ≡ get k (of_members ms)
  unfolding get of_members sort_keys
  get-sort_keys k [] d = refl
  get-sort_keys k (m ∷ ms) (l, d) =
      get-insert_key k m (sort_keys ms) (All-sort_keys (λ x. str_eq x.0 m.0 ≡ false) ms l)
      ∙ rw (get-sort_keys k ms d)

  canonical_members-LacksKey :
      (k : Str) (fs : Fields N) → has_own k fs ≡ false → LacksKey k (canonical_members fs)
  unfolding has_own canonical_members
  canonical_members-LacksKey k end h = tt
  canonical_members-LacksKey k (field j v fs) h = elim (Bool-cases (str_eq j k)) [
    | inl e ↦ cc (rw (e, has_own) at h)
    | inr e ↦ (e, canonical_members-LacksKey k fs (rw (e, has_own) at h))
  ]

  get-canonical_members :
      (k : Str) (v : Value N) (fs : Fields N)
      → get k fs ≡ some v
      → get k (of_members (canonical_members fs)) ≡ some (canonical v)
  unfolding get of_members canonical_members
  get-canonical_members k v end h = cc
  get-canonical_members k v (field j w fs) h = elim (Bool-cases (str_eq j k)) [
    | inl e ↦ rw e (ap (λ o. map_canonical o) (rw (e, get) at h))
    | inr e ↦ rw e (get-canonical_members k v fs (rw (e, get) at h))
  ]
    where
      map_canonical : Option (Value N) → Option (Value N)
      map_canonical none = none
      map_canonical (some u) = some (canonical u)

module _ (p : Platform) where
  open p use {Num}

  pub canonical_members-IsDistinct :
      (fs : Fields Num) → HaveJson p fs → IsDistinct (canonical_members fs)
  unfolding canonical_members
  canonical_members-IsDistinct end h = tt
  canonical_members-IsDistinct (field k v fs) (hk, (own, (hv, h))) =
      (canonical_members-LacksKey k fs own, canonical_members-IsDistinct fs h)

  -- The properties of the object that the canonical text of `fs` stands for.
  abbrev pub canonical_fields : Fields Num → Fields Num
  canonical_fields fs = of_members (sort_keys (canonical_members fs))

  -- The canonical form of an object has the same fields, in canonical form.
  pub get-canonical_fields :
      (k : Str) (v : Value Num) (fs : Fields Num)
      → HaveJson p fs
      → get k fs ≡ some v
      → get k (canonical_fields fs) ≡ some (canonical v)
  get-canonical_fields k v fs h e =
      get-sort_keys k (canonical_members fs) (canonical_members-IsDistinct fs h)
      ∙ get-canonical_members k v fs e
