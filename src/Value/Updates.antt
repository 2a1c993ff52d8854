-- ===== src/Value/Updates.antt =====
-- Setting and removing a property, against reading one.
use veritrail.Prelude.{◌≡◌, sym, subst, false, some, inl, inr, Bool-cases}
use veritrail.Text.{Str, str_eq, str_eq_iff, str_eq_refl}
use veritrail.Value.{Value, Fields, end, field, get, has_own, set, remove}

module _ {N : Type 0} where
  pub get-set-same : (k : Str) (v : Value N) (fs : Fields N) → get k (set k v fs) ≡ some v
  unfolding get set
  get-set-same k v end = rw (str_eq_refl k)
  get-set-same k v (field j w fs) = elim (Bool-cases (str_eq j k)) [
    | inl e ↦ rw (e, get, e)
    | inr e ↦ rw (e, get, e, get-set-same k v fs)
  ]

  pub get-set-other :
      (j k : Str) (v : Value N) (fs : Fields N) → str_eq k j ≡ false → get j (set k v fs) ≡ get j fs
  unfolding get set
  get-set-other j k v end h = rw h
  get-set-other j k v (field i w fs) h = elim (Bool-cases (str_eq i k)) [
    | inl e ↦
        let ij : str_eq i j ≡ false =
          subst (λ x. str_eq x j ≡ false) (sym ((str_eq_iff i k).0 e)) h in
        rw (e, get, ij)
    | inr e ↦ rw (e, get, get-set-other j k v fs h)
  ]

  pub has_own-set-other :
      (j k : Str) (v : Value N) (fs : Fields N)
      → str_eq k j ≡ false
      → has_own j (set k v fs) ≡ has_own j fs
  unfolding has_own set
  has_own-set-other j k v end h = rw h
  has_own-set-other j k v (field i w fs) h = elim (Bool-cases (str_eq i k)) [
    | inl e ↦ rw (e, has_own)
    | inr e ↦ rw (e, has_own, has_own-set-other j k v fs h)
  ]

  -- Setting a property and taking it away again leaves the others, each key standing once.
  pub remove-set : (k : Str) (v : Value N) (fs : Fields N) → remove k (set k v fs) ≡ remove k fs
  unfolding remove set
  remove-set k v end = rw (str_eq_refl k)
  remove-set k v (field j w fs) = elim (Bool-cases (str_eq j k)) [
    | inl e ↦ rw (e, remove, e)
    | inr e ↦ rw (e, remove, e, remove-set k v fs)
  ]
