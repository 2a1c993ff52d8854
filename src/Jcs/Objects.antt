-- ===== src/Jcs/Objects.antt =====
-- Objects whose keys the source writes out: that they are JSON data rests on their values alone.
use veritrail.Prelude.{ℕ, ltb, ◌<◌, ◌≡◌, Bool, true, false, not, ◌&&◌, [], ◌∷◌, arith, every}
use veritrail.Platform.{Platform}
use veritrail.Text.{Str}
use veritrail.Value.{Fields, end, field, has_own}
use veritrail.Jcs.Quoted.{IsStr}
use veritrail.Jcs.Canonical.{IsJson, HaveJson}

infixr 4 ◌▸◌
-- A pair, for long products.
abbrev pub ◌▸◌ : {A B : Type 0} → A → B → A × B
a ▸ b = (a, b)

is_unit : ℕ → Bool
is_unit c = ltb c 0x10000

-- The keys hold code units, and each stands once.
unfoldable pub keys_ok : {N : Type 0} → Fields N → Bool
unfolding is_unit
keys_ok end = true
keys_ok (field k v fs) = every is_unit k && not (has_own k fs) && keys_ok fs

every-IsStr : (s : Str) → every is_unit s ≡ true → IsStr s
unfolding is_unit
every-IsStr [] h = tt
every-IsStr (c ∷ s) h =
    let (hc, hs) : (c < 0x10000) × (every is_unit s ≡ true) = ground arith in (hc, every-IsStr s hs)

module _ (p : Platform) where
  open p use {Num}

  abbrev pub AreValues : Fields Num → Type 0
  AreValues end = Unit
  AreValues (field k v fs) = IsJson p v × AreValues fs

  pub keys_ok-HaveJson : (fs : Fields Num) → keys_ok fs ≡ true → AreValues fs → HaveJson p fs
  unfolding keys_ok
  keys_ok-HaveJson end h vs = tt
  keys_ok-HaveJson (field k v fs) h (hv, vs) =
      let (hk, own, later) : (every is_unit k ≡ true)
          × (has_own k fs ≡ false)
          × (keys_ok fs ≡ true) =
        ground arith in
      (every-IsStr k hk, (own, (hv, keys_ok-HaveJson fs later vs)))
