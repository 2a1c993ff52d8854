-- ===== src/Value.antt =====
-- JavaScript values, as far as the commands meet them: what `JSON.parse` returns, and `undefined`.
pub mod Json
pub mod Updates
pub mod Strings
pub mod Keys
use veritrail.Prelude.{
  ℕ, Bool, true, false, not, List, [], ◌∷◌, ltb, if◌then◌else◌, Option, none, some,
}
use veritrail.Text.{Str, str_eq}

-- `obj` has the own properties, each key once, in the order of their creation. The order in which the
-- engine lists them, array indices first, is that of Value/Keys.antt.
mutual
  pub data Value (N : Type 0) : Type 0 where
    undefined : Value N
    null : Value N
    bool : Bool → Value N
    num : N → Value N
    str : Str → Value N
    arr : Items N → Value N
    obj : Fields N → Value N

  pub data Items (N : Type 0) : Type 0 where
    nil : Items N
    cons : Value N → Items N → Items N

  pub data Fields (N : Type 0) : Type 0 where
    end : Fields N
    field : Str → Value N → Fields N → Fields N

module _ {N : Type 0} where
  -- An own property.
  unfoldable pub get : Str → Fields N → Option (Value N)
  get k end = none
  get k (field j v fs) = if str_eq j k then some v else get k fs

  -- `Object.prototype.hasOwnProperty.call(o, k)`
  unfoldable pub has_own : Str → Fields N → Bool
  has_own k end = false
  has_own k (field j v fs) = if str_eq j k then true else has_own k fs

  -- `o[k]` at a key that no object inherits: `undefined` where there is no such property.
  abbrev pub or_undefined : Option (Value N) → Value N
  or_undefined none = undefined
  or_undefined (some v) = v

  abbrev pub prop : Str → Fields N → Value N
  prop k fs = or_undefined (get k fs)

  -- `{ ...o, [k]: v }`: an old property keeps its place.
  unfoldable pub set : Str → Value N → Fields N → Fields N
  set k v end = field k v end
  set k v (field j w fs) = if str_eq j k then field j v fs else field j w (set k v fs)

  -- `const { [k]: _, ...rest } = o`
  unfoldable pub remove : Str → Fields N → Fields N
  remove k end = end
  remove k (field j v fs) = if str_eq j k then fs else field j v (remove k fs)

  -- `v !== null && v !== undefined`
  unfoldable pub is_present : Value N → Bool
  is_present undefined = false
  is_present null = false
  is_present _ = true

  -- `v === s` for a string `s`.
  unfoldable pub is_str : Str → Value N → Bool
  is_str s (str t) = str_eq t s
  is_str s _ = false

  -- `typeof v === 'string'`
  unfoldable pub as_str : Value N → Option Str
  as_str (str t) = some t
  as_str _ = none

  -- `v !== null && typeof v === 'object' && !Array.isArray(v)`
  unfoldable pub as_object : Value N → Option (Fields N)
  as_object (obj fs) = some fs
  as_object _ = none

  -- `Array.isArray(v)`
  unfoldable pub as_array : Value N → Option (Items N)
  as_array (arr xs) = some xs
  as_array _ = none

  -- The elements of an array, as a list.
  unfoldable pub elements : Items N → List (Value N)
  elements nil = []
  elements (cons v xs) = v ∷ elements xs

  unfoldable pub of_elements : List (Value N) → Items N
  of_elements [] = nil
  of_elements (v ∷ vs) = cons v (of_elements vs)

-- `v === w`, where no object of `v` is an object of `w`.
unfoldable pub strict_eq : {N : Type 0} → (N → N → Bool) → Value N → Value N → Bool
unfolding is_str
strict_eq number_eq undefined undefined = true
strict_eq number_eq null null = true
strict_eq number_eq (bool b) (bool c) = if b then c else not c
strict_eq number_eq (num m) (num n) = number_eq m n
strict_eq number_eq (str s) w = is_str s w
strict_eq number_eq _ _ = false
