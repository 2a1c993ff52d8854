-- ===== src/Outcome.antt =====
-- Guarded steps: the early returns of `verify` and `verifyChain`, and calls that may throw.
pub mod Returns
use veritrail.Prelude.{◌≡◌, refl, Bool, true, false, Option, none, some, if◌then◌else◌, arith}

-- A step goes on with a value, returns early with a reason `R`, or throws.
pub data Outcome (R A : Type 0) : Type 0 where
  pass : A → Outcome R A
  fail : R → Outcome R A
  thrown : Outcome R A

pub pass-injective : {R A : Type 0} {a b : A} → ◌≡◌ {A = Outcome R A} (pass a) (pass b) → a ≡ b
pass-injective h = ground arith

module _ {R : Type 0} where
  infixl 5 ◌>>=◌ ◌>>◌
  unfoldable pub ◌>>=◌ : {A B : Type 0} → Outcome R A → (A → Outcome R B) → Outcome R B
  pass a >>= f = f a
  fail r >>= f = fail r
  thrown >>= f = thrown

  unfoldable pub ◌>>◌ : {B : Type 0} → Outcome R (Unit {0}) → Outcome R B → Outcome R B
  unfolding ◌>>=◌
  m >> k = m >>= λ _. k

  -- `if (!b) return fail(r)`
  unfoldable pub require : Bool → R → Outcome R (Unit {0})
  require b r = if b then pass tt else fail r

  -- `if (o === null) return fail(r)`
  unfoldable pub require_some : {A : Type 0} → Option A → R → Outcome R A
  require_some none r = fail r
  require_some (some a) r = pass a

  -- The value of a call that throws where it has none.
  unfoldable pub or_throw : {A : Type 0} → Option A → Outcome R A
  or_throw none = thrown
  or_throw (some a) = pass a

  pub >>=-eq-pass :
      {A B : Type 0} (m : Outcome R A) (f : A → Outcome R B) {b : B}
      → (m >>= f) ≡ pass b
      → (a : A) × (m ≡ pass a) × (f a ≡ pass b)
  unfolding ◌>>=◌
  >>=-eq-pass (pass a) f h = (a, refl, h)
  >>=-eq-pass (fail r) f h = cc
  >>=-eq-pass thrown f h = cc

  -- Two ways to go on that agree on what a step passes.
  pub >>=-cong_pass :
      {A B : Type 0} (m : Outcome R A) (f g : A → Outcome R B)
      → ((a : A) → m ≡ pass a → f a ≡ g a)
      → (m >>= f) ≡ (m >>= g)
  unfolding ◌>>=◌
  >>=-cong_pass (pass a) f g h = h a refl
  >>=-cong_pass (fail r) f g h = refl
  >>=-cong_pass thrown f g h = refl

  pub >>-eq-pass :
      {B : Type 0} (m : Outcome R (Unit {0})) (k : Outcome R B) {b : B}
      → (m >> k) ≡ pass b
      → (m ≡ pass tt) × (k ≡ pass b)
  unfolding ◌>>◌
  >>-eq-pass (pass a) k h = (refl, h)
  >>-eq-pass (fail r) k h = cc
  >>-eq-pass thrown k h = cc

  pub >>-pass :
      {B : Type 0} (m : Outcome R (Unit {0})) (k : Outcome R B) {b : B}
      → m ≡ pass tt
      → k ≡ pass b
      → (m >> k) ≡ pass b
  unfolding ◌>>◌ ◌>>=◌
  >>-pass m k h e = rw h e

  pub >>=-pass :
      {A B : Type 0} (m : Outcome R A) (f : A → Outcome R B) (a : A) {b : B}
      → m ≡ pass a
      → f a ≡ pass b
      → (m >>= f) ≡ pass b
  unfolding ◌>>=◌
  >>=-pass m f a h e = rw h e

  pub require_some-pass :
      {A : Type 0} (o : Option A) (r : R) {a : A} → o ≡ some a → require_some o r ≡ pass a
  unfolding require_some
  require_some-pass o r h = rw h

  pub require-pass : (b : Bool) (r : R) → b ≡ true → require b r ≡ pass tt
  unfolding require
  require-pass b r h = rw h

  pub require-eq-pass : (b : Bool) (r : R) {u : Unit {0}} → require b r ≡ pass u → b ≡ true
  unfolding require
  require-eq-pass true r h = refl
  require-eq-pass false r h = cc

  pub require_some-eq-pass :
      {A : Type 0} (o : Option A) (r : R) {a : A} → require_some o r ≡ pass a → o ≡ some a
  unfolding require_some
  require_some-eq-pass none r h = cc
  require_some-eq-pass (some b) r h = ground arith
