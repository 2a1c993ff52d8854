-- ===== src/Outcome/Returns.antt =====
-- Guarded steps that go on or return early: none of them throws.
use veritrail.Prelude.{◌≡◌, ◌≢◌, refl, Bool, true, false, Option, none, some}
use veritrail.Outcome.{Outcome, pass, fail, thrown, ◌>>=◌, ◌>>◌, require, require_some}

module _ {R : Type 0} where
  pub >>=-returns :
      {A B : Type 0} (m : Outcome R A) (f : A → Outcome R B)
      → m ≢ thrown
      → ((a : A) → f a ≢ thrown)
      → (m >>= f) ≢ thrown
  unfolding ◌>>=◌
  >>=-returns (pass a) f hm hf e = hf a e
  >>=-returns (fail r) f hm hf e = cc
  >>=-returns thrown f hm hf e = hm refl

  -- The second step is only taken with what the first one passes on.
  pub >>=-returns_pass :
      {A B : Type 0} (m : Outcome R A) (f : A → Outcome R B)
      → m ≢ thrown
      → ((a : A) → m ≡ pass a → f a ≢ thrown)
      → (m >>= f) ≢ thrown
  unfolding ◌>>=◌
  >>=-returns_pass (pass a) f hm hf e = hf a refl e
  >>=-returns_pass (fail r) f hm hf e = cc
  >>=-returns_pass thrown f hm hf e = hm refl

  pub >>-returns :
      {B : Type 0} (m : Outcome R (Unit {0})) (k : Outcome R B)
      → m ≢ thrown
      → k ≢ thrown
      → (m >> k) ≢ thrown
  unfolding ◌>>◌
  >>-returns m k hm hk = >>=-returns m (λ _. k) hm (λ _. hk)

  pub require-returns : (b : Bool) (r : R) → require b r ≢ thrown
  unfolding require
  require-returns true r e = cc
  require-returns false r e = cc

  pub require_some-returns : {A : Type 0} (o : Option A) (r : R) → require_some o r ≢ thrown
  unfolding require_some
  require_some-returns none r e = cc
  require_some-returns (some a) r e = cc

  -- A check, and what follows it.
  pub check-returns :
      {B : Type 0} (b : Bool) (r : R) (k : Outcome R B) → k ≢ thrown → (require b r >> k) ≢ thrown
  check-returns b r k h = >>-returns (require b r) k (require-returns b r) h

  -- A lookup, and what is done with its result.
  pub lookup-returns :
      {A B : Type 0} (o : Option A) (r : R) (f : A → Outcome R B)
      → ((a : A) → f a ≢ thrown)
      → (require_some o r >>= f) ≢ thrown
  lookup-returns o r f h = >>=-returns (require_some o r) f (require_some-returns o r) h
