-- ===== src/Conformance/Texts.antt =====
-- conformance/compare.mjs: the newline that `run` drops, and the comparison of two JSON texts.
use veritrail.Prelude.{
  ◌≡◌, ◌≢◌, ◌⊎◌, ◌↔◌, refl, ap, ℕ, true, false, some-injective, ==_iff, [], ◌∷◌, ◌++◌, Option, none,
  some, inl, inr, ◌==◌, Bool-cases, arith,
}
use veritrail.Platform.{Platform}
use veritrail.Text.{Str, str_eq_iff}
use veritrail.Conformance.{drop_feed, same_text}

-- `text` is `out`, with a newline behind it unless it ends with none.
abbrev pub IsOutput : Str → Str → Type 0
IsOutput text out =
    (text ≡ out ++ b'\n' ∷ []) ⊎ ((text ≡ out) × ((s : Str) → out ≢ s ++ b'\n' ∷ []))

abbrev rest_of : Str → Str
rest_of [] = []
rest_of (c ∷ s) = s

append-ne : (s : Str) → [] ≢ s ++ b'\n' ∷ []
append-ne [] e = cc
append-ne (c ∷ s) e = cc

single-ne : (c : ℕ) → (c == b'\n') ≡ false → (s : Str) → c ∷ [] ≢ s ++ b'\n' ∷ []
single-ne c h [] e = ground arith
single-ne c h (d ∷ s) e = append-ne s (ap rest_of e)

longer-ne :
    (c d : ℕ) (s out : Str)
    → d ∷ s ≡ out
    → ((t : Str) → out ≢ t ++ b'\n' ∷ [])
    → (t : Str) → c ∷ out ≢ t ++ b'\n' ∷ []
longer-ne c d s out same h [] e = let none_left : out ≡ [] = ap rest_of e in cc
longer-ne c d s out same h (x ∷ t) e = h t (ap rest_of e)

longer-IsOutput : (c d : ℕ) (s out : Str) → IsOutput (d ∷ s) out → IsOutput (c ∷ d ∷ s) (c ∷ out)
longer-IsOutput c d s out (inl e) = inl (ap (◌∷◌ c) e)
longer-IsOutput c d s out (inr (e, h)) = inr (ap (◌∷◌ c) e, longer-ne c d s out e h)

drop_feed-IsOutput : (text : Str) → IsOutput text (drop_feed text)
unfolding drop_feed
drop_feed-IsOutput [] = inr (refl, append-ne)
drop_feed-IsOutput (c ∷ []) = elim (Bool-cases (c == b'\n')) [
  | inl e ↦ rw (drop_feed, e) (inl (ap (λ d. d ∷ []) ((==_iff c b'\n').0 e)))
  | inr e ↦ rw (drop_feed, e) (inr (refl, single-ne c e))
]
drop_feed-IsOutput (c ∷ d ∷ s) =
    longer-IsOutput c d s (drop_feed (d ∷ s)) (drop_feed-IsOutput (d ∷ s))

drop_feed-append : (out : Str) → drop_feed (out ++ b'\n' ∷ []) ≡ out
unfolding drop_feed
drop_feed-append [] = refl
drop_feed-append (c ∷ []) = refl
drop_feed-append (c ∷ d ∷ s) = ap (◌∷◌ c) (drop_feed-append (d ∷ s))

drop_feed-same : (out : Str) → ((s : Str) → out ≢ s ++ b'\n' ∷ []) → drop_feed out ≡ out
unfolding drop_feed
drop_feed-same [] h = refl
drop_feed-same (c ∷ []) h = elim (Bool-cases (c == b'\n')) [
  | inl e ↦ absurd (h [] (ap (λ d. d ∷ []) ((==_iff c b'\n').0 e)))
  | inr e ↦ rw (drop_feed, e) refl
]
drop_feed-same (c ∷ d ∷ s) h = ap (◌∷◌ c) (drop_feed-same (d ∷ s) (λ t e. h (c ∷ t) (ap (◌∷◌ c) e)))

pub drop_feed_iff : (text out : Str) → (drop_feed text ≡ out) ↔ IsOutput text out
drop_feed_iff text out = ((λ e. rw (← e) (drop_feed-IsOutput text)), back)
  where
    back : IsOutput text out → drop_feed text ≡ out
    back (inl e) = rw e (drop_feed-append out)
    back (inr (e, h)) = rw e (drop_feed-same out h)

pub same_text_iff : (p : Platform) (a b : Option Str) → (same_text p a b ≡ true) ↔ (a ≡ b)
unfolding same_text
same_text_iff p none none = (λ e. refl, λ e. refl)
same_text_iff p (some s) (some t) =
    (λ e. ap some ((str_eq_iff s t).0 e), λ e. (str_eq_iff s t).1 (some-injective e))
same_text_iff p none (some t) = (λ e. cc, λ e. cc)
same_text_iff p (some s) none = (λ e. cc, λ e. cc)
