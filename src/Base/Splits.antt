-- ===== src/Base/Splits.antt =====
-- Laws of splitting, joining and trimming texts.
use Prim.Native.Nat.{ℕ}
use mathlib.Core.Path.{◌≡◌, refl, ap, ◌∙◌}
use mathlib.Core.Logic.{◌≢◌, inl, inr}
use mathlib.Core.List.{List, [], ◌∷◌, ◌++◌}
use native.Mathlib.Omega.{arith}
use ting_boundless.Base.Tests.{◌==◌, Bool-cases}
use ting_boundless.Base.Lists.{is_nil, All}
use ting_boundless.Base.Texts.{
  trim_left, is_space, trim_space, trim_right, Text, split_by, push_head, split, join, Lacks,
}
use mathlib.Core.Bool.{false}

-- A part without the separator, then the separator, then the rest.
pub split_by-append :
    (sep : ℕ) (p s : Text)
    → Lacks sep p
    → split_by (λ c. c == sep) (p ++ sep ∷ s) ≡ p ∷ split_by (λ c. c == sep) s
unfolding split_by
split_by-append sep [] s h = ground arith
split_by-append sep (c ∷ p) s h = ground (arith, split_by-append sep p s)

split_by-Lacks : (sep : ℕ) (p : Text) → Lacks sep p → split_by (λ c. c == sep) p ≡ p ∷ []
unfolding split_by
split_by-Lacks sep [] h = refl
split_by-Lacks sep (c ∷ p) h = ground (arith, split_by-Lacks sep p)

-- Splitting what was joined gives the parts back, if there is one and none holds the separator.
pub split-join :
    (sep : ℕ) (p : Text) (ps : List Text)
    → All (Lacks sep) (p ∷ ps)
    → split (join (p ∷ ps) sep) sep ≡ p ∷ ps
unfolding split join
split-join sep p [] (h, _) = split_by-Lacks sep p h
split-join sep p (q ∷ ps) (h, hs) =
    split_by-append sep p (join (q ∷ ps) sep) h ∙ ap (λ rest. p ∷ rest) (split-join sep q ps hs)

-- No part of a split holds the separator.
push_head-Lacks :
    (sep c : ℕ) (ps : List Text) → c ≢ sep → All (Lacks sep) ps → All (Lacks sep) (push_head c ps)
push_head-Lacks sep c [] h hs = ((h, tt), tt)
push_head-Lacks sep c (p ∷ ps) h (k, ks) = ((h, k), ks)

pub split-Lacks : (s : Text) (sep : ℕ) → All (Lacks sep) (split s sep)
unfolding split split_by
split-Lacks [] sep = (tt, tt)
split-Lacks (c ∷ s) sep = elim (Bool-cases (c == sep)) [
  | inl e ↦ rw e (tt, split-Lacks s sep)
  | inr e ↦ rw e (push_head-Lacks sep c _ (λ k. ground arith) (split-Lacks s sep))
]

-- A text whose tail has no space at its end has none.
pub trim_right-append :
    (s t : Text) → is_nil t ≡ false → trim_right t ≡ t → trim_right (s ++ t) ≡ s ++ t
unfolding trim_right
trim_right-append [] t n e = e
trim_right-append (x ∷ []) t n e = rw (e, n) (ground arith)
trim_right-append (x ∷ y ∷ s) t n e = rw (trim_right-append (y ∷ s) t n e) (ground arith)

-- Nor is anything trimmed if its first character is no space either.
pub trim_space-append :
    (a : ℕ) (s t : Text)
    → is_space a ≡ false
    → is_nil t ≡ false
    → trim_right t ≡ t
    → trim_space (a ∷ (s ++ t)) ≡ a ∷ (s ++ t)
unfolding trim_space trim_left
trim_space-append a s t h n e = rw h (trim_right-append (a ∷ s) t n e)

-- A split has a part.
pub split_not_nil : (s : Text) (sep : ℕ) → is_nil (split s sep) ≡ false
unfolding split split_by
split_not_nil [] sep = refl
split_not_nil (c ∷ s) sep = elim (Bool-cases (c == sep)) [
  | inl b ↦ rw b refl
  | inr b ↦ rw b (pushed (split s sep))
]
  where
    pushed : (ps : List Text) → is_nil (push_head c ps) ≡ false
    pushed [] = refl
    pushed (p ∷ ps) = refl
