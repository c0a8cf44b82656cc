-- ===== src/Base/Order.antt =====
-- Sorting by a test of which item comes first, and the first items of a sorted list.
use Prim.Native.Nat.{ℕ, zero, suc}
use mathlib.Core.Path.{◌≡◌, refl, ap, ◌∙◌}
use mathlib.Core.Logic.{◌⊎◌, inl, inr, ◌↔◌}
use mathlib.Core.Bool.{Bool, true, false}
use mathlib.Core.List.{List, [], ◌∷◌, Memᴰ}
use ting_boundless.Base.Tests.{if◌then◌else◌, Bool-cases}
use ting_boundless.Base.Lists.{length, All, take}

module _ {ℓ} {A : Type ℓ} (before : A → A → Bool) where
  unfoldable pub place : A → List A → List A
  place p [] = p ∷ []
  place p (q ∷ qs) = let rest = place p qs in if before p q then p ∷ q ∷ qs else q ∷ rest

  unfoldable pub arranged : List A → List A
  arranged [] = []
  arranged (p ∷ ps) = place p (arranged ps)

  -- Every item comes before all later ones.
  abbrev pub IsArranged : List A → Type 0
  IsArranged [] = Unit
  IsArranged (p ∷ ps) = All (λ q. before p q ≡ true) ps × IsArranged ps

  swapped : {x p q : A} {qs : List A} → Memᴰ x (p ∷ q ∷ qs) → Memᴰ x (q ∷ p ∷ qs)
  swapped (Memᴰ.head e) = Memᴰ.tail (Memᴰ.head e)
  swapped (Memᴰ.tail (Memᴰ.head e)) = Memᴰ.head e
  swapped (Memᴰ.tail (Memᴰ.tail m)) = Memᴰ.tail (Memᴰ.tail m)

  under_head :
      {x p : A} {ps qs : List A} → (Memᴰ x ps → Memᴰ x qs) → Memᴰ x (p ∷ ps) → Memᴰ x (p ∷ qs)
  under_head f (Memᴰ.head e) = Memᴰ.head e
  under_head f (Memᴰ.tail m) = Memᴰ.tail (f m)

  mem-place : {x : A} (p : A) (ps : List A) → Memᴰ x (place p ps) ↔ Memᴰ x (p ∷ ps)
  unfolding place
  mem-place p [] = (λ m. m, λ m. m)
  mem-place p (q ∷ qs) = elim (Bool-cases (before p q)) [
    | inl e ↦ rw (e, place) (λ m. m, λ m. m)
    | inr e ↦
        rw (e, place)
          (
            λ m. swapped (under_head (mem-place p qs).0 m),
            λ m. under_head (mem-place p qs).1 (swapped m),
          )
  ]

  pub mem-arranged : {x : A} (ps : List A) → Memᴰ x (arranged ps) ↔ Memᴰ x ps
  unfolding arranged
  mem-arranged [] = (λ m. m, λ m. m)
  mem-arranged (p ∷ ps) = (
    λ m. under_head (mem-arranged ps).0 ((mem-place p (arranged ps)).0 m),
    λ m. (mem-place p (arranged ps)).1 (under_head (mem-arranged ps).1 m),
  )

  module _ (total : (p q : A) → before p q ≡ false → before q p ≡ true)
      (trans : (p q r : A) → before p q ≡ true → before q r ≡ true → before p r ≡ true) where
    All-before :
        (p q : A) (ps : List A)
        → before p q ≡ true
        → All (λ r. before q r ≡ true) ps
        → All (λ r. before p r ≡ true) ps
    All-before p q [] h k = tt
    All-before p q (r ∷ rs) h (k, ks) = (trans p q r h k, All-before p q rs h ks)

    All-place :
        (q p : A) (ps : List A)
        → before q p ≡ true
        → All (λ r. before q r ≡ true) ps
        → All (λ r. before q r ≡ true) (place p ps)
    unfolding place
    All-place q p [] h k = (h, tt)
    All-place q p (r ∷ rs) h (k, ks) = elim (Bool-cases (before p r)) [
      | inl e ↦ rw e (h, (k, ks))
      | inr e ↦ rw e (k, All-place q p rs h ks)
    ]

    place-IsArranged : (p : A) (ps : List A) → IsArranged ps → IsArranged (place p ps)
    unfolding place
    place-IsArranged p [] h = (tt, tt)
    place-IsArranged p (q ∷ qs) (h, s) = elim (Bool-cases (before p q)) [
      | inl e ↦ rw e ((e, All-before p q qs e h), (h, s))
      | inr e ↦ rw e (All-place q p qs (total p q e) h, place-IsArranged p qs s)
    ]

    pub arranged-IsArranged : (ps : List A) → IsArranged (arranged ps)
    unfolding arranged
    arranged-IsArranged [] = tt
    arranged-IsArranged (p ∷ ps) = place-IsArranged p (arranged ps) (arranged-IsArranged ps)

  before_of_mem :
      {p x : A} (ps : List A) → All (λ q. before p q ≡ true) ps → Memᴰ x ps → before p x ≡ true
  before_of_mem [] h m = elim m [ ]
  before_of_mem {p} (q ∷ qs) (h, hs) (Memᴰ.head e) = ap (before p) e ∙ h
  before_of_mem (q ∷ qs) (h, hs) (Memᴰ.tail m) = before_of_mem qs hs m

  -- An item is among the first ones, or these are as many as asked for and come before it.
  pub among_first :
      {x : A} (n : ℕ) (ps : List A)
      → IsArranged ps
      → Memᴰ x ps
      → Memᴰ x (take n ps) ⊎ ((length (take n ps) ≡ n) × All (λ p. before p x ≡ true) (take n ps))
  among_first zero ps s m = inr (refl, tt)
  among_first (suc n) [] s m = elim m [ ]
  among_first (suc n) (p ∷ ps) s (Memᴰ.head e) = inl (Memᴰ.head e)
  among_first (suc n) (p ∷ ps) (h, s) (Memᴰ.tail m) = elim (among_first n ps s m) [
    | inl k ↦ inl (Memᴰ.tail k)
    | inr (l, k) ↦ inr (ap (λ j. suc j) l, (before_of_mem ps h m, k))
  ]

  All-first :
      (n : ℕ) (p : A) (ps : List A)
      → All (λ q. before p q ≡ true) ps
      → All (λ q. before p q ≡ true) (take n ps)
  All-first zero p ps h = tt
  All-first (suc n) p [] h = tt
  All-first (suc n) p (q ∷ qs) (h, hs) = (h, All-first n p qs hs)

  pub take-IsArranged : (n : ℕ) (ps : List A) → IsArranged ps → IsArranged (take n ps)
  take-IsArranged zero ps h = tt
  take-IsArranged (suc n) [] h = tt
  take-IsArranged (suc n) (p ∷ ps) (h, s) = (All-first n p ps h, take-IsArranged n ps s)
