-- ===== src/Base/Sorting.antt =====
-- Insertion sort by a key, largest first, and what a sorted list is.
use Prim.Native.Nat.{ℕ, zero, suc, ◌≤◌}
use mathlib.Core.Path.{◌≡◌, refl}
use mathlib.Core.Logic.{inl, inr, ◌↔◌}
use mathlib.Core.List.{List, [], ◌∷◌, Memᴰ}
use native.Mathlib.Omega.{arith}
use ting_boundless.Base.Tests.{if◌then◌else◌, Bool-cases, leb}
use ting_boundless.Base.Lists.{length, All, take}

module _ {ℓ} {A : Type ℓ} (key : A → ℕ) where
  unfoldable pub insert_by : A → List A → List A
  insert_by p [] = p ∷ []
  insert_by p (q ∷ qs) =
      let rest = insert_by p qs in if leb (key q) (key p) then p ∷ q ∷ qs else q ∷ rest

  unfoldable pub sort_by : List A → List A
  sort_by [] = []
  sort_by (p ∷ ps) = insert_by p (sort_by ps)

  -- The keys do not grow along the list.
  abbrev pub IsSorted : List A → Type 0
  IsSorted [] = Unit
  IsSorted (p ∷ ps) = All (λ q. key q ≤ key p) ps × IsSorted ps

  length-insert : (p : A) (ps : List A) → length (insert_by p ps) ≡ suc (length ps)
  unfolding insert_by
  length-insert p [] = refl
  length-insert p (q ∷ qs) = elim (Bool-cases (leb (key q) (key p))) [
    | inl e ↦ rw e refl
    | inr e ↦ rw e (omega (arith, length-insert p qs))
  ]

  pub length-sort_by : (ps : List A) → length (sort_by ps) ≡ length ps
  unfolding sort_by
  length-sort_by [] = refl
  length-sort_by (p ∷ ps) = omega (arith, length-insert p (sort_by ps), length-sort_by ps)

  All-insert :
      (n : ℕ) (p : A) (ps : List A)
      → key p ≤ n
      → All (λ q. key q ≤ n) ps
      → All (λ q. key q ≤ n) (insert_by p ps)
  unfolding insert_by
  All-insert n p [] h k = (h, tt)
  All-insert n p (q ∷ qs) h (k, ks) = elim (Bool-cases (leb (key q) (key p))) [
    | inl e ↦ rw e (h, (k, ks))
    | inr e ↦ rw e (k, All-insert n p qs h ks)
  ]

  All-le_trans : (m n : ℕ) (ps : List A) → m ≤ n → All (λ q. key q ≤ m) ps → All (λ q. key q ≤ n) ps
  All-le_trans m n [] h k = tt
  All-le_trans m n (p ∷ ps) h (k, ks) = (omega arith, All-le_trans m n ps h ks)

  insert-IsSorted : (p : A) (ps : List A) → IsSorted ps → IsSorted (insert_by p ps)
  unfolding insert_by
  insert-IsSorted p [] h = (tt, tt)
  insert-IsSorted p (q ∷ qs) (h, s) = elim (Bool-cases (leb (key q) (key p))) [
    | inl e ↦ rw e (((ground arith), All-le_trans (key q) (key p) qs (ground arith) h), (h, s))
    | inr e ↦ rw e (All-insert (key q) p qs (ground arith) h, insert-IsSorted p qs s)
  ]

  pub sort_by-IsSorted : (ps : List A) → IsSorted (sort_by ps)
  unfolding sort_by
  sort_by-IsSorted [] = tt
  sort_by-IsSorted (p ∷ ps) = insert-IsSorted p (sort_by ps) (sort_by-IsSorted ps)

  mem_swap : {x p q : A} {qs : List A} → Memᴰ x (p ∷ q ∷ qs) → Memᴰ x (q ∷ p ∷ qs)
  mem_swap (Memᴰ.head e) = Memᴰ.tail (Memᴰ.head e)
  mem_swap (Memᴰ.tail (Memᴰ.head e)) = Memᴰ.head e
  mem_swap (Memᴰ.tail (Memᴰ.tail m)) = Memᴰ.tail (Memᴰ.tail m)

  mem_cons_map :
      {x p : A} {ps qs : List A} → (Memᴰ x ps → Memᴰ x qs) → Memᴰ x (p ∷ ps) → Memᴰ x (p ∷ qs)
  mem_cons_map f (Memᴰ.head e) = Memᴰ.head e
  mem_cons_map f (Memᴰ.tail m) = Memᴰ.tail (f m)

  mem-insert : {x : A} (p : A) (ps : List A) → Memᴰ x (insert_by p ps) ↔ Memᴰ x (p ∷ ps)
  unfolding insert_by
  mem-insert p [] = (λ m. m, λ m. m)
  mem-insert p (q ∷ qs) = elim (Bool-cases (leb (key q) (key p))) [
    | inl e ↦ rw (e, insert_by) (λ m. m, λ m. m)
    | inr e ↦
        rw (e, insert_by)
          (
            λ m. mem_swap (mem_cons_map (mem-insert p qs).0 m),
            λ m. mem_cons_map (mem-insert p qs).1 (mem_swap m),
          )
  ]

  -- Sorting neither adds nor loses items.
  pub mem-sort_by : {x : A} (ps : List A) → Memᴰ x (sort_by ps) ↔ Memᴰ x ps
  unfolding sort_by
  mem-sort_by [] = (λ m. m, λ m. m)
  mem-sort_by (p ∷ ps) = (
    λ m. mem_cons_map (mem-sort_by ps).0 ((mem-insert p (sort_by ps)).0 m),
    λ m. (mem-insert p (sort_by ps)).1 (mem_cons_map (mem-sort_by ps).1 m),
  )

  All-take : (n m : ℕ) (ps : List A) → All (λ q. key q ≤ m) ps → All (λ q. key q ≤ m) (take n ps)
  All-take zero m ps h = tt
  All-take (suc n) m [] h = tt
  All-take (suc n) m (p ∷ ps) (h, hs) = (h, All-take n m ps hs)

  -- The beginning of a sorted list is sorted.
  pub take-IsSorted : (n : ℕ) (ps : List A) → IsSorted ps → IsSorted (take n ps)
  take-IsSorted zero ps h = tt
  take-IsSorted (suc n) [] h = tt
  take-IsSorted (suc n) (p ∷ ps) (h, s) = (All-take n (key p) ps h, take-IsSorted n ps s)
